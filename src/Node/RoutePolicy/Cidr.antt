-- ===== src/Node/RoutePolicy/Cidr.antt =====
-- `ip_in_cidr` of node-core/src/route_policy.rs against the leading bits of addresses.
use native.Mathlib.Nat.{pow-suc, one-le-pow, mul-div_cancel, add-suc, add-zero, mul_assoc}
use cll.Base.{
  ℕ, zero, suc, ◌+◌, ◌-◌, ◌*◌, ◌/◌, ◌%◌, ◌^◌, ◌≤◌, ◌<◌, ◌≡◌, ap, sym, ◌∙◌, some, subst, ◌↔◌, true,
  arith, bit_and, ==_iff,
}
use cll.Base.Bits.{bit_and-high_mask}
use cll.Net.{IpAddr, v4, v6, parse_ip, parse_u8}
use cll.Text.{Text, split_once}
use cll.Node.RoutePolicy.{ip_matches, ip_in_cidr, cidr_mask, same_network}

two_pow_add : (m n : ℕ) → 2 ^ (m + n) ≡ 2 ^ m * 2 ^ n
two_pow_add m zero = ground (arith, add-zero m)
two_pow_add m (suc n) = ground (
  arith,
  add-suc m n,
  pow-suc 2 (m + n),
  pow-suc 2 n,
  two_pow_add m n,
  mul_assoc (2 ^ m) (2 ^ n) 2,
)

mod_of_sum : (m q r : ℕ) → r < m → (m * q + r) % m ≡ r
mod_of_sum m q r h = grind arith

ones_split : (p k : ℕ) → (suc p * suc k - 1) * suc k ≡ suc p * suc k * k + p * suc k
ones_split p k = rw (ones p k) (omega arith)
  where
    ones : (p k : ℕ) → suc p * suc k - 1 ≡ p * suc k + k
    ones p k = omega arith

ones_mod : (p k : ℕ) → (suc p * suc k - 1) * suc k % (suc p * suc k) ≡ p * suc k
ones_mod p k = rw (ones_split p k) (mod_of_sum (suc p * suc k) k (p * suc k) (omega arith))

-- The mask that the shift leaves, with no wrap-around: `prefix` ones above the rest.
mask_ones : (p k : ℕ) → (2 ^ (p + k) - 1) * 2 ^ k % 2 ^ (p + k) ≡ (2 ^ p - 1) * 2 ^ k
mask_ones p k =
    let a : 2 ^ p ≡ suc (2 ^ p - 1) = omega (arith, one-le-pow p 2) in
    let b : 2 ^ k ≡ suc (2 ^ k - 1) = omega (arith, one-le-pow k 2) in
    rw (two_pow_add p k) (rewrite (2 ^ p) (2 ^ k) a b)
  where
    rewrite :
        (m n : ℕ) → m ≡ suc (m - 1) → n ≡ suc (n - 1) → (m * n - 1) * n % (m * n) ≡ (m - 1) * n
    rewrite zero n a b = absurd (omega arith)
    rewrite (suc m) zero a b = absurd (omega arith)
    rewrite (suc m) (suc n) a b = ground (arith, ones_mod m n)

mask-shape :
    (width prefix : ℕ)
    → prefix ≤ width
    → cidr_mask width prefix ≡ (2 ^ prefix - 1) * 2 ^ (width - prefix)
unfolding cidr_mask
mask-shape width zero h = omega arith
mask-shape width (suc p) h =
    let e : suc p + (width - suc p) ≡ width = omega arith in
    let shifted : (2 ^ width - 1) * 2 ^ (width - suc p) % 2 ^ width
        ≡ (2 ^ suc p - 1) * 2 ^ (width - suc p) =
      subst (λ w. (2 ^ w - 1) * 2 ^ (width - suc p) % 2 ^ w ≡ (2 ^ suc p - 1) * 2 ^ (width - suc p))
        e (mask_ones (suc p) (width - suc p)) in
    ground (arith, shifted)

masked :
    (width prefix x : ℕ)
    → prefix ≤ width
    → x < 2 ^ width
    → bit_and x (cidr_mask width prefix) ≡ x / 2 ^ (width - prefix) * 2 ^ (width - prefix)
masked width prefix x h l =
    let e : width - prefix + prefix ≡ width = omega arith in
    rw (mask-shape width prefix h)
      (bit_and-high_mask prefix (width - prefix) x (subst (λ w. x < 2 ^ w) (sym e) l))

cancel : (a b k : ℕ) → 1 ≤ k → a * k ≡ b * k → a ≡ b
cancel a b k h e = sym (mul-div_cancel a h) ∙ ap (λ (t : ℕ). t / k) e ∙ mul-div_cancel b h

-- Two addresses are in one network exactly when they agree above the last `width - prefix` bits.
pub same_network_iff :
    (width prefix ip base : ℕ)
    → prefix ≤ width
    → ip < 2 ^ width
    → base < 2 ^ width
    → (same_network width prefix ip base ≡ true)
      ↔ (ip / 2 ^ (width - prefix) ≡ base / 2 ^ (width - prefix))
unfolding same_network
same_network_iff width prefix ip base h i b =
    let m : ℕ = cidr_mask width prefix in
    let k : ℕ = 2 ^ (width - prefix) in
    (
      λ e. cancel _ _ k (one-le-pow (width - prefix) 2 (omega arith)) (
          sym (masked width prefix ip h i)
          ∙ (==_iff (bit_and ip m) (bit_and base m)).0 e
          ∙ masked width prefix base h b),
      λ e. (==_iff (bit_and ip m) (bit_and base m)).1 (
          masked width prefix ip h i
          ∙ ap (λ (t : ℕ). t * k) e
          ∙ sym (masked width prefix base h b)),
    )

-- An address is within its family's range.
abbrev pub IsAddr : IpAddr → Type 0
IsAddr (v4 n) = n < 2 ^ 32
IsAddr (v6 n) = n < 2 ^ 128

-- Two addresses of one family agree in their first `prefix` bits.
abbrev pub SharesPrefix : ℕ → IpAddr → IpAddr → Type 0
SharesPrefix prefix (v4 a) (v4 b) = (prefix ≤ 32) × (a / 2 ^ (32 - prefix) ≡ b / 2 ^ (32 - prefix))
SharesPrefix prefix (v6 a) (v6 b) =
    (prefix ≤ 128) × (a / 2 ^ (128 - prefix) ≡ b / 2 ^ (128 - prefix))
SharesPrefix prefix (v4 a) (v6 b) = ⊥
SharesPrefix prefix (v6 a) (v4 b) = ⊥

ip_matches_iff :
    (prefix : ℕ) (a b : IpAddr)
    → IsAddr a
    → IsAddr b
    → (ip_matches prefix a b ≡ true) ↔ SharesPrefix prefix a b
unfolding ip_matches
ip_matches_iff prefix (v4 a) (v4 b) ha hb = ground (arith, same_network_iff 32 prefix a b)
ip_matches_iff prefix (v6 a) (v6 b) ha hb = ground (arith, same_network_iff 128 prefix a b)
ip_matches_iff prefix (v4 a) (v6 b) ha hb = ground arith
ip_matches_iff prefix (v6 a) (v4 b) ha hb = ground arith

-- For a host and a rule `base/prefix` that parse, the CIDR test holds exactly when both are of one
-- family, the prefix length fits that family, and the first `prefix` bits are the same.
pub ip_in_cidr_iff :
    (host cidr base_text prefix_text : Text) (prefix : ℕ) (ip base : IpAddr)
    → parse_ip host ≡ some ip
    → split_once b'/' cidr ≡ some (base_text, prefix_text)
    → parse_u8 prefix_text ≡ some prefix
    → parse_ip base_text ≡ some base
    → IsAddr ip
    → IsAddr base
    → (ip_in_cidr host cidr ≡ true) ↔ SharesPrefix prefix ip base
ip_in_cidr_iff host cidr base_text prefix_text prefix ip base hi hs hp hb ri rb =
    let e : ip_in_cidr host cidr ≡ ip_matches prefix ip base = unfold ip_in_cidr in ground arith in
    rw e (ip_matches_iff prefix ip base ri rb)
