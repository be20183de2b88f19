-- ===== src/Tests/Policies.antt =====
-- A rule with a CIDR block, and targets inside and outside of it.
use cll.Base.{◌≡◌, refl, true, inl, inr, arith}
use cll.Base.Outcome.{ok, err}
use cll.Text.{bytes, text_eq, trim, split_once, to_ascii_lowercase, eq_ignore_ascii_case}
use cll.Net.{v4, parse_ip, parse_u8}
use cll.Node.Code.{Code}
use cll.Node.RoutePolicy.{
  ip_in_cidr, target_matches_host, match_route_policy_target, target_protocol,
}
use cll.Node.RoutePolicy.Cidr.{ip_in_cidr_iff}
use cll.Node.RoutePolicy.Host.{target_matches_host_iff, in_cidr}
use cll.Node.RoutePolicy.Match.{
  match_route_policy_target-ok_iff, match_route_policy_target-err_iff, Permits, here,
}
use cll.Tests.Toy.{rule, policy, target, stray}

ip_in_cidr_iff_example : ip_in_cidr (bytes "10.1.2.3") (bytes "10.0.0.0/8") ≡ true
unfolding parse_ip split_once parse_u8
ip_in_cidr_iff_example =
    (ip_in_cidr_iff (bytes "10.1.2.3") (bytes "10.0.0.0/8") (bytes "10.0.0.0") (bytes "8") 8
        (v4 0x0a010203) (v4 0x0a000000) refl refl refl refl (omega arith) (omega arith)).1
      (omega arith, refl)

in_block : ip_in_cidr (bytes "198.51.100.20") (bytes "198.51.100.0/24") ≡ true
unfolding parse_ip split_once parse_u8
in_block =
    (ip_in_cidr_iff (bytes "198.51.100.20") (bytes "198.51.100.0/24") (bytes "198.51.100.0")
        (bytes "24") 24 (v4 0xc6336414) (v4 0xc6336400) refl refl refl refl (omega arith)
        (omega arith)).1
      (omega arith, refl)

target_matches_host_iff_example : target_matches_host rule target ≡ true
unfolding trim to_ascii_lowercase
target_matches_host_iff_example =
    (target_matches_host_iff rule target).1 (refl, in_cidr (inl refl) (rw in_block refl))

match_route_policy_target-ok_iff_example :
    match_route_policy_target policy target
    ≡ ok (record { target_id = bytes "game"; policy_id = bytes "p1" })
unfolding trim to_ascii_lowercase target_protocol text_eq eq_ignore_ascii_case
match_route_policy_target-ok_iff_example =
    (match_route_policy_target-ok_iff policy target
        (record { target_id = bytes "game"; policy_id = bytes "p1" })).1
      (
        refl,
        here
            (record {
              id_fits = inl refl;
              port_fits = inl (refl, omega arith, omega arith);
              nonempty = refl;
              host_fits = in_cidr (inl refl) (rw in_block refl);
            })
            refl refl,
      )

no_range : Permits rule (bytes "udp") stray → ⊥
no_range p = elim p.port_fits [ inl h ↦ omega (arith, h.1) | inr h ↦ h ]

match_route_policy_target-err_iff_example :
    match_route_policy_target policy stray ≡ err Code.target_not_allowed
unfolding to_ascii_lowercase target_protocol text_eq
match_route_policy_target-err_iff_example =
    (match_route_policy_target-err_iff policy stray Code.target_not_allowed).1
      (inr (refl, refl, (no_range, tt)))
