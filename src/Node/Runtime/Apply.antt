-- ===== src/Node/Runtime/Apply.antt =====
-- `apply_remote_network_config` of node-core/src/state.rs against a description of its effect, and over
-- a history of configurations.
use cll.Base.{
  ℕ, ◌≡◌, ◌≤◌, ◌<◌, refl, sym, ap, subst, ◌∙◌, ◌⊎◌, inl, inr, true, false, ◌||◌, Option, none, some,
  List, [], ◌∷◌, arith, Bool-cases, leb, max,
}
use cll.Text.{Text}
use cll.Text.Equality.{text_eq_iff}
use cll.Node.Runtime.{
  NetworkConfig, Runtime, ConfigApplyResult, network_listener_changed, merge_network,
  apply_remote_network_config, option_text_eq,
}

-- The endpoint that the listeners are bound to.
pub record SameEndpoint (a b : NetworkConfig) : Type 0 where
  pub server_ip : a.server_ip ≡ b.server_ip
  pub listen_ip : a.listen_ip ≡ b.listen_ip
  pub server_port : a.server_port ≡ b.server_port

-- The settings that change while the node runs.
pub record SameSettings (a b : NetworkConfig) : Type 0 where
  pub relay_server_ip : a.relay_server_ip ≡ b.relay_server_ip
  pub relay_server_port : a.relay_server_port ≡ b.relay_server_port
  pub is_support_ipv6 : a.is_support_ipv6 ≡ b.is_support_ipv6
  pub disable_quic : a.disable_quic ≡ b.disable_quic
  pub area : a.area ≡ b.area
  pub bandwidth_quality : a.bandwidth_quality ≡ b.bandwidth_quality
  pub tag : a.tag ≡ b.tag
  pub operator_ips : a.operator_ips ≡ b.operator_ips

option_text_eq_iff : (a b : Option Text) → option_text_eq a b ≡ true → a ≡ b
option_text_eq_iff none none h = refl
option_text_eq_iff none (some t) h = cc
option_text_eq_iff (some s) none h = cc
option_text_eq_iff (some s) (some t) h = ap some ((text_eq_iff s t).0 h)

unchanged-SameEndpoint :
    (a b : NetworkConfig) → network_listener_changed a b ≡ false → SameEndpoint b a
unfolding network_listener_changed
unchanged-SameEndpoint a b h = record {
  server_ip = ground (arith, text_eq_iff a.server_ip b.server_ip);
  listen_ip = sym (option_text_eq_iff a.listen_ip b.listen_ip (ground arith));
  server_port = ground arith;
}

merge-SameEndpoint : (next remote : NetworkConfig) → SameEndpoint (merge_network next remote) next
unfolding merge_network
merge-SameEndpoint next remote = elim (Bool-cases (network_listener_changed next remote)) [
  | inl c ↦ record { server_ip = rw c; listen_ip = rw c; server_port = rw c }
  | inr c ↦
      let same = unchanged-SameEndpoint next remote c in
      record {
        server_ip = rw c same.server_ip;
        listen_ip = rw c same.listen_ip;
        server_port = rw c same.server_port;
      }
]

merge-SameSettings : (next remote : NetworkConfig) → SameSettings (merge_network next remote) remote
unfolding merge_network
merge-SameSettings next remote = record {
  relay_server_ip = refl;
  relay_server_port = refl;
  is_support_ipv6 = refl;
  disable_quic = refl;
  area = refl;
  bandwidth_quality = refl;
  tag = refl;
  operator_ips = refl;
}

-- What one configuration does to a node whose listeners are bound to `bound`: a revision that is not
-- newer changes nothing; a newer one is applied, with its settings and on the bound endpoint, and
-- asks for a restart exactly when one was asked for before or its endpoint is another.
pub data Applied (runtime : Runtime) (bound : NetworkConfig) (revision : ℕ) (remote : NetworkConfig)
    (after : Runtime) (result : ConfigApplyResult) : Type 0 where
  stale :
      revision ≤ runtime.config_revision
      → after ≡ runtime
      → result.applied ≡ false
      → result.current_revision ≡ runtime.config_revision
      → Applied runtime bound revision remote after result
  fresh :
      (network : NetworkConfig)
      → runtime.config_revision < revision
      → result.applied ≡ true
      → result.previous_revision ≡ runtime.config_revision
      → result.current_revision ≡ revision
      → result.restart_required ≡ after.restart_required
      → after.config_revision ≡ revision
      → after.network ≡ some network
      → SameEndpoint network bound
      → SameSettings network remote
      → after.restart_required ≡ (runtime.restart_required || network_listener_changed bound remote)
      → Applied runtime bound revision remote after result

-- On an unpoisoned node with a network, a configuration that is not newer changes nothing. A newer one
-- is taken over but for the endpoint, and a restart is required if it asks for another endpoint or
-- one was required before.
pub apply-Applied :
    (runtime : Runtime) (bound : NetworkConfig) (revision : ℕ) (remote : NetworkConfig)
    → runtime.poisoned ≡ false
    → runtime.network ≡ some bound
    → Applied runtime bound revision remote
        (apply_remote_network_config revision remote runtime).0
        (apply_remote_network_config revision remote runtime).1
unfolding apply_remote_network_config
apply-Applied runtime bound revision remote p n =
    elim (Bool-cases (leb revision runtime.config_revision)) [
      | inl old ↦ stale (ground arith) (ground arith) (ground arith) (ground arith)
      | inr new ↦
          fresh (merge_network bound remote) (ground arith) (ground arith) (ground arith)
            (ground arith) (ground arith) (ground arith) (ground arith)
            (merge-SameEndpoint bound remote) (merge-SameSettings bound remote) (ground arith)
    ]

-- The configurations of a history, one after the other; `source` is the one that belongs to a
-- revision.
pub run : (ℕ → NetworkConfig) → List ℕ → Runtime → Runtime
run source [] runtime = runtime
run source (revision ∷ revisions) runtime =
    run source revisions (apply_remote_network_config revision (source revision) runtime).0

abbrev pub latest : ℕ → List ℕ → ℕ
latest revision [] = revision
latest revision (r ∷ rs) = latest (max revision r) rs

-- The state of a node that has got as far as `runtime.config_revision`.
pub record Settled (source : ℕ → NetworkConfig) (bound : NetworkConfig) (first : ℕ)
    (runtime : Runtime) : Type 0 where
  pub unpoisoned : runtime.poisoned ≡ false
  pub network : NetworkConfig
  pub running : runtime.network ≡ some network
  pub endpoint : SameEndpoint network bound
  pub reached : first ≤ runtime.config_revision
  pub settings :
      (runtime.config_revision ≡ first) ⊎ SameSettings network (source runtime.config_revision)

SameEndpoint-trans :
    {a b c : NetworkConfig} → SameEndpoint a b → SameEndpoint b c → SameEndpoint a c
SameEndpoint-trans p q = record {
  server_ip = p.server_ip ∙ q.server_ip;
  listen_ip = p.listen_ip ∙ q.listen_ip;
  server_port = p.server_port ∙ q.server_port;
}

apply_poisoned :
    (revision : ℕ) (remote : NetworkConfig) (runtime : Runtime)
    → (apply_remote_network_config revision remote runtime).0.poisoned ≡ runtime.poisoned
unfolding apply_remote_network_config
apply_poisoned revision remote runtime = ground arith

apply-Settled :
    (source : ℕ → NetworkConfig) (bound : NetworkConfig) (first revision : ℕ) (runtime : Runtime)
    → Settled source bound first runtime
    → let after = (apply_remote_network_config revision (source revision) runtime).0 in
      Settled source bound first after
      × (after.config_revision ≡ max runtime.config_revision revision)
apply-Settled source bound first revision runtime s =
    go _ _ (apply-Applied runtime s.network revision (source revision) s.unpoisoned s.running)
      (apply_poisoned revision (source revision) runtime ∙ s.unpoisoned)
  where
    go :
        (after : Runtime) (result : ConfigApplyResult)
        → Applied runtime s.network revision (source revision) after result
        → after.poisoned ≡ false
        → Settled source bound first after
          × (after.config_revision ≡ max runtime.config_revision revision)
    go after result (stale old same _ _) p =
        (subst (Settled source bound first) (sym same) s, rw same (omega arith))
    go after result (fresh n new _ _ _ _ r e ep st _) p = (
      record {
        unpoisoned = p;
        network = n;
        running = e;
        endpoint = SameEndpoint-trans ep s.endpoint;
        reached = omega (arith, s.reached);
        settings = inr (subst (λ k. SameSettings n (source k)) (sym r) st);
      },
      omega arith,
    )

run-Settled :
    (source : ℕ → NetworkConfig) (bound : NetworkConfig) (first : ℕ) (revisions : List ℕ)
    (runtime : Runtime)
    → Settled source bound first runtime
    → Settled source bound first (run source revisions runtime)
      × ((run source revisions runtime).config_revision ≡ latest runtime.config_revision revisions)
unfolding run
run-Settled source bound first [] runtime s = (s, refl)
run-Settled source bound first (r ∷ rs) runtime s =
    let (s', e) = apply-Settled source bound first r runtime s in
    let after = (apply_remote_network_config r (source r) runtime).0 in
    let (t, f) = run-Settled source bound first rs after s' in (t, f ∙ ap (λ k. latest k rs) e)

-- A node that starts bound to `bound`, and is sent configurations in any order and any number of
-- times, one for each revision, stays on the endpoint of `bound`; its revision is the latest of its
-- own and those it was sent; and unless none was newer, its settings are those of the configuration
-- of that latest revision.
pub run_converges :
    (source : ℕ → NetworkConfig) (bound : NetworkConfig) (revisions : List ℕ) (runtime : Runtime)
    → runtime.poisoned ≡ false
    → runtime.network ≡ some bound
    → let after = run source revisions runtime in
      (network : NetworkConfig) × (after.network ≡ some network)
      × SameEndpoint network bound
      × (after.config_revision ≡ latest runtime.config_revision revisions)
      × ((after.config_revision ≡ runtime.config_revision)
          ⊎ SameSettings network (source after.config_revision))
run_converges source bound revisions runtime p n =
    let start : Settled source bound runtime.config_revision runtime = record {
      unpoisoned = p;
      network = bound;
      running = n;
      endpoint = record { server_ip = refl; listen_ip = refl; server_port = refl };
      reached = omega arith;
      settings = inl refl;
    } in
    let (t, e) = run-Settled source bound runtime.config_revision revisions runtime start in
    (t.network, t.running, t.endpoint, e, t.settings)
