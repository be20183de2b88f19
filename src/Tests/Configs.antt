-- ===== src/Tests/Configs.antt =====
-- A node that is sent two configurations, one of them twice.
use cll.Base.{ℕ, ◌≡◌, ◌⊎◌, refl, false, some, none, [], ◌∷◌, if◌then◌else◌, ◌==◌}
use cll.Text.{bytes}
use cll.Node.Runtime.{NetworkConfig, normal, Runtime, new_runtime, apply_remote_network_config}
use cll.Node.Runtime.Apply.{
  Applied, apply-Applied, SameEndpoint, SameSettings, run, latest, run_converges,
}

abbrev bound : NetworkConfig
bound = record {
  server_ip = bytes "10.0.0.1";
  listen_ip = none;
  server_port = 5000;
  relay_server_ip = none;
  relay_server_port = none;
  is_support_ipv6 = false;
  disable_quic = false;
  area = bytes "a";
  bandwidth_quality = normal;
  tag = none;
  operator_ips = none;
}

-- Another port, and another area, for each revision but the first.
abbrev source : ℕ → NetworkConfig
source revision = record bound {
  server_port = if revision == 2 then 5001 else 5000;
  area = bytes "b";
}

abbrev runtime : Runtime
runtime = new_runtime (some 1) (some bound)

apply-Applied_example :
    Applied runtime bound 2
      (source 2)
      (apply_remote_network_config 2 (source 2) runtime).0
      (apply_remote_network_config 2 (source 2) runtime).1
unfolding new_runtime
apply-Applied_example = apply-Applied runtime bound 2 (source 2) refl refl

run_converges_example :
    let after = run source (2 ∷ 3 ∷ 2 ∷ []) runtime in
    (network : NetworkConfig) × (after.network ≡ some network)
    × SameEndpoint network bound
    × (after.config_revision ≡ latest runtime.config_revision (2 ∷ 3 ∷ 2 ∷ []))
    × ((after.config_revision ≡ runtime.config_revision)
        ⊎ SameSettings network (source after.config_revision))
unfolding new_runtime
run_converges_example = run_converges source bound (2 ∷ 3 ∷ 2 ∷ []) runtime refl refl
