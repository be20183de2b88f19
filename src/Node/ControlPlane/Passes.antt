-- ===== src/Node/ControlPlane/Passes.antt =====
-- What one pass of `run_config_loop` of node-core/src/control_plane.rs does, for every answer.
use cll.Base.{
  ◌∷◌, false, ◌++◌, arith, if◌then◌else◌, none, ltb, Bool, refl, ◌<◌, ◌^◌, some, ◌%◌, true, ◌+◌,
  ◌≡◌, ℕ, Option,
}
use cll.Text.{bytes, Text}
use cll.Node.ControlPlane.Answers.{
  unwritten, and_then, counted, loop_counted, config_answered, config_received, config_applied,
  config_decoded, config_loop, config_written, Client, RemoteConfig,
}
use cll.Node.ControlPlane.{rejection, unreachable, answered, is_success, HttpAnswer}
use cll.Node.Runtime.{config_revision, apply_remote_network_config}
use cll.Node.Stats.{success, failure, record_config_success, record_config_failure}
use cll.Net.Display.{decimal}

module _ (decode : Text → Option RemoteConfig) (persist : RemoteConfig → Option Text)
    (now : ℕ) where
  -- An answer that brings a configuration.
  pub record Brings (answer : HttpAnswer) (remote : RemoteConfig) : Type 0 where
    pub status : ℕ
    pub text : Text
    pub is : answer ≡ answered status (some text)
    pub good : is_success status ≡ true
    pub reads : decode text ≡ some remote

  -- The failures that are counted, and a configuration that stays as it was.
  pub record Failed (times : ℕ) (before after : Client) : Type 0 where
    pub same_runtime : after.runtime ≡ before.runtime
    pub same_successes : after.stats.config.succeeded ≡ before.stats.config.succeeded
    pub failures : after.stats.config.failed ≡ (before.stats.config.failed + times) % 2 ^ 64

  pub data Pass (answer : HttpAnswer) (before after : Client) : Type 0 where
    passed :
        (remote : RemoteConfig)
        → Brings answer remote
        → (config_revision before.runtime < remote.0 → persist remote ≡ none)
        → after.runtime ≡ (apply_remote_network_config remote.0 remote.1 before.runtime).0
        → after.stats.config.succeeded ≡ (before.stats.config.succeeded + 1) % 2 ^ 64
        → after.stats.config.failed ≡ before.stats.config.failed
        → Pass answer before after
    no_config :
        ((remote : RemoteConfig) → ¬ Brings answer remote)
        → Failed 1 before after
        → Pass answer before after
    unwritten_config :
        (remote : RemoteConfig) (error : Text)
        → Brings answer remote
        → config_revision before.runtime < remote.0
        → persist remote ≡ some error
        → Failed 2 before after
        → Pass answer before after

  Failed-once :
      (status : Option ℕ) (error : Text) (client : Client)
      → Failed 1 client (counted (record_config_failure now status error) client)
  unfolding record_config_failure failure
  Failed-once status error client = record {
    same_runtime = refl;
    same_successes = refl;
    failures = refl;
  }

  Failed-twice :
      (status : Option ℕ) (error again : Text) (client : Client)
      → Failed 2 client (
          counted
            (record_config_failure now none again)
            (counted (record_config_failure now status error) client))
  unfolding record_config_failure failure
  Failed-twice status error again client = record {
    same_runtime = refl;
    same_successes = refl;
    failures = omega arith;
  }

  applied-Pass :
      (answer : HttpAnswer) (status : ℕ) (remote : RemoteConfig) (client : Client)
      → Brings answer remote
      → (config_revision client.runtime < remote.0 → persist remote ≡ none)
      → Pass answer client (config_applied now status remote client)
  unfolding config_applied record_config_success success
  applied-Pass answer status remote client b w = passed remote b w refl refl refl

  written-Pass :
      (answer : HttpAnswer) (status : ℕ) (remote : RemoteConfig) (client : Client)
      → Brings answer remote
      → (newer : Bool) → ltb (config_revision client.runtime) remote.0 ≡ newer
      → (written : Option Text) → persist remote ≡ written
      → Pass answer client (
          loop_counted now
            (config_written now status remote client (if newer then written else none)))
  unfolding config_written
  written-Pass answer status remote client b false n written w =
      applied-Pass answer status remote client b (λ newer. absurd (ground arith))
  written-Pass answer status remote client b true n none w =
      applied-Pass answer status remote client b (λ newer. w)
  written-Pass answer status remote client b true n (some error) w =
      unwritten_config remote error b (ground arith) w
        (Failed-twice (some status) (unwritten error) (unwritten error) client)

  decoded-Pass :
      (status : ℕ) (text : Text) (client : Client) (read : Option RemoteConfig)
      → is_success status ≡ true
      → decode text ≡ read
      → Pass
          (answered status (some text))
          client
          (loop_counted now (config_decoded persist now status read client))
  unfolding config_decoded config_received
  decoded-Pass status text client none good r =
      no_config (λ remote b. absurd (cc (b.is, b.reads))) (Failed-once none _ client)
  decoded-Pass status text client (some remote) good r =
      written-Pass (answered status (some text)) status remote client
        (record { status = status; text = text; is = refl; good = good; reads = r }) _ refl _ refl

  answered-Pass :
      (status : ℕ) (text : Option Text) (client : Client) (good : Bool)
      → is_success status ≡ good
      → Pass (answered status text) client (
          loop_counted now (
            if good then config_decoded persist now status (and_then text decode) client else (
              client,
              some (
                  bytes "config sync rejected: http "
                  ++ (decimal status ++ (b' ' ∷ rejection text))),
            )))
  unfolding config_decoded
  answered-Pass status text client false g =
      no_config (λ remote b. absurd (cc (b.is, b.good))) (Failed-once none _ client)
  answered-Pass status none client true g =
      no_config (λ remote b. absurd (cc b.is)) (Failed-once none _ client)
  answered-Pass status (some text) client true g =
      decoded-Pass status text client (decode text) g refl

  -- Each pass of the loop does one of three things. If the answer brings a configuration that is not
  -- newer or is written to the file, it is applied and one success is counted. If the answer brings none,
  -- the configuration stays as it was and one failure is counted. If it brings a newer one that cannot
  -- be written, the configuration stays as it was too, and two failures are counted.
  pub config_loop-Pass :
      (answer : HttpAnswer) (client : Client)
      → Pass answer client (config_loop decode persist now answer client)
  unfolding config_loop config_answered
  config_loop-Pass (unreachable error) client =
      no_config (λ remote b. absurd (cc b.is)) (Failed-once none _ client)
  config_loop-Pass (answered status text) client = answered-Pass status text client _ refl
