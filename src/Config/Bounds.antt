-- ===== src/Config/Bounds.antt =====
-- internal/config/config.go: what a configuration that `Validate` accepts is good for.
use windows_llmmanager.Base.{
  ◌*◌, ◌≤◌, ◌≡◌, ◌≢◌, ◌↔◌, String, string_eq, List, [], ◌∷◌, Bool, true, false, Option, none, some,
  arith,
}
use windows_llmmanager.Base.Int.{ℤ, pos, negsuc, pos_part, ltb_ℤ, ◌≤ℤ◌}
use windows_llmmanager.Config.{
  loaded, load, duration, second, command_timeout, long_command_timeout, job_retention,
  update_check_interval, idle_timeout, Config, ConfigError, Host, default_config, tests,
  first_error, validate,
}

-- The ranges that the rest of the agent relies on.
pub record IsUsable (c : Config) : Type 0 where
  pub sessions : (pos 1 ≤ℤ c.max_sessions) × (c.max_sessions ≤ℤ pos 100)
  pub idle : pos 30 ≤ℤ c.idle_session_timeout_sec
  pub timeouts :
      (pos 1 ≤ℤ c.command_timeout_sec) × (c.command_timeout_sec ≤ℤ c.long_command_timeout_sec)
  pub jobs :
      (pos 1 ≤ℤ c.max_async_jobs)
      × (c.max_async_jobs ≤ℤ pos 100)
      × (c.max_async_jobs ≤ℤ c.max_job_results)
      × (c.max_job_results ≤ℤ pos 1000)
  pub retention : pos 60 ≤ℤ c.job_retention_sec
  pub interval : (pos 0 ≤ℤ c.update_check_interval_min) × (c.update_check_interval_min ≤ℤ pos 10080)
  pub sizes : (pos 1024 ≤ℤ c.max_output_bytes) × (pos 1024 ≤ℤ c.max_request_bytes)
  pub rates :
      (pos 1 ≤ℤ c.rate_limit_per_sec)
      × (pos 1 ≤ℤ c.rate_limit_burst)
      × (pos 1 ≤ℤ c.auth_failures_before_block)
  pub audit : pos 1048576 ≤ℤ c.audit_max_bytes

ltb_ℤ-false : (a b : ℤ) → ltb_ℤ a b ≡ false → b ≤ℤ a
ltb_ℤ-false a b e = ground arith

abbrev NoneHolds : List (Bool × ConfigError) → Type 0
NoneHolds [] = Unit
NoneHolds ((t, _) ∷ rest) = (t ≡ false) × NoneHolds rest

module _ (host : Host) where
  first_error-none : (ts : List (Bool × ConfigError)) → first_error host ts ≡ none → NoneHolds ts
  unfolding first_error
  first_error-none [] e = tt
  first_error-none ((t, x) ∷ rest) e = ground (arith, first_error-none rest)

  -- A configuration that is accepted keeps every limit within its range.
  pub validate-IsUsable : (c : Config) → validate host c ≡ none → IsUsable c
  unfolding validate
  validate-IsUsable c e = record {
    sessions = (ground (arith, f.1.1.1.0), ground (arith, f.1.1.1.0));
    idle = ground (arith, f.1.1.1.1.0);
    timeouts = (ground (arith, f.1.1.1.1.0), ground (arith, f.1.1.1.1.0));
    jobs = (
      ground (arith, f.1.1.1.1.1.0),
      ground (arith, f.1.1.1.1.1.0),
      ground (arith, f.1.1.1.1.1.0),
      ground (arith, f.1.1.1.1.1.0),
    );
    retention = ground (arith, f.1.1.1.1.1.0);
    interval = (ground (arith, f.1.1.1.1.1.1.0), ground (arith, f.1.1.1.1.1.1.0));
    sizes = (ground (arith, f.1.1.1.1.1.1.1.1.0), ground (arith, f.1.1.1.1.1.1.1.1.0));
    rates = (
      ground (arith, f.1.1.1.1.1.1.1.1.1.0),
      ground (arith, f.1.1.1.1.1.1.1.1.1.0),
      ground (arith, f.1.1.1.1.1.1.1.1.1.0),
    );
    audit = ground (arith, f.1.1.1.1.1.1.1.1.1.1.0);
  }
    where
      f : NoneHolds (tests host c)
      f = first_error-none (tests host c) e

  -- The defaults are accepted, and so usable, wherever the agent is installed.
  pub validate-default_config :
      (base_dir : String)
      → host.splits_host_port "0.0.0.0:8443" ≡ true
      → ((names : List String) → host.join (base_dir ∷ names) ≢ "")
      → validate host (default_config host base_dir) ≡ none
  unfolding validate first_error default_config
  validate-default_config base_dir splits joins = ground (
    arith,
    splits,
    joins ("token.txt" ∷ []),
    joins ("tls-cert.pem" ∷ []),
    joins ("tls-key.pem" ∷ []),
    joins ("logs" ∷ "audit.jsonl" ∷ []),
    joins ("KILLED" ∷ []),
    joins ("updater.exe" ∷ []),
    joins ("updater-config.json" ∷ []),
  )

  -- Whatever `Load` returns without an error is usable.
  pub load-IsUsable :
      {Text : Type 0} (trim_bom : Text → Text) (decode : Config → Text → Option (Config × Bool))
      (base_dir : String) (file : Option Text) (c : Config)
      → load host trim_bom decode base_dir file ≡ loaded c
      → IsUsable c
  unfolding load
  load-IsUsable trim_bom decode base_dir none c e = absurd (cc)
  load-IsUsable trim_bom decode base_dir (some text) c e = validate-IsUsable c (ground arith)

seconds_exact :
    (z : ℤ)
    → pos 1 ≤ℤ z
    → (duration second z ≡ pos (pos_part z * second)) ↔ (pos_part z ≤ 9223372036)
unfolding duration
seconds_exact (pos n) p = ground arith
seconds_exact (negsuc n) p = absurd (omega arith)

small :
    (z : ℤ)
    → pos 0 ≤ℤ z
    → z ≤ℤ pos 10080
    → duration (60 * second) z ≡ pos (pos_part z * (60 * second))
unfolding duration
small (pos n) p q = ground arith
small (negsuc n) p q = absurd (omega arith)

-- Of a usable configuration, each of the four timeouts in seconds is exactly what its own field says if
-- and only if that is at most 9223372036 seconds, and the interval of the update check, in minutes,
-- always is.
pub durations_exact_iff :
    (c : Config)
    → IsUsable c
    → ((command_timeout c ≡ pos (pos_part c.command_timeout_sec * second))
        ↔ (pos_part c.command_timeout_sec ≤ 9223372036))
      × ((long_command_timeout c ≡ pos (pos_part c.long_command_timeout_sec * second))
          ↔ (pos_part c.long_command_timeout_sec ≤ 9223372036))
      × ((job_retention c ≡ pos (pos_part c.job_retention_sec * second))
          ↔ (pos_part c.job_retention_sec ≤ 9223372036))
      × ((idle_timeout c ≡ pos (pos_part c.idle_session_timeout_sec * second))
          ↔ (pos_part c.idle_session_timeout_sec ≤ 9223372036))
      × (update_check_interval c ≡ pos (pos_part c.update_check_interval_min * (60 * second)))
unfolding command_timeout long_command_timeout job_retention idle_timeout update_check_interval
durations_exact_iff c u = (
  seconds_exact c.command_timeout_sec u.timeouts.0,
  seconds_exact c.long_command_timeout_sec (omega (arith, u.timeouts.0, u.timeouts.1)),
  seconds_exact c.job_retention_sec (omega (arith, u.retention)),
  seconds_exact c.idle_session_timeout_sec (omega (arith, u.idle)),
  small c.update_check_interval_min u.interval.0 u.interval.1,
)
