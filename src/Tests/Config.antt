-- ===== src/Tests/Config.antt =====
-- internal/config/config.go at concrete inputs.
use windows_llmmanager.Base.{
  ℕ, ◌*◌, ◌≤◌, ◌≡◌, ◌↔◌, refl, string_eq, ◌==◌, Bool, false, Option, some,
}
use windows_llmmanager.Base.Int
use windows_llmmanager.Config.{
  Host, Config, loaded, load, default_config, validate, first_error, second, command_timeout,
  long_command_timeout, job_retention, idle_timeout, update_check_interval,
}
use windows_llmmanager.Config.Bounds.{IsUsable, load-IsUsable, durations_exact_iff}

abbrev host : Host
host = record {
  splits_host_port = λ address. address == "0.0.0.0:8443";
  parses_ip = λ address. address == "127.0.0.1";
  join = λ names. "C:/agent/file";
}

abbrev defaults : Config
defaults = default_config host "C:/agent"

-- The decoder of a text that names nothing.
abbrev decode : Config → ℕ → Option (Config × Bool)
decode c text = some (c, false)

defaults-loaded : load host (λ text. text) decode "C:/agent" (some 0) ≡ loaded defaults
unfolding load validate first_error default_config string_eq
defaults-loaded = refl

load-IsUsable_example : IsUsable defaults
load-IsUsable_example =
    load-IsUsable host (λ text. text) decode "C:/agent" (some 0) defaults defaults-loaded

durations_exact_iff_example :
    ((command_timeout defaults ≡ Int.pos (120 * second)) ↔ (120 ≤ 9223372036))
    × ((long_command_timeout defaults ≡ Int.pos (7200 * second)) ↔ (7200 ≤ 9223372036))
    × ((job_retention defaults ≡ Int.pos (3600 * second)) ↔ (3600 ≤ 9223372036))
    × ((idle_timeout defaults ≡ Int.pos (1800 * second)) ↔ (1800 ≤ 9223372036))
    × (update_check_interval defaults ≡ Int.pos (20 * (60 * second)))
unfolding default_config
durations_exact_iff_example = durations_exact_iff defaults load-IsUsable_example
