-- ===== src/Config.antt =====
-- internal/config/config.go: the agent's configuration, its defaults and its validation. Reading the
-- file, decoding JSON, joining paths and splitting a host from its port are parameters.
pub mod Bounds
use windows_llmmanager.Base.{
  ℕ, zero, suc, ◌+◌, ◌-◌, ◌*◌, ◌≤◌, ◌<◌, ◌≡◌, ◌≢◌, ◌↔◌, ◌⊎◌, inl, inr, refl, sym, ap, ◌∙◌, subst,
  String, string_eq, Eq, ◌==◌, List, [], ◌∷◌, ◌++◌, map, Bool, true, false, not, ◌&&◌, ◌||◌, Option,
  none, some, get_elem?, set, length, take, drop, eqb, leb, ltb, if◌then◌else◌, Bool-cases,
  Option-cases, arith, All, get_elem?-set_self, get_elem?-set_ne, get_elem?-append_old,
  get_elem?-append_new, get_elem?-lt, length-append, length-set, ite, ◌/◌, ◌%◌, ◌^◌,
}
use windows_llmmanager.Base.Int.{ℤ, pos, negsuc, pos_part, neg_part, ltb_ℤ, ◌≤ℤ◌}

pub record Config : Type 0 where
  pub listen_address : String
  pub token_path : String
  pub tls_cert_path : String
  pub tls_key_path : String
  pub trusted_proxy_ip : String
  pub max_sessions : ℤ
  pub idle_session_timeout_sec : ℤ
  pub command_timeout_sec : ℤ
  pub long_command_timeout_sec : ℤ
  pub max_async_jobs : ℤ
  pub max_job_results : ℤ
  pub job_retention_sec : ℤ
  pub update_check_interval_min : ℤ
  pub updater_path : String
  pub updater_config_path : String
  pub max_output_bytes : ℤ
  pub max_request_bytes : ℤ
  pub rate_limit_per_sec : ℤ
  pub rate_limit_burst : ℤ
  pub auth_failures_before_block : ℤ
  pub audit_log_path : String
  pub audit_max_bytes : ℤ
  pub kill_switch_path : String

pub data ConfigError : Type 0 where
  read_config decode_config trailing_data : ConfigError
  bad_listen_address bad_proxy_ip missing_path bad_max_sessions bad_timeouts : ConfigError
  bad_job_limits bad_update_interval missing_updater bad_sizes bad_rates bad_audit_size :
      ConfigError

-- What the program takes from Go's library: `net.SplitHostPort` and `net.ParseIP` (whether they
-- accept a text), and `filepath.Join`.
pub record Host : Type 0 where
  pub splits_host_port : String → Bool
  pub parses_ip : String → Bool
  pub join : List String → String

pub data LoadResult : Type 0 where
  loaded : Config → LoadResult
  refused : ConfigError → LoadResult

module _ (host : Host) where
  open host use {splits_host_port, parses_ip, join}

  unfoldable pub default_config : String → Config
  default_config base_dir = record {
    listen_address = "0.0.0.0:8443";
    token_path = join (base_dir ∷ "token.txt" ∷ []);
    tls_cert_path = join (base_dir ∷ "tls-cert.pem" ∷ []);
    tls_key_path = join (base_dir ∷ "tls-key.pem" ∷ []);
    trusted_proxy_ip = "";
    max_sessions = pos 5;
    idle_session_timeout_sec = pos 1800;
    command_timeout_sec = pos 120;
    long_command_timeout_sec = pos 7200;
    max_async_jobs = pos 4;
    max_job_results = pos 20;
    job_retention_sec = pos 3600;
    update_check_interval_min = pos 20;
    updater_path = join (base_dir ∷ "updater.exe" ∷ []);
    updater_config_path = join (base_dir ∷ "updater-config.json" ∷ []);
    max_output_bytes = pos (4 * 1024 * 1024);
    max_request_bytes = pos (1024 * 1024);
    rate_limit_per_sec = pos 10;
    rate_limit_burst = pos 20;
    auth_failures_before_block = pos 5;
    audit_log_path = join (base_dir ∷ "logs" ∷ "audit.jsonl" ∷ []);
    audit_max_bytes = pos (50 * 1024 * 1024);
    kill_switch_path = join (base_dir ∷ "KILLED" ∷ []);
  }

  -- The tests of `Validate`, in its order.
  abbrev pub tests : Config → List (Bool × ConfigError)
  tests c =
      (not (splits_host_port c.listen_address), bad_listen_address)
      ∷ (not (c.trusted_proxy_ip == "") && not (parses_ip c.trusted_proxy_ip), bad_proxy_ip)
      ∷ (
        c.token_path == ""
            || c.tls_cert_path == ""
            || c.tls_key_path == ""
            || c.audit_log_path == ""
            || c.kill_switch_path == "",
        missing_path,
      )
      ∷ (ltb_ℤ c.max_sessions (pos 1) || ltb_ℤ (pos 100) c.max_sessions, bad_max_sessions)
      ∷ (
        ltb_ℤ c.idle_session_timeout_sec (pos 30)
            || ltb_ℤ c.command_timeout_sec (pos 1)
            || ltb_ℤ c.long_command_timeout_sec c.command_timeout_sec,
        bad_timeouts,
      )
      ∷ (
        ltb_ℤ c.max_async_jobs (pos 1)
            || ltb_ℤ (pos 100) c.max_async_jobs
            || ltb_ℤ c.max_job_results c.max_async_jobs
            || ltb_ℤ (pos 1000) c.max_job_results
            || ltb_ℤ c.job_retention_sec (pos 60),
        bad_job_limits,
      )
      ∷ (
        ltb_ℤ c.update_check_interval_min (pos 0)
            || ltb_ℤ (pos (7 * 24 * 60)) c.update_check_interval_min,
        bad_update_interval,
      )
      ∷ (
        ltb_ℤ (pos 0) c.update_check_interval_min
            && (c.updater_path == "" || c.updater_config_path == ""),
        missing_updater,
      )
      ∷ (ltb_ℤ c.max_output_bytes (pos 1024) || ltb_ℤ c.max_request_bytes (pos 1024), bad_sizes)
      ∷ (
        ltb_ℤ c.rate_limit_per_sec (pos 1)
            || ltb_ℤ c.rate_limit_burst (pos 1)
            || ltb_ℤ c.auth_failures_before_block (pos 1),
        bad_rates,
      )
      ∷ (ltb_ℤ c.audit_max_bytes (pos (1024 * 1024)), bad_audit_size)
      ∷ []

  -- The first test that holds is the error.
  unfoldable pub first_error : List (Bool × ConfigError) → Option ConfigError
  first_error [] = none
  first_error ((failed, e) ∷ rest) = if failed then some e else first_error rest

  unfoldable pub validate : Config → Option ConfigError
  unfolding first_error
  validate c = first_error (tests c)

  abbrev pub checked : Config → LoadResult
  checked c = elim (validate c) [ none ↦ loaded c | some e ↦ refused e ]

  -- `Load`, given what `os.ReadFile` returns. The decoder takes the defaults, which it overwrites by
  -- what the JSON text names, and says whether anything but the one value follows.
  module _ {Text : Type 0} (trim_bom : Text → Text)
      (decode : Config → Text → Option (Config × Bool)) where
    unfoldable pub load : String → Option Text → LoadResult
    load base_dir none = refused read_config
    load base_dir (some text) = elim (decode (default_config base_dir) (trim_bom text)) [
      | none ↦ refused decode_config
      | some (c, trailing) ↦ if trailing then refused trailing_data else checked c
    ]

-- A 64-bit number by its residue modulo 2 ^ 64.
abbrev pub signed64 : ℕ → ℤ
signed64 r = if ltb r (2 ^ 63) then pos r else negsuc (2 ^ 64 - 1 - r)

-- `time.Duration(n) * unit`: an int64, which wraps around.
unfoldable pub duration : ℕ → ℤ → ℤ
duration unit (pos n) = signed64 (n * unit % 2 ^ 64)
duration unit (negsuc n) = signed64 ((2 ^ 64 - suc n * unit % 2 ^ 64) % 2 ^ 64)

abbrev pub second : ℕ
second = 1000000000

unfoldable pub command_timeout : Config → ℤ
command_timeout c = duration second c.command_timeout_sec

unfoldable pub long_command_timeout : Config → ℤ
long_command_timeout c = duration second c.long_command_timeout_sec

unfoldable pub job_retention : Config → ℤ
job_retention c = duration second c.job_retention_sec

unfoldable pub update_check_interval : Config → ℤ
update_check_interval c = duration (60 * second) c.update_check_interval_min

unfoldable pub idle_timeout : Config → ℤ
idle_timeout c = duration second c.idle_session_timeout_sec
