-- ===== src/Updater/Config.antt =====
-- internal/updater/config.go: the updater's configuration. Reading the file, decoding JSON and joining
-- paths are parameters.
use windows_llmmanager.Base.{
  ◌≡◌, ◌≢◌, ◌↔◌, inl, inr, refl, String, string_eq, ◌==◌, [], ◌∷◌, Bool, false, ◌||◌, Option, none,
  some, if◌then◌else◌, Bool-cases, Option-cases, arith,
}
use windows_llmmanager.Base.Int.{ℤ, pos, ltb_ℤ, ◌≤ℤ◌}
use windows_llmmanager.Base.Outcome.{Outcome, ok, err}
use windows_llmmanager.Config.{Host, duration, second}

pub record Config : Type 0 where
  pub github_owner : String
  pub github_repository : String
  pub agent_path : String
  pub service_name : String
  pub kill_switch_path : String
  pub log_path : String
  pub check_timeout_sec : ℤ
  pub service_timeout_sec : ℤ
  pub agent_asset_name : String

pub data ConfigError : Type 0 where
  read_config decode_config trailing_data : ConfigError
  missing_repository missing_setting bad_timeouts : ConfigError

-- The tests of `Load`, in its order.
unfoldable pub checked : Config → Outcome ConfigError Config
checked c =
    if c.github_owner == "" || c.github_repository == ""
    then err missing_repository
    else if c.agent_path == ""
        || c.service_name == ""
        || c.kill_switch_path == ""
        || c.log_path == ""
    then err missing_setting
    else if ltb_ℤ c.check_timeout_sec (pos 10) || ltb_ℤ c.service_timeout_sec (pos 5)
    then err bad_timeouts
    else ok c

module _ (host : Host) where
  open host use {join}

  -- `Default`. The name of the service is a constant of internal/config.
  unfoldable pub default_config : String → String → Config
  default_config service_name base_dir = record {
    github_owner = "";
    github_repository = "";
    agent_path = join (base_dir ∷ "agent.exe" ∷ []);
    service_name = service_name;
    kill_switch_path = join (base_dir ∷ "KILLED" ∷ []);
    log_path = join (base_dir ∷ "logs" ∷ "updater.log" ∷ []);
    check_timeout_sec = pos 60;
    service_timeout_sec = pos 30;
    agent_asset_name = "agent.exe";
  }

  -- `Load`, given what `os.ReadFile` returns. The decoder takes the defaults, which it overwrites by
  -- what the JSON text names, and says whether anything but the one value follows.
  module _ {Text : Type 0} (trim_bom : Text → Text)
      (decode : Config → Text → Option (Config × Bool)) where
    unfoldable pub load : String → String → Option Text → Outcome ConfigError Config
    unfolding default_config checked
    load service_name base_dir none = err read_config
    load service_name base_dir (some text) =
        elim (decode (default_config service_name base_dir) (trim_bom text)) [
          | none ↦ err decode_config
          | some (c, trailing) ↦ if trailing then err trailing_data else checked c
        ]

unfoldable pub check_timeout : Config → ℤ
unfolding duration
check_timeout c = duration second c.check_timeout_sec

unfoldable pub service_timeout : Config → ℤ
unfolding duration
service_timeout c = duration second c.service_timeout_sec

-- What the updater needs: a repository, the places of the agent and its service, and time enough.
pub record IsComplete (c : Config) : Type 0 where
  pub repository : (c.github_owner ≢ "") × (c.github_repository ≢ "")
  pub places :
      (c.agent_path ≢ "") × (c.service_name ≢ "") × (c.kill_switch_path ≢ "") × (c.log_path ≢ "")
  pub timeouts : (pos 10 ≤ℤ c.check_timeout_sec) × (pos 5 ≤ℤ c.service_timeout_sec)

==-ne : (s : String) → (s == "") ≡ false → s ≢ ""
==-ne s e = ground arith

checked_tests :
    (c d : Config)
    → checked c ≡ ok d
    → (d ≡ c)
      × ((c.github_owner == "") ≡ false)
      × ((c.github_repository == "") ≡ false)
      × ((c.agent_path == "") ≡ false)
      × ((c.service_name == "") ≡ false)
      × ((c.kill_switch_path == "") ≡ false)
      × ((c.log_path == "") ≡ false)
      × (pos 10 ≤ℤ c.check_timeout_sec)
      × (pos 5 ≤ℤ c.service_timeout_sec)
unfolding checked
checked_tests c d e = ground arith

checked-IsComplete : (c d : Config) → checked c ≡ ok d → (d ≡ c) × IsComplete c
checked-IsComplete c d e =
    let (same, owner, repository, agent, service, switch, log, check, stop) = checked_tests c d e in
    (
      same,
      record {
        repository = (==-ne c.github_owner owner, ==-ne c.github_repository repository);
        places = (
          ==-ne c.agent_path agent,
          ==-ne c.service_name service,
          ==-ne c.kill_switch_path switch,
          ==-ne c.log_path log,
        );
        timeouts = (check, stop);
      },
    )

ne-== : (s : String) → s ≢ "" → (s == "") ≡ false
ne-== s n = ground arith

complete-checked : (c : Config) → IsComplete c → checked c ≡ ok c
unfolding checked
complete-checked c v =
    let (agent, service, switch, log) = v.places in
    rw
      (
        ne-== c.github_owner v.repository.0,
        ne-== c.github_repository v.repository.1,
        ne-== c.agent_path agent,
        ne-== c.service_name service,
        ne-== c.kill_switch_path switch,
        ne-== c.log_path log,
        checked,
      )
      (ground (arith, v.timeouts))

-- `Load` returns a configuration without an error exactly if the file can be read, its JSON text
-- decodes to that configuration with nothing behind it, and the configuration is complete.
pub load_iff :
    (host : Host) {Text : Type 0} (trim_bom : Text → Text)
    (decode : Config → Text → Option (Config × Bool)) (service_name base_dir : String)
    (file : Option Text) (c : Config)
    → (load host trim_bom decode service_name base_dir file ≡ ok c) ↔ (
        (text : Text) × (file ≡ some text)
        × (decode (default_config host service_name base_dir) (trim_bom text) ≡ some (c, false))
        × IsComplete c)
unfolding load
load_iff host trim_bom decode service_name base_dir none c =
    (λ e. absurd (cc), λ (text, e, _, _). absurd (cc))
load_iff host trim_bom decode service_name base_dir (some text) c = (
  λ e. elim (Option-cases found) [
    | inl n ↦ absurd (ground arith)
    | inr ((d, trailing), q) ↦ elim (Bool-cases trailing) [
      | inl t ↦ absurd (ground arith)
      | inr t ↦
          let (same, v) = checked-IsComplete d c (ground arith) in
          (text, refl, ground arith, rw same v)
    ]
  ],
  λ (t, e, d, v). ground (arith, complete-checked c v),
)
  where
    found : Option (Config × Bool)
    found = decode (default_config host service_name base_dir) (trim_bom text)
