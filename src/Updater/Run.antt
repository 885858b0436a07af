-- ===== src/Updater/Run.antt =====
-- cmd/updater/main.go: the command of the updater. What the command line and the system say is a
-- parameter; the log is only written, and the time limit on the whole is left out.
use windows_llmmanager.Base.{
  ◌≡◌, ◌≢◌, ◌⊎◌, inl, inr, refl, ap, ◌&&◌, String, string_eq, [], ◌∷◌, Bool, true, not, Option,
  none, some, if◌then◌else◌, Bool-cases, arith,
}
use windows_llmmanager.Base.Outcome.{ok, err, Outcome-cases}
use windows_llmmanager.Api.{Bytes}
use windows_llmmanager.Config.{Host}
use windows_llmmanager.Updater.Host.{Environment, World}
use windows_llmmanager.Updater.Verify.{Crypto}
use windows_llmmanager.Updater.Update.{UpdaterConfig, UpdateError}
use windows_llmmanager.Updater.Check.{check_and_update}
use windows_llmmanager.Updater.Config.{Config, ConfigError, load, IsComplete, load_iff}

pub data RunError : Type 0 where
  no_executable no_action no_log_directory no_log no_public_key : RunError
  bad_config : ConfigError → RunError
  update_fails : UpdateError → RunError

-- What the command finds: whether its own path is known, its flags, the file of its configuration,
-- whether the log's directory can be made and the log be opened, and the key that is built in, if it
-- is base64.
pub record Invocation (Text : Type 0) : Type 0 where
  pub knows_path : Bool
  pub base_dir : String
  pub show_version : Bool
  pub check_only : Bool
  pub file : Option Text
  pub makes_directory : Bool
  pub opens_log : Bool
  pub embedded_key : Option Bytes

-- `New`
unfoldable pub target : Config → Bytes → UpdaterConfig
target c key = record {
  agent_path = c.agent_path;
  agent_asset_name = c.agent_asset_name;
  public_key = key;
}

abbrev pub failure : Option UpdateError → Option RunError
failure none = none
failure (some e) = some (update_fails e)

module _ (host : Host) {Text : Type 0} (trim_bom : Text → Text)
    (decode : Config → Text → Option (Config × Bool)) (service_name : String)
    (env : Config → Environment) (crypto : Crypto) where
  -- From the open log on.
  unfoldable pub update : Config → Option Bytes → World → World × Option RunError
  unfolding target check_and_update
  update c none w = (w, some no_public_key)
  update c (some []) w = (w, some no_public_key)
  update c (some (b ∷ key)) w =
      let checked = check_and_update (env c) crypto (target c (b ∷ key)) w in
      (checked.world, failure checked.error)

  -- `run`
  unfoldable pub run : Invocation Text → World → World × Option RunError
  unfolding load update
  run i w =
      if not i.knows_path
      then (w, some no_executable)
      else if i.show_version
      then (w, none)
      else if not i.check_only
      then (w, some no_action)
      else elim (load host trim_bom decode service_name i.base_dir i.file) [
        | err e ↦ (w, some (bad_config e))
        | ok c ↦
            if not i.makes_directory
            then (w, some no_log_directory)
            else if not i.opens_log
            then (w, some no_log)
            else update c i.embedded_key w
      ]

  run_cases :
      (i : Invocation Text) (w : World)
      → ((run i w).0 ≡ w)
        ⊎ ((c : Config) × (i.check_only ≡ true)
            × (load host trim_bom decode service_name i.base_dir i.file ≡ ok c)
            × (run i w ≡ update c i.embedded_key w))
  unfolding run
  run_cases i w = elim (Outcome-cases (load host trim_bom decode service_name i.base_dir i.file)) [
    | inr (e, l) ↦ inl (ground arith)
    | inl (c, l) ↦
        elim (Bool-cases (
          i.knows_path && not i.show_version && i.check_only && i.makes_directory && i.opens_log)) [
            | inr f ↦ inl (ground arith)
            | inl t ↦ inr (c, ground arith, l, ground arith)
          ]
  ]

  update_cases :
      (c : Config) (key : Option Bytes) (w : World)
      → ((update c key w).0 ≡ w)
        ⊎ ((k : Bytes) × (key ≡ some k)
            × (k ≢ [])
            × (update c key w ≡ (
                let checked = check_and_update (env c) crypto (target c k) w in
                (checked.world, failure checked.error))))
  unfolding update
  update_cases c none w = inl refl
  update_cases c (some []) w = inl refl
  update_cases c (some (b ∷ key)) w = inr (b ∷ key, refl, λ e. cc, refl)

  -- What the command does to the machine with a configuration and a key.
  abbrev pub Ran : Invocation Text → World → Config → Bytes → Type 0
  Ran i w c key =
      (i.check_only ≡ true)
      × (load host trim_bom decode service_name i.base_dir i.file ≡ ok c)
      × (i.embedded_key ≡ some key)
      × (key ≢ [])
      × ((run i w).0 ≡ (check_and_update (env c) crypto (target c key) w).world)
      × ((run i w).1 ≡ failure (check_and_update (env c) crypto (target c key) w).error)

  -- The command leaves the machine as it is, or is asked to check, and then it is `CheckAndUpdate`
  -- with a complete configuration and a key that is not empty.
  pub run_lem :
      (i : Invocation Text) (w : World)
      → ((run i w).0 ≡ w) ⊎ ((c : Config) × (key : Bytes) × IsComplete c × Ran i w c key)
  run_lem i w = elim (run_cases i w) [
    | inl same ↦ inl same
    | inr (c, asked, l, u) ↦ elim (update_cases c i.embedded_key w) [
      | inl same ↦ inl (rw u same)
      | inr (key, k, filled, e) ↦
          let (text, _, _, complete) =
            (load_iff host trim_bom decode service_name i.base_dir i.file c).0 l in
          inr (
            c,
            key,
            complete,
            (asked, l, k, filled, rw u (ap (λ r. r.0) e), rw u (ap (λ r. r.1) e)),
          )
    ]
  ]
