-- ===== src/Disk.antt =====
-- The file system as the audit log, the certificate tool and the token generator use package `os`.
-- Every call has a number, and any call may fail; a write that fails leaves the bytes that the
-- record Faults says. Files are bytes under a path, and directories are not modelled.
pub mod Kept
use windows_llmmanager.Base.{
  ℕ, ◌+◌, String, string_eq, [], ◌++◌, Bool, true, false, Option, none, some, if◌then◌else◌, take,
}
use windows_llmmanager.Base.Dict.{Dict, lookup, insert, erase}
use windows_llmmanager.Api.{Bytes}

pub record Faults : Type 0 where
  pub fails : ℕ → Bool
  pub written : ℕ → ℕ

pub record Disk : Type 0 where
  pub calls : ℕ
  pub files : Dict String Bytes

-- The flags of `os.OpenFile`, beside O_CREATE and O_WRONLY.
pub data OpenMode : Type 0 where
  exclusive truncating appending : OpenMode

unfoldable pub tick : Disk → Disk
tick d = record d { calls = d.calls + 1 }

-- What `os.OpenFile` makes of a path, where the call itself does not fail.
unfoldable pub opened : OpenMode → Option Bytes → Option Bytes
opened m none = some []
opened exclusive (some content) = none
opened truncating (some content) = some []
opened appending (some content) = some content

module _ (faults : Faults) where
  -- A call that changes no file, such as `os.MkdirAll` or `Close`: whether it succeeds.
  unfoldable pub attempt : Disk → Disk × Bool
  unfolding tick
  attempt d = (tick d, if faults.fails d.calls then false else true)

  -- `os.Stat` with no error.
  unfoldable pub exists : String → Disk → Disk × Bool
  unfolding tick
  exists path d = (
    tick d,
    if faults.fails d.calls
        then false
        else elim (lookup path d.files) [ none ↦ false | some _ ↦ true ],
  )

  unfoldable pub read_file : String → Disk → Disk × Option Bytes
  unfolding tick
  read_file path d = (tick d, if faults.fails d.calls then none else lookup path d.files)

  unfoldable pub open_file : OpenMode → String → Disk → Disk × Bool
  unfolding tick opened
  open_file mode path d =
      if faults.fails d.calls then (tick d, false) else elim (opened mode (lookup path d.files)) [
        | none ↦ (tick d, false)
        | some content ↦ (tick (record d { files = insert path content d.files }), true)
      ]

  -- A write at the end of an open file.
  unfoldable pub append : String → Bytes → Disk → Disk × Bool
  unfolding tick
  append path bytes d = elim (lookup path d.files) [
    | none ↦ (tick d, false)
    | some content ↦
        if faults.fails d.calls
        then (
          tick (record d {
            files = insert path (content ++ take (faults.written d.calls) bytes) d.files;
          }),
          false,
        )
        else (tick (record d { files = insert path (content ++ bytes) d.files }), true)
  ]

  -- `os.Remove`
  unfoldable pub remove : String → Disk → Disk
  unfolding tick
  remove path d =
      if faults.fails d.calls then tick d else tick (record d { files = erase path d.files })

  -- `os.Truncate(path, 0)`
  unfoldable pub truncate : String → Disk → Disk × Bool
  unfolding tick
  truncate path d = if faults.fails d.calls then (tick d, false) else elim (lookup path d.files) [
    | none ↦ (tick d, false)
    | some _ ↦ (tick (record d { files = insert path [] d.files }), true)
  ]
