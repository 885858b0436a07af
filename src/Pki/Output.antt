-- ===== src/Pki/Output.antt =====
-- cmd/pki/main.go: the files that the tool writes: `openOutput`, `writePEMExclusive`, and the end of
-- `issue`, which writes the certificate and the one that signed it into one file.
use windows_llmmanager.Base.{String, string_eq, Bool, true, not, if◌then◌else◌}
use windows_llmmanager.Base.Outcome.{ok, err}
use windows_llmmanager.Api.{Bytes}
use windows_llmmanager.Disk.{
  Faults, Disk, exclusive, truncating, attempt, exists, open_file, append,
}
use windows_llmmanager.Pki.Defs.{
  M, ◌>>=◌, ◌>>◌, attempted, no_directory, not_opened, not_written, not_closed,
}

module _ (faults : Faults) where
  unfoldable pub open_output : Bool → String → M (Unit {0})
  unfolding open_file attempted
  open_output force path =
      attempted not_opened (open_file faults (if force then truncating else exclusive) path)

  -- The error of the write wins over that of `Close`, which is called either way.
  unfoldable pub write_and_close : String → Bytes → M (Unit {0})
  unfolding append attempt
  write_and_close path bytes d =
      let (d1, wrote) = append faults path bytes d in
      let (d2, closed) = attempt faults d1 in
      (d2, if not wrote then err not_written else if closed then ok tt else err not_closed)

  unfoldable pub write_pem_exclusive :
      (String → Bytes → Bytes) → String → String → Bytes → Bool → M (Unit {0})
  unfolding open_output write_and_close attempt attempted ◌>>=◌
  write_pem_exclusive pem path block_type der force = do
    attempted no_directory (attempt faults)
    open_output force path
    write_and_close path (pem block_type der)

  -- `exists(a) || exists(b)`
  unfoldable pub either_exists : String → String → Disk → Disk × Bool
  unfolding exists
  either_exists a b d =
      let (d1, there) = exists faults a d in if there then (d1, true) else exists faults b d1

  -- The two writes of the chain, the second if the first succeeds. Their errors go into a variable of
  -- the `if`, so only that of `Close` is tested behind it.
  unfoldable pub write_both : String → Bytes → Bytes → M (Unit {0})
  unfolding append attempt
  write_both path leaf parent d =
      let (d1, wrote) = append faults path leaf d in
      let d2 = if wrote then (append faults path parent d1).0 else d1 in
      let (d3, closed) = attempt faults d2 in (d3, if closed then ok tt else err not_closed)

  unfoldable pub write_chain :
      (String → Bytes → Bytes) → String → Bytes → Bytes → Bool → M (Unit {0})
  unfolding open_output write_both attempt attempted ◌>>=◌
  write_chain pem path leaf parent force = do
    attempted no_directory (attempt faults)
    open_output force path
    write_both path (pem "CERTIFICATE" leaf) (pem "CERTIFICATE" parent)
