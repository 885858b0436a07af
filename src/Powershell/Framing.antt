-- ===== src/Powershell/Framing.antt =====
-- internal/powershell/frame.go: the reader against the lines that the wrapper prints.
use windows_llmmanager.Base.{
  ℕ, ◌+◌, ◌<◌, ◌≡◌, ◌≢◌, refl, sym, ◌∙◌, string_eq, ◌==◌, List, [], ◌∷◌, ◌++◌, map, Bool, true,
  false, Option, some, length, ltb, arith, All, length-append,
}
use windows_llmmanager.Api.{Bytes}
use windows_llmmanager.Text.{cut_prefix, bytes_equal, bytes_equal_iff, trim_cr-append}
use windows_llmmanager.Powershell.Buffer.{concat}
use windows_llmmanager.Powershell.Frame.{
  FrameMeta, no_meta, FrameResult, framed, Reading, frame_chunk_chars, encoded_len, output_mark,
  stderr_mark, meta_mark, begin_line, end_line, add_prelude, add_chunk, finish, goes_on, marked,
  read_lines, read_frame,
}
use mathlib.Core.List.{append-nil, append_assoc}

-- A printed line, as the scanner yields it: `\r\n` ends it, and the scanner takes the `\n` off.
abbrev pub crlf : Bytes → Bytes
crlf line = line ++ 13 ∷ []

abbrev pub printed : Bytes → List Bytes → List Bytes
printed mark = map (λ chunk. crlf (mark ++ chunk))

-- What is kept of the lines before the frame.
unfoldable pub prelude_of : ℕ → List Bytes → Bytes → Bytes
prelude_of max_bytes [] kept = kept
prelude_of max_bytes (line ∷ rest) kept =
    prelude_of max_bytes rest (add_prelude max_bytes line kept)

-- The lines that the wrapper of the command `id` prints, between those of the shell.
abbrev pub stream : Bytes → List Bytes → Bytes → List Bytes → List Bytes → List Bytes → List Bytes
stream id prelude meta outs errs rest =
    map crlf prelude
    ++ crlf (begin_line id)
      ∷ (crlf (meta_mark ++ meta)
          ∷ (printed output_mark outs ++ (printed stderr_mark errs ++ crlf (end_line id) ∷ rest)))

-- What the reader keeps of the chunks of a stream.
unfoldable pub kept_of : ℕ → List Bytes → Bytes → Bytes
kept_of max_bytes [] kept = kept
kept_of max_bytes (chunk ∷ rest) kept = kept_of max_bytes rest (add_chunk max_bytes chunk kept)

-- Chunks that are within the bound in all are kept in full.
kept_of-within :
    (max_bytes : ℕ) (chunks : List Bytes) (kept : Bytes)
    → length kept + length (concat chunks) < encoded_len max_bytes + frame_chunk_chars
    → kept_of max_bytes chunks kept ≡ kept ++ concat chunks
unfolding kept_of add_chunk concat
kept_of-within max_bytes [] kept _ = sym (append-nil kept)
kept_of-within max_bytes (c ∷ chunks) kept fits = rw (keeps) (
    kept_of-within max_bytes chunks (kept ++ c)
      (ground (arith, length-append kept c, length-append c (concat chunks)))
    ∙ append_assoc kept c (concat chunks))
  where
    keeps : ltb (length kept) (encoded_len max_bytes + frame_chunk_chars) ≡ true
    keeps = ground (arith, length-append c (concat chunks))

-- The state of the reader, by its parts.
abbrev reading : Bool → FrameMeta → Bytes → Bytes → Bytes → Reading
reading in_frame meta output64 stderr64 raw_prelude = record {
  in_frame = in_frame;
  meta = meta;
  output64 = output64;
  stderr64 = stderr64;
  raw_prelude = raw_prelude;
}

module _ (decode64 : Bytes → Option Bytes) (decode_meta : Bytes → Option FrameMeta) where
  module _ (id : Bytes) (max_bytes : ℕ) (scan_failed : Bool) where
    abbrev reads : List Bytes → Reading → FrameResult
    reads = read_lines decode64 decode_meta id max_bytes scan_failed

    reads-prelude :
        (line : Bytes) (tail : List Bytes) (m : FrameMeta) (o e p : Bytes)
        → line ≢ begin_line id
        → reads (crlf line ∷ tail) (reading false m o e p)
          ≡ reads tail (reading false m o e (add_prelude max_bytes line p))
    unfolding read_lines
    reads-prelude line tail m o e p ne = rw (trim_cr-append line, not_begin) refl
      where
        not_begin : bytes_equal line (begin_line id) ≡ false
        not_begin = ground (arith, bytes_equal_iff line (begin_line id))

    reads-begin :
        (tail : List Bytes) (m : FrameMeta) (o e p : Bytes)
        → reads (crlf (begin_line id) ∷ tail) (reading false m o e p)
          ≡ reads tail (reading true m o e p)
    unfolding read_lines
    reads-begin tail m o e p = rw (trim_cr-append (begin_line id), begins) refl
      where
        begins : bytes_equal (begin_line id) (begin_line id) ≡ true
        begins = ground (arith, bytes_equal_iff (begin_line id) (begin_line id))

    reads-end_text :
        (text : Bytes) (tail : List Bytes) (m : FrameMeta) (o e p : Bytes)
        → bytes_equal text (end_line id) ≡ true
        → reads (crlf text ∷ tail) (reading true m o e p)
          ≡ finish decode64 decode_meta (reading true m o e p)
    unfolding read_lines
    reads-end_text text tail m o e p ends = rw (read_lines, trim_cr-append text, ends) refl

    reads-end :
        (tail : List Bytes) (m : FrameMeta) (o e p : Bytes)
        → reads (crlf (end_line id) ∷ tail) (reading true m o e p)
          ≡ finish decode64 decode_meta (reading true m o e p)
    reads-end tail m o e p =
        reads-end_text (end_line id) tail m o e p
          (ground (arith, bytes_equal_iff (end_line id) (end_line id)))

    reads-text :
        (text : Bytes) (tail : List Bytes) (m : FrameMeta) (o e p : Bytes) (r : Reading)
        → bytes_equal text (end_line id) ≡ false
        → marked decode64 decode_meta max_bytes text (reading true m o e p) ≡ goes_on r
        → reads (crlf text ∷ tail) (reading true m o e p) ≡ reads tail r
    unfolding read_lines
    reads-text text tail m o e p r not_end goes =
        rw (read_lines, trim_cr-append text, not_end, trim_cr-append text, goes) refl

    reads-meta :
        (meta : Bytes) (tail : List Bytes) (mt m : FrameMeta) (o e p : Bytes)
        → decode_meta meta ≡ some mt
        → reads (crlf (meta_mark ++ meta) ∷ tail) (reading true m o e p)
          ≡ reads tail (reading true mt o e p)
    unfolding marked cut_prefix end_line bytes_equal
    reads-meta meta tail mt m o e p d =
        reads-text (meta_mark ++ meta) tail m o e p (reading true mt o e p) refl (rw d refl)

    reads-output :
        (chunk : Bytes) (tail : List Bytes) (m : FrameMeta) (o e p : Bytes)
        → reads (crlf (output_mark ++ chunk) ∷ tail) (reading true m o e p)
          ≡ reads tail (reading true m (add_chunk max_bytes chunk o) e p)
    unfolding marked cut_prefix end_line bytes_equal
    reads-output chunk tail m o e p =
        reads-text (output_mark ++ chunk) tail m o e p
          (reading true m (add_chunk max_bytes chunk o) e p) refl refl

    reads-stderr :
        (chunk : Bytes) (tail : List Bytes) (m : FrameMeta) (o e p : Bytes)
        → reads (crlf (stderr_mark ++ chunk) ∷ tail) (reading true m o e p)
          ≡ reads tail (reading true m o (add_chunk max_bytes chunk e) p)
    unfolding marked cut_prefix end_line bytes_equal
    reads-stderr chunk tail m o e p =
        reads-text (stderr_mark ++ chunk) tail m o e p
          (reading true m o (add_chunk max_bytes chunk e) p) refl refl

    reads-preludes :
        (prelude tail : List Bytes) (m : FrameMeta) (o e p : Bytes)
        → All (λ line. line ≢ begin_line id) prelude
        → reads (map crlf prelude ++ tail) (reading false m o e p)
          ≡ reads tail (reading false m o e (prelude_of max_bytes prelude p))
    unfolding prelude_of
    reads-preludes [] tail m o e p _ = refl
    reads-preludes (line ∷ prelude) tail m o e p (ne, all) =
        reads-prelude line (map crlf prelude ++ tail) m o e p ne
        ∙ reads-preludes prelude tail m o e (add_prelude max_bytes line p) all

    reads-outputs :
        (outs tail : List Bytes) (m : FrameMeta) (o e p : Bytes)
        → reads (printed output_mark outs ++ tail) (reading true m o e p)
          ≡ reads tail (reading true m (kept_of max_bytes outs o) e p)
    unfolding kept_of
    reads-outputs [] tail m o e p = refl
    reads-outputs (c ∷ outs) tail m o e p =
        reads-output c (printed output_mark outs ++ tail) m o e p
        ∙ reads-outputs outs tail m (add_chunk max_bytes c o) e p

    reads-stderrs :
        (errs tail : List Bytes) (m : FrameMeta) (o e p : Bytes)
        → reads (printed stderr_mark errs ++ tail) (reading true m o e p)
          ≡ reads tail (reading true m o (kept_of max_bytes errs e) p)
    unfolding kept_of
    reads-stderrs [] tail m o e p = refl
    reads-stderrs (c ∷ errs) tail m o e p =
        reads-stderr c (printed stderr_mark errs ++ tail) m o e p
        ∙ reads-stderrs errs tail m o (add_chunk max_bytes c e) p

  finish-decoded :
      (mt : FrameMeta) (o e p out err : Bytes)
      → mt.format == "" ≡ false
      → decode64 o ≡ some out
      → decode64 e ≡ some err
      → finish decode64 decode_meta (reading true mt o e p)
        ≡ framed (record { meta = mt; output = out; stderr = err; raw_prelude = p })
  unfolding finish
  finish-decoded mt o e p out err named d_o d_e = rw (named, d_o, d_e) refl

  -- The reader gives back what the wrapper of a command prints: metadata, the decoded output and the
  -- decoded error text, and the lines of the shell before the frame. The lines before the frame are
  -- none of them the line that begins it, the metadata decode and name a format, the chunks of each
  -- stream are within the bound, and decode from base64; what comes after the frame is not read.
  pub read_frame-stream :
      (id : Bytes) (max_bytes : ℕ) (scan_failed : Bool) (prelude : List Bytes) (meta : Bytes)
      (outs errs rest : List Bytes) (mt : FrameMeta) (out err : Bytes)
      → All (λ line. line ≢ begin_line id) prelude
      → decode_meta meta ≡ some mt
      → mt.format == "" ≡ false
      → length (concat outs) < encoded_len max_bytes + frame_chunk_chars
      → length (concat errs) < encoded_len max_bytes + frame_chunk_chars
      → decode64 (concat outs) ≡ some out
      → decode64 (concat errs) ≡ some err
      → read_frame decode64 decode_meta id max_bytes
          (stream id prelude meta outs errs rest)
          scan_failed
        ≡ framed (record {
          meta = mt;
          output = out;
          stderr = err;
          raw_prelude = prelude_of max_bytes prelude [];
        })
  unfolding read_frame
  read_frame-stream id max_bytes scan_failed prelude meta outs errs rest mt out err np dm nf fo fe
        d_o d_e =
      reads-preludes id max_bytes scan_failed prelude _ no_meta [] [] [] np
      ∙ reads-begin id max_bytes scan_failed
          (crlf (meta_mark ++ meta)
            ∷ (printed output_mark outs ++ (printed stderr_mark errs ++ crlf (end_line id) ∷ rest)))
          no_meta [] [] p
      ∙ reads-meta id max_bytes scan_failed meta _ mt no_meta [] [] p dm
      ∙ reads-outputs id max_bytes scan_failed outs _ mt [] [] p
      ∙ reads-stderrs id max_bytes scan_failed errs (crlf (end_line id) ∷ rest) mt
          (kept_of max_bytes outs []) [] p
      ∙ reads-end id max_bytes scan_failed rest mt (kept_of max_bytes outs [])
          (kept_of max_bytes errs []) p
      ∙ finish-decoded mt _ _ p out err nf (rw (kept_of-within max_bytes outs [] (omega arith)) d_o)
          (rw (kept_of-within max_bytes errs [] (omega arith)) d_e)
    where
      p : Bytes
      p = prelude_of max_bytes prelude []
