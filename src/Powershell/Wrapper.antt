-- ===== src/Powershell/Wrapper.antt =====
-- internal/powershell/wrapper.go: `buildWrapper`, the PowerShell text around a command, and
-- `decodeMeta`. `fmt.Sprintf` is modelled for the verbs %s and %d, and base64 is Go's StdEncoding.
use windows_llmmanager.Base.{
  ℕ, zero, suc, ◌+◌, ◌-◌, ◌*◌, ◌/◌, ◌%◌, String, string_eq, ◌==◌, List, [], ◌∷◌, ◌++◌, Option, none,
  some, eqb, ltb, if◌then◌else◌,
}
use windows_llmmanager.Base.Int.{ℤ, pos, negsuc, sub_ℕ}
use windows_llmmanager.Api.{Bytes, format_json}
use windows_llmmanager.Text.{codes}
use windows_llmmanager.Powershell.Frame.{FrameMeta, begin_line, end_line, frame_chunk_chars}

-- The digits of a number, the last one first; a number has no more digits than itself plus one.
unfoldable pub digits_after : ℕ → ℕ → Bytes → Bytes
digits_after zero n rest = rest
digits_after (suc fuel) n rest =
    let here = (b'0' + n % 10) ∷ rest in
    let more = digits_after fuel (n / 10) here in if ltb n 10 then here else more

-- `%d`
unfoldable pub decimal : ℤ → Bytes
unfolding digits_after
decimal (pos n) = digits_after (suc n) n []
decimal (negsuc n) = b'-' ∷ digits_after (suc (suc n)) (suc n) []

-- `fmt.Sprintf`, whose arguments are the texts that its verbs print. Only % starts a verb.
unfoldable pub sprintf : Bytes → List Bytes → Bytes
sprintf [] args = []
sprintf (c ∷ []) args = c ∷ []
sprintf (c ∷ d ∷ s) [] = c ∷ sprintf (d ∷ s) []
sprintf (c ∷ d ∷ s) (a ∷ args) =
    if eqb c b'%' then a ++ sprintf s args else c ∷ sprintf (d ∷ s) (a ∷ args)

-- `strings.Join`
unfoldable pub join : Bytes → List Bytes → Bytes
join sep [] = []
join sep (a ∷ []) = a
join sep (a ∷ b ∷ rest) = a ++ (sep ++ join sep (b ∷ rest))

unfoldable pub char64 : ℕ → ℕ
char64 n =
    if ltb n 26
    then b'A' + n
    else if ltb n 52
    then b'a' + (n - 26)
    else if ltb n 62
    then b'0' + (n - 52)
    else if eqb n 62
    then b'+'
    else b'/'

-- `base64.StdEncoding.EncodeToString`
unfoldable pub encode64 : Bytes → Bytes
encode64 [] = []
encode64 (a ∷ []) = char64 (a / 4) ∷ char64 (a % 4 * 16) ∷ b'=' ∷ b'=' ∷ []
encode64 (a ∷ b ∷ []) =
    char64 (a / 4) ∷ char64 (a % 4 * 16 + b / 16) ∷ char64 (b % 16 * 4) ∷ b'=' ∷ []
encode64 (a ∷ b ∷ c ∷ rest) =
    char64 (a / 4)
    ∷ char64 (a % 4 * 16 + b / 16)
    ∷ char64 (b % 16 * 4 + c / 64)
    ∷ char64 (c % 64)
    ∷ encode64 rest

-- A call of `fmt.Sprintf`: its format and what its verbs print.
abbrev pub Part : Type 0
Part = Bytes × List Bytes

unfoldable pub chunk_emitter : Bytes → Bytes → Bytes → Part
unfolding decimal
chunk_emitter id prefix variable =
    let chunk = decimal (pos frame_chunk_chars) in
    (
      codes
          "$__wlm_b64_%s_%s=[Convert]::ToBase64String($__wlm_%s_%s);for($__wlm_i_%s_%s=0;$__wlm_i_%s_%s -lt $__wlm_b64_%s_%s.Length;$__wlm_i_%s_%s+=%d){[Console]::Out.WriteLine('%s:'+$__wlm_b64_%s_%s.Substring($__wlm_i_%s_%s,[Math]::Min(%d,$__wlm_b64_%s_%s.Length-$__wlm_i_%s_%s)))}",
      prefix ∷ id ∷ variable ∷ id ∷ prefix ∷ id ∷ prefix ∷ id ∷ prefix ∷ id ∷ prefix ∷ id ∷ chunk
          ∷ prefix ∷ prefix ∷ id ∷ prefix ∷ id ∷ chunk ∷ prefix ∷ id ∷ prefix ∷ id ∷ [],
    )

unfoldable pub cleanup_variables : Bytes → Part
cleanup_variables id = (
  codes
      "Get-Variable -Name '*%s*' -ErrorAction SilentlyContinue|Remove-Variable -Force -ErrorAction SilentlyContinue",
  id ∷ [],
)

-- The part that widens the console.
unfoldable pub buffer_part : Bytes → Part
buffer_part id = (
  codes
      "try{$__wlm_buf_%s=$Host.UI.RawUI.BufferSize;if($__wlm_buf_%s.Width -lt 200){$__wlm_buf_%s.Width=200;$Host.UI.RawUI.BufferSize=$__wlm_buf_%s}}catch{}",
  id ∷ id ∷ id ∷ id ∷ [],
)

abbrev pub command_template : Bytes
command_template =
    codes "$__wlm_cmd_%s=[Text.Encoding]::UTF8.GetString([Convert]::FromBase64String('%s'))"

-- The part that holds the command.
unfoldable pub command_part : Bytes → Bytes → Part
command_part id encoded = (command_template, id ∷ encoded ∷ [])

-- The parts behind it, up to those that tell the formats apart.
unfoldable pub parts_between : Bytes → List Part
parts_between id =
    let err_name = codes "wlm-" ++ (id ++ codes ".err") in
    (codes "$__wlm_err_%s=Join-Path ([IO.Path]::GetTempPath()) '%s'", id ∷ err_name ∷ [])
    ∷ (codes "$__wlm_ok_%s=$true", id ∷ [])
    ∷ (codes "$__wlm_exit_%s=0", id ∷ [])
    ∷ (codes "$__wlm_trunc_%s=$false", id ∷ [])
    ∷ (codes "$__wlm_caught_%s=''", id ∷ [])
    ∷ (codes "$global:LASTEXITCODE=0", [])
    ∷ (
      codes
          "try{$__wlm_sb_%s=[ScriptBlock]::Create($__wlm_cmd_%s);$__wlm_out_%s=@(. $__wlm_sb_%s 2> $__wlm_err_%s 3>&1 4>&1 5>&1 6>&1);$__wlm_psok_%s=$?;$__wlm_native_%s=$LASTEXITCODE}catch{$__wlm_ok_%s=$false;$__wlm_exit_%s=1;$__wlm_out_%s=@();$__wlm_caught_%s=($_|Out-String)}",
      id ∷ id ∷ id ∷ id ∷ id ∷ id ∷ id ∷ id ∷ id ∷ id ∷ id ∷ [],
    )
    ∷ (
      codes
          "if(-not $__wlm_psok_%s){$__wlm_ok_%s=$false;if($__wlm_exit_%s -eq 0){$__wlm_exit_%s=1}}",
      id ∷ id ∷ id ∷ id ∷ [],
    )
    ∷ (
      codes
          "if($__wlm_native_%s -is [int] -and $__wlm_native_%s -ne 0){$__wlm_ok_%s=$false;$__wlm_exit_%s=[int]$__wlm_native_%s}",
      id ∷ id ∷ id ∷ id ∷ id ∷ [],
    )
    ∷ (
      codes
          "$__wlm_stderr_%s=if(Test-Path -LiteralPath $__wlm_err_%s){[IO.File]::ReadAllText($__wlm_err_%s)}else{''}",
      id ∷ id ∷ id ∷ [],
    )
    ∷ (codes "if($__wlm_caught_%s){$__wlm_stderr_%s+=$__wlm_caught_%s}", id ∷ id ∷ id ∷ [])
    ∷ (
      codes
          "if(-not [string]::IsNullOrWhiteSpace($__wlm_stderr_%s)){$__wlm_ok_%s=$false;if($__wlm_exit_%s -eq 0){$__wlm_exit_%s=1}}",
      id ∷ id ∷ id ∷ id ∷ [],
    )
    ∷ []

unfoldable pub part_for_format : String → Bytes → Part
part_for_format format id =
    if format == format_json
    then (
      codes
          "try{$__wlm_text_%s=Microsoft.PowerShell.Utility\\ConvertTo-Json -InputObject $__wlm_out_%s -Depth 20 -Compress}catch{$__wlm_ok_%s=$false;$__wlm_exit_%s=1;$__wlm_stderr_%s+=($_|Out-String);$__wlm_text_%s='null'}",
      id ∷ id ∷ id ∷ id ∷ id ∷ id ∷ [],
    )
    else (
      codes "$__wlm_text_%s=(($__wlm_out_%s|ForEach-Object{$_|Out-String -Stream}) -join \"`n\")",
      id ∷ id ∷ [],
    )

unfoldable pub parts_after : String → Bytes → ℕ → List Part
unfolding decimal begin_line end_line chunk_emitter cleanup_variables
parts_after format id max_bytes =
    let limit = decimal (pos max_bytes) in
    let last = decimal (sub_ℕ max_bytes 1) in
    (codes "$__wlm_ob_%s=[Text.Encoding]::UTF8.GetBytes([string]$__wlm_text_%s)", id ∷ id ∷ [])
    ∷ (codes "$__wlm_eb_%s=[Text.Encoding]::UTF8.GetBytes([string]$__wlm_stderr_%s)", id ∷ id ∷ [])
    ∷ (
      codes
          "if($__wlm_ob_%s.Length -gt %d){$__wlm_ob_%s=[byte[]]$__wlm_ob_%s[0..%d];$__wlm_trunc_%s=$true}",
      id ∷ limit ∷ id ∷ id ∷ last ∷ id ∷ [],
    )
    ∷ (
      codes
          "if($__wlm_eb_%s.Length -gt %d){$__wlm_eb_%s=[byte[]]$__wlm_eb_%s[0..%d];$__wlm_trunc_%s=$true}",
      id ∷ limit ∷ id ∷ id ∷ last ∷ id ∷ [],
    )
    ∷ (
      codes
          "$__wlm_meta_%s=@{success=$__wlm_ok_%s;exit_code=$__wlm_exit_%s;format='%s';truncated=$__wlm_trunc_%s}|Microsoft.PowerShell.Utility\\ConvertTo-Json -Compress",
      id ∷ id ∷ id ∷ codes format ∷ id ∷ [],
    )
    ∷ (codes "[Console]::Out.WriteLine('%s')", begin_line id ∷ [])
    ∷ (
      codes
          "$__wlm_mb_%s=[Convert]::ToBase64String([Text.Encoding]::UTF8.GetBytes($__wlm_meta_%s));[Console]::Out.WriteLine('M:'+$__wlm_mb_%s)",
      id ∷ id ∷ id ∷ [],
    )
    ∷ chunk_emitter id (codes "O") (codes "ob")
    ∷ chunk_emitter id (codes "E") (codes "eb")
    ∷ (codes "[Console]::Out.WriteLine('%s')", end_line id ∷ [])
    ∷ (
      codes
          "if(Test-Path -LiteralPath $__wlm_err_%s){Remove-Item -LiteralPath $__wlm_err_%s -Force -ErrorAction SilentlyContinue}",
      id ∷ id ∷ [],
    )
    ∷ cleanup_variables id
    ∷ []

unfoldable pub print_parts : List Part → List Bytes
print_parts [] = []
print_parts ((template, args) ∷ parts) = sprintf template args ∷ print_parts parts

unfoldable pub build_wrapper : Bytes → String → Bytes → ℕ → Bytes
build_wrapper command format id max_bytes = join (codes ";") (
    print_parts (
      buffer_part id
      ∷ command_part id (encode64 command)
      ∷ (parts_between id ++ (part_for_format format id ∷ parts_after format id max_bytes))))

-- `decodeMeta`, from what decodes base64 and what reads the JSON text.
unfoldable pub decode_meta :
    (Bytes → Option Bytes) → (Bytes → Option FrameMeta) → Bytes → Option FrameMeta
decode_meta decode64 unmarshal encoded = elim (decode64 encoded) [
  | none ↦ none
  | some b ↦ unmarshal b
]
