-- ===== src/Codex/Output.antt =====
-- internal/source/source_codex.go: the output of a tool, and what its header says about how it ended.
pub mod Header
pub mod Judged
use agent_session_query.Prelude.{
  ℕ, suc, zero, ◌+◌, Bool, true, false, not, ◌&&◌, ◌||◌, List, [], ◌∷◌, ◌++◌, Option, none, some,
  Bytes, codes, ◌==◌, ltb, if◌then◌else◌, bytes_eq, has_prefix, has_suffix, contains, drop, take,
  length, ◌-◌,
}
use agent_session_query.Prelude.Int.{ℤ, pos, negsuc}
use agent_session_query.Json.{
  Runtime, Value, null, bool, str, float, int, arr, obj, Items, nil, cons, Fields, get,
}
use agent_session_query.Record.{is_empty}
use agent_session_query.Title.{last_index}
use agent_session_query.Tools.{trim_prefix}
use agent_session_query.Blocks.{ToolOutcome, status_ok, status_error, is_zero_int}
use agent_session_query.Claude.Parts.{is_str}

-- What json.Unmarshal fills in of the older form of an output
pub record Legacy : Type 0 where
  pub output : Bytes
  pub exit_code : Option ℤ
  pub duration_seconds : Option ℕ

-- What the reading of outputs takes from Go's libraries and from float64 arithmetic.
pub record CodexLib : Type 0 where
  pub runtime : Runtime
  -- strconv.Atoi
  pub atoi : Bytes → Option ℤ
  -- f >= 0
  pub is_nonneg : ℕ → Bool
  -- int64(f*1000 + 0.5)
  pub to_millis : ℕ → ℤ
  -- json.Unmarshal of the older form
  pub decode_legacy : Bytes → Option Legacy
  -- json.Unmarshal into a map, none for an error and for null
  pub decode_object : Bytes → Option Fields

abbrev pub plain_outcome : ToolOutcome
plain_outcome = record {
  status = status_ok;
  exit_code = pos 0;
  has_exit = false;
  duration_ms = pos 0;
}

abbrev pub empty_outcome : ToolOutcome
empty_outcome = record { status = []; exit_code = pos 0; has_exit = false; duration_ms = pos 0 }

abbrev pub longer : ℕ → Bytes × Option Bytes → Bytes × Option Bytes
longer c (line, after) = (c ∷ line, after)

-- strings.Cut(rest, "\n"): the line, and what is behind its newline.
unfoldable pub cut_line : Bytes → Bytes × Option Bytes
cut_line [] = ([], none)
cut_line (c ∷ s) = let rest = cut_line s in if c == b'\n' then ([], some s) else longer c rest

-- strings.TrimRight(line, "\r")
unfoldable pub trim_cr : Bytes → Bytes
trim_cr [] = []
trim_cr (c ∷ s) = let rest = trim_cr s in if c == b'\r' && is_empty rest then [] else c ∷ rest

-- strings.TrimSuffix
unfoldable pub trim_suffix : Bytes → Bytes → Bytes
trim_suffix s suffix = if has_suffix s suffix then take (length s - length suffix) s else s

abbrev pub with_exit : Option ℤ → ToolOutcome → ToolOutcome
with_exit none o = o
with_exit (some n) o = record o {
  exit_code = n;
  has_exit = true;
  status = if is_zero_int n then o.status else status_error;
}

abbrev pub behind_space : Bytes → Option ℕ → Bytes
behind_space line none = line
behind_space line (some i) = drop (i + 1) line

module _ (lib : CodexLib) where
  abbrev pub with_seconds : Option ℕ → ToolOutcome → ToolOutcome
  with_seconds none o = o
  with_seconds (some f) o =
      if lib.is_nonneg f then record o { duration_ms = lib.to_millis f } else o

  abbrev seconds_of : Bytes → Bytes
  seconds_of line =
      let rest = trim_prefix (lib.runtime.trim_space (drop 9 line)) (codes ":") in
      lib.runtime.trim_space (trim_suffix (lib.runtime.trim_space rest) (codes "seconds"))

  abbrev script_failed : Bytes → Bool
  script_failed line =
      let status = lib.runtime.to_lower (drop 7 line) in
      contains status (codes "fail") || contains status (codes "error")

  abbrev is_other_header : Bytes → Bool
  is_other_header line =
      has_prefix line (codes "Chunk ID:")
      || (has_prefix line (codes "Original token count:")
          || has_prefix line (codes "Process running with session ID"))

  abbrev is_exit_line : Bytes → Bool
  is_exit_line line =
      has_prefix line (codes "Process exited with code ") || has_prefix line (codes "Exit code: ")

  -- What a line of the header says, or none when it is no such line.
  unfoldable pub header_line : Bytes → ToolOutcome → Option ToolOutcome
  header_line line o =
      if has_prefix line (codes "Script ")
      then some (if script_failed line then record o { status = status_error } else o)
      else if has_prefix line (codes "Wall time")
      then some (with_seconds (lib.runtime.parse_float (seconds_of line)) o)
      else if is_exit_line line
      then some (
          with_exit
            (lib.atoi (lib.runtime.trim_space (behind_space line (last_index line (codes " "))))) o)
      else if is_other_header line
      then some o
      else none

  abbrev pub or_nothing : Option Bytes → Bytes
  or_nothing none = []
  or_nothing (some after) = after

  -- The loop of codexStripHeader: none when the header is not one, and the text is kept whole.
  unfoldable pub strip_lines : ℕ → Bytes → ToolOutcome → Option (Bytes × ToolOutcome)
  strip_lines zero rest o = none
  strip_lines (suc f) rest o =
      if bytes_eq (trim_cr (cut_line rest).0) (codes "Output:")
      then some (or_nothing (cut_line rest).1, o)
      else elim (header_line (trim_cr (cut_line rest).0) o) [
        | none ↦ none
        | some said ↦ elim (cut_line rest).1 [ none ↦ none | some after ↦ strip_lines f after said ]
      ]

  abbrev pub or_whole : Bytes → Option (Bytes × ToolOutcome) → Bytes × ToolOutcome
  or_whole text none = (text, plain_outcome)
  or_whole text (some cut) = cut

  -- codexStripHeader
  unfoldable pub codex_strip_header : Bytes → Bytes × ToolOutcome
  codex_strip_header text = or_whole text (strip_lines 8 text plain_outcome)

  abbrev pub legacy_seconds : Option ℕ → ToolOutcome → ToolOutcome
  legacy_seconds none o = o
  legacy_seconds (some f) o = record o { duration_ms = lib.to_millis f }

  abbrev of_legacy : Option Legacy → Option (Bytes × ToolOutcome)
  of_legacy none = none
  of_legacy (some l) =
      some (l.output, legacy_seconds l.duration_seconds (with_exit l.exit_code plain_outcome))

  -- codexLegacyOutput
  unfoldable pub codex_legacy_output : Bytes → Option (Bytes × ToolOutcome)
  codex_legacy_output text =
      if has_prefix (lib.runtime.trim_space text) (codes "{\"output\"")
      then of_legacy (lib.decode_legacy text)
      else none

  -- One item's outcome, merged into that of the items before it.
  unfoldable pub merge_outcome : ToolOutcome → ToolOutcome → ToolOutcome
  merge_outcome o found = record {
    exit_code = if not o.has_exit && found.has_exit then found.exit_code else o.exit_code;
    has_exit = o.has_exit || found.has_exit;
    duration_ms = if is_zero_int o.duration_ms then found.duration_ms else o.duration_ms;
    status = if bytes_eq found.status status_error then status_error else o.status;
  }

  abbrev is_image : Fields → Bool
  is_image m =
      is_str (get m (codes "type")) (codes "input_image")
      || is_str (get m (codes "type")) (codes "image")

  abbrev pub text_of_item : Value → Option Bytes
  text_of_item (obj m) =
      if is_image m then none else elim (get m (codes "text")) [ str s ↦ some s | _ ↦ none ]
  text_of_item _ = none

  abbrev read_item : Option Bytes → Bytes × ToolOutcome → Bytes × ToolOutcome
  read_item none s = s
  read_item (some text) (bodies, o) =
      let (body, found) = codex_strip_header text in (bodies ++ body, merge_outcome o found)

  -- The items of a list of texts; the bodies are joined without a separator.
  unfoldable pub read_items : Items → Bytes × ToolOutcome → Bytes × ToolOutcome
  read_items nil s = s
  read_items (cons v vs) s = read_items vs (read_item (text_of_item v) s)

  abbrev or_ok : Bytes × ToolOutcome → Bytes × ToolOutcome
  or_ok (text, o) = (text, if is_empty o.status then record o { status = status_ok } else o)

  abbrev pub read_or_strip : Bytes → Option (Bytes × ToolOutcome) → Bytes × ToolOutcome
  read_or_strip s none = codex_strip_header s
  read_or_strip s (some read) = read

  -- codexOutput
  unfoldable pub codex_output : Value → Bytes × ToolOutcome
  codex_output (str s) = read_or_strip s (codex_legacy_output s)
  codex_output (arr vs) = or_ok (read_items vs ([], empty_outcome))
  codex_output _ = ([], plain_outcome)

  -- codexPatchRejected
  unfoldable pub codex_patch_rejected : Bytes → Bool
  codex_patch_rejected output =
      let t = lib.runtime.trim_space output in
      has_prefix t (codes "apply_patch verification failed")
      || has_prefix t (codes "patch rejected")
