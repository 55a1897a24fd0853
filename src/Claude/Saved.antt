-- ===== src/Claude/Saved.antt =====
-- Where the output that a transcript only points at is kept.
pub mod Inside
use agent_session_query.Prelude.{
  ℕ, suc, ◌+◌, ◌-◌, Bool, true, false, not, ◌&&◌, ◌||◌, List, [], ◌∷◌, ◌++◌, Option, none, some,
  Bytes, codes, ◌==◌, if◌then◌else◌, bytes_eq, has_prefix, has_suffix, index, index_byte,
  replace_byte, take, drop, length, any, ◌≡◌, refl, ◌⊎◌, inl, inr, Bool-cases, Option-cases, arith,
}
use agent_session_query.Json.{Runtime, Fields, get, get_map, to_str}
use agent_session_query.Record.{is_empty}
use agent_session_query.Tools.{trim_prefix}

-- The parts of a saved output's path that are used.
pub record SavedParts : Type 0 where
  pub project : Bytes
  pub session : Bytes
  pub file : Bytes

-- What the reader of saved outputs takes from Go's libraries and the system.
pub record Disk : Type 0 where
  -- claudeSavedOutput.FindStringSubmatch: the three groups
  pub saved_output : Bytes → Option SavedParts
  -- filepath.Join(root, project, session, "tool-results", file)
  pub join : Bytes → SavedParts → Bytes
  -- os.Lstat finds a regular file
  pub is_regular : Bytes → Bool

abbrev pub persisted_tag : Bytes
persisted_tag = codes "<persisted-output>"

abbrev is_line_end : ℕ → Bool
is_line_end c = c == b'\r' || c == b'\n'

-- strings.TrimLeft(s, "\r\n")
unfoldable pub trim_line_ends : Bytes → Bytes
trim_line_ends [] = []
trim_line_ends (c ∷ s) = let rest = trim_line_ends s in if is_line_end c then rest else c ∷ s

-- The part before the first newline.
unfoldable pub first_line : Bytes → Bytes
first_line [] = []
first_line (c ∷ s) = let rest = first_line s in if c == b'\n' then [] else c ∷ rest

abbrev after_saved_to : Runtime → Bytes → Option ℕ → Bytes
after_saved_to rt line none = []
after_saved_to rt line (some i) = rt.trim_space (trim_prefix (drop (i + 8) line) (codes ":"))

abbrev path_on : Runtime → Bytes → Bytes
path_on rt body = after_saved_to rt (first_line body) (index (first_line body) (codes "saved to"))

-- claudeStubPath
unfoldable pub claude_stub_path : Runtime → Bytes → Bytes
claude_stub_path rt text =
    if has_prefix text persisted_tag
    then path_on rt (trim_line_ends (drop (length persisted_tag) text))
    else if not (has_prefix text (codes "Error: result ("))
    then []
    else path_on rt text

-- The path that a stub records, from the row where the stub itself does not say.
unfoldable pub recorded_path : Runtime → Fields → Bytes → Bytes
recorded_path rt row text =
    let stub = claude_stub_path rt text in
    if is_empty stub && has_prefix text persisted_tag
    then to_str rt (get (get_map row (codes "toolUseResult")) (codes "persistedOutputPath"))
    else stub

abbrev pub is_bad_part : Bytes → Bool
is_bad_part part = bytes_eq part (codes ".") || (bytes_eq part (codes "..") || is_empty part)

-- strings.TrimSuffix(s, ".")
unfoldable pub trim_suffix_dot : Bytes → Bytes
trim_suffix_dot s = if has_suffix s (codes ".") then take (length s - 1) s else s

abbrev pub kept_parts : SavedParts → SavedParts
kept_parts m = record { project = m.project; session = m.session; file = trim_suffix_dot m.file }

abbrev pub good_parts : SavedParts → Option SavedParts
good_parts p =
    if is_bad_part p.project || (is_bad_part p.session || is_bad_part p.file) then none else some p

abbrev pub parts_found : Option SavedParts → Option SavedParts
parts_found none = none
parts_found (some m) = good_parts (kept_parts m)

-- The parts of claudePersistedPath's path, before the file is looked for.
unfoldable pub persisted_parts : Runtime → Disk → Bytes → Fields → Bytes → Option SavedParts
persisted_parts rt disk root row text =
    if is_empty root || is_empty (recorded_path rt row text)
    then none
    else parts_found
        (disk.saved_output (replace_byte b'\\' (codes "/") (recorded_path rt row text)))

abbrev pub when_regular : Disk → Bytes → Option SavedParts → Bytes
when_regular disk root none = []
when_regular disk root (some p) =
    if disk.is_regular (disk.join root p) then disk.join root p else []

-- claudePersistedPath
unfoldable pub claude_persisted_path : Runtime → Disk → Bytes → Fields → Bytes → Bytes
claude_persisted_path rt disk root row text =
    when_regular disk root (persisted_parts rt disk root row text)
