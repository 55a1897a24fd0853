-- ===== src/Sources.antt =====
-- internal/source/source.go: the --path flag, and the sources that it adds under a label.
pub mod Flag
pub mod Resolver
use agent_session_query.Prelude.{
  ℕ, Bool, true, false, not, ◌&&◌, ◌||◌, List, [], ◌∷◌, ◌++◌, map, Option, none, some, Bytes, codes,
  ◌==◌, if◌then◌else◌, bytes_eq, any, all,
}
use agent_session_query.Record.{Record, is_empty, in_range}

-- KnownModes
abbrev pub known_modes : List Bytes
known_modes =
    codes "hermes"
    ∷ codes "openclaw"
    ∷ codes "pi"
    ∷ codes "claude"
    ∷ codes "codex"
    ∷ codes "gemini"
    ∷ codes "opencode"
    ∷ codes "grok"
    ∷ codes "antigravity"
    ∷ codes "dsh"
    ∷ []

-- The sources that --path can move.
abbrev pub relocatable : List Bytes
relocatable =
    codes "pi"
    ∷ codes "claude"
    ∷ codes "codex"
    ∷ codes "gemini"
    ∷ codes "grok"
    ∷ codes "opencode"
    ∷ codes "antigravity"
    ∷ codes "dsh"
    ∷ []

abbrev pub listed_in : List Bytes → Bytes → Bool
listed_in modes mode = any (bytes_eq mode) modes

pub record SourcePath : Type 0 where
  pub mode : Bytes
  pub label : Bytes
  pub dir : Bytes

pub data Parsed : Type 0 where
  accepted : SourcePath → Parsed
  no_equals_sign : Parsed
  empty_directory : Parsed
  bad_label : Parsed
  unknown_source : Parsed
  not_relocatable : Parsed

abbrev pub in_label : ℕ → Bool
in_label c = in_range b'a' b'z' c || (in_range b'0' b'9' c || c == b'-')

unfoldable pub valid_source_label : Bytes → Bool
valid_source_label label = not (is_empty label) && all in_label label

-- The parts before and behind the first such byte.
unfoldable pub cut_at : ℕ → Bytes → Option (Bytes × Bytes)
cut_at b [] = none
cut_at b (c ∷ s) =
    let later : Option (Bytes × Bytes) = elim (cut_at b s) [
      | none ↦ none
      | some (x, y) ↦ some (c ∷ x, y)
    ] in
    if c == b then some ([], s) else later

-- The values of --mode that name no source.
unfoldable pub reserved : Bytes → Bool
reserved mode = bytes_eq mode (codes "auto") || bytes_eq mode (codes "all")

-- ValidMode
unfoldable pub valid_mode : Bytes → Bool
valid_mode mode = reserved mode || listed_in known_modes mode

unfoldable pub is_relocatable : Bytes → Bool
is_relocatable mode = listed_in relocatable mode

-- The checks of the flag's parts, in their order.
unfoldable pub check_parts : Bool → Bytes → Bytes → Bytes → Parsed
check_parts has_colon mode label dir =
    if is_empty dir
    then empty_directory
    else if has_colon && not (valid_source_label label)
    then bad_label
    else if not (valid_mode mode) || reserved mode
    then unknown_source
    else if not (is_relocatable mode)
    then not_relocatable
    else accepted (record { mode = mode; label = label; dir = dir })

abbrev pub check_spec : Bytes → Bytes → Option (Bytes × Bytes) → Parsed
check_spec spec dir none = check_parts false spec [] dir
check_spec spec dir (some (mode, label)) = check_parts true mode label dir

abbrev pub check_value : Option (Bytes × Bytes) → Parsed
check_value none = no_equals_sign
check_value (some (spec, dir)) = check_spec spec dir (cut_at b':' spec)

-- PathFlag.Set, up to the append
unfoldable pub set_path : Bytes → Parsed
set_path value = check_value (cut_at b'=' value)

-- PathFlag.String, for one of the paths
unfoldable pub print_path : SourcePath → Bytes
print_path sp =
    if is_empty sp.label
    then sp.mode ++ b'=' ∷ sp.dir
    else sp.mode ++ b':' ∷ (sp.label ++ b'=' ∷ sp.dir)

-- A labeled instance's prefix: the mode behind its first colon, and a colon.
abbrev behind : Bytes → Option (Bytes × Bytes) → Bytes
behind mode none = mode
behind mode (some (x, y)) = y

abbrev pub label_prefix : Bytes → Bytes
label_prefix mode = behind mode (cut_at b':' mode) ++ b':' ∷ []

abbrev prefixed : Bytes → Bytes → Bytes
prefixed label s = if is_empty s then s else label ++ s

-- labeledSource.List
unfoldable pub label_record : Bytes → Record → Record
label_record mode r = record r {
  source = mode;
  cwd = prefixed (label_prefix mode) r.cwd;
  project = prefixed (label_prefix mode) r.project;
}

abbrev pub label_records : Bytes → List Record → List Record
label_records mode = map (label_record mode)
