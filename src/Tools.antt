-- ===== src/Tools.antt =====
-- internal/app/brief.go: what a tool call names (its files, its command) and what the tool is for.
pub mod Names
pub mod Kinds
use agent_session_query.Prelude.{
  ℕ, zero, suc, ◌/◌, Bool, true, false, not, ◌&&◌, ◌||◌, List, [], ◌∷◌, ◌++◌, Option, none, some,
  Bytes, codes, ◌==◌, leb, if◌then◌else◌, bytes_eq, has_prefix, contains, replace_byte, drop, take,
  length, get_elem?, any,
}
use agent_session_query.Json.{
  Runtime, Value, null, bool, str, float, int, arr, obj, Items, nil, cons, Fields, end, field, get,
  to_str,
}
use agent_session_query.Record.{is_empty, in_range}
use agent_session_query.Clean.{strip_terminal_controls}
use agent_session_query.Clean.Secrets.{Texts, redact_secrets}

-- containsString
unfoldable pub contains_string : List Bytes → Bytes → Bool
contains_string [] s = false
contains_string (item ∷ list) s = bytes_eq item s || contains_string list s

-- appendUnique
unfoldable pub append_unique : List Bytes → Bytes → List Bytes
append_unique list s = if contains_string list s then list else list ++ s ∷ []

-- for _, s := range more { list = appendUnique(list, s) }
unfoldable pub append_all_unique : List Bytes → List Bytes → List Bytes
append_all_unique list [] = list
append_all_unique list (s ∷ more) = append_all_unique (append_unique list s) more

abbrev begin_line : ℕ → List Bytes → List Bytes
begin_line c [] = (c ∷ []) ∷ []
begin_line c (s ∷ ss) = (c ∷ s) ∷ ss

-- strings.Split(s, "\n")
unfoldable pub split_lines : Bytes → List Bytes
split_lines [] = [] ∷ []
split_lines (c ∷ s) =
    let rest = split_lines s in if c == b'\n' then [] ∷ rest else begin_line c rest

-- strings.ReplaceAll(s, "\r\n", "\n")
unfoldable pub crlf_to_lf : Bytes → Bytes
crlf_to_lf [] = []
crlf_to_lf (c ∷ s) =
    let rest = crlf_to_lf s in if c == b'\r' && has_prefix s (codes "\n") then rest else c ∷ rest

-- strings.CutPrefix, and strings.TrimPrefix
unfoldable pub cut_prefix : Bytes → Bytes → Option Bytes
cut_prefix s prefix = if has_prefix s prefix then some (drop (length prefix) s) else none

unfoldable pub trim_prefix : Bytes → Bytes → Bytes
trim_prefix s prefix = if has_prefix s prefix then drop (length prefix) s else s

abbrev patch_prefixes : List Bytes
patch_prefixes =
    codes "*** Update File: "
    ∷ codes "*** Add File: "
    ∷ codes "*** Delete File: "
    ∷ codes "*** Move to: "
    ∷ []

abbrev file_path_keys : List Bytes
file_path_keys =
    codes "filepath" ∷ codes "path" ∷ codes "notebookpath" ∷ codes "file" ∷ codes "targetfile" ∷ []

abbrev patch_keys : List Bytes
patch_keys = codes "input" ∷ codes "patch" ∷ []

abbrev command_keys : List Bytes
command_keys = codes "command" ∷ codes "cmd" ∷ codes "script" ∷ codes "input" ∷ []

abbrev dev_null : Bytes
dev_null = codes "/dev/null"

-- strings.Join(parts, " ")
unfoldable pub join_spaces : List Bytes → Bytes
join_spaces [] = []
join_spaces (s ∷ []) = s
join_spaces (s ∷ t ∷ ss) = s ++ b' ' ∷ join_spaces (t ∷ ss)

module _ (rt : Runtime) where
  -- foldArgKey
  unfoldable pub fold_arg_key : Bytes → Bytes
  fold_arg_key key = replace_byte b'-' [] (replace_byte b'_' [] (rt.to_lower key))

  -- The entries in the order in which `range` meets them.
  unfoldable pub named_by : Bytes → Fields → Option Bytes
  unfolding fold_arg_key
  named_by want end = none
  named_by want (field key v args) =
      let rest = named_by want args in
      let s = rt.trim_space (to_str rt v) in
      if bytes_eq (fold_arg_key key) want && not (is_empty s) then some s else rest

  unfoldable pub first_named : List Bytes → Fields → Option Bytes
  first_named [] args = none
  first_named (want ∷ wants) args = elim (named_by want args) [
    | some s ↦ some s
    | none ↦ first_named wants args
  ]

  abbrev noted : Option Bytes → List Bytes → List Bytes
  noted none files = files
  noted (some rest) files =
      if is_empty (rt.trim_space rest) then files else append_unique files (rt.trim_space rest)

  unfoldable pub patch_line : List Bytes → Bytes → List Bytes → List Bytes
  patch_line [] line files = files
  patch_line (prefix ∷ prefixes) line files =
      patch_line prefixes line (noted (cut_prefix line prefix) files)

  patch_lines : List Bytes → List Bytes → List Bytes
  patch_lines [] files = files
  patch_lines (line ∷ lines) files = patch_lines lines (patch_line patch_prefixes line files)

  -- patchFiles
  unfoldable pub patch_files : Bytes → List Bytes
  unfolding patch_lines
  patch_files text = patch_lines (split_lines (crlf_to_lf text)) []

  -- The name on a +++ line, which for a deleted file stands on the line before.
  unfoldable pub diff_name : Option Bytes → Bytes → Bytes
  diff_name none rest = trim_prefix (trim_prefix (rt.trim_space rest) (codes "b/")) (codes "a/")
  diff_name (some above) rest =
      let name =
        if bytes_eq (rt.trim_space rest) dev_null
        then rt.trim_space (trim_prefix above (codes "--- "))
        else rt.trim_space rest in
      trim_prefix (trim_prefix name (codes "b/")) (codes "a/")

  abbrev noted_name : Bytes → List Bytes → List Bytes
  noted_name name files =
      if is_empty name || bytes_eq name dev_null then files else append_unique files name

  unfoldable pub diff_lines : Option Bytes → List Bytes → List Bytes → List Bytes
  diff_lines above [] files = files
  diff_lines above (line ∷ lines) files =
      diff_lines (some line) lines (elim (cut_prefix line (codes "+++ ")) [
        | none ↦ files
        | some rest ↦ noted_name (diff_name above rest) files
      ])

  -- diffFiles
  unfoldable pub diff_files : Bytes → List Bytes
  diff_files text = diff_lines none (split_lines (crlf_to_lf text)) []

  abbrev is_patch : Value → Option Bytes
  is_patch (str text) = if contains text (codes "*** Begin Patch") then some text else none
  is_patch _ = none

  unfoldable pub patch_text : List Bytes → Fields → Option Bytes
  patch_text [] args = none
  patch_text (key ∷ keys) args = elim (is_patch (get args key)) [
    | some text ↦ some text
    | none ↦ patch_text keys args
  ]

  abbrev files_of_diff : Value → List Bytes
  files_of_diff (str text) = diff_files text
  files_of_diff _ = []

  -- toolCallFiles
  unfoldable pub tool_call_files : Value → List Bytes
  tool_call_files (obj args) = elim (first_named file_path_keys args) [
    | some s ↦ s ∷ []
    | none ↦ elim (patch_text patch_keys args) [
      | some text ↦ patch_files text
      | none ↦ files_of_diff (get args (codes "diff"))
    ]
  ]
  tool_call_files _ = []

  unfoldable pub argv_of : Items → List Bytes
  argv_of nil = []
  argv_of (cons v vs) = to_str rt v ∷ argv_of vs

  abbrev as_command : Value → Option Bytes
  as_command (str s) = some s
  as_command (arr vs) = some (join_spaces (argv_of vs))
  as_command _ = none

  unfoldable pub first_command : List Bytes → Fields → Bytes
  first_command [] args = []
  first_command (key ∷ keys) args = elim (as_command (get args key)) [
    | some command ↦ command
    | none ↦ first_command keys args
  ]

  -- commandText
  unfoldable pub command_text : Value → Bytes
  command_text (obj args) = first_command command_keys args
  command_text _ = []
