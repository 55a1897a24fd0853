-- ===== src/Claude/Parts.antt =====
-- The blocks of a row of a transcript.
pub mod Blocks
pub mod Results
use agent_session_query.Prelude.{
  ℕ, suc, zero, ◌+◌, Bool, true, false, not, ◌&&◌, ◌||◌, List, [], ◌∷◌, ◌++◌, Option, none, some,
  Bytes, codes, ltb, ◌==◌, if◌then◌else◌, bytes_eq, has_prefix, length,
}
use agent_session_query.Prelude.Int.{pos}
use agent_session_query.Prelude.Assoc.{Assoc, lookup, insert}
use agent_session_query.Json.{
  Runtime, Value, null, bool, str, float, int, arr, obj, Items, nil, cons, Fields, end, field, get,
  get_or, get_map, get_slice, str_field, str_or, to_str, truthy, put,
}
use agent_session_query.Record.{is_empty}
use agent_session_query.Blocks.{
  text_block, thinking_block, tool_call_block, tool_result_block, event_block, apply_outcome,
  ToolOutcome, status_from_error, status_interrupted,
}
use agent_session_query.Usage.{Floats, usage_of}
use agent_session_query.Sink.{MessageQuery}
use agent_session_query.Sink.Window.{read_messages}
use agent_session_query.Claude.Content.{content_text, join_lines, texts_of}
use agent_session_query.Claude.Saved.{Disk, claude_persisted_path}

-- v == s, for a value of any type
abbrev pub is_str : Value → Bytes → Bool
is_str (str s) t = bytes_eq s t
is_str _ t = false

abbrev pub event_compaction : Bytes
event_compaction = codes "compaction"

abbrev pub event_interrupted : Bytes
event_interrupted = codes "interrupted"

abbrev pub event_hook_error : Bytes
event_hook_error = codes "hook_error"

abbrev pub claude_interrupted_prefix : Bytes
claude_interrupted_prefix = codes "[Request interrupted by user"

-- What the reading of rows takes from Go's libraries and the system.
pub record Reader : Type 0 where
  pub runtime : Runtime
  pub floats : Floats
  -- The characters of a text, as `range` meets them
  pub runes : Bytes → List Bytes
  pub disk : Disk

-- claudeRow; `names` is none for a nil map. `read_persisted` is readPersistedOutput.
pub record ClaudeRow : Type 0 where
  pub names : Option (Assoc Bytes)
  pub full : Bool
  pub root : Bytes
  pub read_persisted : Bytes → Option Bytes

abbrev pub name_or_empty : Option Bytes → Bytes
name_or_empty none = []
name_or_empty (some name) = name

-- c.names[id]
unfoldable pub name_of : Option (Assoc Bytes) → Bytes → Bytes
name_of none id = []
name_of (some names) id = name_or_empty (lookup id names)

-- c.names[id] = name, for an id and a map that are there
unfoldable pub with_name : Option (Assoc Bytes) → Bytes → Bytes → Option (Assoc Bytes)
with_name none id name = none
with_name (some names) id name = some (if is_empty id then names else insert id name names)

module _ (rd : Reader) where
  abbrev pub is_interruption : Bytes → Bool
  is_interruption text = has_prefix (rd.runtime.trim_space text) claude_interrupted_prefix

  -- claudeRow.textOrEvent
  unfoldable pub text_or_event : Bytes → Fields
  text_or_event text =
      if is_interruption text
      then event_block event_interrupted (rd.runtime.trim_space text)
      else text_block text

  abbrev pub or_content : Bytes → Option Bytes → Bytes
  or_content text none = text
  or_content text (some whole) = whole

  abbrev pub mark_saved : Bool → Fields → Fields
  mark_saved stub block = if stub then put block (codes "truncated") (bool true) else block

  abbrev pub outcome_of : Fields → Fields → Bytes → ToolOutcome
  outcome_of row m text = record {
    status =
        if truthy (get (get_map row (codes "toolUseResult")) (codes "interrupted"))
          || is_interruption text
        then status_interrupted
        else status_from_error (truthy (get m (codes "is_error")));
    exit_code = pos 0;
    has_exit = false;
    duration_ms = pos 0;
  }

  -- claudeRow.toolResult
  unfoldable pub tool_result : ClaudeRow → Fields → Fields → Fields
  tool_result c row m =
      let call_id = str_field m (codes "tool_use_id") in
      let text = content_text (get m (codes "content")) in
      let saved = claude_persisted_path rd.runtime rd.disk c.root row text in
      let content =
        if not (is_empty saved) && c.full then or_content text (c.read_persisted saved) else text in
      apply_outcome (outcome_of row m text) (
        mark_saved (not (is_empty saved) && not c.full)
          (tool_result_block rd.runes call_id (name_of c.names call_id) content c.full))

  abbrev pub text_part : Bytes → List Fields
  text_part text = if is_empty text then [] else text_or_event text ∷ []

  -- One element of a content array: its blocks, and the names behind it.
  unfoldable pub part : ClaudeRow → Fields → Fields → List Fields × Option (Assoc Bytes)
  part c row m =
      let kind = get m (codes "type") in
      if is_str kind (codes "text")
      then (text_part (str_field m (codes "text")), c.names)
      else if is_str kind (codes "thinking")
      then (thinking_block rd.runes (str_field m (codes "thinking")) c.full ∷ [], c.names)
      else if is_str kind (codes "tool_use")
      then (
        tool_call_block (str_field m (codes "id")) (str_field m (codes "name"))
              (get_or m (codes "input") (obj end))
            ∷ [],
        with_name c.names (str_field m (codes "id")) (str_field m (codes "name")),
      )
      else if is_str kind (codes "tool_result")
      then (tool_result c row m ∷ [], c.names)
      else ([], c.names)

  unfoldable pub parts_of_items : ClaudeRow → Fields → Items → List Fields × Option (Assoc Bytes)
  parts_of_items c row nil = ([], c.names)
  parts_of_items c row (cons (obj m) vs) =
      let rest = parts_of_items (record c { names = (part c row m).1 }) row vs in
      ((part c row m).0 ++ rest.0, rest.1)
  parts_of_items c row (cons _ vs) = parts_of_items c row vs

  unfoldable pub parts_in : ClaudeRow → Fields → Value → List Fields × Option (Assoc Bytes)
  parts_in c row (str content) = (text_part content, c.names)
  parts_in c row (arr vs) = parts_of_items c row vs
  parts_in c row _ = ([], c.names)

  -- claudeRow.parts
  unfoldable pub claude_parts : ClaudeRow → Fields → List Fields × Option (Assoc Bytes)
  claude_parts c row = parts_in c row (get (get_map row (codes "message")) (codes "content"))

  -- claudeSystemEvent
  unfoldable pub claude_system_event : Fields → Option Fields
  claude_system_event row =
      let kind = get row (codes "subtype") in
      let errors = texts_of (get_slice row (codes "hookErrors")) in
      if is_str kind (codes "compact_boundary")
      then some (
          event_block event_compaction
            (str_or rd.runtime (get row (codes "content")) (codes "Context compacted")))
      else if is_str kind (codes "stop_hook_summary")
      then (if length errors == 0
          then none
          else some (event_block event_hook_error (join_lines errors)))
      else none
