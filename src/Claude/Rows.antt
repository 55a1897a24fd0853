-- ===== src/Claude/Rows.antt =====
-- The rows of a transcript: the message that each is read as, whether it counts, and whether the
-- search looks at it.
pub mod Counted
use agent_session_query.Prelude.{
  ℕ, suc, zero, ◌+◌, Bool, true, false, not, ◌&&◌, ◌||◌, List, [], ◌∷◌, ◌++◌, Option, none, some,
  Bytes, codes, ltb, ◌==◌, if◌then◌else◌, bytes_eq, has_prefix, length,
}
use agent_session_query.Prelude.Int.{pos}
use agent_session_query.Prelude.Assoc.{Assoc, lookup, insert}
use agent_session_query.Json.{
  Runtime, Value, null, bool, str, float, int, arr, obj, Items, nil, cons, Fields, end, field, get,
  get_or, get_map, get_slice, str_field, str_or, to_str, truthy, put,
}
use agent_session_query.Record.{is_empty}
use agent_session_query.Blocks.{
  text_block, thinking_block, tool_call_block, tool_result_block, event_block, apply_outcome,
  ToolOutcome, status_from_error, status_interrupted,
}
use agent_session_query.Usage.{Floats, usage_of}
use agent_session_query.Sink.{MessageQuery}
use agent_session_query.Sink.Window.{read_messages}
use agent_session_query.Claude.Content.{content_text, join_lines, texts_of}
use agent_session_query.Claude.Saved.{Disk, claude_persisted_path}
use agent_session_query.Claude.Parts.{Reader, ClaudeRow, is_str, claude_parts, claude_system_event}

module _ (rd : Reader) where
  -- claudeQueuedPrompt
  unfoldable pub claude_queued_prompt : Fields → Bool
  claude_queued_prompt row =
      let a = get_map row (codes "attachment") in
      is_str (get a (codes "type")) (codes "queued_command")
      && (is_str (get a (codes "commandMode")) (codes "prompt")
          && not (truthy (get a (codes "isMeta"))))

  -- claudeQueuedText
  unfoldable pub claude_queued_text : Fields → Bytes
  claude_queued_text row =
      rd.runtime.trim_space (content_text (get (get_map row (codes "attachment")) (codes "prompt")))

  -- claudeHitRole
  unfoldable pub claude_hit_role : Fields → Bytes
  claude_hit_role row =
      if is_str (get row (codes "type")) (codes "attachment") && claude_queued_prompt row
      then codes "user"
      else []

  abbrev pub is_turn : Value → Bool
  is_turn kind = is_str kind (codes "user") || is_str kind (codes "assistant")

  abbrev pub is_some : Option Fields → Bool
  is_some none = false
  is_some (some event) = true

  -- claudeRowSearchable
  unfoldable pub claude_row_searchable : Fields → Bool
  claude_row_searchable row =
      let kind = get row (codes "type") in
      if is_turn kind
      then true
      else if is_str kind (codes "system")
      then is_some (claude_system_event rd row)
      else if is_str kind (codes "attachment")
      then claude_queued_prompt row
      else false

  -- claudeSearchable
  unfoldable pub claude_searchable : Fields → Bool
  claude_searchable row =
      if truthy (get row (codes "isSidechain")) then false else claude_row_searchable row

  abbrev pub blocks_value : List Fields → Items
  blocks_value [] = nil
  blocks_value (block ∷ blocks) = cons (obj block) (blocks_value blocks)

  abbrev pub message_with : Fields → Value → Fields → Fields
  message_with row role rest = field (codes "id") (get_or row (codes "uuid") (str [])) (
      field (codes "role") role
        (field (codes "timestamp") (get_or row (codes "timestamp") (str [])) rest))

  abbrev pub content_of : List Fields → Fields → Fields
  content_of blocks rest = field (codes "content") (arr (blocks_value blocks)) rest

  abbrev with_usage : Fields → Fields
  with_usage end = end
  with_usage (field k v fs) = field (codes "usage") (obj (field k v fs)) end

  -- The message of a user or assistant row with its blocks.
  abbrev pub turn_message : Fields → List Fields → Fields
  turn_message row blocks =
      let msg = get_map row (codes "message") in
      message_with row
        (str (
          str_or rd.runtime (get msg (codes "role"))
            (str_or rd.runtime (get row (codes "type")) [])))
        (content_of blocks (with_usage (usage_of rd.floats rd.runtime (get msg (codes "usage")))))

  abbrev pub system_message : Fields → Option Fields → Option Fields
  system_message row none = none
  system_message row (some event) =
      some (message_with row (str (codes "system")) (content_of (event ∷ []) end))

  abbrev pub queued_message : Fields → Fields
  queued_message row = message_with row (str (codes "user")) (
      field (codes "queued") (bool true)
        (content_of (text_block (claude_queued_text row) ∷ []) end))

  -- One row of the scan of Messages: its message, and the names behind it.
  unfoldable pub row_message : Bool → ClaudeRow → Fields → Option Fields × Option (Assoc Bytes)
  row_message subagent c row =
      let kind = get row (codes "type") in
      if truthy (get row (codes "isSidechain")) && not subagent
      then (none, c.names)
      else if is_str kind (codes "system")
      then (system_message row (claude_system_event rd row), c.names)
      else if is_str kind (codes "attachment")
      then (
        (if not (claude_queued_prompt row) || is_empty (claude_queued_text row)
            then none
            else some (queued_message row)),
        c.names,
      )
      else if is_turn kind
      then (some (turn_message row (claude_parts rd c row).0), (claude_parts rd c row).1)
      else (none, c.names)

  abbrev pub with_message : Option Fields → List Fields → List Fields
  with_message none messages = messages
  with_message (some message) messages = message ∷ messages

  -- The messages of the rows, in the file's order.
  unfoldable pub row_messages : Bool → ClaudeRow → List Fields → List Fields
  row_messages subagent c [] = []
  row_messages subagent c (row ∷ rows) =
      let (message, names) = row_message subagent c row in
      with_message message (row_messages subagent (record c { names = names }) rows)

  -- Messages, of a file with these rows
  unfoldable pub claude_messages :
      (Bytes → Option Bytes) → Bool → Bytes → MessageQuery → List Fields → List Fields
  claude_messages read_persisted subagent root q rows =
      let c : ClaudeRow = record {
        names = some [];
        full = q.full;
        root = root;
        read_persisted = read_persisted;
      } in
      read_messages rd.runtime q (row_messages subagent c rows)

-- claudeProbe, of what `counts` reads; `hook_errors` is how many there are.
pub record ClaudeProbe : Type 0 where
  pub type : Bytes
  pub subtype : Bytes
  pub is_sidechain : Bool
  pub hook_errors : ℕ
  pub attachment_type : Bytes
  pub command_mode : Bytes
  pub is_meta : Bool
  pub prompt : Value

-- claudeProbe.counts
unfoldable pub probe_counts : Runtime → ClaudeProbe → Bool → Bool
probe_counts rt p subagent =
    if p.is_sidechain && not subagent
    then false
    else if bytes_eq p.type (codes "user") || bytes_eq p.type (codes "assistant")
    then true
    else if bytes_eq p.type (codes "system")
    then bytes_eq p.subtype (codes "compact_boundary")
      || (bytes_eq p.subtype (codes "stop_hook_summary") && ltb 0 p.hook_errors)
    else if bytes_eq p.type (codes "attachment")
    then bytes_eq p.attachment_type (codes "queued_command")
      && (bytes_eq p.command_mode (codes "prompt")
          && (not p.is_meta && not (is_empty (rt.trim_space (content_text p.prompt)))))
    else false

-- The count of readFinal: the lines whose probe decodes and counts.
unfoldable pub count_rows : Runtime → Bool → List (Option ClaudeProbe) → ℕ
count_rows rt subagent [] = 0
count_rows rt subagent (none ∷ probes) = count_rows rt subagent probes
count_rows rt subagent (some p ∷ probes) =
    if probe_counts rt p subagent
    then suc (count_rows rt subagent probes)
    else count_rows rt subagent probes
