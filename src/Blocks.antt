-- ===== src/Blocks.antt =====
-- internal/source/blocks.go: the blocks of a message's content; and Truncate of
-- internal/source/record.go.
pub mod Outcome
use agent_session_query.Prelude.{
  ℕ, zero, suc, ◌+◌, Bool, true, false, not, ◌&&◌, ◌||◌, List, [], ◌∷◌, ◌++◌, Option, none, some,
  Bytes, codes, ltb, leb, ◌==◌, if◌then◌else◌, bytes_eq, take, length,
}
use agent_session_query.Prelude.Int.{ℤ, pos, negsuc, is_nonpos}
use agent_session_query.Json.{
  Runtime, Value, null, bool, str, int, obj, Fields, end, field, get, put, to_str,
}
use agent_session_query.Record.{is_empty}

abbrev pub tool_result_limit : ℕ
tool_result_limit = 500

abbrev pub thinking_limit : ℕ
thinking_limit = 1000

abbrev pub truncation_mark : Bytes
truncation_mark = codes "...[truncated]"

abbrev pub status_ok : Bytes
status_ok = codes "ok"

abbrev pub status_error : Bytes
status_error = codes "error"

abbrev pub status_interrupted : Bytes
status_interrupted = codes "interrupted"

-- Where the character of a number starts, from a position on.
unfoldable pub rune_start : List Bytes → ℕ → ℕ → Option ℕ
rune_start [] n i = none
rune_start (r ∷ rs) zero i = some i
rune_start (r ∷ rs) (suc n) i = rune_start rs n (i + length r)

abbrev pub cut_at_rune : Bytes → Bytes → Option ℕ → Bytes
cut_at_rune text mark none = text ++ mark
cut_at_rune text mark (some i) = take i text ++ mark

-- `runes` splits a text into the bytes of its characters, as `range` and utf8.RuneCountInString do.
module _ (runes : Bytes → List Bytes) where
  unfoldable pub truncate : Bytes → ℕ → Bytes → Bytes
  truncate text limit mark =
      if leb (length (runes text)) limit
      then text
      else cut_at_rune text mark (rune_start (runes text) limit 0)

  unfoldable pub clip : Bytes → ℕ → Bool → Bytes × Bool
  clip text limit full =
      if full || leb (length (runes text)) limit
      then (text, false)
      else (truncate text limit truncation_mark, true)

  abbrev pub with_flag : Bool → Fields → Fields
  with_flag truncated block = if truncated then put block (codes "truncated") (bool true) else block

  unfoldable pub thinking_block : Bytes → Bool → Fields
  thinking_block content full =
      let (cut, truncated) = clip content thinking_limit full in
      with_flag truncated
        (field (codes "type") (str (codes "thinking")) (field (codes "content") (str cut) end))

  unfoldable pub tool_result_block : Bytes → Bytes → Bytes → Bool → Fields
  tool_result_block call_id tool_name content full =
      let (cut, truncated) = clip content tool_result_limit full in
      let block =
        field (codes "type") (str (codes "toolResult"))
          (field (codes "toolName") (str tool_name) (field (codes "content") (str cut) end)) in
      with_flag truncated
        (if is_empty call_id then block else put block (codes "callId") (str call_id))

unfoldable pub text_block : Bytes → Fields
text_block content =
    field (codes "type") (str (codes "text")) (field (codes "content") (str content) end)

abbrev pub or_empty_object : Value → Value
or_empty_object null = obj end
or_empty_object v = v

unfoldable pub tool_call_block : Bytes → Bytes → Value → Fields
tool_call_block id name arguments =
    let block = field (codes "type") (str (codes "toolCall")) (
      field (codes "name") (str name)
        (field (codes "arguments") (or_empty_object arguments) end)) in
    if is_empty id then block else put block (codes "id") (str id)

unfoldable pub event_block : Bytes → Bytes → Fields
event_block kind content =
    field (codes "type") (str (codes "event"))
      (field (codes "kind") (str kind) (field (codes "content") (str content) end))

pub record ToolOutcome : Type 0 where
  pub status : Bytes
  pub exit_code : ℤ
  pub has_exit : Bool
  pub duration_ms : ℤ

abbrev pub is_zero_int : ℤ → Bool
is_zero_int (pos n) = n == 0
is_zero_int (negsuc n) = false

unfoldable pub status_of : ToolOutcome → Bytes
status_of o =
    if is_empty o.status && (o.has_exit && not (is_zero_int o.exit_code))
    then status_error
    else o.status

-- ToolOutcome.Apply
unfoldable pub apply_outcome : ToolOutcome → Fields → Fields
apply_outcome o block =
    let with_status =
      if is_empty (status_of o) then block else put block (codes "status") (str (status_of o)) in
    let with_exit =
      if o.has_exit then put with_status (codes "exitCode") (int o.exit_code) else with_status in
    if is_nonpos o.duration_ms
    then with_exit
    else put with_exit (codes "durationMs") (int o.duration_ms)

-- statusFromError
unfoldable pub status_from_error : Bool → Bytes
status_from_error is_error = if is_error then status_error else status_ok

unfoldable pub is_failed_result : Runtime → Fields → Bool
is_failed_result rt block =
    if not (bytes_eq (to_str rt (get block (codes "type"))) (codes "toolResult"))
    then false
    else let status = to_str rt (get block (codes "status")) in
      bytes_eq status status_error || bytes_eq status status_interrupted
