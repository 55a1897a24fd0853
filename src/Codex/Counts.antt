-- ===== src/Codex/Counts.antt =====
-- internal/source/source_codex.go: the rows of a rollout that count as messages.
pub mod Mirrored
use agent_session_query.Prelude.{
  Bool, true, false, not, ◌||◌, List, Option, none, some, Bytes, codes, if◌then◌else◌, bytes_eq,
  any,
}
use agent_session_query.Json.{Runtime, Value}
use agent_session_query.Record.{is_empty}
use agent_session_query.Codex.Rows.{
  PayloadKind, message, reasoning, function_call, custom_tool_call, local_shell_call,
  web_search_call, call_output, other, payload_kind,
}

-- The fields of codexProbe that counts reads; none is a json.RawMessage of no bytes.
pub record CodexProbe : Type 0 where
  pub type : Bytes
  pub kind : Bytes
  pub role : Bytes
  pub summary : Option Value
  pub content : Option Value

-- `decode` is json.Unmarshal of a list of items: the text of each, or none for an error.
module _ (rt : Runtime) (decode : Value → Option (List Bytes)) where
  abbrev has_text : Option (List Bytes) → Bool
  has_text none = false
  has_text (some texts) = any (λ t. not (is_empty (rt.trim_space t))) texts

  -- codexReasoningHasText
  unfoldable pub codex_reasoning_has_text : Option Value → Bool
  codex_reasoning_has_text none = false
  codex_reasoning_has_text (some raw) = has_text (decode raw)

  unfoldable pub kind_counts : PayloadKind → CodexProbe → Bool
  kind_counts message p = not (bytes_eq p.role (codes "developer"))
  kind_counts reasoning p = codex_reasoning_has_text p.summary || codex_reasoning_has_text p.content
  kind_counts function_call p = true
  kind_counts custom_tool_call p = true
  kind_counts local_shell_call p = true
  kind_counts web_search_call p = true
  kind_counts call_output p = true
  kind_counts other p = false

  -- codexProbe.counts
  unfoldable pub codex_counts : CodexProbe → Bool
  codex_counts p =
      if bytes_eq p.type (codes "event_msg")
      then bytes_eq p.kind (codes "turn_aborted")
      else if bytes_eq p.type (codes "response_item")
      then kind_counts (payload_kind p.kind) p
      else false
