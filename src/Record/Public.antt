-- ===== src/Record/Public.antt =====
-- Which keys a session's public row has.
use agent_session_query.Prelude.{
  Bool, true, false, not, ◌&&◌, ◌||◌, ◌≡◌, refl, arith, Bytes, codes, Time, if◌then◌else◌, bytes_eq,
  Bool-cases, inl, inr,
}
use agent_session_query.Json.{Value, Fields, end, field}
use agent_session_query.Record.{
  Record, when, public, parent_fields, is_subagent, is_empty, resume_command,
}

-- _, ok := m[key]
unfoldable pub has : Fields → Bytes → Bool
has end key = false
has (field k v fs) key = bytes_eq k key || has fs key

has-when :
    (b : Bool) (k : Bytes) (v : Value) (rest : Fields) (j : Bytes)
    → has (when b k v rest) j ≡ (if bytes_eq k j then b || has rest j else has rest j)
unfolding has when
has-when true k v rest j = ground arith
has-when false k v rest j = ground arith

has-field :
    (k : Bytes) (v : Value) (rest : Fields) (j : Bytes)
    → has (field k v rest) j ≡ bytes_eq k j || has rest j
unfolding has
has-field k v rest j = refl

-- An optional key is there exactly when the source recorded the figure or the text.
pub record ShowsRecorded (r : Record) (row : Fields) : Type 0 where
  pub created_at : has row (codes "createdAt") ≡ not (is_empty r.created_at)
  pub branch : has row (codes "branch") ≡ not (is_empty r.branch)
  pub total_tokens : has row (codes "totalTokens") ≡ r.has_total_tokens
  pub message_count : has row (codes "messageCount") ≡ r.has_count
  pub parent : has row (codes "parentSessionId") ≡ is_subagent r
  pub agent_type : has row (codes "agentType") ≡ is_subagent r && not (is_empty r.agent_type)
  pub resume : has row (codes "resumeCommand") ≡ not (is_empty (resume_command r))

has-parent_fields :
    (r : Record) (rest : Fields) (j : Bytes)
    → has (parent_fields r rest) j ≡ (
        if is_subagent r
        then (bytes_eq (codes "parentSessionId") j
            || (bytes_eq (codes "parentAgentId") j && not (is_empty r.parent_agent_id))
            || (bytes_eq (codes "agentType") j && not (is_empty r.agent_type))
            || bytes_eq (codes "agentDepth") j
            || (bytes_eq (codes "parentToolUseId") j && not (is_empty r.parent_tool_use_id))
            || has rest j)
        else has rest j)
unfolding parent_fields
has-parent_fields r rest j = elim (Bool-cases (is_subagent r)) [
  | inl s ↦ rw s (simp (has-field, has-when) (ground arith))
  | inr t ↦ rw t
]

has-end : (j : Bytes) → has end j ≡ false
unfolding has
has-end j = refl

ruleset keys = (has-field, has-when, has-parent_fields, has-end)

-- Seven optional keys of a public row (createdAt, branch, totalTokens, messageCount,
-- parentSessionId, agentType, resumeCommand) are there exactly when the record holds what they
-- show.
pub public-ShowsRecorded : (now : Time) (r : Record) → ShowsRecorded r (public now r)
unfolding public bytes_eq
public-ShowsRecorded now r = record {
  created_at = simp keys (ground arith);
  branch = simp keys (ground arith);
  total_tokens = simp keys (ground arith);
  message_count = simp keys (ground arith);
  parent = simp keys (ground arith);
  agent_type = simp keys (ground arith);
  resume = simp keys (ground arith);
}
