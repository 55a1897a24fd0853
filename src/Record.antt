-- ===== src/Record.antt =====
-- internal/source/record.go: a session's record, its public shape, its order in the list, the
-- command that resumes it, and how well a pattern names it.
pub mod Shell
pub mod Match
pub mod Newer
pub mod Public
use agent_session_query.Prelude.{
  ℕ, zero, suc, ◌+◌, ◌-◌, ◌*◌, ◌^◌, Bool, true, false, not, ◌&&◌, ◌||◌, List, [], ◌∷◌, ◌++◌, Option,
  none, some, Bytes, codes, Time, is_zero, after, zero_time, ltb, leb, ◌==◌, if◌then◌else◌,
  bytes_eq, has_prefix, has_suffix, contains, index_byte, replace_byte, take, all, map,
}
use agent_session_query.Prelude.Int.{ℤ, pos, negsuc}
use agent_session_query.Prelude.Assoc.{Assoc, lookup}
use agent_session_query.Json.{
  Runtime, Value, null, bool, str, float, int, arr, obj, Items, nil, cons, Fields, end, field,
  to_str, parse_timestamp_value,
}

-- The float64 fields are bit patterns.
pub record Record : Type 0 where
  pub source : Bytes
  pub key : Bytes
  pub short_key : Bytes
  pub session_id : Bytes
  pub file : Bytes
  pub has_file : Bool
  pub status : Bytes
  pub updated_at : Bytes
  pub created_at : Bytes
  pub cwd : Bytes
  pub model : Bytes
  pub branch : Bytes
  pub cli_version : Bytes
  pub project : Bytes
  pub display_name : Bytes
  pub platform : Bytes
  pub total_tokens : ℕ
  pub estimated_cost_usd : ℕ
  pub runtime_ms : ℕ
  pub message_count : ℤ
  pub has_count : Bool
  pub has_total_tokens : Bool
  pub has_estimated_cost : Bool
  pub has_runtime : Bool
  pub archived : Bool
  pub files : List Bytes
  pub parent_session_id : Bytes
  pub parent_agent_id : Bytes
  pub agent_type : Bytes
  pub agent_depth : ℤ
  pub parent_tool_use_id : Bytes
  pub subagents : ℕ
  pub sort_at : Time
  pub sort_key : Bytes
  pub lower_sid : Bytes
  pub lower_key : Bytes

abbrev pub is_empty : Bytes → Bool
is_empty s = bytes_eq s []

-- NormalizeForMatch
unfoldable pub normalize_for_match : Runtime → Bytes → Bytes
normalize_for_match rt s = rt.to_lower (replace_byte b'\\' (b'/' ∷ []) s)

-- NewRecord
unfoldable pub new_record : Runtime → (ℤ → ℕ) → Record → Value → Record
unfolding normalize_for_match
new_record rt float_of_int r updated_at = record r {
  sort_at = elim (parse_timestamp_value rt float_of_int updated_at) [
    | some t ↦ t
    | none ↦ zero_time
  ];
  sort_key = to_str rt updated_at;
  lower_sid = normalize_for_match rt r.session_id;
  lower_key = normalize_for_match rt r.key;
}

-- ActiveWindow: two minutes, in nanoseconds
abbrev pub active_window : ℕ
active_window = 120 * 10 ^ 9

-- IsActive at the instant `now`. A time in the future is recent too.
unfoldable pub is_active : Time → Record → Bool
is_active now r = not (is_zero r.sort_at) && ltb now (r.sort_at + active_window)

unfoldable pub is_subagent : Record → Bool
is_subagent r = not (is_empty r.parent_session_id)

unfoldable pub project_name : Record → Bytes
project_name r = if not (is_empty r.cwd) then r.cwd else r.project

abbrev pub resume_commands : Assoc Bytes
resume_commands =
    (codes "claude", codes "claude --resume")
    ∷ (codes "codex", codes "codex resume")
    ∷ (codes "grok", codes "grok -r")
    ∷ (codes "hermes", codes "hermes --resume")
    ∷ (codes "opencode", codes "opencode --session")
    ∷ (codes "pi", codes "pi --session")
    ∷ (codes "antigravity", codes "agy --conversation")
    ∷ []

abbrev pub in_range : ℕ → ℕ → ℕ → Bool
in_range lo hi c = leb lo c && leb c hi

-- A byte that `ShellArg` leaves bare. Only ASCII passes, so ranging over runes or bytes is the same.
unfoldable pub is_shell_safe : ℕ → Bool
is_shell_safe c =
    in_range b'a' b'z' c
    || in_range b'A' b'Z' c
    || in_range b'0' b'9' c
    || (c == b'-' || c == b'_' || c == b'.' || c == b'/' || c == b'=' || c == b'@' || c == b'+')

unfoldable pub shell_arg : Bytes → Bytes
unfolding is_shell_safe
shell_arg s =
    if all is_shell_safe s && not (is_empty s)
    then s
    else b'\'' ∷ (replace_byte b'\'' (codes "'\\''") s ++ b'\'' ∷ [])

-- The part of a mode before its label's colon.
unfoldable pub base_mode : Bytes → Bytes
base_mode mode = elim (index_byte b':' mode) [ some i ↦ take i mode | none ↦ mode ]

unfoldable pub resume_command : Record → Bytes
resume_command r =
    if is_subagent r then [] else elim (lookup (base_mode r.source) resume_commands) [
      | none ↦ []
      | some command ↦
          if is_empty r.session_id then [] else command ++ b' ' ∷ shell_arg r.session_id
    ]

-- a < b on strings: bytewise
unfoldable pub bytes_lt : Bytes → Bytes → Bool
bytes_lt s [] = false
bytes_lt [] (b ∷ t) = true
bytes_lt (a ∷ s) (b ∷ t) = let rest = bytes_lt s t in ltb a b || a == b && rest

unfoldable pub newer_than : Record → Record → Bool
newer_than r other =
    if not (is_zero r.sort_at) || not (is_zero other.sort_at)
    then if r.sort_at == other.sort_at then false else after r.sort_at other.sort_at
    else bytes_lt other.sort_key r.sort_key

-- MatchRank; `none` is its -1.
unfoldable pub match_rank : Bytes → Bytes → Bytes → Option ℕ
match_rank pattern sid key =
    if not (is_empty sid) && bytes_eq pattern sid
    then some 0
    else if bytes_eq key pattern
    then some 1
    else if has_suffix key (b':' ∷ pattern) || has_suffix key (b'/' ∷ pattern)
    then some 2
    else if contains key pattern
    then some 3
    else if not (is_empty sid) && contains sid pattern
    then some 4
    else none

-- The method: on the forms lowered when the record was built.
unfoldable pub record_rank : Bytes → Record → Option ℕ
unfolding match_rank
record_rank pattern r = match_rank pattern r.lower_sid r.lower_key

-- out[key] = v, for a key that is not there yet, under a condition.
unfoldable pub when : Bool → Bytes → Value → Fields → Fields
when true k v rest = field k v rest
when false k v rest = rest

abbrev strings : List Bytes → Items
strings [] = nil
strings (s ∷ ss) = cons (str s) (strings ss)

-- The keys that only a subagent's row has.
parent_fields : Record → Fields → Fields
unfolding is_subagent
parent_fields r rest =
    if is_subagent r
    then field (codes "parentSessionId") (str r.parent_session_id) (
        when (not (is_empty r.parent_agent_id)) (codes "parentAgentId") (str r.parent_agent_id) (
          when (not (is_empty r.agent_type)) (codes "agentType") (str r.agent_type) (
            field (codes "agentDepth") (int r.agent_depth) (
              when (not (is_empty r.parent_tool_use_id)) (codes "parentToolUseId")
                (str r.parent_tool_use_id) rest))))
    else rest

-- The figures a source may not have recorded.
figure_fields : Record → Fields → Fields
figure_fields r rest = when r.has_total_tokens (codes "totalTokens") (float r.total_tokens) (
    when r.has_estimated_cost (codes "estimatedCostUsd") (float r.estimated_cost_usd) (
      when r.has_runtime (codes "runtimeMs") (float r.runtime_ms)
        (when r.has_count (codes "messageCount") (int r.message_count) rest)))

-- The texts a source may not have recorded.
text_fields : Record → Fields → Fields
text_fields r rest = when (not (is_empty r.created_at)) (codes "createdAt") (str r.created_at) (
    when (not (is_empty r.cwd)) (codes "cwd") (str r.cwd) (
      when (not (is_empty r.model)) (codes "model") (str r.model) (
        when (not (is_empty r.branch)) (codes "branch") (str r.branch) (
          when (not (is_empty r.cli_version)) (codes "cliVersion") (str r.cli_version) (
            when (not (is_empty r.display_name)) (codes "displayName") (str r.display_name)
              (when (not (is_empty r.platform)) (codes "platform") (str r.platform) rest))))))

unfoldable pub public : Time → Record → Fields
unfolding text_fields figure_fields parent_fields when
public now r = field (codes "source") (str r.source) (
    field (codes "key") (str r.key) (
      field (codes "shortKey") (str r.short_key) (
        field (codes "sessionId") (str r.session_id) (
          field (codes "file") (if is_empty r.file then null else str r.file) (
            field (codes "hasFile") (bool r.has_file) (
              field (codes "status") (str r.status) (
                field (codes "updatedAt") (str r.updated_at) (
                  text_fields r (
                    figure_fields r (
                      when r.archived (codes "archived") (bool true) (
                        when (not (elim r.files [ [] ↦ true | _ ↦ false ])) (codes "files")
                          (arr (strings r.files))
                          (parent_fields r (
                            when (ltb 0 r.subagents) (codes "subagents") (int (pos r.subagents)) (
                              field (codes "isActive") (bool (is_active now r)) (
                                field (codes "project") (str (project_name r)) (
                                  when (not (is_empty (resume_command r))) (codes "resumeCommand")
                                    (str (resume_command r)) end))))))))))))))))
