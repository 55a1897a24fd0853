-- ===== src/Tests/Samples.antt =====
-- The sessions and messages that the tests share.
use agent_session_query.Prelude.{
  true, false, List, [], ◌∷◌, none, some, codes, zero_time, ◌+◌, String,
}
use agent_session_query.Prelude.Int.{pos}
use agent_session_query.Json.{Runtime, Fields, end, field, str}
use agent_session_query.Record.{Record}
use agent_session_query.Api.{SessionSource, SessionFilter}

-- A runtime of which the samples use only `parse_layout`: a time is one byte.
abbrev pub runtime : Runtime
runtime = record {
  format_float = λ f. [];
  parse_float = λ s. none;
  parse_layout = λ layout s. elim s [ [] ↦ none | c ∷ cs ↦ some (c + 1) ];
  epoch_to_time = λ f. none;
  trim_space = λ s. s;
  to_lower = λ s. s;
}

abbrev pub message : String → String → Fields
message role time =
    field (codes "role") (str (codes role)) (field (codes "timestamp") (str (codes time)) end)

abbrev pub messages : List Fields
messages =
    message "user" "a"
    ∷ message "assistant" "b"
    ∷ message "user" "c"
    ∷ message "user" "d"
    ∷ message "user" "e"
    ∷ []

abbrev pub blank : Record
blank = record {
  source = [];
  key = [];
  short_key = [];
  session_id = [];
  file = [];
  has_file = false;
  status = [];
  updated_at = [];
  created_at = [];
  cwd = [];
  model = [];
  branch = [];
  cli_version = [];
  project = [];
  display_name = [];
  platform = [];
  total_tokens = 0;
  estimated_cost_usd = 0;
  runtime_ms = 0;
  message_count = pos 0;
  has_count = false;
  has_total_tokens = false;
  has_estimated_cost = false;
  has_runtime = false;
  archived = false;
  files = [];
  parent_session_id = [];
  parent_agent_id = [];
  agent_type = [];
  agent_depth = pos 0;
  parent_tool_use_id = [];
  subagents = 0;
  sort_at = zero_time;
  sort_key = [];
  lower_sid = [];
  lower_key = [];
}

-- A session whose id needs quotes, and a subagent under it.
abbrev pub session : Record
session = record blank {
  source = codes "claude:work";
  session_id = codes "it's; rm";
  lower_sid = codes "it's; rm";
  lower_key = codes "claude:work/it's; rm";
  created_at = codes "2026-01-01";
  sort_at = zero_time + 7;
  has_count = true;
}

abbrev pub agent : Record
agent = record blank {
  source = codes "claude:work";
  session_id = codes "agent-1";
  parent_session_id = codes "it's; rm";
  lower_sid = codes "agent-1";
  lower_key = codes "claude:work/agent-1";
  sort_at = zero_time + 9;
}

abbrev pub work : SessionSource
work = record { mode = codes "claude:work"; records = session ∷ agent ∷ [] }

abbrev pub recent_claude : SessionFilter
recent_claude = record {
  source = codes "claude";
  project = [];
  branch = [];
  since = zero_time + 8;
  until = zero_time;
  subagents = true;
  archived = false;
}
