-- ===== src/Rounds.antt =====
-- internal/app/brief.go: a session's messages cut into rounds, each one a question of the user and
-- what was done until the next.
pub mod Segments
pub mod Tallied
pub mod Tally
use agent_session_query.Prelude.{
  ℕ, suc, zero, ◌+◌, ◌-◌, ◌<◌, Bool, true, false, not, ◌&&◌, ◌||◌, List, [], ◌∷◌, ◌++◌, Option,
  none, some, Bytes, codes, ◌==◌, ltb, leb, if◌then◌else◌, bytes_eq, has_prefix, has_suffix, drop,
  take, length, get_elem?, any, all,
}
use agent_session_query.Prelude.Assoc.{Assoc, lookup, insert, erase}
use agent_session_query.Json.{
  Runtime, Value, null, bool, str, float, int, arr, obj, Items, nil, cons, Fields, end, field, get,
  to_str, truthy,
}
use agent_session_query.Record.{is_empty}
use agent_session_query.Title.{strip_harness_blocks}
use agent_session_query.Blocks.{is_failed_result}
use agent_session_query.Clean.Secrets.{Texts}
use agent_session_query.Usage.{Floats, usage_of, add_usage}
use agent_session_query.Tools.{append_unique, append_all_unique, tool_call_files, command_text}
use agent_session_query.Tools.Kinds.{Kind, write, exec, kind_name, tool_kind_of, cap_text}
use agent_session_query.Questions.{
  Libraries, content_blocks, text_at, text_blocks, message_text, asked_of, is_round_start,
}

pub record RoundCall : Type 0 where
  pub name : Bytes
  pub command : Bytes

pub record RoundFailure : Type 0 where
  pub at : Bytes
  pub tool : Bytes
  pub command : Bytes
  pub output : Bytes

-- A nil map or slice and an empty one are read alike.
pub record Round : Type 0 where
  pub index : ℕ
  pub start_at : Bytes
  pub end_at : Bytes
  pub last_at : Bytes
  pub messages : ℕ
  pub tool_calls : ℕ
  pub failures : ℕ
  pub files : List Bytes
  pub changed : List Bytes
  pub commands : List Bytes
  pub kinds : Assoc ℕ
  pub asked : Bytes
  pub outcome : Bytes
  pub interrupted : Bool
  pub usage : Assoc ℕ
  pub failed : List RoundFailure
  pub pending : Assoc (List Bytes)
  pub calls : Assoc RoundCall

abbrev pub interrupted_event : Bytes
interrupted_event = codes "interrupted"

-- m[key]++
unfoldable pub count_up : Bytes → Assoc ℕ → Assoc ℕ
count_up key [] = (key, 1) ∷ []
count_up key ((other, n) ∷ counts) =
    let rest = count_up key counts in
    if bytes_eq other key then (other, suc n) ∷ counts else (other, n) ∷ rest

abbrev or_no_call : Option RoundCall → RoundCall
or_no_call none = record { name = []; command = [] }
or_no_call (some call) = call

module _ (w : Libraries) where
  -- round.noteWrite
  unfoldable pub note_write : Bytes → Value → Round → Round
  note_write id arguments r =
      let files = tool_call_files w.runtime arguments in
      if length files == 0
      then r
      else if is_empty id
      then record r { changed = append_all_unique r.changed files }
      else record r { pending = insert id files r.pending }

  abbrev pub settled_files : Bytes → Bool → Option (List Bytes) → Round → Round
  settled_files call_id failed none r = r
  settled_files call_id failed (some files) r = record r {
    pending = erase call_id r.pending;
    changed = if failed then r.changed else append_all_unique r.changed files;
  }

  -- round.settleWrite
  unfoldable pub settle_write : Bytes → Bool → Round → Round
  settle_write call_id failed r = settled_files call_id failed (lookup call_id r.pending) r

  -- A toolCall block: what the round counts and remembers of it, and the write that it may be.
  abbrev pub called : Bytes → Bytes → Value → Round → Round
  called id name arguments r = record r {
    tool_calls = suc r.tool_calls;
    files = append_all_unique r.files (tool_call_files w.runtime arguments);
    calls =
        if is_empty id
        then r.calls
        else insert id (record { name = name; command = command_text w.runtime arguments }) r.calls;
    kinds = count_up (kind_name (tool_kind_of w.runtime w.texts name)) r.kinds;
  }

  unfoldable pub of_kind : Kind → Bytes → Value → Round → Round
  of_kind write id arguments r = note_write id arguments r
  of_kind exec id arguments r =
      let command = command_text w.runtime arguments in
      if is_empty command then r else record r { commands = r.commands ++ command ∷ [] }
  of_kind _ id arguments r = r

  unfoldable pub take_call : Fields → Round → Round
  take_call block r =
      let id = text_at w block (codes "id") in
      let name = text_at w block (codes "name") in
      let arguments = get block (codes "arguments") in
      of_kind (tool_kind_of w.runtime w.texts name) id arguments (called id name arguments r)

  abbrev pub failure_of : Bytes → Fields → RoundCall → RoundFailure
  failure_of at block call = record {
    at = at;
    tool = if is_empty call.name then text_at w block (codes "toolName") else call.name;
    command = call.command;
    output = cap_text w.runtime w.texts (text_at w block (codes "content")) 200;
  }

  abbrev pub note_failure : Bytes → Fields → Round → Round
  note_failure at block r = record r {
    failures = suc r.failures;
    failed =
        r.failed
        ++ failure_of at block (or_no_call (lookup (text_at w block (codes "callId")) r.calls))
          ∷ [];
  }

  -- A toolResult block.
  unfoldable pub take_result : Bytes → Fields → Round → Round
  take_result at block r =
      let failed = is_failed_result w.runtime block in
      settle_write (text_at w block (codes "callId")) failed
        (if failed then note_failure at block r else r)

  -- An take_event block.
  unfoldable pub take_event : Fields → Round → Round
  take_event block r =
      if bytes_eq (text_at w block (codes "kind")) interrupted_event
      then record r { interrupted = true }
      else r

  -- One block of a message of the time `at`, and whether it is work.
  unfoldable pub take_block : Bytes → Fields → Round × Bool → Round × Bool
  take_block at block (r, work) =
      let kind = text_at w block (codes "type") in
      if bytes_eq kind (codes "toolCall")
      then (take_call block r, true)
      else if bytes_eq kind (codes "toolResult")
      then (take_result at block r, true)
      else if bytes_eq kind (codes "event")
      then (take_event block r, true)
      else (r, work)

  unfoldable pub take_blocks : Bytes → List Fields → Round × Bool → Round × Bool
  take_blocks at [] s = s
  take_blocks at (block ∷ blocks) s = take_blocks at blocks (take_block at block s)

  abbrev pub opened : Bytes → Fields → Round → Round
  opened at m r = record r {
    last_at = if is_empty at then r.last_at else at;
    messages = suc r.messages;
    usage = add_usage w.floats (usage_of w.floats w.runtime (get m (codes "usage"))) r.usage;
  }

  abbrev pub concluded : Bytes → Bytes → Round × Bool → Round
  concluded text at (r, work) = record r {
    outcome = if is_empty text then r.outcome else text;
    end_at = if work && not (is_empty at) then at else r.end_at;
  }

  -- What one message adds to its round.
  unfoldable pub take_message : Bool → Fields → Round → Round
  take_message starting m r =
      let at = text_at w m (codes "timestamp") in
      let assistant = bytes_eq (text_at w m (codes "role")) (codes "assistant") in
      let content = get m (codes "content") in
      concluded (if assistant then w.runtime.trim_space (message_text w content) else []) at
        (take_blocks at (content_blocks content) (opened at m r, starting || assistant))

  unfoldable pub open_round : ℕ → Fields → Round
  open_round index m = record {
    index = index;
    start_at = text_at w m (codes "timestamp");
    end_at = [];
    last_at = [];
    messages = 0;
    tool_calls = 0;
    failures = 0;
    files = [];
    changed = [];
    commands = [];
    kinds = [];
    asked = asked_of w m;
    outcome = [];
    interrupted = false;
    usage = [];
    failed = [];
    pending = [];
    calls = [];
  }

unfoldable pub end_round : Bool → Round → Round
end_round human_last r = record r { interrupted = r.interrupted || human_last }

-- The variables of the loop of splitRounds.
pub record Split : Type 0 where
  pub rounds : List Round
  pub cur : Option Round
  pub human_last : Bool

abbrev pub with_last : Bool → Option Round → List Round
with_last human_last none = []
with_last human_last (some r) = end_round human_last r ∷ []

module _ (w : Libraries) where
  abbrev pub flush : Split → List Round
  flush s = s.rounds ++ with_last s.human_last s.cur

  abbrev go_on : Fields → Split → Option Round → Split
  go_on m s none = s
  go_on m s (some r) = record s { cur = some (take_message w false m r); human_last = false }

  -- One message of the loop.
  unfoldable pub split_step : Split → Fields → Split
  split_step s m =
      if is_round_start w m
      then record {
        rounds = flush s;
        cur = some (take_message w true m (open_round w (length (flush s) + 1) m));
        human_last = true;
      }
      else go_on m s s.cur

  unfoldable pub split_from : Split → List Fields → List Round
  split_from s [] = flush s
  split_from s (m ∷ ms) = split_from (split_step s m) ms

  -- splitRounds
  unfoldable pub split_rounds : List Fields → List Round
  split_rounds messages =
      split_from (record { rounds = []; cur = none; human_last = false }) messages
