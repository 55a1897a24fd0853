-- ===== src/Tests/Reading.antt =====
-- Reads and pages of messages at concrete inputs.
use agent_session_query.Prelude.{
  true, false, [], none, some, ◌≡◌, refl, bytes_eq, codes, zero_time, drop, length, arith,
}
use agent_session_query.Prelude.Int.{pos}
use agent_session_query.Sink.{MessageQuery, outside_anchor, other_role}
use agent_session_query.Sink.Match.{page, matching}
use agent_session_query.Sink.Window.{read_messages, read_messages-page}
use agent_session_query.Paging.{MessagesCall}
use agent_session_query.Paging.Cursor.{found}
use agent_session_query.Paging.Walk.{walk, remaining, walk-remaining}
use agent_session_query.Paging.Sessions.{walk_sessions, walk_sessions-drop, walk_sessions_stalls}
use agent_session_query.Tests.Samples.{messages, runtime}

abbrev latest_users : MessageQuery
latest_users = record {
  limit = pos 2;
  from_end = true;
  at = zero_time;
  offset = 1;
  full = true;
  role = codes "user";
}

read_messages-page_example :
    read_messages runtime latest_users messages
    ≡ page latest_users (matching runtime latest_users messages)
read_messages-page_example = read_messages-page runtime latest_users messages

abbrev call : MessagesCall
call = record {
  limit = 2;
  offset = 0;
  has_cursor = false;
  at = zero_time;
  desc = true;
  full = true;
  role = [];
}

-- Every message passes.
five : length (found runtime messages call) ≡ 5
unfolding outside_anchor other_role bytes_eq
five = refl

walk-remaining_example : walk runtime messages 6 call ≡ some (remaining runtime messages call)
walk-remaining_example =
    walk-remaining runtime messages 6 call (omega arith) refl (omega arith) (omega (arith, five))
      (omega (arith, five))

walk_sessions-drop_example : walk_sessions 5 messages 1 2 ≡ some (drop 1 messages)
walk_sessions-drop_example = walk_sessions-drop 5 messages 1 2 (omega arith) (omega arith)

walk_sessions_stalls_example : walk_sessions 100 messages 1 0 ≡ none
walk_sessions_stalls_example = walk_sessions_stalls 100 messages 1 (omega arith)
