-- ===== src/Paging.antt =====
-- internal/app/mcp.go: the pages of get_messages and list_sessions, and the cursors between them.
pub mod Cursor
pub mod Walk
pub mod Sessions
pub mod Args
use agent_session_query.Prelude.{
  ℕ, zero, suc, ◌+◌, ◌-◌, Bool, true, false, ◌&&◌, List, [], ◌++◌, Option, none, some, Bytes, Time,
  is_zero, ltb, leb, ◌==◌, if◌then◌else◌, not, take, drop, length,
}
use agent_session_query.Prelude.Int.{pos}
use agent_session_query.Json.{Runtime, Fields}
use agent_session_query.Sink.{MessageQuery}
use agent_session_query.Sink.Window.{read_messages}

-- maxMessageOffset
abbrev pub max_message_offset : ℕ
max_message_offset = 20000

-- A slice expression of Go panics when its bounds cross; here they never do.
unfoldable pub page_messages : {A : Type 0} → List A → ℕ → ℕ → Bool → List A
page_messages fetched offset limit true =
    let end = length fetched - offset in drop (end - limit) (take end fetched)
page_messages fetched offset limit false =
    let from = if ltb (length fetched) offset then length fetched else offset in
    if ltb limit (length (drop from fetched))
    then take limit (drop from fetched)
    else drop from fetched

-- The arguments of a get_messages call, read and defaulted.
pub record MessagesCall : Type 0 where
  pub limit : ℕ
  pub offset : ℕ
  pub has_cursor : Bool
  pub at : Time
  pub desc : Bool
  pub full : Bool
  pub role : Bytes

pub record Page (A : Type 0) : Type 0 where
  pub items : List A
  pub total : ℕ
  pub next_cursor : Option ℕ

pub data Reply (A : Type 0) : Type 0 where
  page : Page A → Reply A
  past_deepest_page : Reply A
  anchor_with_cursor : Reply A

-- One message more than the page shows, so that the reply knows whether another page follows.
abbrev pub fetch_query : MessagesCall → MessageQuery
fetch_query c = record {
  limit = pos (c.offset + c.limit + 1);
  from_end = c.desc;
  at = c.at;
  offset = 0;
  full = c.full;
  role = c.role;
}

module _ (rt : Runtime) (ms : List Fields) where
  pub fetch : MessagesCall → List Fields
  fetch c = read_messages rt (fetch_query c) ms

  pub messages_of : MessagesCall → List Fields
  messages_of c = page_messages (fetch c) c.offset c.limit c.desc

  pub message_page : MessagesCall → Page Fields
  message_page c = record {
    items = messages_of c;
    total = length (fetch c);
    next_cursor =
        if ltb 0 c.limit
          && (is_zero c.at
              && (length (messages_of c) == c.limit
                  && ltb (c.offset + length (messages_of c)) (length (fetch c))))
        then some (c.offset + length (messages_of c))
        else none;
  }

  -- The get_messages tool, on a session that was found and with a role that was accepted.
  unfoldable pub get_messages : MessagesCall → Reply Fields
  get_messages c =
      if ltb max_message_offset c.offset
      then past_deepest_page
      else if not (is_zero c.at) && c.has_cursor
      then anchor_with_cursor
      else page (message_page c)

-- list_sessions cuts a page out of the filtered list, which it has whole.
unfoldable pub list_sessions : {A : Type 0} → List A → ℕ → ℕ → Page A
list_sessions sessions cursor limit =
    let total = length sessions in
    let offset = if ltb total cursor then total else cursor in
    let rest = drop offset sessions in
    let cut = if ltb limit (length rest) then take limit rest else rest in
    record {
      items = cut;
      total = total;
      next_cursor = if ltb (offset + length cut) total then some (offset + length cut) else none;
    }
