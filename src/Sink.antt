-- ===== src/Sink.antt =====
-- internal/source/source.go: MessageQuery and messageSink, the window of messages that every
-- source cuts out of a transcript. The proofs are in the modules below.
pub mod Ring
pub mod Match
mod Ascending
mod Descending
pub mod Window
use agent_session_query.Prelude.{
  ℕ, ◌+◌, ◌-◌, ◌%◌, Bool, true, false, not, ◌&&◌, List, [], ◌∷◌, ◌++◌, Option, none, some, Bytes,
  codes, Time, is_zero, after, before, ltb, leb, ◌==◌, if◌then◌else◌, bytes_eq, length, set, take,
  drop,
}
use agent_session_query.Prelude.Int.{ℤ, to_nat}
use agent_session_query.Json.{Runtime, Fields, get, to_str, parse_timestamp}

-- `offset` is not negative: every caller clamps it where it enters.
pub record MessageQuery : Type 0 where
  pub limit : ℤ
  pub from_end : Bool
  pub at : Time
  pub offset : ℕ
  pub full : Bool
  pub role : Bytes

-- `limit` is the query's, with a negative one read as 0.
pub record MessageSink : Type 0 where
  pub q : MessageQuery
  pub limit : ℕ
  pub items : List Fields
  pub start : ℕ
  pub skipped : ℕ
  pub capacity : ℕ

unfoldable pub new_message_sink : MessageQuery → MessageSink
new_message_sink q =
    let limit = to_nat q.limit in
    record {
      q = q;
      limit = limit;
      items = [];
      start = 0;
      skipped = 0;
      capacity = if q.from_end && is_zero q.at then limit + q.offset else limit;
    }

module _ (rt : Runtime) where
  -- The message falls on the wrong side of the anchor; one with no readable time never does.
  unfoldable pub outside_anchor : MessageQuery → Fields → Bool
  outside_anchor q m =
      if is_zero q.at
      then false
      else elim (parse_timestamp rt (to_str rt (get m (codes "timestamp")))) [
        | none ↦ false
        | some ts ↦ if q.from_end then after ts q.at else before ts q.at
      ]

  unfoldable pub other_role : MessageQuery → Fields → Bool
  other_role q m =
      if bytes_eq q.role [] then false else not (bytes_eq (to_str rt (get m (codes "role"))) q.role)

-- The ascending half of `add`: skip the offset, then fill up to the limit.
unfoldable pub add_oldest : MessageSink → Fields → MessageSink × Bool
add_oldest s m =
    if is_zero s.q.at && ltb s.skipped s.q.offset
    then (record s { skipped = s.skipped + 1 }, true)
    else if leb s.limit (length s.items)
    then (s, false)
    else (record s { items = s.items ++ m ∷ [] }, ltb (length (s.items ++ m ∷ [])) s.limit)

-- The descending half: append while there is room, then overwrite the oldest.
unfoldable pub add_newest : MessageSink → Fields → MessageSink × Bool
add_newest s m =
    if ltb (length s.items) s.capacity
    then (record s { items = s.items ++ m ∷ [] }, true)
    else (record s { items = set s.items s.start m; start = (s.start + 1) % s.capacity }, true)

module _ (rt : Runtime) where
  unfoldable pub add : MessageSink → Fields → MessageSink × Bool
  add s m =
      if s.limit == 0
      then (s, false)
      else if other_role rt s.q m
      then (s, true)
      else if outside_anchor rt s.q m
      then (s, true)
      else if s.q.from_end
      then add_newest s m
      else add_oldest s m

  -- A source's scan: each message of the file in turn, until `add` says that there are enough.
  unfoldable pub collect : MessageSink → List Fields → MessageSink
  collect s [] = s
  collect s (m ∷ ms) = elim (add s m).1 [ true ↦ collect (add s m).0 ms | false ↦ (add s m).0 ]

-- The ring in the order in which the messages came.
unfoldable pub ordered : MessageSink → List Fields
ordered s =
    if s.q.from_end && not (s.start == 0)
    then drop s.start s.items ++ take s.start s.items
    else s.items

unfoldable pub result : MessageSink → List Fields
result s =
    if length s.items == 0
    then []
    else if s.q.from_end && (is_zero s.q.at && ltb 0 s.q.offset)
    then (let end = length (ordered s) - s.q.offset in
        if end == 0 then [] else drop (end - s.limit) (take end (ordered s)))
    else ordered s
