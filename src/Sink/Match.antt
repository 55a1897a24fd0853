-- ===== src/Sink/Match.antt =====
-- The messages a query speaks of, its page of them, and what `add` does with a message.
use agent_session_query.Prelude.{
  ℕ, ◌<◌, Bool, true, false, not, ◌&&◌, List, ◌∷◌, ◌≡◌, refl, ap, arith, is_zero, if◌then◌else◌,
  take, drop, take_last, drop_last, keep,
}
use agent_session_query.Prelude.Int.{ℤ, to_nat}
use agent_session_query.Json.{Runtime, Fields}
use agent_session_query.Sink.{
  MessageQuery, MessageSink, other_role, outside_anchor, add, add_newest, add_oldest, collect,
}

-- The message has the role asked for, and lies on the right side of the anchor.
abbrev pub passes : Runtime → MessageQuery → Fields → Bool
passes rt q m = not (other_role rt q m) && not (outside_anchor rt q m)

abbrev pub matching : Runtime → MessageQuery → List Fields → List Fields
matching rt q = keep (passes rt q)

-- The offset counts only where there is no anchor.
abbrev pub page_offset : MessageQuery → ℕ
page_offset q = if is_zero q.at then q.offset else 0

-- From the old end: skip the offset and take the limit. From the new end: the same, backwards.
abbrev pub page : MessageQuery → List Fields → List Fields
page q found =
    if q.from_end
    then take_last (to_nat q.limit) (drop_last (page_offset q) found)
    else take (to_nat q.limit) (drop (page_offset q) found)

module _ (rt : Runtime) (s : MessageSink) (m : Fields) where
  pub add_other : 0 < s.limit → passes rt s.q m ≡ false → add rt s m ≡ (s, true)
  unfolding add
  add_other h p = ground arith

  pub add_match :
      0 < s.limit
      → passes rt s.q m ≡ true
      → add rt s m ≡ (if s.q.from_end then add_newest s m else add_oldest s m)
  unfolding add
  add_match h p = ground arith

  pub collect_more :
      (s' : MessageSink) (ms : List Fields)
      → add rt s m ≡ (s', true)
      → collect rt s (m ∷ ms) ≡ collect rt s' ms
  unfolding collect
  collect_more s' ms e = rw (e, collect) (ap (λ (r : MessageSink × Bool). collect rt r.0 ms) e)

  pub collect_done :
      (s' : MessageSink) (ms : List Fields) → add rt s m ≡ (s', false) → collect rt s (m ∷ ms) ≡ s'
  unfolding collect
  collect_done s' ms e = rw (e, collect) (ap (λ (r : MessageSink × Bool). r.0) e)

-- Which messages match does not depend on the limit and the offset.
pub matching_same :
    (rt : Runtime) (q : MessageQuery) (l : ℤ) (o : ℕ) (ms : List Fields)
    → matching rt (record q { limit = l; offset = o }) ms ≡ matching rt q ms
unfolding other_role outside_anchor
matching_same rt q l o ms = refl
