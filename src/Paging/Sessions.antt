-- ===== src/Paging/Sessions.antt =====
-- A client that follows the cursors of list_sessions, over a list that does not change.
use agent_session_query.Prelude.{
  ℕ, zero, suc, ◌+◌, ◌-◌, ◌<◌, ◌≡◌, refl, List, ◌++◌, Option, none, some, ltb, if◌then◌else◌, arith,
  take, drop, length, length-drop, take-append-drop, drop-drop,
}
use agent_session_query.Sink.Ring.{take_all, drop_all, length-take_of_le}
use agent_session_query.Paging.{list_sessions}

module _ {A : Type 0} where
  abbrev follow : (ℕ → Option (List A)) → List A → Option ℕ → Option (List A)
  follow next items none = some items
  follow next items (some o) = elim (next o) [ none ↦ none | some rest ↦ some (items ++ rest) ]

  -- `none` when the fuel runs out before the cursors do.
  unfoldable pub walk_sessions : ℕ → List A → ℕ → ℕ → Option (List A)
  walk_sessions zero xs cursor limit = none
  walk_sessions (suc f) xs cursor limit =
      let p = list_sessions xs cursor limit in
      follow (λ o. walk_sessions f xs o limit) p.items p.next_cursor

  items_lem :
      (xs : List A) (cursor limit : ℕ)
      → (list_sessions xs cursor limit).items ≡ take limit (drop cursor xs)
  unfolding list_sessions
  items_lem xs cursor limit = ground (
    arith,
    length-drop cursor xs,
    drop_all cursor xs,
    drop_all (length xs) xs,
    take_all limit (drop cursor xs),
    take_all limit (drop (length xs) xs),
  )

  next_lem :
      (xs : List A) (cursor limit : ℕ)
      → (list_sessions xs cursor limit).next_cursor
        ≡ (if ltb (cursor + limit) (length xs) then some (cursor + limit) else none)
  unfolding list_sessions
  next_lem xs cursor limit = ground (
    arith,
    length-drop cursor xs,
    drop_all (length xs) xs,
    length-drop (length xs) xs,
    length-take_of_le limit (drop cursor xs),
  )

  step :
      (f : ℕ) (xs : List A) (cursor limit : ℕ)
      → walk_sessions (suc f) xs cursor limit
        ≡ follow
            (λ o. walk_sessions f xs o limit)
            (take limit (drop cursor xs))
            (if ltb (cursor + limit) (length xs) then some (cursor + limit) else none)
  unfolding walk_sessions
  step f xs cursor limit = rw (items_lem, next_lem)

  -- With a positive limit, following the cursors of list_sessions gives every session from the
  -- cursor on once and in order, and it ends: fuel above the number of sessions past the cursor is
  -- enough.
  pub walk_sessions-drop :
      (f : ℕ) (xs : List A) (cursor limit : ℕ)
      → 0 < limit
      → length xs - cursor < f
      → walk_sessions f xs cursor limit ≡ some (drop cursor xs)
  walk_sessions-drop zero xs cursor limit pos fuel = absurd (omega arith)
  walk_sessions-drop (suc f) xs cursor limit pos fuel = ground (
    arith,
    step f xs cursor limit,
    walk_sessions-drop f xs (cursor + limit) limit pos,
    take_all limit (drop cursor xs),
    length-drop cursor xs,
    drop-drop limit cursor xs,
    take-append-drop limit (drop cursor xs),
  )

  -- With limit 0, while a session is left past the cursor, following the cursors of list_sessions
  -- never ends, whatever the fuel.
  pub walk_sessions_stalls :
      (f : ℕ) (xs : List A) (cursor : ℕ) → cursor < length xs → walk_sessions f xs cursor 0 ≡ none
  walk_sessions_stalls zero xs cursor h = unfold walk_sessions in refl
  walk_sessions_stalls (suc f) xs cursor h =
      let e : cursor + 0 ≡ cursor = omega arith in
      ground (arith, step f xs cursor 0, walk_sessions_stalls f xs cursor h, e)
