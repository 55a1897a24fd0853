-- ===== src/Paging/Walk.antt =====
-- A client that follows the cursors of get_messages until a page has none.
use native.Mathlib.Decide.{dec_lt}
use agent_session_query.Prelude.{
  take-take, ℕ, zero, suc, ◌+◌, ◌-◌, ◌≤◌, ◌<◌, ◌≡◌, ap, ◌∙◌, Bool, true, false, List, ◌++◌, Option,
  none, some, is_zero, lt→ltb, if◌then◌else◌, arith, take, drop, take_last, drop_last, length,
  length-drop, take-append-drop, drop-drop,
}
use agent_session_query.Prelude.Int.{pos}
use agent_session_query.Json.{Runtime, Fields}
use agent_session_query.Sink.Match.{matching_same}
use agent_session_query.Sink.Ring.{take_all, length-take_of_le}
use agent_session_query.Paging.{
  MessagesCall, Reply, past_deepest_page, anchor_with_cursor, fetch_query, messages_of,
  message_page, get_messages, max_message_offset,
}
use agent_session_query.Paging.Cursor.{found, cut, messages_of-cut, next_cursor_lem}

-- The call for the next page.
abbrev pub at_cursor : MessagesCall → ℕ → MessagesCall
at_cursor c o = record c { offset = o; has_cursor = true }

-- Later pages of an ascending read come after, those of a descending one before.
abbrev join : Bool → List Fields → List Fields → List Fields
join true items rest = rest ++ items
join false items rest = items ++ rest

abbrev joined : Bool → List Fields → Option (List Fields) → Option (List Fields)
joined d items none = none
joined d items (some rest) = some (join d items rest)

-- What stands at an offset and behind it, and the page there, in either direction.
abbrev rest_of : Bool → ℕ → List Fields → List Fields
rest_of d o xs = if d then drop_last o xs else drop o xs

abbrev page_of : Bool → ℕ → ℕ → List Fields → List Fields
page_of d l o xs = if d then take_last l (drop_last o xs) else take l (drop o xs)

whole_page :
    (d : Bool) (l o : ℕ) (xs : List Fields) → length xs ≤ o + l → page_of d l o xs ≡ rest_of d o xs
whole_page true l o xs h =
    let n = length-take_of_le (length xs - o) xs (omega arith) in
    let z : length (drop_last o xs) - l ≡ 0 = omega (arith, n) in rw z
whole_page false l o xs h = take_all l (drop o xs) (omega (arith, length-drop o xs))

page_and_rest :
    (d : Bool) (l o : ℕ) (xs : List Fields)
    → o + l ≤ length xs
    → join d (page_of d l o xs) (rest_of d (o + l) xs) ≡ rest_of d o xs
page_and_rest true l o xs h =
    let n = length-take_of_le (length xs - o) xs (omega arith) in
    let e : length (drop_last o xs) - l ≡ length xs - (o + l) = omega (arith, n) in
    rw (e, ← take-take (length xs - (o + l)) (length xs - o) xs (omega arith))
      (take-append-drop (length xs - (o + l)) (drop_last o xs))
page_and_rest false l o xs h = rw (← drop-drop l o xs) (take-append-drop l (drop o xs))

-- What the client makes of a page, given what it will make of the call at a cursor.
abbrev follow_page :
    (ℕ → Option (List Fields)) → Bool → List Fields → Option ℕ → Option (List Fields)
follow_page next d items none = some items
follow_page next d items (some o) = joined d items (next o)

abbrev follow : (ℕ → Option (List Fields)) → Bool → Reply Fields → Option (List Fields)
follow next d past_deepest_page = none
follow next d anchor_with_cursor = none
follow next d (Reply.page p) = follow_page next d p.items p.next_cursor

module _ (rt : Runtime) (ms : List Fields) where
  -- `none` when a call is refused, or when the fuel runs out before the cursors do.
  unfoldable pub walk : ℕ → MessagesCall → Option (List Fields)
  walk zero c = none
  walk (suc f) c = follow (λ o. walk f (at_cursor c o)) c.desc (get_messages rt ms c)

  -- What a page and the pages behind it hold.
  abbrev pub remaining : MessagesCall → List Fields
  remaining c = rest_of c.desc c.offset (found rt ms c)

  found_at : (c : MessagesCall) (o : ℕ) → found rt ms (at_cursor c o) ≡ found rt ms c
  found_at c o = matching_same rt (fetch_query c) (pos (o + c.limit + 1)) 0 ms

  -- A page of an unanchored read that is served: its items, and its cursor.
  served :
      (c : MessagesCall)
      → c.offset ≤ max_message_offset
      → is_zero c.at ≡ true
      → get_messages rt ms c ≡ Reply.page (message_page rt ms c)
  unfolding get_messages
  served c deep free = ground arith

  walk_last :
      (f : ℕ) (c : MessagesCall)
      → get_messages rt ms c ≡ Reply.page (message_page rt ms c)
      → (message_page rt ms c).next_cursor ≡ none
      → walk (suc f) c ≡ some (messages_of rt ms c)
  unfolding walk message_page
  walk_last f c s n =
      let next = λ (o : ℕ). walk f (at_cursor c o) in
      ap (follow next c.desc) s ∙ ap (follow_page next c.desc (messages_of rt ms c)) n

  walk_on :
      (f : ℕ) (c : MessagesCall) (o : ℕ)
      → get_messages rt ms c ≡ Reply.page (message_page rt ms c)
      → (message_page rt ms c).next_cursor ≡ some o
      → walk (suc f) c ≡ joined c.desc (messages_of rt ms c) (walk f (at_cursor c o))
  unfolding walk message_page
  walk_on f c o s n =
      let next = λ (o' : ℕ). walk f (at_cursor c o') in
      ap (follow next c.desc) s ∙ ap (follow_page next c.desc (messages_of rt ms c)) n

  -- Following the cursors of an unanchored read with a positive limit gives every matching message
  -- from the offset on exactly once, in order, in either direction, and it ends: fuel above the
  -- number of matching messages past the offset is enough. The offset and the number of matching
  -- messages are at most the deepest offset served.
  pub walk-remaining :
      (f : ℕ) (c : MessagesCall)
      → 0 < c.limit
      → is_zero c.at ≡ true
      → c.offset ≤ max_message_offset
      → length (found rt ms c) ≤ max_message_offset
      → length (found rt ms c) - c.offset < f
      → walk f c ≡ some (remaining c)
  walk-remaining zero c lim free deep fits fuel = absurd (omega arith)
  walk-remaining (suc f) c lim free deep fits fuel =
      let all = found rt ms c in
      let o = c.offset + c.limit in
      let s = served c deep free in
      let next = next_cursor_lem rt ms c lim free in
      elim (dec_lt o (length all)) [
        | no last ↦
            walk_last f c s (next ∙ ground arith)
            ∙ ap some
                (messages_of-cut rt ms c ∙ whole_page c.desc c.limit c.offset all (omega arith))
        | yes more ↦
            let rec =
              walk-remaining f (at_cursor c o) lim free (omega arith) (rw found_at fits)
                (rw found_at (omega arith)) in
            walk_on f c o s (next ∙ rw (lt→ltb _ _ more))
            ∙ ap (joined c.desc (messages_of rt ms c)) rec
            ∙ ap (λ x. some (join c.desc x (remaining (at_cursor c o)))) (messages_of-cut rt ms c)
            ∙ ap (λ x. some (join c.desc (cut rt ms c) (rest_of c.desc o x))) (found_at c o)
            ∙ ap some (page_and_rest c.desc c.limit c.offset all (omega arith))
      ]
