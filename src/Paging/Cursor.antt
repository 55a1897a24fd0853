-- ===== src/Paging/Cursor.antt =====
-- The pages that get_messages cuts, and a client that follows their cursors.
use native.Mathlib.Decide.{dec_lt}
use agent_session_query.Prelude.{
  ℕ, zero, suc, ◌+◌, ◌-◌, ◌≤◌, ◌<◌, ◌≡◌, refl, sym, ap, ◌∙◌, true, false, List, [], none, some, ◌∷◌,
  is_zero, ltb, if◌then◌else◌, Bool-cases, inl, inr, arith, take, drop, take_last, drop_last,
  length, length-drop,
}
use agent_session_query.Json.{Runtime, Fields}
use agent_session_query.Sink.Match.{matching, page_offset}
use agent_session_query.Sink.Ring.{page_of_ring, take_all, drop_all, length-take_of_le}
use agent_session_query.Sink.Window.{read_messages-page, drop_last_zero}
use agent_session_query.Paging.{
  MessagesCall, fetch_query, fetch, messages_of, message_page, page_messages,
}

module _ {A : Type 0} where
  length-take_min : (n : ℕ) (xs : List A) → length (take n xs) + (length xs - n) ≡ length xs
  length-take_min zero xs = omega arith
  length-take_min (suc n) [] = omega arith
  length-take_min (suc n) (x ∷ xs) = omega (arith, length-take_min n xs)

  take-drop-take :
      (limit offset n : ℕ) (xs : List A)
      → limit + offset ≤ n
      → take limit (drop offset (take n xs)) ≡ take limit (drop offset xs)
  take-drop-take zero offset n xs h = refl
  take-drop-take (suc l) offset zero xs h = absurd (omega arith)
  take-drop-take (suc l) offset (suc n) [] h = refl
  take-drop-take (suc l) zero (suc n) (x ∷ xs) h =
      ap (λ t. x ∷ t) (take-drop-take l 0 n xs (omega arith))
  take-drop-take (suc l) (suc o) (suc n) (x ∷ xs) h = take-drop-take (suc l) o n xs (omega arith)

  page_messages-asc :
      (fetched : List A) (offset limit : ℕ)
      → page_messages fetched offset limit false ≡ take limit (drop offset fetched)
  unfolding page_messages
  page_messages-asc fetched offset limit = ground (
    arith,
    length-drop offset fetched,
    drop_all offset fetched,
    drop_all (length fetched) fetched,
    take_all limit (drop offset fetched),
    take_all limit (drop (length fetched) fetched),
  )

  page_messages-desc :
      (fetched : List A) (offset limit : ℕ)
      → page_messages fetched offset limit true
        ≡ drop (length fetched - offset - limit) (take (length fetched - offset) fetched)
  unfolding page_messages
  page_messages-desc fetched offset limit = refl

module _ (rt : Runtime) (ms : List Fields) (c : MessagesCall) where
  abbrev pub found : List Fields
  found = matching rt (fetch_query c) ms

  no_offset : page_offset (fetch_query c) ≡ 0
  no_offset = ground arith

  fetch-asc : c.desc ≡ false → fetch rt ms c ≡ take (c.offset + c.limit + 1) found
  unfolding fetch
  fetch-asc asc = read_messages-page rt (fetch_query c) ms ∙ rw (no_offset, asc)

  fetch-desc : c.desc ≡ true → fetch rt ms c ≡ take_last (c.offset + c.limit + 1) found
  unfolding fetch
  fetch-desc desc = read_messages-page rt (fetch_query c) ms ∙ rw (no_offset, desc, drop_last_zero)

  length-fetch : length (fetch rt ms c) + (length found - (c.offset + c.limit + 1)) ≡ length found
  length-fetch = elim (Bool-cases c.desc) [
    | inl desc ↦ omega (
      arith,
      ap length (fetch-desc desc),
      length-drop (length found - (c.offset + c.limit + 1)) found,
    )
    | inr asc ↦
        omega (arith, ap length (fetch-asc asc), length-take_min (c.offset + c.limit + 1) found)
  ]

  -- The page, cut from every matching message at once.
  abbrev pub newest : List Fields
  newest = take_last c.limit (drop_last c.offset found)

  abbrev pub oldest : List Fields
  oldest = take c.limit (drop c.offset found)

  abbrev pub cut : List Fields
  cut = if c.desc then newest else oldest

  -- A page is cut where its offset and its limit say, from every message that matches.
  pub messages_of-cut : messages_of rt ms c ≡ cut
  unfolding messages_of
  messages_of-cut = elim (Bool-cases c.desc) [
    | inl desc ↦
        ap (page_messages (fetch rt ms c) c.offset c.limit) desc
        ∙ page_messages-desc (fetch rt ms c) c.offset c.limit
        ∙ page_of_ring (c.offset + c.limit + 1) c.limit c.offset found (fetch rt ms c) (omega arith)
            (fetch-desc desc)
        ∙ sym (ap (λ d. if d then newest else oldest) desc)
    | inr asc ↦
        ap (page_messages (fetch rt ms c) c.offset c.limit) asc
        ∙ page_messages-asc (fetch rt ms c) c.offset c.limit
        ∙ ap (λ f. take c.limit (drop c.offset f)) (fetch-asc asc)
        ∙ take-drop-take c.limit c.offset (c.offset + c.limit + 1) found (omega arith)
        ∙ sym (ap (λ d. if d then newest else oldest) asc)
  ]

  length-cut : c.offset + c.limit < length found → length cut ≡ c.limit
  length-cut h = elim (Bool-cases c.desc) [
    | inl desc ↦
        let kept = length-take_of_le (length found - c.offset) found (omega arith) in
        ap (λ d. length (if d then newest else oldest)) desc
        ∙ omega (
          arith,
          kept,
          length-drop (length (drop_last c.offset found) - c.limit) (drop_last c.offset found),
        )
    | inr asc ↦
        ap (λ d. length (if d then newest else oldest)) asc
        ∙ length-take_of_le c.limit (drop c.offset found)
            (omega (arith, length-drop c.offset found))
  ]

  -- Without an anchor and with a positive limit, a page has a cursor exactly when a matching
  -- message follows it, and it is the offset past the page.
  pub next_cursor_lem :
      0 < c.limit
      → is_zero c.at ≡ true
      → (message_page rt ms c).next_cursor
        ≡ (if ltb (c.offset + c.limit) (length found) then some (c.offset + c.limit) else none)
  unfolding message_page
  next_cursor_lem pos free = elim (dec_lt (c.offset + c.limit) (length found)) [
    | yes more ↦ ground (arith, ap length messages_of-cut, length-cut more, length-fetch)
    | no last ↦ ground (arith, length-fetch)
  ]
