-- ===== src/Sink/Window.antt =====
-- What a scan through `messageSink` returns, against a description with no buffer: the messages
-- that match the query, and the page of them that it asks for.
use native.Mathlib.Decide.{dec_lt}
use agent_session_query.Prelude.{
  ◌+◌, ◌-◌, ◌<◌, true, false, ◌&&◌, List, [], ◌∷◌, append-nil, ◌≡◌, refl, sym, ◌∙◌, arith,
  Bool-cases, inl, inr, is_zero, if◌then◌else◌, ltb, ◌==◌, ==_iff, take, drop, take_last, drop-nil,
  take-nil, ap, drop_last, length,
}
use agent_session_query.Prelude.Int.{to_nat}
use agent_session_query.Json.{Runtime, Fields}
use agent_session_query.Sink.{
  MessageQuery, MessageSink, add, new_message_sink, collect, ordered, result,
}
use agent_session_query.Sink.Match.{collect_done, matching, page, page_offset}
use agent_session_query.Sink.Ring.{page_of_ring, drop_all, take_all, unroll}
use agent_session_query.Sink.Ascending
use agent_session_query.Sink.Ascending.{collect-ascending}
use agent_session_query.Sink.Descending.{IsRing, Scanned, collect-descending}

ordered-unroll : (s : MessageSink) → s.q.from_end ≡ true → ordered s ≡ unroll s.items s.start
unfolding ordered
ordered-unroll s desc = elim (Bool-cases (s.start == 0)) [
  | inl z ↦ let e : s.start ≡ 0 = (==_iff s.start 0).0 z in rw (desc, z, e, append-nil)
  | inr n ↦ rw (desc, n)
]

nil_of_length : (xs : List Fields) → length xs ≡ 0 → xs ≡ []
nil_of_length [] e = refl
nil_of_length (x ∷ xs) e = absurd (omega arith)

ordered-nil : (s : MessageSink) → s.items ≡ [] → ordered s ≡ []
unfolding ordered
ordered-nil s e = ground (arith, drop-nil {A = Fields} s.start, take-nil {A = Fields} s.start)

-- The page is cut from the buffer in order, whether it is empty or not.
result-ordered :
    (s : MessageSink)
    → s.q.from_end ≡ true
    → result s ≡ (
        if is_zero s.q.at && ltb 0 s.q.offset
        then drop
            (length (ordered s) - s.q.offset - s.limit)
            (take (length (ordered s) - s.q.offset) (ordered s))
        else ordered s)
unfolding result
result-ordered s desc = ground (
  arith,
  nil_of_length s.items,
  ordered-nil s,
  drop-nil {A = Fields} (length (ordered s) - s.q.offset - s.limit),
  take-nil {A = Fields} (length (ordered s) - s.q.offset),
)

result-ascending : (s : MessageSink) → s.q.from_end ≡ false → result s ≡ s.items
unfolding result ordered
result-ascending s asc = ground (arith, nil_of_length s.items)

pub drop_last_zero : (found : List Fields) → drop_last 0 found ≡ found
drop_last_zero found = take_all (length found - 0) found (omega arith)

page_descending :
    (q : MessageQuery) (found : List Fields)
    → q.from_end ≡ true
    → page q found ≡ take_last (to_nat q.limit) (drop_last (page_offset q) found)
page_descending q found desc = rw desc

-- A full ring, or one that holds every matching message, is cut to the page of them.
result-descending :
    (s : MessageSink) (found : List Fields)
    → s.limit ≡ to_nat s.q.limit
    → s.capacity ≡ s.limit + page_offset s.q
    → s.q.from_end ≡ true
    → IsRing s found
    → result s ≡ page s.q found
result-descending s found el ec desc r =
    let ring : ordered s ≡ take_last (s.limit + page_offset s.q) found =
      ordered-unroll s desc ∙ r.shown ∙ ap (λ c. take_last c found) ec in
    rw (result-ordered s desc, page_descending s.q found desc, ← el)
      (elim (Bool-cases (is_zero s.q.at && ltb 0 s.q.offset)) [
        | inl paged ↦
            let e : page_offset s.q ≡ s.q.offset = ground arith in
            rw (paged, e)
              (page_of_ring (s.limit + s.q.offset) s.limit s.q.offset found (ordered s)
                (omega arith) (rw e at (ring)))
        | inr whole ↦
            let e : page_offset s.q ≡ 0 = ground arith in
            let n : s.limit + 0 ≡ s.limit = omega arith in
            rw (whole, e, drop_last_zero) (rw (e, n) at (ring))
      ])

scan_none : (rt : Runtime) (s : MessageSink) (ms : List Fields) → s.limit ≡ 0 → collect rt s ms ≡ s
unfolding collect add
scan_none rt s [] z = refl
scan_none rt s (m ∷ ms) z = collect_done rt s m s ms (rw z)

page_none : (q : MessageQuery) (found : List Fields) → to_nat q.limit ≡ 0 → page q found ≡ []
page_none q found z =
    let kept = drop_last (page_offset q) found in ground (arith, z, drop_all (length kept - 0) kept)

-- What a source returns for a query: its scan through the sink, and the sink's result.
unfoldable pub read_messages : Runtime → MessageQuery → List Fields → List Fields
read_messages rt q ms = result (collect rt (new_message_sink q) ms)

module _ (rt : Runtime) (q : MessageQuery) (ms : List Fields) where
  scan : MessageSink
  scan = collect rt (new_message_sink q) ms

  page_of_ascending :
      0 < to_nat q.limit → q.from_end ≡ false → result scan ≡ page q (matching rt q ms)
  unfolding scan new_message_sink Ascending.Scanned
  page_of_ascending lim asc =
      let (items, same) = collect-ascending rt (new_message_sink q) ms asc lim in
      result-ascending scan (rw same asc) ∙ items ∙ rw asc (ground arith)

  sink_query : (new_message_sink q).q ≡ q
  unfolding new_message_sink
  sink_query = refl

  sink_limit : (new_message_sink q).limit ≡ to_nat q.limit
  unfolding new_message_sink
  sink_limit = refl

  empty-IsRing : IsRing (new_message_sink q) []
  unfolding new_message_sink
  empty-IsRing = record { shown = rw drop-nil; fill = inl (refl, omega arith, refl) }

  scanned :
      0 < to_nat q.limit
      → q.from_end ≡ true
      → Scanned rt (new_message_sink q) scan (matching rt q ms)
  unfolding scan new_message_sink
  scanned lim desc =
      collect-descending rt (new_message_sink q) [] ms desc lim (ground arith) empty-IsRing

  ring_capacity :
      q.from_end ≡ true → (new_message_sink q).capacity ≡ (new_message_sink q).limit + page_offset q
  unfolding new_message_sink
  ring_capacity desc = ground arith

  page_of_descending :
      0 < to_nat q.limit → q.from_end ≡ true → result scan ≡ page q (matching rt q ms)
  page_of_descending lim desc =
      let r = scanned lim desc in
      let (eq, el, ec) = r.same in
      let own : scan.q ≡ q = eq ∙ sink_query in
      let lim_own : scan.limit ≡ to_nat q.limit = el ∙ sink_limit in
      let limit : scan.limit ≡ to_nat scan.q.limit = rw own lim_own in
      let capacity : scan.capacity ≡ scan.limit + page_offset scan.q =
        rw own (ec ∙ ring_capacity desc ∙ ap (λ n. n + page_offset q) (sym el)) in
      result-descending scan (matching rt q ms) limit capacity (rw own desc) r.ring
      ∙ ap (λ x. page x (matching rt q ms)) own

-- A read returns the page of the matching messages that the query asks for, from either end, with
-- or without an anchor, whatever the limit and the offset.
pub read_messages-page :
    (rt : Runtime) (q : MessageQuery) (ms : List Fields)
    → read_messages rt q ms ≡ page q (matching rt q ms)
unfolding read_messages scan new_message_sink result
read_messages-page rt q ms = elim (dec_lt 0 (to_nat q.limit)) [
  | yes lim ↦ elim (Bool-cases q.from_end) [
    | inl desc ↦ page_of_descending rt q ms lim desc
    | inr asc ↦ page_of_ascending rt q ms lim asc
  ]
  | no zero_limit ↦
      let z : to_nat q.limit ≡ 0 = omega arith in
      ap result (scan_none rt (new_message_sink q) ms z) ∙ sym (page_none q (matching rt q ms) z)
]
