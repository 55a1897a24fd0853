-- ===== src/Sink/Ascending.antt =====
-- The scan from the oldest end.
use native.Mathlib.Decide.{dec_lt}
use agent_session_query.Prelude.{
  ◌+◌, ◌-◌, ◌≤◌, ◌<◌, suc, true, false, List, [], ◌∷◌, ◌++◌, append_assoc, append-nil, ◌≡◌, refl,
  ◌∙◌, ltb, lt→ltb, arith, Bool-cases, inl, inr, take, drop, length, length-append, take-nil,
  drop-nil,
}
use agent_session_query.Json.{Runtime, Fields}
use agent_session_query.Sink.{MessageSink, add, add_oldest, collect}
use agent_session_query.Sink.Match.{
  matching, page_offset, passes, add_other, add_match, collect_more, collect_done,
}

module _ (s : MessageSink) (m : Fields) where
  oldest_skips :
      s.skipped < page_offset s.q → add_oldest s m ≡ (record s { skipped = s.skipped + 1 }, true)
  unfolding add_oldest
  oldest_skips h = ground arith

  oldest_takes :
      page_offset s.q ≤ s.skipped
      → length s.items < s.limit
      → add_oldest s m ≡ (record s { items = s.items ++ m ∷ [] }, ltb (length s.items + 1) s.limit)
  unfolding add_oldest
  oldest_takes h room = ground (arith, length-append s.items (m ∷ []))

module _ where
  unfoldable pub Scanned : MessageSink → MessageSink → List Fields → Type 0
  Scanned s s' found =
      (s'.items
        ≡ s.items ++ take (s.limit - length s.items) (drop (page_offset s.q - s.skipped) found))
      × (s'.q ≡ s.q)

  skip_one :
      (s s' : MessageSink) (m : Fields) (found : List Fields)
      → s.skipped < page_offset s.q
      → Scanned (record s { skipped = s.skipped + 1 }) s' found
      → Scanned s s' (m ∷ found)
  unfolding Scanned
  skip_one s s' m found h r =
      let e : page_offset s.q - s.skipped ≡ suc (page_offset s.q - (s.skipped + 1)) = omega arith in
      rw e r

  take_one :
      (s s' : MessageSink) (m : Fields) (found : List Fields)
      → page_offset s.q ≤ s.skipped
      → length s.items + 1 < s.limit
      → Scanned (record s { items = s.items ++ m ∷ [] }) s' found
      → Scanned s s' (m ∷ found)
  unfolding Scanned
  take_one s s' m found h k r =
      let e : page_offset s.q - s.skipped ≡ 0 = omega arith in
      let f : s.limit - length s.items ≡ suc (s.limit - length (s.items ++ m ∷ [])) =
        omega (arith, length-append s.items (m ∷ [])) in
      rw (e, f) ((rw (e, append_assoc) at (r.0)), r.1)

  -- The message that fills the page ends the scan.
  take_last_one :
      (s : MessageSink) (m : Fields) (found : List Fields)
      → page_offset s.q ≤ s.skipped
      → length s.items + 1 ≡ s.limit
      → Scanned s (record s { items = s.items ++ m ∷ [] }) (m ∷ found)
  unfolding Scanned
  take_last_one s m found h k =
      let e : page_offset s.q - s.skipped ≡ 0 = omega arith in
      let f : s.limit - length s.items ≡ 1 = omega arith in rw (e, f) (refl, refl)

module _ (rt : Runtime) where
  -- What the scan adds to a sink that is not full: up to the limit, past what is left to skip.
  pub collect-ascending :
      (s : MessageSink) (ms : List Fields)
      → s.q.from_end ≡ false
      → length s.items < s.limit
      → Scanned s (collect rt s ms) (matching rt s.q ms)
  collect-ascending s [] asc room =
      unfold collect Scanned in
      (rw (drop-nil (page_offset s.q - s.skipped), take-nil, append-nil), refl)
  collect-ascending s (m ∷ ms) asc room = elim (Bool-cases (passes rt s.q m)) [
    | inr other ↦
        rw (other, collect_more rt s m s ms (add_other rt s m (omega arith) other))
          (collect-ascending s ms asc room)
    | inl match ↦
        let added : add rt s m ≡ add_oldest s m = rw (add_match rt s m (omega arith) match, asc) in
        rw match (elim (dec_lt s.skipped (page_offset s.q)) [
          | yes left ↦
              rw (collect_more rt s m _ ms (added ∙ oldest_skips s m left))
                (skip_one s _ m _ left (collect-ascending _ ms asc room))
          | no none_left ↦ elim (dec_lt (length s.items + 1) s.limit) [
            | yes more ↦
                rw
                  (collect_more rt s m (record s { items = s.items ++ m ∷ [] }) ms
                    (added ∙ oldest_takes s m (omega arith) room ∙ rw (lt→ltb _ _ more)))
                  (take_one s _ m _ (omega arith) more (
                    collect-ascending (record s { items = s.items ++ m ∷ [] }) ms asc
                      (omega (arith, length-append s.items (m ∷ [])))))
            | no full ↦
                rw
                  (collect_done rt s m (record s { items = s.items ++ m ∷ [] }) ms
                    (added ∙ oldest_takes s m (omega arith) room ∙ ground arith))
                  (take_last_one s m _ (omega arith) (omega arith))
          ]
        ])
  ]
