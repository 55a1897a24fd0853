-- ===== src/Sink/Descending.antt =====
-- The scan from the newest end: the ring always holds the last matching messages.
use native.Mathlib.Decide.{dec_lt}
use native.Mathlib.Nat.{mod-lt}
use agent_session_query.Prelude.{
  ◌+◌, ◌%◌, ◌≤◌, ◌<◌, true, List, [], ◌∷◌, ◌++◌, append_assoc, append-nil, ◌≡◌, refl, sym, ◌∙◌, ◌⊎◌,
  arith, Bool-cases, inl, inr, lt→ltb, length, set, length-append, take_last,
}
use agent_session_query.Json.{Runtime, Fields}
use agent_session_query.Sink.{MessageSink, add, add_newest, collect}
use agent_session_query.Sink.Match.{matching, passes, add_other, add_match, collect_more}
use agent_session_query.Sink.Ring.{unroll, unroll-set, length-set, take_last_step, take_last_all}

-- The buffer is still filling, or it is a full ring.
abbrev pub Fill : MessageSink → List Fields → Type 0
Fill s seen =
    (length s.items ≡ length seen) × (length seen ≤ s.capacity) × (s.start ≡ 0)
    ⊎ (length s.items ≡ s.capacity) × (s.capacity ≤ length seen) × (s.start < s.capacity)

-- In order, the buffer is the last `capacity` of the messages seen.
pub record IsRing (s : MessageSink) (seen : List Fields) : Type 0 where
  pub shown : unroll s.items s.start ≡ take_last s.capacity seen
  pub fill : Fill s seen

module _ (s : MessageSink) (seen : List Fields) (m : Fields) (h : IsRing s seen) where
  filled : s.start ≡ 0 → length seen ≤ s.capacity → s.items ≡ seen
  filled z le = sym (append-nil s.items) ∙ rw z at (h.shown) ∙ take_last_all s.capacity seen le

  add_newest_fills :
      length s.items < s.capacity
      → length s.items ≡ length seen
      → s.start ≡ 0
      → IsRing (record s { items = s.items ++ m ∷ [] }) (seen ++ m ∷ [])
  add_newest_fills room n z = record {
    shown =
        rw (z, append-nil, filled z (omega arith))
          (sym (
            take_last_all s.capacity (seen ++ m ∷ [])
              (omega (arith, length-append seen (m ∷ [])))));
    fill = inl (
      omega (arith, length-append s.items (m ∷ []), length-append seen (m ∷ [])),
      omega (arith, length-append seen (m ∷ [])),
      z,
    );
  }

  add_newest_overwrites :
      0 < s.capacity
      → length s.items ≡ s.capacity
      → s.capacity ≤ length seen
      → s.start < s.capacity
      → IsRing
          (record s { items = set s.items s.start m; start = (s.start + 1) % s.capacity })
          (seen ++ m ∷ [])
  add_newest_overwrites pos n le lt = record {
    shown =
        unroll-set s.items s.start s.capacity m lt n
        ∙ rw (h.shown) (sym (take_last_step s.capacity seen m pos le));
    fill = inr (
      omega (arith, length-set s.items s.start m),
      omega (arith, length-append seen (m ∷ [])),
      omega (arith, mod-lt (s.start + 1) pos),
    );
  }

-- One round keeps the ring, whichever half of `add_newest` runs, and never ends the scan.
record Rolls (s : MessageSink) (m : Fields) (seen : List Fields) : Type 0 where
  next : MessageSink
  added : add_newest s m ≡ (next, true)
  ring : IsRing next (seen ++ m ∷ [])
  same : (next.q ≡ s.q) × (next.limit ≡ s.limit) × (next.capacity ≡ s.capacity)

add_newest-Rolls :
    (s : MessageSink) (seen : List Fields) (m : Fields)
    → 0 < s.capacity
    → IsRing s seen
    → Fill s seen
    → Rolls s m seen
unfolding add_newest
add_newest-Rolls s seen m pos h (inl (n, le, z)) = elim (dec_lt (length s.items) s.capacity) [
  | yes room ↦ record {
    next = record s { items = s.items ++ m ∷ [] };
    added = rw (lt→ltb _ _ room);
    ring = add_newest_fills s seen m h room n z;
    same = (refl, refl, refl);
  }
  | no full ↦ record {
    next = record s { items = set s.items s.start m; start = (s.start + 1) % s.capacity };
    added = ground arith;
    ring = add_newest_overwrites s seen m h pos (omega arith) (omega arith) (omega arith);
    same = (refl, refl, refl);
  }
]
add_newest-Rolls s seen m pos h (inr (n, le, lt)) = record {
  next = record s { items = set s.items s.start m; start = (s.start + 1) % s.capacity };
  added = ground arith;
  ring = add_newest_overwrites s seen m h pos n le lt;
  same = (refl, refl, refl);
}

module _ (rt : Runtime) where
  -- The whole scan, from a sink whose ring is up to date.
  pub record Scanned (s s' : MessageSink) (seen : List Fields) : Type 0 where
    pub ring : IsRing s' seen
    pub same : (s'.q ≡ s.q) × (s'.limit ≡ s.limit) × (s'.capacity ≡ s.capacity)

  pub collect-descending :
      (s : MessageSink) (seen ms : List Fields)
      → s.q.from_end ≡ true
      → 0 < s.limit
      → 0 < s.capacity
      → IsRing s seen
      → Scanned s (collect rt s ms) (seen ++ matching rt s.q ms)
  unfolding collect
  collect-descending s seen [] desc lim pos h =
      rw append-nil (record { ring = h; same = (refl, refl, refl) })
  collect-descending s seen (m ∷ ms) desc lim pos h = elim (Bool-cases (passes rt s.q m)) [
    | inr other ↦
        rw (other, collect_more rt s m s ms (add_other rt s m lim other))
          (collect-descending s seen ms desc lim pos h)
    | inl match ↦
        let r = add_newest-Rolls s seen m pos h h.fill in
        let (eq, el, ec) = r.same in
        let added : add rt s m ≡ add_newest s m = rw (add_match rt s m lim match, desc) in
        let rest =
          collect-descending r.next (seen ++ m ∷ []) ms (rw eq desc) (omega arith) (omega arith)
            r.ring in
        let regroup = append_assoc seen (m ∷ []) (matching rt s.q ms) in
        rw (match, collect_more rt s m r.next ms (added ∙ r.added))
          (record {
            ring = rw (eq, regroup) at (rest.ring);
            same = (rest.same.0 ∙ eq, rest.same.1 ∙ el, rest.same.2 ∙ ec);
          })
  ]
