-- ===== src/Limit/Bounds.antt =====
-- What holds of the listener in every state it reaches.
use agent_session_query.Prelude.{
  ℕ, ◌+◌, ◌≤◌, true, List, [], ◌∷◌, ◌≡◌, refl, arith, ◌==◌, if◌then◌else◌, Bool-cases, inl, inr,
  length,
}
use agent_session_query.Prelude.Int.{ℤ}
use agent_session_query.Limit.{
  Listener, new_limit_listener, holds, without, admit_now, enqueue_conn, refuse, grant, time_out,
  leave, close, Move, admitted, enqueued, refused, granted, timed_out, left, shut, Moves, still,
  moved,
}

abbrev pub times : ℕ → List ℕ → ℕ
times c [] = 0
times c (d ∷ ds) = (if d == c then 1 else 0) + times c ds

-- The channels hold a permit for every open connection and a slot for every goroutine that queues,
-- and no more than they have room for; and every connection is in one place.
pub record IsWithin (l : Listener) : Type 0 where
  pub permits : l.sem ≡ length l.live
  pub capped : l.sem ≤ l.max_connections
  pub slots : l.waiting ≡ length l.queued + length l.leaving
  pub shallow : l.waiting ≤ l.depth
  pub one_place :
      (c : ℕ)
      → times c l.live + times c l.queued + times c l.rejected + times c l.closed
        ≡ times c l.accepted

length-without : (c : ℕ) (cs : List ℕ) → holds c cs ≡ true → length (without c cs) + 1 ≡ length cs
unfolding without
length-without c [] h = absurd (cc h)
length-without c (d ∷ ds) h = ground (arith, h, length-without c ds)

times-without :
    (c k : ℕ) (cs : List ℕ)
    → holds c cs ≡ true
    → times k (without c cs) + (if c == k then 1 else 0) ≡ times k cs
unfolding without
times-without c k [] h = absurd (cc h)
times-without c k (d ∷ ds) h = ground (arith, h, times-without c k ds)

Move-IsWithin : (l m : Listener) → Move l m → IsWithin l → IsWithin m
unfolding admit_now enqueue_conn refuse grant time_out leave close
Move-IsWithin _ _ (admitted l c lt) h = record {
  permits = omega (arith, h.permits);
  capped = omega arith;
  slots = h.slots;
  shallow = h.shallow;
  one_place = λ k. omega (arith, h.one_place k);
}
Move-IsWithin _ _ (enqueued l c lt) h = record {
  permits = h.permits;
  capped = h.capped;
  slots = omega (arith, h.slots);
  shallow = omega arith;
  one_place = λ k. omega (arith, h.one_place k);
}
Move-IsWithin _ _ (refused l c full deep) h = record {
  permits = h.permits;
  capped = h.capped;
  slots = h.slots;
  shallow = h.shallow;
  one_place = λ k. omega (arith, h.one_place k);
}
Move-IsWithin _ _ (granted l c q lt) h = record {
  permits = omega (arith, h.permits);
  capped = omega arith;
  slots = omega (arith, h.slots, length-without c l.queued q);
  shallow = h.shallow;
  one_place = λ k. ground (arith, h.one_place k, times-without c k l.queued q);
}
Move-IsWithin _ _ (timed_out l c q) h = record {
  permits = h.permits;
  capped = h.capped;
  slots = omega (arith, h.slots, length-without c l.queued q);
  shallow = h.shallow;
  one_place = λ k. ground (arith, h.one_place k, times-without c k l.queued q);
}
Move-IsWithin _ _ (left l c q) h = record {
  permits = h.permits;
  capped = h.capped;
  slots = omega (arith, h.slots, length-without c l.leaving q);
  shallow = omega (arith, h.shallow);
  one_place = h.one_place;
}
Move-IsWithin _ _ (shut l c) h = elim (Bool-cases (holds c l.live)) [
  | inl o ↦ rw o (record {
    permits = omega (arith, h.permits, length-without c l.live o);
    capped = omega (arith, h.capped);
    slots = h.slots;
    shallow = h.shallow;
    one_place = λ k. ground (arith, h.one_place k, times-without c k l.live o);
  })
  | inr gone ↦ rw gone h
]

new_limit_listener-IsWithin : (max : ℕ) (queue : ℤ) → IsWithin (new_limit_listener max queue)
unfolding new_limit_listener
new_limit_listener-IsWithin max queue = record {
  permits = refl;
  capped = omega arith;
  slots = refl;
  shallow = omega arith;
  one_place = λ c. refl;
}

reach-IsWithin : (l m : Listener) → Moves l m → IsWithin l → IsWithin m
reach-IsWithin _ _ (still l) h = h
reach-IsWithin _ _ (moved l m n one rest) h = reach-IsWithin m n rest (Move-IsWithin l m one h)

-- In every state that a new listener reaches, no more connections are open than its permits, no
-- more goroutines queue than its slots, each channel is as full as there are connections that hold
-- a place in it, and every accepted connection is in one place: open, queued, rejected or closed.
pub new_limit_listener-reach :
    (max : ℕ) (queue : ℤ) (l : Listener) → Moves (new_limit_listener max queue) l → IsWithin l
new_limit_listener-reach max queue l moves =
    reach-IsWithin (new_limit_listener max queue) l moves (new_limit_listener-IsWithin max queue)
