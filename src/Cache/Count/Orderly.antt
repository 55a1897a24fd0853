-- ===== src/Cache/Count/Orderly.antt =====
-- Every reachable state of the background counting.
use agent_session_query.Prelude.{
  ℕ, zero, suc, ◌+◌, ◌≤◌, ◌<◌, true, false, List, [], ◌∷◌, ◌++◌, Option, Option-cases, ◌≡◌, refl,
  ap, arith, Bytes, ltb, ◌&&◌, if◌then◌else◌, Bool-cases, inl, inr, bytes_eq, bytes_eq_iff,
  bytes_eq_refl, length,
}
use agent_session_query.Prelude.Assoc.{lookup}
use agent_session_query.Cache.Snapshot.{FileStamp}
use agent_session_query.Cache.Count.{
  CountEntry, CountState, enqueue, counted_at, queue_count, start_workers, worker_limit,
  start_counting, next_request, take_next, remove, bank_count, has_path, Step, requested, started,
  looked, banked, pruned, Steps, done, step, new_counts,
}

abbrev pub occurrences : Bytes → List Bytes → ℕ
occurrences p [] = 0
occurrences p (q ∷ qs) = (if bytes_eq q p then 1 else 0) + occurrences p qs

-- A path that is marked stands once, in the queue or with a worker, and no other stands there; and
-- there are no more workers than the limit, nor more requests in hand than workers.
pub record IsOrderly (procs : ℕ) (s : CountState) : Type 0 where
  pub once :
      (p : Bytes) → occurrences p s.queue + occurrences p s.busy ≡ (if s.counting p then 1 else 0)
  pub bounded : s.working ≤ worker_limit procs
  pub in_hand : length s.busy ≤ s.working

occurrences-append :
    (p : Bytes) (xs ys : List Bytes)
    → occurrences p (xs ++ ys) ≡ occurrences p xs + occurrences p ys
occurrences-append p [] ys = omega arith
occurrences-append p (x ∷ xs) ys = omega (arith, occurrences-append p xs ys)

occurrences-remove :
    (path p : Bytes) (xs : List Bytes)
    → has_path path xs ≡ true
    → occurrences p (remove path xs) + (if bytes_eq path p then 1 else 0) ≡ occurrences p xs
unfolding remove
occurrences-remove path p [] h = cc h
occurrences-remove path p (x ∷ xs) h =
    ground (arith, h, bytes_eq_iff path x, occurrences-remove path p xs)

length-remove : (path : Bytes) (xs : List Bytes) → length (remove path xs) ≤ length xs
unfolding remove
length-remove path [] = omega arith
length-remove path (x ∷ xs) = ground (arith, length-remove path xs)

start_workers-bounds :
    (f limit queued w : ℕ)
    → w ≤ limit
    → (w ≤ start_workers f limit queued w) × (start_workers f limit queued w ≤ limit)
unfolding start_workers
start_workers-bounds zero limit queued w h = (omega arith, h)
start_workers-bounds (suc f) limit queued w h = elim (Bool-cases (ltb w limit && ltb w queued)) [
  | inl t ↦
      let ih = start_workers-bounds f limit queued (w + 1) (ground (arith, t)) in
      rw t (omega (arith, ih.0), ih.1)
  | inr e ↦ rw e (omega arith, h)
]

-- Fuel for as many workers as the limit is enough: no worker more is wanted.
start_workers_done :
    (f limit queued w : ℕ)
    → limit ≤ f + w
    → ltb (start_workers f limit queued w) limit && ltb (start_workers f limit queued w) queued
      ≡ false
unfolding start_workers
start_workers_done zero limit queued w h = ground arith
start_workers_done (suc f) limit queued w h = elim (Bool-cases (ltb w limit && ltb w queued)) [
  | inl t ↦ rw t (start_workers_done f limit queued (w + 1) (omega arith))
  | inr e ↦ rw e e
]

module _ (procs : ℕ) where
  enqueue-IsOrderly :
      (path : Bytes) (s : CountState) → IsOrderly procs s → IsOrderly procs (enqueue path s)
  enqueue-IsOrderly path s h = elim (Bool-cases (s.counting path)) [
    | inl t ↦ rw t h
    | inr e ↦ rw e (record {
      once = λ p.
          ground
            (arith, occurrences-append p s.queue (path ∷ []), h.once p, e, bytes_eq_iff path p);
      bounded = h.bounded;
      in_hand = h.in_hand;
    })
  ]

  queue_count-IsOrderly :
      (path : Bytes) (st : FileStamp) (s : CountState)
      → IsOrderly procs s
      → IsOrderly procs ((queue_count path st s).0)
  unfolding queue_count
  queue_count-IsOrderly path st s h = elim (Option-cases (lookup path s.counts)) [
    | inl miss ↦ rw (miss, queue_count) (enqueue-IsOrderly path s h)
    | inr (hit, at) ↦
        rw (at, queue_count)
          (elim (Bool-cases (counted_at st hit)) [
            | inl t ↦ rw t h
            | inr e ↦ rw e (enqueue-IsOrderly path s h)
          ])
  ]

  start_counting-IsOrderly :
      (s : CountState) → IsOrderly procs s → IsOrderly procs (start_counting procs s)
  unfolding start_counting
  start_counting-IsOrderly s h =
      let b =
        start_workers-bounds (worker_limit procs) (worker_limit procs) (length s.queue) s.working
          h.bounded in
      record { once = h.once; bounded = b.1; in_hand = omega (arith, b.0, h.in_hand) }

  take_next-IsOrderly :
      (s : CountState) (queue : List Bytes)
      → s.queue ≡ queue
      → length s.busy < s.working
      → IsOrderly procs s
      → IsOrderly procs (take_next queue s)
  take_next-IsOrderly s [] e lt h = record {
    once = h.once;
    bounded = omega (arith, h.bounded);
    in_hand = omega arith;
  }
  take_next-IsOrderly s (path ∷ rest) e lt h = record {
    once = λ p. omega (arith, ap (occurrences p) e, h.once p);
    bounded = h.bounded;
    in_hand = omega arith;
  }

  bank_count-IsOrderly :
      (s : CountState) (path : Bytes) (result : Option CountEntry)
      → has_path path s.busy ≡ true
      → IsOrderly procs s
      → IsOrderly procs (bank_count path result s)
  unfolding bank_count
  bank_count-IsOrderly s path result held h = record {
    once = λ p. ground (
      arith,
      occurrences-remove path p s.busy held,
      h.once p,
      h.once path,
      bytes_eq_iff path p,
      bytes_eq_refl path,
    );
    bounded = h.bounded;
    in_hand = omega (arith, length-remove path s.busy, h.in_hand);
  }

  step-IsOrderly : (s t : CountState) → Step procs s t → IsOrderly procs s → IsOrderly procs t
  unfolding next_request
  step-IsOrderly _ _ (requested s path st) h = queue_count-IsOrderly path st s h
  step-IsOrderly _ _ (started s) h = start_counting-IsOrderly s h
  step-IsOrderly _ _ (looked s lt) h = take_next-IsOrderly s s.queue refl lt h
  step-IsOrderly _ _ (banked s path result held) h = bank_count-IsOrderly s path result held h
  step-IsOrderly _ _ (pruned s paths) h = record {
    once = h.once;
    bounded = h.bounded;
    in_hand = h.in_hand;
  }

  new_counts-IsOrderly : IsOrderly procs new_counts
  new_counts-IsOrderly = record { once = λ p. refl; bounded = omega arith; in_hand = omega arith }

  -- From an orderly state every state that the steps reach is orderly, in any order of requests and
  -- workers: a file that is marked stands in the queue or with one worker, once, and no other does;
  -- and no more workers run than the limit, which is at most 4.
  pub Steps-IsOrderly : (s t : CountState) → Steps procs s t → IsOrderly procs s → IsOrderly procs t
  Steps-IsOrderly _ _ (done s) h = h
  Steps-IsOrderly _ _ (step s t u one rest) h = Steps-IsOrderly t u rest (step-IsOrderly s t one h)

-- Where the loop that starts workers ends, on the fuel that it is given, its condition fails.
pub start_counting_done :
    (procs : ℕ) (s : CountState)
    → ltb (start_counting procs s).working (worker_limit procs)
        && ltb (start_counting procs s).working (length s.queue)
      ≡ false
unfolding start_counting
start_counting_done procs s =
    start_workers_done (worker_limit procs) (worker_limit procs) (length s.queue) s.working
      (omega arith)
