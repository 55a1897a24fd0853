-- ===== src/Cache/Count.antt =====
-- internal/source/filecache.go: the message counts that are filled in the background, as a machine
-- whose steps are the sections that hold its lock.
pub mod Orderly
use agent_session_query.Prelude.{
  ℕ, zero, suc, ◌+◌, ◌-◌, ◌<◌, Bool, true, false, not, ◌&&◌, List, [], ◌∷◌, ◌++◌, Option, none,
  some, ◌≡◌, Bytes, ltb, ◌==◌, if◌then◌else◌, bytes_eq, length, any,
}
use agent_session_query.Prelude.Assoc.{Assoc, lookup, insert}
use agent_session_query.Cache.Snapshot.{FileStamp}

-- `tail` is the fingerprint of the bytes before the end of the version that was counted.
pub record CountEntry : Type 0 where
  pub stamp : FileStamp
  pub n : ℕ
  pub tail : Bytes

-- `busy` holds the requests that workers have in hand: the local `req` of each.
pub record CountState : Type 0 where
  pub counts : Assoc CountEntry
  pub counting : Bytes → Bool
  pub queue : List Bytes
  pub working : ℕ
  pub busy : List Bytes

abbrev pub mark : Bytes → Bool → (Bytes → Bool) → Bytes → Bool
mark path value counting p = if bytes_eq path p then value else counting p

-- The count of exactly this version.
abbrev pub counted_at : FileStamp → CountEntry → Bool
counted_at st hit = hit.stamp.size == st.size && hit.stamp.mod_time == st.mod_time

abbrev pub enqueue : Bytes → CountState → CountState
enqueue path s =
    if s.counting path
    then s
    else record s { counting = mark path true s.counting; queue = s.queue ++ path ∷ [] }

-- The count at hand, if any, of a cache that counts. One of an older version is returned too.
unfoldable pub queue_count : Bytes → FileStamp → CountState → CountState × Option ℕ
queue_count path st s = elim (lookup path s.counts) [
  | none ↦ (enqueue path s, none)
  | some hit ↦ if counted_at st hit then (s, some hit.n) else (enqueue path s, some hit.n)
]

-- maxCountWorkers
abbrev pub max_count_workers : ℕ
max_count_workers = 4

-- The loop that starts workers, on fuel: each round starts one.
unfoldable pub start_workers : ℕ → ℕ → ℕ → ℕ → ℕ
start_workers zero limit queued working = working
start_workers (suc f) limit queued working =
    let more = start_workers f limit queued (working + 1) in
    if ltb working limit && ltb working queued then more else working

abbrev pub worker_limit : ℕ → ℕ
worker_limit procs = if ltb procs max_count_workers then procs else max_count_workers

unfoldable pub start_counting : ℕ → CountState → CountState
start_counting procs s =
    let limit = worker_limit procs in
    record s { working = start_workers limit limit (length s.queue) s.working }

-- A worker that looks for work: it takes the first request, or leaves.
abbrev pub take_next : List Bytes → CountState → CountState
take_next [] s = record s { working = s.working - 1 }
take_next (path ∷ rest) s = record s { queue = rest; busy = path ∷ s.busy }

unfoldable pub next_request : CountState → CountState
next_request s = take_next s.queue s

pub remove : Bytes → List Bytes → List Bytes
remove path [] = []
remove path (p ∷ ps) = if bytes_eq path p then ps else p ∷ remove path ps

-- A worker that is done with a request: a dropped scan banks nothing.
unfoldable pub bank_count : Bytes → Option CountEntry → CountState → CountState
bank_count path result s = record s {
  counts = elim result [ none ↦ s.counts | some entry ↦ insert path entry s.counts ];
  counting = mark path false s.counting;
  busy = remove path s.busy;
}

-- The counts of the files that are still there.
unfoldable pub keep_counts : List Bytes → Assoc CountEntry → Assoc CountEntry
keep_counts paths [] = []
keep_counts paths ((p, e) ∷ m) =
    let rest = keep_counts paths m in if any (λ q. bytes_eq q p) paths then (p, e) ∷ rest else rest

abbrev pub has_path : Bytes → List Bytes → Bool
has_path path ps = any (λ p. bytes_eq path p) ps

-- One critical section, of a request or of a worker, on a machine with `procs` processors.
pub data Step (procs : ℕ) : CountState → CountState → Type 0 where
  requested :
      (s : CountState) (path : Bytes) (st : FileStamp) → Step procs s ((queue_count path st s).0)
  started : (s : CountState) → Step procs s (start_counting procs s)
  looked : (s : CountState) → length s.busy < s.working → Step procs s (next_request s)
  banked :
      (s : CountState) (path : Bytes) (result : Option CountEntry)
      → has_path path s.busy ≡ true
      → Step procs s (bank_count path result s)
  pruned :
      (s : CountState) (paths : List Bytes)
      → Step procs s (record s { counts = keep_counts paths s.counts })

pub data Steps (procs : ℕ) : CountState → CountState → Type 0 where
  done : (s : CountState) → Steps procs s s
  step : (s t u : CountState) → Step procs s t → Steps procs t u → Steps procs s u

-- newFileRecordCache
abbrev pub new_counts : CountState
new_counts = record { counts = []; counting = λ p. false; queue = []; working = 0; busy = [] }
