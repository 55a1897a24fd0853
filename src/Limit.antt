-- ===== src/Limit.antt =====
-- internal/app/http.go: limitListener, which caps the connections that are handled at once, as a
-- machine. A select that finds several channels ready takes any of them.
pub mod Bounds
use agent_session_query.Prelude.{
  ℕ, zero, suc, ◌+◌, ◌-◌, ◌*◌, ◌<◌, ◌≤◌, Bool, true, false, List, [], ◌∷◌, ◌≡◌, ltb, ◌==◌,
  if◌then◌else◌, any,
}
use agent_session_query.Prelude.Int.{ℤ, to_nat}

abbrev pub min_accept_queue : ℕ
min_accept_queue = 32

abbrev pub auto_accept_queue_factor : ℕ
auto_accept_queue_factor = 2

-- A depth that is not positive is derived from the number of connections.
unfoldable pub accept_queue_depth : ℕ → ℤ → ℕ
accept_queue_depth max_connections queue =
    let auto = max_connections * auto_accept_queue_factor in
    if ltb 0 (to_nat queue)
    then to_nat queue
    else if ltb auto min_accept_queue
    then min_accept_queue
    else auto

-- `sem` and `waiting` are how full the two channels are. A connection is a number. `live` are those
-- that were handed to the server and are not closed, `queued` those whose goroutine waits in
-- admit, and `leaving` those whose goroutine is done and still has its slot of the queue.
pub record Listener : Type 0 where
  pub max_connections : ℕ
  pub depth : ℕ
  pub sem : ℕ
  pub waiting : ℕ
  pub live : List ℕ
  pub queued : List ℕ
  pub leaving : List ℕ
  pub rejected : List ℕ
  pub closed : List ℕ
  pub accepted : List ℕ

-- newLimitListener
unfoldable pub new_limit_listener : ℕ → ℤ → Listener
new_limit_listener max_connections queue =
    let max = if ltb max_connections 1 then 1 else max_connections in
    record {
      max_connections = max;
      depth = accept_queue_depth max queue;
      sem = 0;
      waiting = 0;
      live = [];
      queued = [];
      leaving = [];
      rejected = [];
      closed = [];
      accepted = [];
    }

abbrev pub holds : ℕ → List ℕ → Bool
holds c cs = any (λ d. c == d) cs

pub without : ℕ → List ℕ → List ℕ
without c [] = []
without c (d ∷ ds) = if c == d then ds else d ∷ without c ds

-- The three cases of acceptLoop
unfoldable pub admit_now : ℕ → Listener → Listener
admit_now c l = record l { sem = l.sem + 1; live = c ∷ l.live; accepted = c ∷ l.accepted }

unfoldable pub enqueue_conn : ℕ → Listener → Listener
enqueue_conn c l = record l {
  waiting = l.waiting + 1;
  queued = c ∷ l.queued;
  accepted = c ∷ l.accepted;
}

unfoldable pub refuse : ℕ → Listener → Listener
refuse c l = record l { rejected = c ∷ l.rejected; accepted = c ∷ l.accepted }

-- The two cases of admit, and the slot that its goroutine gives back
unfoldable pub grant : ℕ → Listener → Listener
grant c l = record l {
  sem = l.sem + 1;
  live = c ∷ l.live;
  queued = without c l.queued;
  leaving = c ∷ l.leaving;
}

unfoldable pub time_out : ℕ → Listener → Listener
time_out c l = record l {
  rejected = c ∷ l.rejected;
  queued = without c l.queued;
  leaving = c ∷ l.leaving;
}

unfoldable pub leave : ℕ → Listener → Listener
leave c l = record l { waiting = l.waiting - 1; leaving = without c l.leaving }

-- releaseConn.Close: the permit goes back once.
unfoldable pub close : ℕ → Listener → Listener
close c l =
    if holds c l.live
    then record l { sem = l.sem - 1; live = without c l.live; closed = c ∷ l.closed }
    else l

pub data Move : Listener → Listener → Type 0 where
  admitted : (l : Listener) (c : ℕ) → l.sem < l.max_connections → Move l (admit_now c l)
  enqueued : (l : Listener) (c : ℕ) → l.waiting < l.depth → Move l (enqueue_conn c l)
  refused :
      (l : Listener) (c : ℕ) → l.max_connections ≤ l.sem → l.depth ≤ l.waiting → Move l (refuse c l)
  granted :
      (l : Listener) (c : ℕ)
      → holds c l.queued ≡ true
      → l.sem < l.max_connections
      → Move l (grant c l)
  timed_out : (l : Listener) (c : ℕ) → holds c l.queued ≡ true → Move l (time_out c l)
  left : (l : Listener) (c : ℕ) → holds c l.leaving ≡ true → Move l (leave c l)
  shut : (l : Listener) (c : ℕ) → Move l (close c l)

pub data Moves : Listener → Listener → Type 0 where
  still : (l : Listener) → Moves l l
  moved : (l m n : Listener) → Move l m → Moves m n → Moves l n
