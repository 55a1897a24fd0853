-- ===== src/Api/Timed.antt =====
-- internal/app/api.go: the answers that are served again for a while, recordsOf and cachedAnswer.
pub mod Recent
use agent_session_query.Prelude.{
  ℕ, ◌+◌, ◌-◌, ◌≤◌, Bool, true, false, List, [], ◌∷◌, ◌++◌, Option, none, some, Time, ltb,
  if◌then◌else◌, ◌≡◌,
}

-- What was handed to a caller, and when.
pub record Served (A : Type 0) : Type 0 where
  pub time : Time
  pub answer : A

-- One entry: an answer with the time at which it was banked, the starts of the calls that are computing
-- it anew, and what was served so far, latest first.
pub record Entry (A : Type 0) : Type 0 where
  pub now : Time
  pub banked : Option (Time × A)
  pub computing : List Time
  pub served : List (Served A)

module _ {A : Type 0} (ttl : ℕ) where
  abbrev pub fresh_of : Time → Option (Time × A) → Option A
  fresh_of now none = none
  fresh_of now (some (at, answer)) = if ltb (now - at) ttl then some answer else none

  -- The first critical section: the banked answer while it is fresh, or a computation of one's own.
  unfoldable pub ask : Entry A → Entry A
  ask e = elim (fresh_of e.now e.banked) [
    | some answer ↦ record e { served = record { time = e.now; answer = answer } ∷ e.served }
    | none ↦ record e { computing = e.now ∷ e.computing }
  ]

-- `compute from to` is what a computation gives that runs between the two times.
module _ {A : Type 0} (compute : Time → Time → A) where
  -- The second: a computation that is over is banked and served.
  unfoldable pub bank_answer : Time → List Time → Entry A → Entry A
  bank_answer from others e =
      let answer = compute from e.now in
      record e {
        banked = some (e.now, answer);
        computing = others;
        served = record { time = e.now; answer = answer } ∷ e.served;
      }

-- `locked`: recordsOf holds the entry's scan lock from its question to its answer, cachedAnswer does not.
pub data Turn {A : Type 0} (ttl : ℕ) (compute : Time → Time → A) (locked : Bool)
    : Entry A → Entry A → Type 0 where
  passes :
      (e : Entry A) (later : Time)
      → e.now ≤ later
      → Turn ttl compute locked e (record e { now = later })
  asks : (e : Entry A) → (locked ≡ true → e.computing ≡ []) → Turn ttl compute locked e (ask ttl e)
  answers :
      (e : Entry A) (before : List Time) (from : Time) (after : List Time)
      → e.computing ≡ before ++ from ∷ after
      → Turn ttl compute locked e (bank_answer compute from (before ++ after) e)

pub data Turns {A : Type 0} (ttl : ℕ) (compute : Time → Time → A) (locked : Bool)
    : Entry A → Entry A → Type 0 where
  still : (e : Entry A) → Turns ttl compute locked e e
  turn :
      (e f g : Entry A)
      → Turns ttl compute locked e f
      → Turn ttl compute locked f g
      → Turns ttl compute locked e g

abbrev pub new_entry : {A : Type 0} → Time → Entry A
new_entry now = record { now = now; banked = none; computing = []; served = [] }
