-- ===== src/Api/Timed/Recent.antt =====
-- How old a served answer is.
use mathlib.Core.Path.{subst}
use agent_session_query.Prelude.{
  ℕ, ◌+◌, ◌-◌, ◌≤◌, ◌<◌, Bool, true, List, [], ◌∷◌, ◌++◌, Option, none, some, Option-cases,
  Bool-cases, inl, inr, ltb, ◌≡◌, refl, ap, sym, ◌∙◌, arith, All, length, length-append, Time,
}
use agent_session_query.Api.Timed.{
  Served, Entry, fresh_of, ask, bank_answer, Turn, passes, asks, answers, Turns, still, turn,
  new_entry,
}

module _ {A : Type 0} (ttl : ℕ) (compute : Time → Time → A) (locked : Bool) where
  -- Computed from one time to another, and served less than the time to live behind that.
  pub record IsRecent (s : Served A) : Type 0 where
    pub from : Time
    pub to : Time
    pub computed : s.answer ≡ compute from to
    pub ordered : from ≤ to
    pub past : to ≤ s.time
    pub lives : s.time < to + ttl

  abbrev pub IsBanked : Time → Option (Time × A) → Type 0
  IsBanked now none = Unit
  IsBanked now (some (at, answer)) =
      (at ≤ now) × ((from : Time) × (from ≤ at) × (answer ≡ compute from at))

  -- What holds of an entry between the steps.
  pub record IsTimed (e : Entry A) : Type 0 where
    pub banked : IsBanked e.now e.banked
    pub begun : All (λ from. from ≤ e.now) e.computing
    pub recent : All IsRecent e.served
    pub alone : locked ≡ true → length e.computing ≤ 1

  begun_later :
      (now later : Time) (ts : List Time)
      → now ≤ later
      → All (λ from. from ≤ now) ts
      → All (λ from. from ≤ later) ts
  begun_later now later [] le a = tt
  begun_later now later (t ∷ ts) le (h, a) = (omega (arith, le, h), begun_later now later ts le a)

  banked_later :
      (now later : Time) (o : Option (Time × A)) → now ≤ later → IsBanked now o → IsBanked later o
  banked_later now later none le b = tt
  banked_later now later (some (at, answer)) le (h, b) = (omega (arith, le, h), b)

  begun_split :
      (now : Time) (before after : List Time) (from : Time)
      → All (λ t. t ≤ now) (before ++ from ∷ after)
      → (from ≤ now) × All (λ t. t ≤ now) (before ++ after)
  begun_split now [] after from (h, a) = (h, a)
  begun_split now (t ∷ before) after from (h, a) =
      let (k, b) = begun_split now before after from a in (k, (h, b))

  served_young :
      (now at : Time) (held : A)
      → ltb (now - at) ttl ≡ true
      → fresh_of ttl now (some (at, held)) ≡ some held
  served_young now at held young = rw young refl

  some_same : (a b : A) → some a ≡ some b → a ≡ b
  some_same a b e = cc e

  fresh_lem :
      (now : Time) (o : Option (Time × A)) (answer : A)
      → IsBanked now o
      → fresh_of ttl now o ≡ some answer
      → IsRecent (record { time = now; answer = answer })
  fresh_lem now none answer b e = absurd (ground (arith, e))
  fresh_lem now (some (at, held)) answer (le, (from, before, is)) e =
      elim (Bool-cases (ltb (now - at) ttl)) [
        | inl young ↦ record {
          from = from;
          to = at;
          computed = some_same answer held (sym e ∙ served_young now at held young) ∙ is;
          ordered = before;
          past = le;
          lives = ground (arith, young, le);
        }
        | inr old ↦ absurd (ground (arith, old, e))
      ]

  ask-IsTimed : (e : Entry A) → IsTimed e → (locked ≡ true → e.computing ≡ []) → IsTimed (ask ttl e)
  unfolding ask
  ask-IsTimed e k free = elim (Option-cases (fresh_of ttl e.now e.banked)) [
    | inl stale ↦
        rw (stale, ask)
          (record {
            banked = k.banked;
            begun = (omega arith, k.begun);
            recent = k.recent;
            alone = λ l. omega (arith, ap length (free l));
          })
    | inr (answer, at) ↦
        rw (at, ask)
          (record {
            banked = k.banked;
            begun = k.begun;
            recent = (fresh_lem e.now e.banked answer k.banked at, k.recent);
            alone = k.alone;
          })
  ]

  bank_answer-IsTimed :
      (e : Entry A) (before : List Time) (from : Time) (after : List Time)
      → 0 < ttl
      → IsTimed e
      → e.computing ≡ before ++ from ∷ after
      → IsTimed (bank_answer compute from (before ++ after) e)
  unfolding bank_answer
  bank_answer-IsTimed e before from after positive k is =
      let (begun, others) =
        begun_split e.now before after from (subst (All (λ t. t ≤ e.now)) is k.begun) in
      record {
        banked = (omega arith, (from, begun, refl));
        begun = others;
        recent = (
          record {
            from = from;
            to = e.now;
            computed = refl;
            ordered = begun;
            past = omega arith;
            lives = omega (arith, positive);
          },
          k.recent,
        );
        alone = λ l. omega (
          arith,
          k.alone l,
          ap length is,
          length-append before (from ∷ after),
          length-append before after,
        );
      }

  turn-IsTimed : (e f : Entry A) → 0 < ttl → Turn ttl compute locked e f → IsTimed e → IsTimed f
  turn-IsTimed _ _ positive (passes e later le) k = record {
    banked = banked_later e.now later e.banked le k.banked;
    begun = begun_later e.now later e.computing le k.begun;
    recent = k.recent;
    alone = k.alone;
  }
  turn-IsTimed _ _ positive (asks e free) k = ask-IsTimed e k free
  turn-IsTimed _ _ positive (answers e before from after is) k =
      bank_answer-IsTimed e before from after positive k is

  Turns-IsTimed : (e f : Entry A) → 0 < ttl → Turns ttl compute locked e f → IsTimed e → IsTimed f
  Turns-IsTimed _ _ positive (still e) k = k
  Turns-IsTimed _ _ positive (turn e f g before one) k =
      turn-IsTimed f g positive one (Turns-IsTimed e f positive before k)

  new_entry-IsTimed : (now : Time) → IsTimed (new_entry now)
  new_entry-IsTimed now = record { banked = tt; begun = tt; recent = tt; alone = λ l. omega arith }

  -- In every state that the steps of its callers reach, a new entry with a positive time to live
  -- has served only answers of a computation that ended at most now and less than the time to live
  -- before it was served; what is banked is such an answer, every computation began at most now,
  -- and with the scan lock at most one runs.
  pub new_entry-Turns :
      (now : Time) (f : Entry A) → 0 < ttl → Turns ttl compute locked (new_entry now) f → IsTimed f
  new_entry-Turns now f positive reached =
      Turns-IsTimed (new_entry now) f positive reached (new_entry-IsTimed now)
