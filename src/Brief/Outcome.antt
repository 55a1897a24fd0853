-- ===== src/Brief/Outcome.antt =====
-- Every outcome of the selection of a brief's rounds.
use mathlib.Core.Path.{subst}
use agent_session_query.Prelude.{
  sym, ℕ, suc, zero, ◌+◌, ◌<◌, Bool, true, false, List, [], ◌∷◌, Option, none, some, Bytes, Time,
  ltb, not, length, if◌then◌else◌, ◌||◌, ◌≤◌, ◌==◌, ap, ◌∙◌, ◌≡◌, refl, ◌⊎◌, inl, inr, Bool-cases,
  All, arith, bytes_eq,
}
use agent_session_query.Prelude.Int.{ℤ, pos, negsuc}
use agent_session_query.Json.{Runtime, Fields, parse_timestamp}
use agent_session_query.Record.{is_empty}
use agent_session_query.Rounds.{Round, split_rounds}
use agent_session_query.Questions.{Libraries}
use agent_session_query.Rounds.Segments.{segments}
use agent_session_query.Rounds.Tally.{split_rounds-AreTallied}
use agent_session_query.Http.Query.{Lib, Read, ok, fault, parse_since}
use agent_session_query.Brief.{
  Selection, chosen, refused, Refusal, unreadable_at, in_no_round, no_such_round, since_fault,
  none_since, covers, first_covering, runs_since, indices_since, of_covering, select_at, some_since,
  select_since, select_number, select, is_zero_number, is_chosen, latest_index,
}
use agent_session_query.Brief.Selected.{
  IsNumbered, tallied-IsNumbered, IsAt, IsAscendingFrom, same_number, since_there, since_some,
  IsFound, first_covering-IsFound, latest_index_lem, All-map, since_complete, number_there,
  number_missing, number_negative,
}

abbrev covers_parsed : Runtime → Option Time → Round → Bool
covers_parsed rt none r = false
covers_parsed rt (some at) r = covers rt at r

abbrev runs_since_read : Runtime → Read Time → Round → Bool
runs_since_read rt (fault e) r = false
runs_since_read rt (ok cut) r = runs_since rt cut r

-- What a brief asks of a round: the first of the parameters that is given says it, and without one
-- it is the latest round.
unfoldable pub asks_for : Runtime → Lib → Time → ℕ → Bytes → ℤ → Bytes → Round → Bool
asks_for rt lib now latest at number since =
    if not (is_empty at)
    then covers_parsed rt (parse_timestamp rt at)
    else if not (is_zero_number number)
    then (λ r. same_number number r.index)
    else if not (is_empty since)
    then runs_since_read rt (parse_since lib now since)
    else (λ r. r.index == latest)

-- Why a selection is refused.
module _ (rt : Runtime) (at : Option Time) (number : ℤ) (since : Read Time)
    (rounds : List Round) where
  abbrev pub IsReason : Refusal → Type 0
  IsReason unreadable_at = at ≡ none
  IsReason in_no_round = (t : Time) × (at ≡ some t) × All (λ r. covers rt t r ≡ false) rounds
  IsReason no_such_round = All (λ r. same_number number r.index ≡ false) rounds
  IsReason (since_fault e) = since ≡ fault e
  IsReason none_since = (t : Time) × (since ≡ ok t) × All (λ r. runs_since rt t r ≡ false) rounds

-- The number is chosen, or a single one is to be, and a lower one is.
abbrev pub IsReached : Bool → List ℕ → ℕ → Type 0
IsReached single is n =
    (is_chosen is n ≡ true) ⊎ ((single ≡ true) × (i : ℕ) × (is ≡ i ∷ []) × (i < n))

-- What is chosen are rounds that are there and asked for, in their order, every one that is asked
-- for or only the first, and none only when there are no rounds; what is refused has its reason.
abbrev pub IsRight : Bool → (Round → Bool) → List Round → (Refusal → Type 0) → Selection → Type 0
IsRight single wanted rounds reason (chosen is since) =
    All (IsAt wanted 1 rounds) is
    × IsAscendingFrom 1 is
    × ((rounds ≡ []) ⊎ (0 < length is))
    × All (λ r. wanted r ≡ true → IsReached single is r.index) rounds
IsRight single wanted rounds reason (refused e) = reason e

every : (P : Round → Type 0) → ((r : Round) → P r) → (rs : List Round) → All P rs
every P f [] = tt
every P f (r ∷ rs) = (f r, every P f rs)

same-IsAt :
    (m n : ℕ) (rs : List Round) (i : ℕ)
    → IsAt (λ r. same_number (pos m) r.index) n rs i
    → IsAt (λ r. r.index == m) n rs i
same-IsAt m n rs i (k, r, here, e, place, same) = (k, r, here, e, place, ground (arith, same))

abbrev IsLatest : List Round → List ℕ → Type 0
IsLatest rounds is =
    All (IsAt (λ r. r.index == length rounds) 1 rounds) is
    × IsAscendingFrom 1 is
    × ((rounds ≡ []) ⊎ (0 < length is))
    × All (λ r. (r.index == length rounds) ≡ true → IsReached false is r.index) rounds

one-IsLatest :
    (r : Round) (rs : List Round) → IsNumbered 1 (r ∷ rs) → IsLatest (r ∷ rs) (length (r ∷ rs) ∷ [])
one-IsLatest r rs h =
    let place : 1 + length rs ≡ length (r ∷ rs) = omega arith in
    let there = number_there 1 (length rs) (r ∷ rs) h (omega arith) in
    (
      (
        subst (λ m. IsAt (λ s. s.index == m) 1 (r ∷ rs) m) place
            (same-IsAt (1 + length rs) 1 (r ∷ rs) (1 + length rs) there),
        tt,
      ),
      (omega arith, tt),
      inr (omega arith),
      every
          (λ s.
            (s.index == length (r ∷ rs)) ≡ true → IsReached false (length (r ∷ rs) ∷ []) s.index)
          (λ s same. inl (ground (arith, same))) (r ∷ rs),
    )

latest_index-IsLatest :
    (rounds : List Round) → IsNumbered 1 rounds → IsLatest rounds (latest_index rounds)
unfolding latest_index
latest_index-IsLatest [] h = (tt, tt, inl refl, tt)
latest_index-IsLatest (r ∷ rs) h =
    let e : latest_index (r ∷ rs) ≡ length (r ∷ rs) ∷ [] =
      latest_index_lem 1 r rs h ∙ ap (λ i. i ∷ []) (omega arith) in
    subst (IsLatest (r ∷ rs)) (sym e) (one-IsLatest r rs h)

module _ (rt : Runtime) (rounds : List Round) (numbered : IsNumbered 1 rounds) where
  first-IsReached : (i n : ℕ) → i ≤ n → IsReached true (i ∷ []) n
  first-IsReached i n le = elim (Bool-cases (i == n)) [
    | inl same ↦ inl (ground (arith, same))
    | inr differ ↦ inr (refl, i, refl, ground (arith, differ, le))
  ]

  of_covering-IsRight :
      (at : Time) (number : ℤ) (since : Read Time) (found : Option Round)
      → IsFound rt at 1 rounds found
      → IsRight true
          (covers rt at)
          rounds
          (IsReason rt (some at) number since rounds)
          (of_covering rt found)
  of_covering-IsRight at number since none h = (at, refl, h)
  of_covering-IsRight at number since (some r) h =
      let (there, first) = h in
      let (k, s, here, e, place, passes) = there in
      (
        (there, tt),
        (omega (arith, place), tt),
        inr (omega arith),
        All-map rounds (λ t le within. first-IsReached r.index t.index (le within)) first,
      )

  select_at-IsRight :
      (at : Option Time) (number : ℤ) (since : Read Time)
      → IsRight true
          (covers_parsed rt at)
          rounds
          (IsReason rt at number since rounds)
          (select_at rt rounds at)
  select_at-IsRight none number since = refl
  select_at-IsRight (some at) number since =
      of_covering-IsRight at number since (first_covering rt at rounds)
        (first_covering-IsFound rt at 1 rounds numbered)

  some_since-IsRight :
      (at : Option Time) (number : ℤ) (cut : Time) (is : List ℕ)
      → All (IsAt (runs_since rt cut) 1 rounds) is
      → IsAscendingFrom 1 is
      → All (λ r. runs_since rt cut r ≡ false) rounds ⊎ (0 < length is)
      → All (λ r. runs_since rt cut r ≡ true → is_chosen is r.index ≡ true) rounds
      → IsRight false
          (runs_since rt cut)
          rounds
          (IsReason rt at number (ok cut) rounds)
          (some_since rt cut is)
  some_since-IsRight at number cut [] there ascends (inl over) complete = (cut, refl, over)
  some_since-IsRight at number cut [] there ascends (inr more) complete =
      absurd (omega (arith, more))
  some_since-IsRight at number cut (i ∷ is) there ascends more complete =
      (there, ascends, inr (omega arith), All-map rounds (λ r f h. inl (f h)) complete)

  select_since-IsRight :
      (at : Option Time) (number : ℤ) (since : Read Time)
      → IsRight false
          (runs_since_read rt since)
          rounds
          (IsReason rt at number since rounds)
          (select_since rt rounds since)
  select_since-IsRight at number (fault e) = refl
  select_since-IsRight at number (ok cut) =
      let (there, ascends) = since_there rt cut 1 rounds numbered in
      some_since-IsRight at number cut (indices_since rt cut rounds) there ascends
        (since_some rt cut rounds) (since_complete rt cut rounds)

  number-IsAt :
      (k : ℕ) → k < length rounds → IsAt (λ r. same_number (pos (suc k)) r.index) 1 rounds (suc k)
  number-IsAt k lt =
      let e : suc k ≡ 1 + k = omega arith in rw e (number_there 1 k rounds numbered lt)

  select_number-IsRight :
      (at : Option Time) (number : ℤ) (since : Read Time)
      → IsRight false
          (λ r. same_number number r.index)
          rounds
          (IsReason rt at number since rounds)
          (select_number rounds number)
  select_number-IsRight at (negsuc n) since = number_negative n rounds
  select_number-IsRight at (pos zero) since = number_missing 1 0 rounds numbered (inl (omega arith))
  select_number-IsRight at (pos (suc k)) since = elim (Bool-cases (ltb (length rounds) (suc k))) [
    | inl past ↦
        let refuse : (ltb (suc k) 1 || ltb (length rounds) (suc k)) ≡ true = ground (arith, past) in
        rw refuse (number_missing 1 (suc k) rounds numbered (inr (ground (arith, past))))
    | inr within ↦
        let go : (ltb (suc k) 1 || ltb (length rounds) (suc k)) ≡ false = ground (arith, within) in
        rw go (
          (number-IsAt k (ground (arith, within)), tt),
          (omega arith, tt),
          inr (omega arith),
          every (λ r. (suc k == r.index) ≡ true → IsReached false (suc k ∷ []) r.index)
              (λ r same. inl (ground (arith, same))) rounds,
        )
  ]

  select-IsRight :
      (lib : Lib) (now : Time) (at : Bytes) (number : ℤ) (since : Bytes)
      → IsRight
          (not (is_empty at))
          (asks_for rt lib now (length rounds) at number since)
          rounds
          (IsReason rt (parse_timestamp rt at) number (parse_since lib now since) rounds)
          (select rt lib now rounds at number since)
  unfolding select asks_for
  select-IsRight lib now at number since = elim (Bool-cases (bytes_eq at [])) [
    | inr at_given ↦
        rw at_given (select_at-IsRight (parse_timestamp rt at) number (parse_since lib now since))
    | inl no_at ↦ elim (Bool-cases (is_zero_number number)) [
      | inr number_given ↦
          rw (no_at, number_given)
            (select_number-IsRight (parse_timestamp rt at) number (parse_since lib now since))
      | inl no_number ↦ elim (Bool-cases (bytes_eq since [])) [
        | inr since_given ↦
            rw (no_at, no_number, since_given)
              (select_since-IsRight (parse_timestamp rt at) number (parse_since lib now since))
        | inl no_since ↦ rw (no_at, no_number, no_since) (latest_index-IsLatest rounds numbered)
      ]
    ]
  ]

-- Of the rounds of any messages a brief selects rounds that are there and that the first given
-- parameter asks for (the moment within the round, its number, or a start that it still ran at; the
-- latest round when none is given), in ascending order, and none only when there are no rounds.
-- Every round that is asked for is selected, but of those that a moment falls in only the first. Or
-- it refuses with a reason: the moment is unreadable or no round covers it, no round has the
-- number, the start is unreadable or no round ran since.
pub select_lem :
    (w : Libraries) (lib : Lib) (now : Time) (ms : List Fields) (at : Bytes) (number : ℤ)
    (since : Bytes)
    → IsRight
        (not (is_empty at))
        (asks_for w.runtime lib now (length (split_rounds w ms)) at number since)
        (split_rounds w ms)
        (IsReason w.runtime
          (parse_timestamp w.runtime at)
          number
          (parse_since lib now since)
          (split_rounds w ms))
        (select w.runtime lib now (split_rounds w ms) at number since)
select_lem w lib now ms at number since =
    select-IsRight w.runtime (split_rounds w ms)
      (tallied-IsNumbered 1 (segments w ms) (split_rounds w ms) (split_rounds-AreTallied w ms)) lib
      now at number since
