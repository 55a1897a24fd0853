-- ===== src/Brief/Selected.antt =====
-- The rounds that a brief selects are there, and every refusal has its reason.
use agent_session_query.Prelude.{
  ℕ, suc, zero, ◌+◌, ◌<◌, ◌≤◌, Bool, true, false, List, [], ◌∷◌, Option, none, some, Time, ◌==◌,
  length, get_elem?, ap, ◌∙◌, ◌≡◌, refl, ◌⊎◌, inl, inr, Bool-cases, All, arith,
}
use agent_session_query.Prelude.Int.{ℤ, pos, negsuc}
use agent_session_query.Json.{Runtime}
use agent_session_query.Rounds.{Round}
use agent_session_query.Rounds.Segments.{Segment}
use agent_session_query.Rounds.Tally.{AreTallied}
use agent_session_query.Brief.{
  covers, first_covering, runs_since, indices_since, latest_index, is_chosen,
}

abbrev pub IsNumbered : ℕ → List Round → Type 0
IsNumbered n [] = Unit
IsNumbered n (r ∷ rs) = (r.index ≡ n) × IsNumbered (suc n) rs

pub tallied-IsNumbered :
    (n : ℕ) (cut : List Segment) (rs : List Round) → AreTallied n cut rs → IsNumbered n rs
tallied-IsNumbered n [] [] h = tt
tallied-IsNumbered n [] (r ∷ rs) h = absurd h
tallied-IsNumbered n (s ∷ cut) [] h = tt
tallied-IsNumbered n ((m, ms) ∷ cut) (r ∷ rs) (h, hs) =
    let (in_changed, awaited, files_once, changed_once, failures, kinds, number, size) = h in
    (number, tallied-IsNumbered (suc n) cut rs hs)

-- A round of the number `i` that passes the test stands where the numbers from `n` on say.
abbrev pub IsAt : (Round → Bool) → ℕ → List Round → ℕ → Type 0
IsAt wanted n rounds i =
    (k : ℕ) × (r : Round) × (get_elem? rounds k ≡ some r)
    × (r.index ≡ i)
    × (i ≡ n + k)
    × (wanted r ≡ true)

abbrev pub IsAscendingFrom : ℕ → List ℕ → Type 0
IsAscendingFrom lo [] = Unit
IsAscendingFrom lo (i ∷ is) = (lo ≤ i) × IsAscendingFrom (suc i) is

module _ (wanted : Round → Bool) where
  first-IsAt :
      (n : ℕ) (r : Round) (rs : List Round)
      → r.index ≡ n
      → wanted r ≡ true
      → IsAt wanted n (r ∷ rs) r.index
  first-IsAt n r rs e passes = (0, r, refl, refl, omega (arith, e), passes)

  IsAt-behind :
      (n : ℕ) (r : Round) (rs : List Round) (i : ℕ)
      → IsAt wanted (suc n) rs i
      → IsAt wanted n (r ∷ rs) i
  IsAt-behind n r rs i (k, s, here, e, at, passes) = (suc k, s, here, e, omega (arith, at), passes)

  All-behind :
      (n : ℕ) (r : Round) (rs : List Round) (is : List ℕ)
      → All (IsAt wanted (suc n) rs) is
      → All (IsAt wanted n (r ∷ rs)) is
  All-behind n r rs [] h = tt
  All-behind n r rs (i ∷ is) (hi, h) = (IsAt-behind n r rs i hi, All-behind n r rs is h)

ascending_lower :
    (lo hi : ℕ) (is : List ℕ) → lo ≤ hi → IsAscendingFrom hi is → IsAscendingFrom lo is
ascending_lower lo hi [] le h = tt
ascending_lower lo hi (i ∷ is) le (hi', h) = (omega (arith, le, hi'), h)

pub All-map {ℓ κ μ} :
    {A : Type ℓ} {P : A → Type κ} {Q : A → Type μ} (xs : List A)
    → ((x : A) → P x → Q x)
    → All P xs
    → All Q xs
All-map [] f h = tt
All-map (x ∷ xs) f (hx, h) = (f x hx, All-map xs f h)

numbered_above : (n m : ℕ) (rs : List Round) → n ≤ m → IsNumbered m rs → All (λ r. n ≤ r.index) rs
numbered_above n m [] le h = tt
numbered_above n m (r ∷ rs) le (e, h) =
    (omega (arith, le, e), numbered_above n (suc m) rs (omega (arith, le)) h)

abbrev pub same_number : ℤ → ℕ → Bool
same_number (pos n) i = n == i
same_number (negsuc n) i = false

module _ (rt : Runtime) where
  pub since_there :
      (cut : Time) (n : ℕ) (rs : List Round)
      → IsNumbered n rs
      → All (IsAt (runs_since rt cut) n rs) (indices_since rt cut rs)
        × IsAscendingFrom n (indices_since rt cut rs)
  unfolding indices_since
  since_there cut n [] h = (tt, tt)
  since_there cut n (r ∷ rs) (e, h) = elim (Bool-cases (runs_since rt cut r)) [
    | inl runs ↦
        let (there, ascends) = since_there cut (suc n) rs h in
        rw runs (
          (first-IsAt _ n r rs e runs, All-behind _ n r rs _ there),
          (omega (arith, e), ascending_lower (suc r.index) (suc n) _ (omega (arith, e)) ascends),
        )
    | inr over ↦
        let (there, ascends) = since_there cut (suc n) rs h in
        rw over (All-behind _ n r rs _ there, ascending_lower n (suc n) _ (omega arith) ascends)
  ]

  pub since_some :
      (cut : Time) (rs : List Round)
      → All (λ r. runs_since rt cut r ≡ false) rs ⊎ (0 < length (indices_since rt cut rs))
  unfolding indices_since
  since_some cut [] = inl tt
  since_some cut (r ∷ rs) = elim (Bool-cases (runs_since rt cut r)) [
    | inl runs ↦ rw runs (inr (omega arith))
    | inr over ↦ elim (since_some cut rs) [
      | inl all_over ↦ inl (over, all_over)
      | inr more ↦ rw over (inr more)
    ]
  ]

  indices_running :
      (cut : Time) (r : Round) (rs : List Round)
      → runs_since rt cut r ≡ true
      → indices_since rt cut (r ∷ rs) ≡ r.index ∷ indices_since rt cut rs
  unfolding indices_since
  indices_running cut r rs runs = rw runs refl

  indices_over :
      (cut : Time) (r : Round) (rs : List Round)
      → runs_since rt cut r ≡ false
      → indices_since rt cut (r ∷ rs) ≡ indices_since rt cut rs
  unfolding indices_since
  indices_over cut r rs over = rw over refl

  -- Every round that was still running at the moment is among those that are selected.
  pub since_complete :
      (cut : Time) (rs : List Round)
      → All
          (λ r. runs_since rt cut r ≡ true → is_chosen (indices_since rt cut rs) r.index ≡ true)
          rs
  since_complete cut [] = tt
  since_complete cut (r ∷ rs) = elim (Bool-cases (runs_since rt cut r)) [
    | inl runs ↦
        let e = indices_running cut r rs runs in
        (
          λ h. rw e (ground arith),
          All-map rs (λ s f h. rw e (ground (arith, f h))) (since_complete cut rs),
        )
    | inr over ↦
        let e = indices_over cut r rs over in
        (
          λ h. absurd (ground (arith, h, over)),
          All-map rs (λ s f h. rw e (f h)) (since_complete cut rs),
        )
  ]

  -- The first round that covers the moment is found, or none does.
  abbrev pub IsFound : Time → ℕ → List Round → Option Round → Type 0
  IsFound at n rs none = All (λ r. covers rt at r ≡ false) rs
  IsFound at n rs (some r) =
      IsAt (covers rt at) n rs r.index × All (λ s. covers rt at s ≡ true → r.index ≤ s.index) rs

  IsFound-behind :
      (at : Time) (n : ℕ) (s : Round) (rs : List Round) (found : Option Round)
      → covers rt at s ≡ false
      → IsFound at (suc n) rs found
      → IsFound at n (s ∷ rs) found
  IsFound-behind at n s rs none outside h = (outside, h)
  IsFound-behind at n s rs (some r) outside (h, first) =
      (IsAt-behind _ n s rs r.index h, (λ within. absurd (ground (arith, outside, within)), first))

  pub first_covering-IsFound :
      (at : Time) (n : ℕ) (rs : List Round)
      → IsNumbered n rs
      → IsFound at n rs (first_covering rt at rs)
  unfolding first_covering
  first_covering-IsFound at n [] h = tt
  first_covering-IsFound at n (s ∷ rs) (es, h) = elim (Bool-cases (covers rt at s)) [
    | inl within ↦ rw within (
      first-IsAt _ n s rs es within,
      (
        λ h. omega arith,
        All-map rs (λ r le h. le) (numbered_above s.index (suc n) rs (omega (arith, es)) h),
      ),
    )
    | inr outside ↦ rw outside (
        IsFound-behind at n s rs (first_covering rt at rs) outside
          (first_covering-IsFound at (suc n) rs h))
  ]

-- The latest round is the last one.
pub latest_index_lem :
    (n : ℕ) (r : Round) (rs : List Round)
    → IsNumbered n (r ∷ rs)
    → latest_index (r ∷ rs) ≡ (n + length rs) ∷ []
unfolding latest_index
latest_index_lem n r [] (e, h) = ap (λ i. i ∷ []) (e ∙ omega arith)
latest_index_lem n r (s ∷ rs) (e, h) =
    latest_index_lem (suc n) s rs h ∙ ap (λ i. i ∷ []) (omega arith)

pub number_there :
    (n k : ℕ) (rs : List Round)
    → IsNumbered n rs
    → k < length rs
    → IsAt (λ r. same_number (pos (n + k)) r.index) n rs (n + k)
number_there n k [] h lt = absurd (omega (arith, lt))
number_there n zero (r ∷ rs) (e, h) lt = (0, r, refl, omega (arith, e), refl, ground (arith, e))
number_there n (suc k) (r ∷ rs) (e, h) lt =
    let same : n + suc k ≡ suc n + k = omega arith in
    rw same (IsAt-behind _ n r rs (suc n + k) (number_there (suc n) k rs h (omega (arith, lt))))

pub number_missing :
    (n i : ℕ) (rs : List Round)
    → IsNumbered n rs
    → (i < n) ⊎ (n + length rs ≤ i)
    → All (λ r. same_number (pos i) r.index ≡ false) rs
number_missing n i [] h out = tt
number_missing n i (r ∷ rs) (e, h) out = (
  ground (arith, e, out),
  number_missing (suc n) i rs h (elim out [
    | inl below ↦ inl (omega (arith, below))
    | inr above ↦ inr (omega (arith, above))
  ]),
)

pub number_negative :
    (i : ℕ) (rs : List Round) → All (λ r. same_number (negsuc i) r.index ≡ false) rs
number_negative i [] = tt
number_negative i (r ∷ rs) = (refl, number_negative i rs)
