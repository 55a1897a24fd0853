-- ===== src/Paging/Args/Bounds.antt =====
-- How many sessions a page holds.
use agent_session_query.Prelude.{
  ℕ, Bool, true, false, ◌≤◌, ◌<◌, List, Option, none, some, Option-cases, Bool-cases, inl, inr,
  Bytes, ltb, length, length-take-le, ◌≡◌, refl, arith,
}
use agent_session_query.Prelude.Int.{ℤ, pos, negsuc}
use agent_session_query.Usage.{Floats, to_float}
use agent_session_query.Json.{Value, Fields, get}
use agent_session_query.Paging.Args.{clamped, arg_int, cut_sessions}

-- A page within the most, or a panic, and then the argument is a number that no int holds.
abbrev pub Cuts :
    {A : Type 0} → Floats → (is_nonneg fits : ℕ → Bool) → ℕ → Value → Option (List A) → Type 0
Cuts fl is_nonneg fits max given (some page) = length page ≤ max
Cuts fl is_nonneg fits max given none =
    (v : ℕ) × (to_float fl given ≡ some v) × (is_nonneg v ≡ true) × (fits v ≡ false)

pos_cut :
    {A : Type 0} (sessions : List A) (n max : ℕ)
    → 0 < max
    → (fl : Floats) (is_nonneg fits : ℕ → Bool) (given : Value)
    → Cuts fl is_nonneg fits max given (cut_sessions sessions (clamped max (pos n)))
unfolding cut_sessions
pos_cut sessions n max positive fl is_nonneg fits given = elim (Bool-cases (ltb max n)) [
  | inl over ↦
      let e : clamped max (pos n) ≡ pos max = ground (arith, over, positive) in
      rw e (ground (arith, length-take-le max sessions))
  | inr within ↦
      let e : clamped max (pos n) ≡ pos n = ground (arith, within) in
      rw e (ground (arith, within, length-take-le n sessions))
]

module _ (fl : Floats) (is_nonneg fits : ℕ → Bool)
    (exact : (v : ℕ) → is_nonneg v ≡ true → fits v ≡ true → (n : ℕ) × (fl.to_int v ≡ pos n)) where
  not_exact : (v n : ℕ) → is_nonneg v ≡ true → fl.to_int v ≡ negsuc n → fits v ≡ false
  not_exact v n nonneg e = elim (Bool-cases (fits v)) [
    | inl holds ↦ let (m, e') = exact v nonneg holds in absurd (cc (e, e'))
    | inr out ↦ out
  ]

  converted_cut :
      {A : Type 0} (sessions : List A) (v : ℕ) (n : ℤ) (max : ℕ) (given : Value)
      → 0 < max
      → to_float fl given ≡ some v
      → is_nonneg v ≡ true
      → fl.to_int v ≡ n
      → Cuts fl is_nonneg fits max given (cut_sessions sessions (clamped max n))
  unfolding cut_sessions
  converted_cut sessions v (pos n) max given positive read nonneg e =
      pos_cut sessions n max positive fl is_nonneg fits given
  converted_cut sessions v (negsuc n) max given positive read nonneg e =
      (v, read, nonneg, not_exact v n nonneg e)

  -- When the limit of the server is positive and the conversion of a number from zero on to an int
  -- is not negative where an int holds it, the sessions cut at the limit of a call are at most as
  -- many as the server's limit, whatever the argument, or the slice panics, and then the argument
  -- is a number from zero on that no int holds.
  pub cut_sessions-arg_int :
      {A : Type 0} (args : Fields) (key : Bytes) (def max : ℕ) (sessions : List A)
      → 0 < max
      → Cuts fl is_nonneg fits max
          (get args key)
          (cut_sessions sessions (arg_int fl is_nonneg args key def max))
  unfolding arg_int
  cut_sessions-arg_int args key def max sessions positive =
      let given = get args key in
      elim (Option-cases (to_float fl given)) [
        | inl missing ↦ rw missing (pos_cut sessions def max positive fl is_nonneg fits given)
        | inr (v, read) ↦ elim (Bool-cases (is_nonneg v)) [
          | inr negative ↦
              rw (read, negative) (pos_cut sessions def max positive fl is_nonneg fits given)
          | inl nonneg ↦
              rw (read, nonneg)
                (converted_cut sessions v (fl.to_int v) max given positive read nonneg refl)
        ]
      ]
