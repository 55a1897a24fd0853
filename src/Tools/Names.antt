-- ===== src/Tools/Names.antt =====
-- Lists of names that take each name once.
use agent_session_query.Prelude.{
  suc, ◌≤◌, length, true, false, ◌||◌, List, [], ◌∷◌, ◌++◌, Bytes, if◌then◌else◌, bytes_eq,
  bytes_eq_iff, bytes_eq_refl, eq_of_bytes_eq, ◌≡◌, refl, inl, inr, Bool-cases, All, All-append,
  arith,
}
use agent_session_query.Tools.{contains_string, append_unique, append_all_unique}

contains-append :
    (xs ys : List Bytes) (s : Bytes)
    → contains_string (xs ++ ys) s ≡ (contains_string xs s || contains_string ys s)
unfolding contains_string
contains-append [] ys s = refl
contains-append (x ∷ xs) ys s = ground (arith, contains-append xs ys s)

contains-append_unique :
    (xs : List Bytes) (t s : Bytes)
    → contains_string (append_unique xs t) s ≡ (contains_string xs s || bytes_eq t s)
unfolding append_unique contains_string
contains-append_unique xs t s = ground (arith, contains-append xs (t ∷ []) s, eq_of_bytes_eq t s)

contains-append_all :
    (xs more : List Bytes) (s : Bytes)
    → contains_string (append_all_unique xs more) s
      ≡ (contains_string xs s || contains_string more s)
unfolding append_all_unique contains_string
contains-append_all xs [] s = ground arith
contains-append_all xs (t ∷ more) s =
    ground (arith, contains-append_all (append_unique xs t) more s, contains-append_unique xs t s)

-- Every string of `xs` stands in `files`.
abbrev pub IsWithin : List Bytes → List Bytes → Type 0
IsWithin files xs = All (λ s. contains_string files s ≡ true) xs

abbrev pub IsDistinct : List Bytes → Type 0
IsDistinct [] = Unit
IsDistinct (x ∷ xs) = (contains_string xs x ≡ false) × IsDistinct xs

pub IsWithin-grow :
    (files more xs : List Bytes) → IsWithin files xs → IsWithin (append_all_unique files more) xs
IsWithin-grow files more [] h = tt
IsWithin-grow files more (x ∷ xs) (hx, h) =
    (ground (arith, contains-append_all files more x), IsWithin-grow files more xs h)

-- `more` is a rest of what is put in.
IsWithin-cons : (x : Bytes) (files xs : List Bytes) → IsWithin files xs → IsWithin (x ∷ files) xs
unfolding contains_string
IsWithin-cons x files [] h = tt
IsWithin-cons x files (y ∷ ys) (hy, h) = (ground (arith, hy), IsWithin-cons x files ys h)

pub IsWithin-self : (xs : List Bytes) → IsWithin xs xs
unfolding contains_string
IsWithin-self [] = tt
IsWithin-self (x ∷ xs) = (ground (arith, bytes_eq_refl x), IsWithin-cons x xs xs (IsWithin-self xs))

pub IsWithin-all :
    (files more xs : List Bytes) → IsWithin more xs → IsWithin (append_all_unique files more) xs
IsWithin-all files more [] h = tt
IsWithin-all files more (x ∷ xs) (hx, h) =
    (ground (arith, contains-append_all files more x), IsWithin-all files more xs h)

IsWithin-append_unique :
    (files xs : List Bytes) (s : Bytes)
    → IsWithin files xs
    → contains_string files s ≡ true
    → IsWithin files (append_unique xs s)
unfolding append_unique
IsWithin-append_unique files xs s h e = elim (Bool-cases (contains_string xs s)) [
  | inl held ↦ rw held h
  | inr new ↦ rw new (All-append (λ t. contains_string files t ≡ true) xs (s ∷ []) h (e, tt))
]

pub IsWithin-append_all :
    (files xs more : List Bytes)
    → IsWithin files xs
    → IsWithin files more
    → IsWithin files (append_all_unique xs more)
unfolding append_all_unique
IsWithin-append_all files xs [] h k = h
IsWithin-append_all files xs (s ∷ more) h (e, k) =
    IsWithin-append_all files (append_unique xs s) more (IsWithin-append_unique files xs s h e) k

pub IsDistinct-snoc :
    (xs : List Bytes) (s : Bytes)
    → IsDistinct xs
    → contains_string xs s ≡ false
    → IsDistinct (xs ++ s ∷ [])
unfolding contains_string
IsDistinct-snoc [] s h e = (refl, tt)
IsDistinct-snoc (x ∷ xs) s (hx, h) e = (
  ground (arith, contains-append xs (s ∷ []) x, bytes_eq_iff x s, bytes_eq_iff s x),
  IsDistinct-snoc xs s h (ground arith),
)

IsDistinct-append_unique :
    (xs : List Bytes) (s : Bytes) → IsDistinct xs → IsDistinct (append_unique xs s)
unfolding append_unique
IsDistinct-append_unique xs s h = elim (Bool-cases (contains_string xs s)) [
  | inl held ↦ rw held h
  | inr new ↦ rw new (IsDistinct-snoc xs s h new)
]

pub IsDistinct-append_all :
    (xs more : List Bytes) → IsDistinct xs → IsDistinct (append_all_unique xs more)
unfolding append_all_unique
IsDistinct-append_all xs [] h = h
IsDistinct-append_all xs (s ∷ more) h =
    IsDistinct-append_all (append_unique xs s) more (IsDistinct-append_unique xs s h)

-- The list without the first occurrence of a name.
without : Bytes → List Bytes → List Bytes
without x [] = []
without x (y ∷ ys) = let rest = without x ys in if bytes_eq y x then ys else y ∷ rest

length-without :
    (x : Bytes) (ys : List Bytes)
    → contains_string ys x ≡ true
    → suc (length (without x ys)) ≡ length ys
unfolding contains_string without
length-without x [] e = absurd cc
length-without x (y ∷ ys) e = ground (arith, e, length-without x ys)

without-contains :
    (x s : Bytes) (ys : List Bytes)
    → contains_string ys s ≡ true
    → bytes_eq x s ≡ false
    → contains_string (without x ys) s ≡ true
unfolding contains_string without
without-contains x s [] e differ = absurd cc
without-contains x s (y ∷ ys) e differ = ground (
  arith,
  e,
  differ,
  without-contains x s ys,
  bytes_eq_iff y x,
  bytes_eq_iff y s,
  bytes_eq_iff x s,
)

IsWithin-without :
    (x : Bytes) (ys xs : List Bytes)
    → contains_string xs x ≡ false
    → IsWithin ys xs
    → IsWithin (without x ys) xs
unfolding contains_string
IsWithin-without x ys [] e h = tt
IsWithin-without x ys (s ∷ xs) e (hs, h) = (
  without-contains x s ys hs (ground (arith, e, bytes_eq_iff s x, bytes_eq_iff x s)),
  IsWithin-without x ys xs (ground (arith, e)) h,
)

-- Distinct names of a list are no more than the list has.
pub length-within : (ys xs : List Bytes) → IsDistinct xs → IsWithin ys xs → length xs ≤ length ys
length-within ys [] d h = omega arith
length-within ys (x ∷ xs) (dx, d) (hx, h) = ground (
  arith,
  length-without x ys hx,
  length-within (without x ys) xs d (IsWithin-without x ys xs dx h),
)
