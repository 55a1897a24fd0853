-- ===== src/Sorting.antt =====
-- Go's sort.SliceStable, as an insertion sort: under a strict weak order every stable sort gives
-- this result.
use agent_session_query.Prelude.{
  Bool, true, false, List, [], ◌∷◌, ◌≡◌, refl, sym, ◌∙◌, arith, if◌then◌else◌, Bool-cases, inl, inr,
  keep, All,
}
use mathlib.Core.List.{Perm}
use mathlib.Core.List.Perm
use agent_session_query.Record.Newer.{IsStrictWeakOrder}

module _ {A : Type 0} (lt : A → A → Bool) where
  -- Before the first element that does not come before it.
  unfoldable pub insert : A → List A → List A
  insert x [] = x ∷ []
  insert x (y ∷ ys) = if lt y x then y ∷ insert x ys else x ∷ y ∷ ys

  unfoldable pub sort_stable : List A → List A
  unfolding insert
  sort_stable [] = []
  sort_stable (x ∷ xs) = insert x (sort_stable xs)

  -- No element comes before one that stands ahead of it.
  abbrev pub IsSorted : List A → Type 0
  IsSorted [] = Unit
  IsSorted (x ∷ xs) = All (λ y. lt y x ≡ false) xs × IsSorted xs

module _ {A : Type 0} (lt : A → A → Bool) (o : IsStrictWeakOrder lt) where
  not_before_trans : (x y z : A) → lt y x ≡ false → lt z y ≡ false → lt z x ≡ false
  not_before_trans x y z h k = ground (arith, o.splits z y x)

  not_before_both : (x y : A) → lt y x ≡ true → lt x y ≡ false
  not_before_both x y h = ground (arith, o.transitive x y x, o.irreflexive x)

  All-after :
      (x y : A) (ys : List A)
      → lt y x ≡ false
      → All (λ z. lt z y ≡ false) ys
      → All (λ z. lt z x ≡ false) ys
  All-after x y [] h a = tt
  All-after x y (z ∷ zs) h a = (not_before_trans x y z h a.0, All-after x y zs h a.1)

  insert-All :
      (w x : A) (ys : List A)
      → lt x w ≡ false
      → All (λ z. lt z w ≡ false) ys
      → All (λ z. lt z w ≡ false) (insert lt x ys)
  unfolding insert
  insert-All w x [] h a = (h, tt)
  insert-All w x (y ∷ ys) h a = elim (Bool-cases (lt y x)) [
    | inl b ↦ rw b (a.0, insert-All w x ys h a.1)
    | inr b ↦ rw b (h, a)
  ]

  insert-IsSorted : (x : A) (ys : List A) → IsSorted lt ys → IsSorted lt (insert lt x ys)
  unfolding insert
  insert-IsSorted x [] s = (tt, tt)
  insert-IsSorted x (y ∷ ys) (a, s) = elim (Bool-cases (lt y x)) [
    | inl b ↦ rw b (insert-All y x ys (not_before_both x y b) a, insert-IsSorted x ys s)
    | inr b ↦ rw b ((b, All-after x y ys b a), (a, s))
  ]

  pub sort_stable-IsSorted : (xs : List A) → IsSorted lt (sort_stable lt xs)
  unfolding sort_stable
  sort_stable-IsSorted [] = tt
  sort_stable-IsSorted (x ∷ xs) = insert-IsSorted x (sort_stable lt xs) (sort_stable-IsSorted xs)

  -- Where nothing comes before `x`, it goes to the front, also of a part of the list.
  insert_first : (x : A) (ys : List A) → All (λ y. lt y x ≡ false) ys → insert lt x ys ≡ x ∷ ys
  unfolding insert
  insert_first x [] a = refl
  insert_first x (y ∷ ys) a = rw (a.0)

  keep-All : (P : A → Type 0) (p : A → Bool) (xs : List A) → All P xs → All P (keep p xs)
  keep-All P p [] a = tt
  keep-All P p (x ∷ xs) a = elim (Bool-cases (p x)) [
    | inl b ↦ rw b (a.0, keep-All P p xs a.1)
    | inr b ↦ rw b (keep-All P p xs a.1)
  ]

  keep-insert :
      (p : A → Bool) (x : A) (ys : List A)
      → IsSorted lt ys
      → keep p (insert lt x ys) ≡ (if p x then insert lt x (keep p ys) else keep p ys)
  unfolding insert
  keep-insert p x [] s = refl
  keep-insert p x (y ∷ ys) (a, s) = elim (Bool-cases (lt y x)) [
    | inl b ↦ rw b (elim (Bool-cases (p y)) [
      | inl py ↦
          rw (py, b, keep-insert p x ys s)
            (elim (Bool-cases (p x)) [ inl px ↦ rw px | inr px ↦ rw px ])
      | inr py ↦ rw py (keep-insert p x ys s)
    ])
    | inr b ↦
        let after = keep-All (λ z. lt z x ≡ false) p (y ∷ ys) (b, All-after x y ys b a) in
        rw b (elim (Bool-cases (p x)) [
          | inl px ↦ rw px (sym (insert_first x (keep p (y ∷ ys)) after))
          | inr px ↦ rw px
        ])
  ]

  -- Filtering a sorted list is sorting the filtered list.
  pub keep-sort_stable :
      (p : A → Bool) (xs : List A) → keep p (sort_stable lt xs) ≡ sort_stable lt (keep p xs)
  unfolding sort_stable
  keep-sort_stable p [] = refl
  keep-sort_stable p (x ∷ xs) =
      keep-insert p x (sort_stable lt xs) (sort_stable-IsSorted xs)
      ∙ rw (keep-sort_stable p xs) (elim (Bool-cases (p x)) [ inl px ↦ rw px | inr px ↦ rw px ])

insert-perm :
    {A : Type 0} (lt : A → A → Bool) (x : A) (ys : List A) → Perm (insert lt x ys) (x ∷ ys)
unfolding insert
insert-perm lt x [] = Perm.refl (x ∷ [])
insert-perm lt x (y ∷ ys) = elim (Bool-cases (lt y x)) [
  | inl b ↦ rw b (Perm.trans (Perm.cons y (insert-perm lt x ys)) (Perm.swap x y ys))
  | inr b ↦ rw b (Perm.refl (x ∷ y ∷ ys))
]

pub sort_stable-perm : {A : Type 0} (lt : A → A → Bool) (xs : List A) → Perm (sort_stable lt xs) xs
unfolding sort_stable
sort_stable-perm lt [] = Perm.refl []
sort_stable-perm lt (x ∷ xs) =
    Perm.trans (insert-perm lt x (sort_stable lt xs)) (Perm.cons x (sort_stable-perm lt xs))
