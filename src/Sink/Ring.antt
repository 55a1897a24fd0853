-- ===== src/Sink/Ring.antt =====
-- The ring of `messageSink`: what overwriting the oldest of a full buffer leaves, in order.
use native.Mathlib.Decide.{dec_lt}
use native.Mathlib.Nat.{mod-eq_of_lt, mod_self}
use agent_session_query.Prelude.{
  ℕ, zero, suc, ◌+◌, ◌-◌, ◌%◌, ◌≤◌, ◌<◌, List, [], ◌∷◌, ◌++◌, append_assoc, append-nil, ◌≡◌, refl,
  sym, ap, ◌∙◌, arith, length, set, take, drop, take_last, drop-append_le, drop-drop, length-append,
  length-drop, take-nil, drop_last,
}

module _ {ℓ} {A : Type ℓ} where
  -- The elements in the order in which they were written, the next to be overwritten first.
  abbrev pub unroll : List A → ℕ → List A
  unroll items start = drop start items ++ take start items

  set_split :
      (items : List A) (i : ℕ) (x : A)
      → i < length items
      → (drop (suc i) (set items i x) ≡ drop (suc i) items)
        × (take (suc i) (set items i x) ≡ take i items ++ x ∷ [])
  set_split [] i x h = absurd (omega arith)
  set_split (y ∷ ys) zero x h = (refl, refl)
  set_split (y ∷ ys) (suc i) x h =
      let (d, t) = set_split ys i x (omega arith) in (d, ap (λ r. y ∷ r) t)

  pub drop_all : (n : ℕ) (xs : List A) → length xs ≤ n → drop n xs ≡ []
  drop_all zero [] h = refl
  drop_all zero (x ∷ xs) h = absurd (omega arith)
  drop_all (suc n) [] h = refl
  drop_all (suc n) (x ∷ xs) h = drop_all n xs (omega arith)

  pub take_all : (n : ℕ) (xs : List A) → length xs ≤ n → take n xs ≡ xs
  take_all zero [] h = refl
  take_all zero (x ∷ xs) h = absurd (omega arith)
  take_all (suc n) [] h = refl
  take_all (suc n) (x ∷ xs) h = ap (λ r. x ∷ r) (take_all n xs (omega arith))

  -- Going round: past the last place, the ring starts at the first again.
  unroll_wrap : (items : List A) (n : ℕ) → n ≡ length items → unroll items n ≡ unroll items 0
  unroll_wrap items n e =
      rw (drop_all n items (omega arith), take_all n items (omega arith), append-nil)

  tail_of_drop :
      (items : List A) (i : ℕ) → i < length items → drop (suc i) items ≡ drop 1 (drop i items)
  tail_of_drop items i h = let e : suc i ≡ i + 1 = omega arith in rw e (sym (drop-drop 1 i items))

  pub length-set : (xs : List A) (i : ℕ) (v : A) → length (set xs i v) ≡ length xs
  length-set [] i v = refl
  length-set (x ∷ xs) zero v = refl
  length-set (x ∷ xs) (suc i) v = ap suc (length-set xs i v)

  -- Overwriting the oldest drops it and appends the new one.
  unroll-set-suc :
      (items : List A) (i : ℕ) (x : A)
      → i < length items
      → unroll (set items i x) (suc i) ≡ drop 1 (unroll items i) ++ x ∷ []
  unroll-set-suc items i x h =
      let (d, t) = set_split items i x h in
      rw
        (
          d,
          t,
          drop-append_le 1 (drop i items) (take i items) (omega (arith, length-drop' items i h)),
        )
        (rw (tail_of_drop items i h)
          (sym (append_assoc (drop 1 (drop i items)) (take i items) (x ∷ []))))
    where
      length-drop' : (ys : List A) (j : ℕ) → j < length ys → 1 ≤ length (drop j ys)
      length-drop' [] j p = absurd (omega arith)
      length-drop' (y ∷ ys) zero p = omega arith
      length-drop' (y ∷ ys) (suc j) p = length-drop' ys j (omega arith)

  pub unroll-set :
      (items : List A) (i cap : ℕ) (x : A)
      → i < cap
      → length items ≡ cap
      → unroll (set items i x) ((i + 1) % cap) ≡ drop 1 (unroll items i) ++ x ∷ []
  unroll-set items i cap x h e = elim (dec_lt (i + 1) cap) [
    | yes room ↦
        let step : (i + 1) % cap ≡ suc i = grind (arith, mod-eq_of_lt) in
        rw step (unroll-set-suc items i x (omega arith))
    | no full ↦
        let n : suc i ≡ cap = omega arith in
        let step : (i + 1) % cap ≡ 0 = grind (arith, mod_self) in
        let wrap = unroll_wrap (set items i x) (suc i) (omega (arith, length-set items i x)) in
        rw step (sym wrap ∙ unroll-set-suc items i x (omega arith))
  ]

  -- One more element after a full ring's worth: the last `cap` drop their first.
  pub take_last_step :
      (cap : ℕ) (xs : List A) (x : A)
      → 0 < cap
      → cap ≤ length xs
      → take_last cap (xs ++ x ∷ []) ≡ drop 1 (take_last cap xs) ++ x ∷ []
  take_last_step cap xs x h fits =
      let n : length (xs ++ x ∷ []) - cap ≡ (length xs - cap) + 1 =
        omega (arith, length-append xs (x ∷ [])) in
      rw (n, drop-append_le ((length xs - cap) + 1) xs (x ∷ []) (omega arith))
        (rw (drop-drop 1 (length xs - cap) xs))

  pub take_last_all : (n : ℕ) (xs : List A) → length xs ≤ n → take_last n xs ≡ xs
  take_last_all n xs h = let e : length xs - n ≡ 0 = omega arith in rw e

  take-drop : (n d : ℕ) (xs : List A) → take n (drop d xs) ≡ drop d (take (d + n) xs)
  take-drop n zero xs = ap (λ k. take k xs) (omega arith)
  take-drop n (suc d) [] = rw (take-nil n, take-nil (suc d + n))
  take-drop n (suc d) (x ∷ xs) =
      let e : suc d + n ≡ suc (d + n) = omega arith in rw e (take-drop n d xs)

  pub length-take_of_le : (n : ℕ) (xs : List A) → n ≤ length xs → length (take n xs) ≡ n
  length-take_of_le zero xs h = refl
  length-take_of_le (suc n) [] h = absurd (omega arith)
  length-take_of_le (suc n) (x ∷ xs) h = ap suc (length-take_of_le n xs (omega arith))

  -- Cutting the offset and then the limit from a ring of both, or more, is cutting the whole.
  pub page_of_ring :
      (n limit offset : ℕ) (xs ring : List A)
      → limit + offset ≤ n
      → ring ≡ take_last n xs
      → drop (length ring - offset - limit) (take (length ring - offset) ring)
        ≡ take_last limit (drop_last offset xs)
  page_of_ring n limit offset xs ring fits e =
      let d : ℕ = length xs - n in
      let l : length ring ≡ length xs - d = ap length e ∙ length-drop d xs in
      let h : length (take (length xs - offset) xs) ≡ length xs - offset =
        length-take_of_le (length xs - offset) xs (omega arith) in
      let cut : d + (length xs - d - offset - limit) ≡ length xs - offset - limit = omega arith in
      let upto : d + (length xs - d - offset) ≡ length xs - offset = omega arith in
      rw (h, e)
        (rw (length-drop d xs, take-drop (length xs - d - offset) d xs)
          (rw (drop-drop (length xs - d - offset - limit) d _) (rw (cut, upto))))
