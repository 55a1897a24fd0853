-- ===== src/Title/Strip.antt =====
-- The rounds end where no block closes the text.
use agent_session_query.Prelude.{
  ℕ, zero, suc, ◌+◌, ◌≤◌, ◌<◌, Bool, true, false, ◌&&◌, ◌||◌, List, [], ◌∷◌, ◌++◌, append_assoc,
  append-nil, Option, none, some, Option-cases, Bool-cases, inl, inr, ◌⊎◌, ◌≡◌, refl, sym, ap, ◌∙◌,
  arith, Bytes, has_suffix, take, drop, length, length-drop, length-append, take-append-drop,
}
use agent_session_query.Record.{is_empty}
use agent_session_query.Title.{
  harness_blocks, opening, closing, is_blank, trim_right, last_index, cut_before, strip_tag,
  strip_round, strip_rounds, strip_harness_blocks,
}

-- A text starts with another.
abbrev pub Starts : Bytes → Bytes → Type 0
Starts t text = (rest : Bytes) × (text ≡ t ++ rest)

Starts-refl : (t : Bytes) → Starts t t
Starts-refl t = ([], sym (append-nil t))

Starts-trans : (a b c : Bytes) → Starts a b → Starts b c → Starts a c
Starts-trans a b c (r, e) (q, f) = (r ++ q, f ∙ ap (λ t. t ++ q) e ∙ append_assoc a r q)

trim_right-Starts : (s : Bytes) → Starts (trim_right s) s
unfolding trim_right
trim_right-Starts [] = ([], refl)
trim_right-Starts (c ∷ s) =
    let (rest, e) = trim_right-Starts s in
    elim (Bool-cases (is_blank c && is_empty (trim_right s))) [
      | inl all ↦ rw all (c ∷ s, refl)
      | inr some' ↦ rw some' (rest, ap (λ t. c ∷ t) e)
    ]

trim_right_twice : (s : Bytes) → trim_right (trim_right s) ≡ trim_right s
unfolding trim_right
trim_right_twice [] = refl
trim_right_twice (c ∷ s) = elim (Bool-cases (is_blank c && is_empty (trim_right s))) [
  | inl all ↦ rw all refl
  | inr some' ↦ rw (some', trim_right) (rw (trim_right_twice s) (rw some' refl))
]

last_index-lt : (s needle : Bytes) (i : ℕ) → last_index s needle ≡ some i → i < length s
unfolding last_index
last_index-lt [] needle i h = absurd (cc h)
last_index-lt (c ∷ s) needle i h = elim (Option-cases (last_index s needle)) [
  | inl gone ↦ ground (arith, gone, h)
  | inr (j, at) ↦ ground (arith, at, h, last_index-lt s needle j at)
]

Starts-le : (t s : Bytes) → Starts t s → length t ≤ length s
Starts-le t s (r, e) = omega (arith, ap length e, length-append t r)

-- What one tag leaves: the text, or a shorter trimmed beginning of it.
abbrev Leaves : Bytes → Bytes × Bool → Type 0
Leaves t (t', stripped) =
    Starts t' t
    × ((trim_right t ≡ t) → trim_right t' ≡ t')
    × (((stripped ≡ false) × (t' ≡ t)) ⊎ ((stripped ≡ true) × (length t' < length t)))

cut_lem :
    (t : Bytes) (o : Option ℕ) → ((i : ℕ) → o ≡ some i → i < length t) → Leaves t (cut_before t o)
cut_lem t none inside = (Starts-refl t, (λ h. h), inl (refl, refl))
cut_lem t (some i) inside =
    let part : Starts (take i t) t = (drop i t, sym (take-append-drop i t)) in
    let trimmed = trim_right-Starts (take i t) in
    (
      Starts-trans (trim_right (take i t)) (take i t) t trimmed part,
      (λ h. trim_right_twice (take i t)),
      inr (
        refl,
        omega (
          arith,
          Starts-le (trim_right (take i t)) (take i t) trimmed,
          length-append (take i t) (drop i t),
          ap length (take-append-drop i t),
          length-drop i t,
          inside i refl,
        ),
      ),
    )

strip_tag_lem : (t tag : Bytes) → Leaves t (strip_tag t tag)
unfolding strip_tag
strip_tag_lem t tag = elim (Bool-cases (has_suffix t (closing tag))) [
  | inr other ↦ rw other (Starts-refl t, (λ h. h), inl (refl, refl))
  | inl closes ↦
      rw closes
        (cut_lem t (last_index t (opening tag)) (λ i at. last_index-lt t (opening tag) i at))
]

abbrev Shrinks : Bytes → Bytes → Bool → Type 0
Shrinks t t' stripped =
    ((stripped ≡ false) × (t' ≡ t)) ⊎ ((stripped ≡ true) × (length t' < length t))

both_lem : (t t₁ t₂ : Bytes) (a b : Bool) → Shrinks t t₁ a → Shrinks t₁ t₂ b → Shrinks t t₂ (a || b)
both_lem t t₁ t₂ a b (inl (e, same)) (inl (e', same')) = inl (rw (e, e') refl, same' ∙ same)
both_lem t t₁ t₂ a b (inl (e, same)) (inr (e', short)) =
    inr (rw (e, e') refl, omega (arith, short, ap length same))
both_lem t t₁ t₂ a b (inr (e, short)) (inl (e', same')) =
    inr (rw e refl, omega (arith, short, ap length same'))
both_lem t t₁ t₂ a b (inr (e, short)) (inr (e', short')) =
    inr (rw e refl, omega (arith, short, short'))

strip_round_lem : (t : Bytes) (tags : List Bytes) → Leaves t (strip_round t tags)
unfolding strip_round
strip_round_lem t [] = (Starts-refl t, (λ h. h), inl (refl, refl))
strip_round_lem t (tag ∷ tags) =
    let t₁ = (strip_tag t tag).0 in
    let (start, trimmed, one) = strip_tag_lem t tag in
    let (start', trimmed', two) = strip_round_lem t₁ tags in
    (
      Starts-trans (strip_round t₁ tags).0 t₁ t start' start,
      (λ h. trimmed' (trimmed h)),
      both_lem t t₁ (strip_round t₁ tags).0 (strip_tag t tag).1 (strip_round t₁ tags).1 one two,
    )

-- No round drops anything of the text.
abbrev pub IsStripped : Bytes → Type 0
IsStripped t = strip_round t harness_blocks ≡ (t, false)

strip_rounds_lem :
    (f : ℕ) (t : Bytes)
    → length t < f
    → Starts (strip_rounds f t) t
      × ((trim_right t ≡ t) → trim_right (strip_rounds f t) ≡ strip_rounds f t)
      × IsStripped (strip_rounds f t)
unfolding strip_rounds
strip_rounds_lem zero t fuel = absurd (omega arith)
strip_rounds_lem (suc f) t fuel =
    let t' = (strip_round t harness_blocks).0 in
    let (start, trimmed, less) = strip_round_lem t harness_blocks in
    elim less [
      | inl (none', same) ↦ rw none' (
        Starts-refl t,
        (λ h. h),
        ap (λ u. (u, (strip_round t harness_blocks).1)) same ∙ ap (λ b. (t, b)) none',
      )
      | inr (some', short) ↦
          let (start', trimmed', done) = strip_rounds_lem f t' (omega (arith, short, fuel)) in
          rw some'
            (Starts-trans (strip_rounds f t') t' t start' start, (λ h. trimmed' (trimmed h)), done)
    ]

again_lem : (f : ℕ) (t : Bytes) → IsStripped t → strip_rounds f t ≡ t
unfolding strip_rounds
again_lem zero t s = refl
again_lem (suc f) t s = rw s refl

-- What is left of a text is a beginning of it, no round drops anything more of it, so the rounds
-- that the fuel allows are enough, and stripping it again changes nothing.
pub strip_harness_blocks_lem :
    (text : Bytes)
    → Starts (strip_harness_blocks text) text
      × IsStripped (strip_harness_blocks text)
      × (strip_harness_blocks (strip_harness_blocks text) ≡ strip_harness_blocks text)
unfolding strip_harness_blocks
strip_harness_blocks_lem text =
    let t = trim_right text in
    let start = trim_right-Starts text in
    let r = strip_rounds (length text + 1) t in
    let (start', trimmed, done) =
      strip_rounds_lem (length text + 1) t (omega (arith, Starts-le t text start)) in
    (
      Starts-trans r t text start' start,
      done,
      ap (strip_rounds (length r + 1)) (trimmed (trim_right_twice text))
          ∙ again_lem (length r + 1) r done,
    )
