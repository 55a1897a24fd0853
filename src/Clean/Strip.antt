-- ===== src/Clean/Strip.antt =====
-- What is left of a text after the terminal controls are removed.
use agent_session_query.Prelude.{
  ℕ, zero, suc, ◌≤◌, Bool, false, [], ◌∷◌, ◌++◌, ◌≡◌, refl, ap, sym, ◌∙◌, arith, Bytes, length,
  take, drop, any, All, Bool-cases, inl, inr, length-drop, take-append-drop, ◌==◌,
}
use agent_session_query.Clean.{
  is_terminal_control, csi_len, string_len, nf_len, escape_sequence_len, next_piece, strip_loop,
  strip_terminal_controls,
}

csi_len_le : (s : Bytes) → csi_len s ≤ length s
unfolding csi_len
csi_len_le [] = omega arith
csi_len_le (b ∷ s) = ground (arith, csi_len_le s)

string_len_le : (s : Bytes) → string_len s ≤ length s
unfolding string_len
string_len_le [] = omega arith
string_len_le (b ∷ []) = ground arith
string_len_le (b ∷ c ∷ s) = ground (arith, string_len_le (c ∷ s))

nf_len_le : (s : Bytes) → nf_len s ≤ length s
unfolding nf_len
nf_len_le [] = omega arith
nf_len_le (b ∷ s) = ground (arith, nf_len_le s)

-- A sequence has its ESC at least, and ends in the text.
pub escape_sequence_len-bounds :
    (e : ℕ) (s : Bytes)
    → (1 ≤ escape_sequence_len (e ∷ s)) × (escape_sequence_len (e ∷ s) ≤ length (e ∷ s))
unfolding escape_sequence_len
escape_sequence_len-bounds e [] = omega arith
escape_sequence_len-bounds e (c ∷ s) = ground (arith, csi_len_le s, string_len_le s, nf_len_le s)

any-append :
    (p : ℕ → Bool) (xs ys : Bytes) → any p xs ≡ false → any p ys ≡ false → any p (xs ++ ys) ≡ false
any-append p [] ys h k = k
any-append p (x ∷ xs) ys h k = ground (arith, any-append p xs ys)

any-drop : (p : ℕ → Bool) (n : ℕ) (xs : Bytes) → any p xs ≡ false → any p (drop n xs) ≡ false
any-drop p zero xs h = h
any-drop p (suc n) [] h = refl
any-drop p (suc n) (x ∷ xs) h = any-drop p n xs (ground (arith, h))

any_high : (xs : Bytes) → All (λ b. 128 ≤ b) xs → any is_terminal_control xs ≡ false
any_high [] a = refl
any_high (x ∷ xs) (h, a) = ground (arith, any_high xs a)

-- What the model takes from utf8.DecodeRuneInString: a rune has a byte at least, and behind its first
-- byte only bytes that are not ASCII.
pub record IsRuneLen (rune_len : Bytes → ℕ) : Type 0 where
  pub positive : (c : ℕ) (s : Bytes) → 1 ≤ rune_len (c ∷ s)
  pub high : (c : ℕ) (s : Bytes) → All (λ b. 128 ≤ b) (drop 1 (take (rune_len (c ∷ s)) (c ∷ s)))

module _ (rune_len : Bytes → ℕ) (law : IsRuneLen rune_len) where
  rune_clean :
      (n c : ℕ) (s : Bytes)
      → is_terminal_control c ≡ false
      → All (λ b. 128 ≤ b) (drop 1 (take n (c ∷ s)))
      → any is_terminal_control (take n (c ∷ s)) ≡ false
  rune_clean zero c s h a = refl
  rune_clean (suc n) c s h a = ground (arith, h, any_high (take n s) a)

  next_piece_clean :
      (c : ℕ) (s : Bytes) → any is_terminal_control (next_piece rune_len c s).0 ≡ false
  unfolding next_piece
  next_piece_clean c s = elim (Bool-cases (c == 27)) [
    | inl esc ↦ rw esc refl
    | inr e ↦ elim (Bool-cases (is_terminal_control c)) [
      | inl t ↦ rw (e, t) refl
      | inr f ↦ rw (e, f) (rune_clean (rune_len (c ∷ s)) c s f (law.high c s))
    ]
  ]

  next_piece_forward : (c : ℕ) (s : Bytes) → 1 ≤ (next_piece rune_len c s).1
  unfolding next_piece
  next_piece_forward c s = elim (Bool-cases (c == 27)) [
    | inl esc ↦ rw esc ((escape_sequence_len-bounds c s).0)
    | inr e ↦ elim (Bool-cases (is_terminal_control c)) [
      | inl t ↦ rw (e, t) (omega arith)
      | inr f ↦ rw (e, f) (law.positive c s)
    ]
  ]

  strip_loop_clean : (f : ℕ) (s : Bytes) → any is_terminal_control (strip_loop rune_len f s) ≡ false
  unfolding strip_loop
  strip_loop_clean zero s = refl
  strip_loop_clean (suc f) [] = refl
  strip_loop_clean (suc f) (c ∷ s) =
      any-append is_terminal_control (next_piece rune_len c s).0
        (strip_loop rune_len f (drop (next_piece rune_len c s).1 (c ∷ s))) (next_piece_clean c s)
        (strip_loop_clean f (drop (next_piece rune_len c s).1 (c ∷ s)))

  -- Under the same condition on runes, the loop ends: as many rounds as the text has bytes are
  -- enough, and more change nothing.
  pub strip_loop_enough :
      (f g : ℕ) (s : Bytes)
      → length s ≤ f
      → length s ≤ g
      → strip_loop rune_len f s ≡ strip_loop rune_len g s
  unfolding strip_loop
  strip_loop_enough zero zero s h k = refl
  strip_loop_enough zero (suc g) [] h k = refl
  strip_loop_enough zero (suc g) (c ∷ s) h k = absurd (omega arith)
  strip_loop_enough (suc f) zero [] h k = refl
  strip_loop_enough (suc f) zero (c ∷ s) h k = absurd (omega arith)
  strip_loop_enough (suc f) (suc g) [] h k = refl
  strip_loop_enough (suc f) (suc g) (c ∷ s) h k =
      let n = (next_piece rune_len c s).1 in
      let short : length (drop n (c ∷ s)) ≤ length s =
        omega (arith, length-drop n (c ∷ s), next_piece_forward c s) in
      ap (λ t. (next_piece rune_len c s).0 ++ t)
        (strip_loop_enough f g (drop n (c ∷ s)) (omega arith) (omega arith))

  -- A piece of a text without controls is a part of it as it stands.
  next_piece_plain :
      (c : ℕ) (s : Bytes)
      → is_terminal_control c ≡ false
      → (next_piece rune_len c s).0 ≡ take (next_piece rune_len c s).1 (c ∷ s)
  unfolding next_piece
  next_piece_plain c s f = elim (Bool-cases (c == 27)) [
    | inl esc ↦ absurd (ground (arith, esc, f))
    | inr e ↦ rw (e, f) refl
  ]

  strip_loop_plain :
      (f : ℕ) (s : Bytes)
      → length s ≤ f
      → any is_terminal_control s ≡ false
      → strip_loop rune_len f s ≡ s
  unfolding strip_loop
  strip_loop_plain zero [] h k = refl
  strip_loop_plain zero (c ∷ s) h k = absurd (omega arith)
  strip_loop_plain (suc f) [] h k = refl
  strip_loop_plain (suc f) (c ∷ s) h k =
      let n = (next_piece rune_len c s).1 in
      let short : length (drop n (c ∷ s)) ≤ length s =
        omega (arith, length-drop n (c ∷ s), next_piece_forward c s) in
      let rest =
        strip_loop_plain f (drop n (c ∷ s)) (omega arith)
          (any-drop is_terminal_control n (c ∷ s) k) in
      ap (λ t. t ++ strip_loop rune_len f (drop n (c ∷ s)))
        (next_piece_plain c s (ground (arith, k)))
      ∙ ap (λ t. take n (c ∷ s) ++ t) rest
      ∙ take-append-drop n (c ∷ s)

  -- When a rune has a byte at least and no ASCII behind its first byte, the early return for a text
  -- without controls gives what the loop gives.
  pub strip-loop :
      (s : Bytes) → strip_terminal_controls rune_len s ≡ strip_loop rune_len (length s) s
  unfolding strip_terminal_controls
  strip-loop s = elim (Bool-cases (any is_terminal_control s)) [
    | inl t ↦ rw t refl
    | inr e ↦ rw e (sym (strip_loop_plain (length s) s (omega arith) e))
  ]

  strip_again :
      (s : Bytes) → any is_terminal_control s ≡ false → strip_terminal_controls rune_len s ≡ s
  unfolding strip_terminal_controls
  strip_again s e = rw e refl

  -- When a rune has a byte at least and no ASCII behind its first byte, no terminal control is left
  -- in a cleaned text, whatever escapes it held, and cleaning again changes nothing.
  pub strip_terminal_controls_clean :
      (s : Bytes)
      → (any is_terminal_control (strip_terminal_controls rune_len s) ≡ false)
        × (strip_terminal_controls rune_len (strip_terminal_controls rune_len s)
            ≡ strip_terminal_controls rune_len s)
  strip_terminal_controls_clean s =
      let clean : any is_terminal_control (strip_terminal_controls rune_len s) ≡ false =
        ap (any is_terminal_control) (strip-loop s) ∙ strip_loop_clean (length s) s in
      (clean, strip_again (strip_terminal_controls rune_len s) clean)
