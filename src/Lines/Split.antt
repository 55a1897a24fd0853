-- ===== src/Lines/Split.antt =====
-- The lines of a text, and where its first line ends.
use agent_session_query.Prelude.{
  ℕ, zero, suc, ◌+◌, ◌≤◌, ◌<◌, List, [], ◌∷◌, none, some, Option-cases, ◌≡◌, arith, Bytes, ◌==◌,
  if◌then◌else◌, inl, inr, index_byte, length, take, drop,
}

abbrev pub cons_first : ℕ → List Bytes → List Bytes
cons_first c [] = (c ∷ []) ∷ []
cons_first c (l ∷ ls) = (c ∷ l) ∷ ls

-- The lines of a text; the last one needs no newline.
unfoldable pub lines_of : Bytes → List Bytes
lines_of [] = []
lines_of (c ∷ s) = if c == b'\n' then [] ∷ lines_of s else cons_first c (lines_of s)

-- How long the first line is.
unfoldable pub line_len : Bytes → ℕ
line_len [] = 0
line_len (c ∷ s) = if c == b'\n' then 0 else line_len s + 1

pub line_len-le : (s : Bytes) → line_len s ≤ length s
unfolding line_len
line_len-le [] = omega arith
line_len-le (c ∷ s) = ground (arith, line_len-le s)

-- The first newline of a part is the first of the whole.
pub line_len_found :
    (n i : ℕ) (s : Bytes)
    → index_byte b'\n' (take n s) ≡ some i
    → (line_len s ≡ i) × (i < length (take n s))
unfolding line_len index_byte
line_len_found zero i s h = absurd (cc h)
line_len_found (suc n) i [] h = absurd (cc h)
line_len_found (suc n) i (c ∷ s) h = elim (Option-cases (index_byte b'\n' (take n s))) [
  | inl gone ↦ ground (arith, gone, h)
  | inr (j, at) ↦ ground (arith, at, h, line_len_found n j s at)
]

-- A part without a newline belongs to the first line.
pub line_len_passed :
    (n : ℕ) (s : Bytes)
    → n ≤ length s
    → index_byte b'\n' (take n s) ≡ none
    → line_len s ≡ n + line_len (drop n s)
unfolding line_len index_byte
line_len_passed zero s le h = omega arith
line_len_passed (suc n) [] le h = omega arith
line_len_passed (suc n) (c ∷ s) le h = elim (Option-cases (index_byte b'\n' (take n s))) [
  | inl gone ↦ ground (arith, gone, h, line_len_passed n s)
  | inr (j, at) ↦ ground (arith, at, h)
]

pub lines_of_first :
    (c : ℕ) (s : Bytes)
    → lines_of (c ∷ s)
      ≡ take (line_len (c ∷ s)) (c ∷ s) ∷ lines_of (drop (line_len (c ∷ s) + 1) (c ∷ s))
unfolding lines_of line_len
lines_of_first c [] = ground arith
lines_of_first c (d ∷ s) = ground (arith, lines_of_first d s)
