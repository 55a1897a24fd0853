-- ===== src/Lines/Scan.antt =====
-- What a scan hands out of a file, beside the lines of the whole text.
use mathlib.Core.Path.{subst}
use agent_session_query.Prelude.{
  ℕ, zero, suc, ◌+◌, ◌-◌, ◌≤◌, ◌<◌, Bool, List, [], ◌∷◌, Option, ◌≡◌, ◌⊎◌, refl, ap, sym, ◌∙◌,
  arith, Bytes, ◌==◌, inl, inr, Bool-cases, bytes_eq, length, take, drop, drop-nil, length-drop,
  All,
}
use agent_session_query.Lines.{
  LineReader, Outcome, line, finished, line_too_long, read_error, out_of_fuel, next, Ending,
  whole_file, give, scan_loop, each_line_from, new_line_reader, buffer_size, max_line_bytes,
}
use agent_session_query.Lines.Split.{lines_of, line_len, line_len-le, lines_of_first}
use agent_session_query.Lines.Gather.{IsFileRead}
use agent_session_query.Lines.Next.{rest_of, IsOpen, FollowsFrom, next-Follows, length-take_of_le}

-- What a reader of whole texts hands out: each line trimmed, the blank ones left out, up to the first
-- that the callback refuses.
abbrev pub hand_out : (Bytes → Bytes) → (Bytes → Bool) → List Bytes → List Bytes × Ending
hand_out trim fn [] = ([], whole_file)
hand_out trim fn (l ∷ ls) = give fn (trim l) (hand_out trim fn ls)

-- No line is longer than the cap.
abbrev pub IsCapped : Bytes → Type 0
IsCapped l = length l ≤ max_line_bytes

lines_of-nil : lines_of [] ≡ []
unfolding lines_of
lines_of-nil = refl

blank_before :
    (s : Bytes)
    → (lines_of (drop (line_len s) s) ≡ lines_of (drop (line_len s + 1) s))
      ⊎ (lines_of (drop (line_len s) s) ≡ [] ∷ lines_of (drop (line_len s + 1) s))
unfolding lines_of line_len
blank_before [] = inl refl
blank_before (c ∷ s) = elim (Bool-cases (c == b'\n')) [
  | inl end ↦ inr (ground (arith, end))
  | inr inside ↦
      let e : line_len s + 1 ≡ suc (line_len s) = omega arith in
      let e' : suc (line_len s) + 1 ≡ suc (line_len s + 1) = omega arith in
      rw (inside, e, e') (blank_before s)
]

module _ (read_count : ℕ → ℕ → Option ℕ) (trim : Bytes → Bytes) (fn : Bytes → Bool)
    (trim_nil : trim [] ≡ []) where
  -- An empty line changes nothing.
  hand_out-nil : (ls : List Bytes) → hand_out trim fn ([] ∷ ls) ≡ hand_out trim fn ls
  unfolding bytes_eq
  hand_out-nil ls = rw trim_nil

  same_out :
      (s rest : Bytes)
      → (rest ≡ drop (line_len s + 1) s) ⊎ (rest ≡ drop (line_len s) s)
      → hand_out trim fn (lines_of rest) ≡ hand_out trim fn (lines_of (drop (line_len s + 1) s))
  same_out s rest (inl e) = rw e
  same_out s rest (inr e) = elim (blank_before s) [
    | inl same ↦ ap (λ r. hand_out trim fn (lines_of r)) e ∙ ap (hand_out trim fn) same
    | inr blank ↦
        ap (λ r. hand_out trim fn (lines_of r)) e
        ∙ ap (hand_out trim fn) blank
        ∙ hand_out-nil (lines_of (drop (line_len s + 1) s))
  ]

  IsCapped-rest :
      (s rest : Bytes)
      → (rest ≡ drop (line_len s + 1) s) ⊎ (rest ≡ drop (line_len s) s)
      → All IsCapped (lines_of (drop (line_len s + 1) s))
      → All IsCapped (lines_of rest)
  IsCapped-rest s rest (inl e) a = rw e a
  IsCapped-rest s rest (inr e) a = elim (blank_before s) [
    | inl same ↦ rw (e, same) a
    | inr blank ↦ rw (e, blank) (omega arith, a)
  ]

  -- The first line's length, from the lines.
  first_capped : (s : Bytes) → All IsCapped (lines_of s) → line_len s ≤ max_line_bytes
  first_capped [] a = unfold line_len in omega arith
  first_capped (c ∷ s) a = omega (
    arith,
    subst (All IsCapped) (lines_of_first c s) a,
    length-take_of_le (line_len (c ∷ s)) (c ∷ s) (line_len-le (c ∷ s)),
  )

  -- The lines behind the first.
  rest-IsCapped :
      (s : Bytes) → All IsCapped (lines_of s) → All IsCapped (lines_of (drop (line_len s + 1) s))
  rest-IsCapped [] a = rw (drop-nil (line_len [] + 1)) a
  rest-IsCapped (c ∷ s) a = (subst (All IsCapped) (lines_of_first c s) a).1

  split_first :
      (s : Bytes)
      → 0 < length s
      → lines_of s ≡ take (line_len s) s ∷ lines_of (drop (line_len s + 1) s)
  split_first [] h = absurd (omega (arith, h))
  split_first (c ∷ s) h = lines_of_first c s

  -- What one call hands out, and the rest of the scan behind it.
  abbrev Continues : ℕ → LineReader → LineReader → Type 0
  Continues f s s' =
      IsOpen s'
      → (s'.content ≡ s.content)
      → length (rest_of s') < length (rest_of s)
      → All IsCapped (lines_of (rest_of s'))
      → scan_loop read_count trim fn f s' ≡ hand_out trim fn (lines_of (rest_of s'))

  scan_step :
      (f : ℕ) (s : LineReader) (out : Outcome × LineReader)
      → next read_count s ≡ out
      → FollowsFrom s.content (rest_of s) out
      → Continues f s out.1
      → All IsCapped (lines_of (rest_of s))
      → scan_loop read_count trim fn (suc f) s ≡ hand_out trim fn (lines_of (rest_of s))
  unfolding scan_loop
  scan_step f s (line l, s') e (same_line, opened, content, behind, less) ih a =
      let rest = rest_of s in
      let later = hand_out trim fn (lines_of (drop (line_len rest + 1) rest)) in
      rw (e, scan_loop)
        (ap (λ (t : Outcome × LineReader). give fn (trim l) (scan_loop read_count trim fn f t.1)) e
          ∙ ap (give fn (trim l)) (
              ih opened content less (IsCapped-rest rest (rest_of s') behind (rest-IsCapped rest a))
              ∙ same_out rest (rest_of s') behind)
          ∙ ap (λ k. give fn (trim k) later) same_line
          ∙ sym (ap (hand_out trim fn) (split_first rest (omega (arith, less)))))
  scan_step f s (finished, s') e empty ih a =
      rw (e, scan_loop)
        (sym (ap (λ r. hand_out trim fn (lines_of r)) empty ∙ ap (hand_out trim fn) lines_of-nil))
  scan_step f s (line_too_long, s') e bad ih a = absurd bad
  scan_step f s (read_error, s') e bad ih a = absurd bad
  scan_step f s (out_of_fuel, s') e bad ih a = absurd bad

  scan_loop_lem :
      (f : ℕ) (s : LineReader)
      → IsFileRead s.content read_count
      → IsOpen s
      → length (rest_of s) < f
      → All IsCapped (lines_of (rest_of s))
      → scan_loop read_count trim fn f s ≡ hand_out trim fn (lines_of (rest_of s))
  scan_loop_lem zero s law o fuel a = absurd (omega arith)
  scan_loop_lem (suc f) s law o fuel a =
      scan_step f s (next read_count s) refl
        (next-Follows read_count s law o (first_capped (rest_of s) a))
        (λ opened content less capped.
          scan_loop_lem f (next read_count s).1 (rw content law) opened (omega arith) capped)
        a

  IsOpen-reader :
      (content : Bytes) (from : ℕ) → from ≤ length content → IsOpen (new_line_reader content from)
  unfolding new_line_reader buffer_size
  IsOpen-reader content from le = record {
    behind = omega arith;
    there = le;
    held = refl;
    room = omega arith;
    sized = ground arith;
    ended = λ e. cc e;
  }

  -- The scan of a file from an offset within it hands out what a reader of the whole text does: the
  -- lines from there on, trimmed, the blank ones left out, up to the first that the callback
  -- refuses, and it ends as that reader does. Neither the size of the buffer nor how many bytes a
  -- read returns matters, and the scan's fuel is enough. The file is not written meanwhile and its
  -- reads do not fail (IsFileRead), no line is longer than the cap, and an empty text trims to
  -- itself.
  pub each_line_from-lines_of :
      (content : Bytes) (from : ℕ)
      → IsFileRead content read_count
      → from ≤ length content
      → All IsCapped (lines_of (drop from content))
      → each_line_from read_count trim fn content from
        ≡ hand_out trim fn (lines_of (drop from content))
  unfolding each_line_from new_line_reader
  each_line_from-lines_of content from law le a =
      let start : from - 0 ≡ from = omega arith in
      let same : rest_of (new_line_reader content from) ≡ drop from content =
        ap (λ k. drop k content) start in
      scan_loop_lem (length content - from + 1) (new_line_reader content from) law
        (IsOpen-reader content from le) (omega (arith, length-drop (from - 0) content)) (rw same a)
      ∙ ap (λ r. hand_out trim fn (lines_of r)) same
