-- ===== src/Lines/Again.antt =====
-- What the call behind a long line hands out.
use agent_session_query.Prelude.{
  ℕ, suc, ◌+◌, ◌-◌, ◌≤◌, ◌<◌, [], ◌∷◌, Option, none, ◌≡◌, ap, sym, ◌∙◌, arith, Bytes, ◌==◌,
  Bool-cases, inl, inr, index_byte, length, take, drop, length-drop, drop-drop,
}
use agent_session_query.Lines.{
  LineReader, Outcome, line, finished, line_too_long, read_error, out_of_fuel, gather, gathered,
  next, next_loop, max_line_bytes,
}
use agent_session_query.Lines.Split.{line_len}
use agent_session_query.Lines.Gather.{IsFileRead, gather_loop_lem}
use agent_session_query.Lines.Next.{
  start_of, rest_of, IsOpen, FollowsFrom, next-Follows, pending_passed,
}

-- Where the first line ends there is a newline, if the text goes on.
newline_next : (s : Bytes) → line_len s < length s → line_len (drop (line_len s) s) ≡ 0
unfolding line_len
newline_next [] h = absurd (omega (arith, h))
newline_next (c ∷ s) h = elim (Bool-cases (c == b'\n')) [
  | inl end ↦ rw end (ground (arith, end))
  | inr inside ↦
      let e : line_len s + 1 ≡ suc (line_len s) = omega arith in
      rw (inside, e) (newline_next s (ground (arith, inside, h)))
]

still_there : (s : Bytes) → line_len s < length s → 0 < length (drop (line_len s) s)
still_there s h = omega (arith, length-drop (line_len s) s)

first_empty :
    (content rest : Bytes) (out : Outcome × LineReader)
    → FollowsFrom content rest out
    → line_len rest ≡ 0
    → 0 < length rest
    → out.0 ≡ line []
first_empty content rest (line l, s') f z h = ap line (f.0 ∙ ap (λ k. take k rest) z)
first_empty content rest (finished, s') f z h = absurd (omega (arith, ap length f, h))
first_empty content rest (line_too_long, s') f z h = absurd f
first_empty content rest (read_error, s') f z h = absurd f
first_empty content rest (out_of_fuel, s') f z h = absurd f

-- The call behind one that stopped at the end of its line.
second_empty :
    (read_count : ℕ → ℕ → Option ℕ) (content rest : Bytes) (out : Outcome × LineReader)
    → IsFileRead content read_count
    → FollowsFrom content rest out
    → rest_of out.1 ≡ drop (line_len rest) rest
    → line_len rest < length rest
    → (next read_count out.1).0 ≡ line []
second_empty read_count content rest (line l, s') law (_, o, same, _, _) at more =
    let z : line_len (rest_of s') ≡ 0 = ap line_len at ∙ newline_next rest more in
    first_empty s'.content (rest_of s') (next read_count s')
      (next-Follows read_count s' (rw same law) o (omega (arith, z))) z
      (omega (arith, ap length at, still_there rest more))
second_empty read_count content rest (finished, s') law f at more =
    absurd (omega (arith, ap length f, more))
second_empty read_count content rest (line_too_long, s') law f at more = absurd f
second_empty read_count content rest (read_error, s') law f at more = absurd f
second_empty read_count content rest (out_of_fuel, s') law f at more = absurd f

module _ (read_count : ℕ → ℕ → Option ℕ) (s : LineReader) where
  abbrev after : LineReader
  after = (gather read_count s).1

  gather_rest :
      IsFileRead s.content read_count
      → IsOpen s
      → index_byte b'\n' s.pending ≡ none
      → line_len (rest_of s) ≤ max_line_bytes
      → rest_of after ≡ drop (line_len (rest_of s)) (rest_of s)
  unfolding gather gathered
  gather_rest law o gone short =
      let p = length s.pending in
      let rest = rest_of s in
      let passed = pending_passed s o gone in
      let end =
        gather_loop_lem read_count s.content law (length s.content + 1) s.offset p o.there
          (omega arith) (omega (arith, passed, short)) in
      let len : p + line_len (drop s.offset s.content) ≡ line_len rest = sym passed in
      let at : start_of s + line_len rest - 0 ≡ start_of s + line_len rest = omega arith in
      rw (end, after)
        (rw (len, after)
          (ap (λ k. drop k s.content) at ∙ sym (drop-drop (line_len rest) (start_of s) s.content)))

  next-gather :
      index_byte b'\n' s.pending ≡ none
      → length s.pending ≡ s.size
      → next read_count s ≡ gather read_count s
  unfolding next next_loop
  next-gather gone full =
      let e : length s.content + 2 ≡ suc (length s.content + 1) = omega arith in ground arith

  -- When the buffer is full, holds no newline and is not the end of the text, the call of next
  -- behind the one that gathers the line returns an empty line: the file was left at the newline.
  -- The line is within the cap, and the file is read as IsFileRead says.
  pub next_after_gather :
      IsFileRead s.content read_count
      → IsOpen s
      → index_byte b'\n' s.pending ≡ none
      → length s.pending ≡ s.size
      → line_len (rest_of s) < length (rest_of s)
      → line_len (rest_of s) ≤ max_line_bytes
      → (next read_count (next read_count s).1).0 ≡ line []
  next_after_gather law o gone full more short =
      second_empty read_count s.content (rest_of s) (next read_count s) law
        (next-Follows read_count s law o short)
        (ap (λ (t : Outcome × LineReader). rest_of t.1) (next-gather gone full)
          ∙ gather_rest law o gone short)
        more
