-- ===== src/Lines/Next.antt =====
-- One call of next: the first line of what was not handed out.
use mathlib.Core.Path.{subst}
use agent_session_query.Prelude.{
  ==_iff, take-take, drop-take, take-add, ℕ, zero, suc, ◌+◌, ◌-◌, ◌≤◌, ◌<◌, true, false, List, [],
  ◌∷◌, ◌++◌, Option, none, some, Option-cases, Bool-cases, ◌≡◌, ◌⊎◌, refl, ap, sym, ◌∙◌, arith,
  Bytes, ◌==◌, if◌then◌else◌, inl, inr, index_byte, length, take, drop, length-drop, drop-drop,
  length-append, take-append-drop,
}
use agent_session_query.Lines.{
  LineReader, Outcome, line, finished, line_too_long, read_error, out_of_fuel, gathered, gather,
  filled, next_loop, next, max_line_bytes,
}
use agent_session_query.Lines.Split.{line_len, line_len_found, line_len_passed, line_len-le}
use agent_session_query.Lines.Gather.{IsFileRead, gather_loop_lem}

abbrev pub start_of : LineReader → ℕ
start_of s = s.offset - length s.pending

-- What was not handed out.
abbrev pub rest_of : LineReader → Bytes
rest_of s = drop (start_of s) s.content

-- The buffer holds the bytes before the file's offset.
pub record IsOpen (s : LineReader) : Type 0 where
  pub behind : length s.pending ≤ s.offset
  pub there : s.offset ≤ length s.content
  pub held : s.pending ≡ take (length s.pending) (rest_of s)
  pub room : length s.pending ≤ s.size
  pub sized : 0 < s.size
  pub ended : s.eof ≡ true → s.offset ≡ length s.content

-- What a call returns and leaves: the first line, and what stands behind it or at its end; or nothing at
-- the end.
abbrev pub FollowsFrom : Bytes → Bytes → Outcome × LineReader → Type 0
FollowsFrom content rest (line l, s') =
    (l ≡ take (line_len rest) rest)
    × IsOpen s'
    × (s'.content ≡ content)
    × ((rest_of s' ≡ drop (line_len rest + 1) rest) ⊎ (rest_of s' ≡ drop (line_len rest) rest))
    × (length (rest_of s') < length rest)
FollowsFrom content rest (finished, s') = rest ≡ []
FollowsFrom content rest (line_too_long, s') = ⊥
FollowsFrom content rest (read_error, s') = ⊥
FollowsFrom content rest (out_of_fuel, s') = ⊥

abbrev pub Follows : LineReader → Outcome × LineReader → Type 0
Follows s = FollowsFrom s.content (rest_of s)

pub length-take_of_le : {A : Type 0} (n : ℕ) (xs : List A) → n ≤ length xs → length (take n xs) ≡ n
length-take_of_le n xs le = omega (
  arith,
  length-append (take n xs) (drop n xs),
  ap length (take-append-drop n xs),
  length-drop n xs,
)

-- The first line ends in the buffer.
found_line :
    (s : LineReader) (i : ℕ)
    → IsOpen s
    → index_byte b'\n' s.pending ≡ some i
    → Follows s
        (line (take i s.pending), record s { r = s.r + i + 1; pending = drop (i + 1) s.pending })
found_line s i o at =
    let p = length s.pending in
    let rest = rest_of s in
    let (len, inside) = line_len_found p i rest (ap (index_byte b'\n') (sym o.held) ∙ at) in
    let short : i < p = omega (arith, ap length o.held, inside) in
    let left : length (drop (i + 1) s.pending) ≡ p - (i + 1) = length-drop (i + 1) s.pending in
    let start : s.offset - length (drop (i + 1) s.pending) ≡ start_of s + (i + 1) =
      omega (arith, left, o.behind) in
    let behind : drop (s.offset - length (drop (i + 1) s.pending)) s.content ≡ drop (i + 1) rest =
      ap (λ k. drop k s.content) start ∙ sym (drop-drop (i + 1) (start_of s) s.content) in
    let same_line : take i s.pending ≡ take (line_len rest) rest =
      ap (take i) o.held
      ∙ take-take i p rest (omega (arith, short))
      ∙ ap (λ k. take k rest) (sym len) in
    let held : drop (i + 1) s.pending
        ≡ take (length (drop (i + 1) s.pending))
            (drop (s.offset - length (drop (i + 1) s.pending)) s.content) =
      ap (drop (i + 1)) o.held
      ∙ drop-take (i + 1) p rest
      ∙ ap (λ k. take k (drop (i + 1) rest)) (sym left)
      ∙ ap (take (length (drop (i + 1) s.pending))) (sym behind) in
    (
      same_line,
      record {
        behind = omega (arith, left, o.behind);
        there = o.there;
        held = held;
        room = omega (arith, left, o.room);
        sized = o.sized;
        ended = o.ended;
      },
      refl,
      inl (behind ∙ ap (λ k. drop (k + 1) rest) (sym len)),
      omega (
        arith,
        ap length behind,
        length-drop (i + 1) rest,
        length-drop (start_of s) s.content,
        short,
        o.behind,
        o.there,
      ),
    )

-- What is pending is all of the first line that was read.
pub pending_passed :
    (s : LineReader)
    → IsOpen s
    → index_byte b'\n' s.pending ≡ none
    → line_len (rest_of s) ≡ length s.pending + line_len (drop s.offset s.content)
pending_passed s o gone =
    let p = length s.pending in
    let rest = rest_of s in
    let there : start_of s + p ≡ s.offset = omega (arith, o.behind) in
    line_len_passed p rest (omega (arith, length-drop (start_of s) s.content, o.behind, o.there))
      (ap (index_byte b'\n') (sym o.held) ∙ gone)
    ∙ ap (λ d. p + line_len d)
        (drop-drop p (start_of s) s.content ∙ ap (λ k. drop k s.content) there)

module _ (read_count : ℕ → ℕ → Option ℕ) where
  -- The line is longer than the buffer: it is read back, and the file is left at its end.
  pub gather-Follows :
      (s : LineReader)
      → IsFileRead s.content read_count
      → IsOpen s
      → index_byte b'\n' s.pending ≡ none
      → length s.pending ≡ s.size
      → line_len (rest_of s) ≤ max_line_bytes
      → Follows s (gather read_count s)
  unfolding gather gathered
  gather-Follows s law o gone full short =
      let p = length s.pending in
      let rest = rest_of s in
      let passed = pending_passed s o gone in
      let end =
        gather_loop_lem read_count s.content law (length s.content + 1) s.offset p o.there
          (omega arith) (omega (arith, passed, short)) in
      let len : p + line_len (drop s.offset s.content) ≡ line_len rest = sym passed in
      let inside = line_len-le rest in
      let after : start_of s + line_len rest - 0 ≡ start_of s + line_len rest = omega arith in
      rw end (
        rw len (
          refl,
          record {
            behind = omega arith;
            there = omega (arith, inside, length-drop (start_of s) s.content, o.behind, o.there);
            held = refl;
            room = omega arith;
            sized = o.sized;
            ended = λ e. omega (
              arith,
              o.ended e,
              passed,
              line_len-le (drop s.offset s.content),
              length-drop s.offset s.content,
              o.behind,
            );
          },
          refl,
          inr (
              ap (λ k. drop k s.content) after
              ∙ sym (drop-drop (line_len rest) (start_of s) s.content)),
          omega (
            arith,
            after,
            length-drop (start_of s + line_len rest - 0) s.content,
            length-drop (start_of s) s.content,
            passed,
            full,
            o.sized,
            o.behind,
            o.there,
          ),
        ))

  -- The file ends in the buffer, with bytes that are a last line.
  last_line :
      (s : LineReader)
      → IsOpen s
      → index_byte b'\n' s.pending ≡ none
      → s.eof ≡ true
      → 0 < length s.pending
      → Follows s (line s.pending, record s { r = length s.pending; pending = [] })
  last_line s o gone eof some_left =
      let p = length s.pending in
      let rest = rest_of s in
      let done = o.ended eof in
      let len : line_len rest ≡ p = omega (
        arith,
        pending_passed s o gone,
        line_len-le (drop s.offset s.content),
        length-drop s.offset s.content,
      ) in
      let start : s.offset - 0 ≡ start_of s + line_len rest = omega (arith, len, o.behind) in
      (
        o.held ∙ ap (λ k. take k rest) (sym len),
        record {
          behind = omega arith;
          there = o.there;
          held = refl;
          room = omega arith;
          sized = o.sized;
          ended = o.ended;
        },
        refl,
        inr (
            ap (λ k. drop k s.content) start
            ∙ sym (drop-drop (line_len rest) (start_of s) s.content)),
        omega (
          arith,
          length-drop (s.offset - 0) s.content,
          length-drop (start_of s) s.content,
          some_left,
          o.behind,
          o.there,
          done,
        ),
      )

  -- A read puts the next bytes behind the pending ones.
  filled-IsOpen :
      (s : LineReader) (n : ℕ)
      → IsOpen s
      → length s.pending + n ≤ s.size
      → s.offset + n ≤ length s.content
      → (n ≡ 0 → s.offset ≡ length s.content)
      → IsOpen (filled read_count s n) × (rest_of (filled read_count s n) ≡ rest_of s)
  unfolding filled
  filled-IsOpen s n o room there moved =
      let p = length s.pending in
      let rest = rest_of s in
      let more = take n (drop s.offset s.content) in
      let read : length more ≡ n =
        length-take_of_le n (drop s.offset s.content)
          (omega (arith, length-drop s.offset s.content)) in
      let size : length (s.pending ++ more) ≡ p + n =
        omega (arith, length-append s.pending more, read) in
      let start : s.offset + n - length (s.pending ++ more) ≡ start_of s =
        omega (arith, size, o.behind) in
      let same : drop (s.offset + n - length (s.pending ++ more)) s.content ≡ rest =
        ap (λ k. drop k s.content) start in
      let there' : start_of s + p ≡ s.offset = omega (arith, o.behind) in
      let next_bytes : drop s.offset s.content ≡ drop p rest =
        sym (drop-drop p (start_of s) s.content ∙ ap (λ k. drop k s.content) there') in
      (
        record {
          behind = omega (arith, size, o.behind);
          there = there;
          held =
              ap (λ t. t ++ more) o.held
              ∙ ap (λ d. take p rest ++ take n d) next_bytes
              ∙ take-add p n rest
              ∙ ap (λ k. take k rest) (sym size)
              ∙ ap (take (length (s.pending ++ more))) (sym same);
          room = omega (arith, size, room);
          sized = o.sized;
          ended = λ e. omega (arith, moved ((==_iff n 0).0 e), (==_iff n 0).0 e);
        },
        same,
      )

  -- How many reads are left: one for each byte at most, and one for the end of the file.
  abbrev reads_left : LineReader → ℕ
  reads_left s = length s.content - s.offset + (if s.eof then 0 else 1)

  nil_of_length : (xs : Bytes) → length xs ≡ 0 → xs ≡ []
  nil_of_length [] h = refl
  nil_of_length (x ∷ xs) h = absurd (omega (arith, h))

  in_buffer :
      (f i : ℕ) (s : LineReader)
      → index_byte b'\n' s.pending ≡ some i
      → next_loop read_count (suc f) s
        ≡ (line (take i s.pending), record s { r = s.r + i + 1; pending = drop (i + 1) s.pending })
  unfolding next_loop
  in_buffer f i s at = ground (arith, at)

  pub too_long :
      (f : ℕ) (s : LineReader)
      → index_byte b'\n' s.pending ≡ none
      → (length s.pending == s.size) ≡ true
      → next_loop read_count (suc f) s ≡ gather read_count s
  unfolding next_loop
  too_long f s gone full = ground (arith, gone, full)

  at_end :
      (f : ℕ) (s : LineReader)
      → index_byte b'\n' s.pending ≡ none
      → (length s.pending == s.size) ≡ false
      → s.eof ≡ true
      → next_loop read_count (suc f) s ≡ (
          if length s.pending == 0
          then (finished, record s { r = 0 })
          else (line s.pending, record s { r = length s.pending; pending = [] }))
  unfolding next_loop
  at_end f s gone room eof = ground (arith, gone, room, eof)

  one_more :
      (f n : ℕ) (s : LineReader)
      → index_byte b'\n' s.pending ≡ none
      → (length s.pending == s.size) ≡ false
      → s.eof ≡ false
      → read_count s.offset (s.size - length s.pending) ≡ some n
      → next_loop read_count (suc f) s ≡ next_loop read_count f (filled read_count s n)
  unfolding next_loop
  one_more f n s gone room more read = ground (arith, gone, room, more, read)

  next_loop-Follows :
      (f : ℕ) (s : LineReader)
      → IsFileRead s.content read_count
      → IsOpen s
      → reads_left s < f
      → line_len (rest_of s) ≤ max_line_bytes
      → Follows s (next_loop read_count f s)
  unfolding filled
  next_loop-Follows zero s law o fuel short = absurd (omega arith)
  next_loop-Follows (suc f) s law o fuel short = elim (Option-cases (index_byte b'\n' s.pending)) [
    | inr (i, at) ↦ rw (in_buffer f i s at) (found_line s i o at)
    | inl gone ↦ elim (Bool-cases (length s.pending == s.size)) [
      | inl full ↦
          rw (too_long f s gone full)
            (gather-Follows s law o gone ((==_iff (length s.pending) s.size).0 full) short)
      | inr room ↦ elim (Bool-cases s.eof) [
        | inl eof ↦ rw (at_end f s gone room eof) (elim (Bool-cases (length s.pending == 0)) [
          | inl empty ↦ rw empty (
              nil_of_length (rest_of s) (
                omega (
                  arith,
                  (==_iff (length s.pending) 0).0 empty,
                  length-drop (start_of s) s.content,
                  o.ended eof,
                )))
          | inr some_left ↦ rw some_left (last_line s o gone eof (ground (arith, some_left)))
        ])
        | inr more ↦
            let space = s.size - length s.pending in
            let n = law.count s.offset space in
            let roomy : 0 < space = ground (arith, room, o.room) in
            let moved : n ≡ 0 → s.offset ≡ length s.content =
              λ z. ground (arith, law.moves s.offset space roomy, z, o.there) in
            let (open_, same) =
              filled-IsOpen s n o (omega (arith, law.fits s.offset space, o.room))
                (law.is_there s.offset space o.there) moved in
            rw (one_more f n s gone room more (law.reads s.offset space)) (
              subst (λ r. FollowsFrom s.content r (next_loop read_count f (filled read_count s n)))
                same
                (next_loop-Follows f (filled read_count s n) law open_
                  (ground (arith, more, law.is_there s.offset space o.there)) (rw same short)))
      ]
    ]
  ]

  pub next-Follows :
      (s : LineReader)
      → IsFileRead s.content read_count
      → IsOpen s
      → line_len (rest_of s) ≤ max_line_bytes
      → Follows s (next read_count s)
  unfolding next
  next-Follows s law o short = next_loop-Follows (length s.content + 2) s law o (ground arith) short
