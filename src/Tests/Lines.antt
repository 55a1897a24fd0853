-- ===== src/Tests/Lines.antt =====
-- The scan of a file at concrete inputs.
use agent_session_query.Prelude.{
  ℕ, ◌-◌, Bool, true, false, [], ◌∷◌, Option, some, ◌≡◌, refl, arith, Bytes, bytes_eq, codes,
  if◌then◌else◌, ltb, index_byte, length, take, drop,
}
use agent_session_query.Lines.{
  LineReader, next, whole_file, each_line_from, new_line_reader, buffer_size, scan_loop, next_loop,
  filled, gather, gathered, gather_loop,
}
use agent_session_query.Lines.Split.{lines_of}
use agent_session_query.Lines.Gather.{IsFileRead}
use agent_session_query.Lines.Next.{IsOpen}
use agent_session_query.Lines.Scan.{hand_out, each_line_from-lines_of}

-- A file system that reads three bytes at a time.
abbrev pub at_most : ℕ → ℕ → ℕ
at_most a b = if ltb a b then a else b

abbrev pub threes : ℕ → ℕ → ℕ → ℕ
threes size offset space = at_most 3 (at_most space (size - offset))

abbrev pub reads_threes : Bytes → ℕ → ℕ → Option ℕ
reads_threes content offset space = some (threes (length content) offset space)

pub reads_threes-IsFileRead : (content : Bytes) → IsFileRead content (reads_threes content)
reads_threes-IsFileRead content = record {
  count = threes (length content);
  reads = λ offset space. refl;
  fits = λ offset space. ground arith;
  is_there = λ offset space le. ground arith;
  moves = λ offset space room more. ground arith;
}

abbrev two_lines : Bytes
two_lines = codes "{1}\n\n{22}"

abbrev takes_all : Bytes → Bool
takes_all l = true

two_lines_scan :
    each_line_from (reads_threes two_lines) (λ l. l) takes_all two_lines 0
    ≡ (codes "{1}" ∷ codes "{22}" ∷ [], whole_file)
unfolding each_line_from new_line_reader next buffer_size scan_loop next_loop filled gather gathered
    gather_loop index_byte bytes_eq
two_lines_scan = refl

each_line_from-lines_of_example :
    each_line_from (reads_threes two_lines) (λ l. l) takes_all two_lines 0
    ≡ hand_out (λ l. l) takes_all (lines_of (drop 0 two_lines))
unfolding lines_of
each_line_from-lines_of_example =
    each_line_from-lines_of (reads_threes two_lines) (λ l. l) takes_all refl two_lines 0
      (reads_threes-IsFileRead two_lines) (omega arith)
      (omega arith, (omega arith, (omega arith, tt)))

-- A buffer of two bytes, full, with a line of three.
abbrev full_buffer : LineReader
full_buffer = record {
  content = two_lines;
  offset = 2;
  size = 2;
  r = 0;
  pending = take 2 two_lines;
  eof = false;
}

full_buffer-IsOpen : IsOpen full_buffer
full_buffer-IsOpen = record {
  behind = omega arith;
  there = omega arith;
  held = refl;
  room = omega arith;
  sized = omega arith;
  ended = λ e. cc e;
}
