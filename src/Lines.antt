-- ===== src/Lines.antt =====
-- internal/source/record.go: lineReader, which hands out a file's lines from one buffer, and the scan
-- of a file that skips its blank lines.
pub mod Split
pub mod Gather
pub mod Next
pub mod Scan
pub mod Again
use agent_session_query.Prelude.{
  ℕ, zero, suc, ◌+◌, ◌-◌, ◌*◌, Bool, true, false, List, [], ◌∷◌, ◌++◌, Option, none, some, Bytes,
  ltb, ◌==◌, if◌then◌else◌, bytes_eq, index_byte, length, take, drop,
}

-- 256 MB
abbrev pub max_line_bytes : ℕ
max_line_bytes = 256 * 1024 * 1024

abbrev pub scan_buf_steady : ℕ
scan_buf_steady = 64 * 1024

abbrev pub scan_buf_start : ℕ
scan_buf_start = 1024 * 1024

-- `size` is len(buf), and `pending` is buf[r:w], the bytes that were read and not handed out.
-- `content` and `offset` are the open file's.
pub record LineReader : Type 0 where
  pub content : Bytes
  pub offset : ℕ
  pub size : ℕ
  pub r : ℕ
  pub pending : Bytes
  pub eof : Bool

pub data Outcome : Type 0 where
  line : Bytes → Outcome
  finished : Outcome
  line_too_long : Outcome
  read_error : Outcome
  out_of_fuel : Outcome

-- Where a long line ends: its length.
pub data LineEnd : Type 0 where
  ends : ℕ → LineEnd
  stops : Outcome → LineEnd

-- `read_count` is what os.File.Read returns at an offset for a buffer of so many bytes: how many bytes it
-- read, 0 with io.EOF at the end of the file, or `none` for an error.
module _ (read_count : ℕ → ℕ → Option ℕ) where
  -- The loop of gather over chunks, on fuel: `offset` is the file's, `len` what was passed.
  unfoldable pub gather_loop : Bytes → ℕ → ℕ → ℕ → LineEnd
  gather_loop content zero offset len = stops out_of_fuel
  gather_loop content (suc f) offset len = elim (read_count offset scan_buf_steady) [
    | none ↦ stops read_error
    | some n ↦ elim (index_byte b'\n' (take n (drop offset content))) [
      | some i ↦ ends (len + i)
      | none ↦
          let more = gather_loop content f (offset + n) (len + n) in
          if ltb max_line_bytes (len + n)
          then stops line_too_long
          else if n == 0
          then ends (len + n)
          else more
    ]
  ]

  -- Reading the line back leaves the file at the line's end.
  unfoldable pub gathered : LineReader → ℕ → LineEnd → Outcome × LineReader
  gathered s start (ends len) = (
    line (take len (drop start s.content)),
    record s { offset = start + len; r = 0; pending = [] },
  )
  gathered s start (stops why) = (why, s)

  unfoldable pub gather : LineReader → Outcome × LineReader
  gather s =
      gathered s (s.offset - length s.pending)
        (gather_loop s.content (length s.content + 1) s.offset (length s.pending))

  -- What a read leaves: the bytes behind those that are pending.
  unfoldable pub filled : LineReader → ℕ → LineReader
  filled s n = record s {
    offset = s.offset + n;
    r = 0;
    pending = s.pending ++ take n (drop s.offset s.content);
    eof = n == 0;
  }

  -- The loop of next, on fuel.
  unfoldable pub next_loop : ℕ → LineReader → Outcome × LineReader
  next_loop zero s = (out_of_fuel, s)
  next_loop (suc f) s = elim (index_byte b'\n' s.pending) [
    | some i ↦
        (line (take i s.pending), record s { r = s.r + i + 1; pending = drop (i + 1) s.pending })
    | none ↦
        if length s.pending == s.size
        then gather s
        else if s.eof
        then (if length s.pending == 0
            then (finished, record s { r = 0 })
            else (line s.pending, record s { r = length s.pending; pending = [] }))
        else elim (read_count s.offset (s.size - length s.pending)) [
          | none ↦ (read_error, record s { r = 0 })
          | some n ↦ next_loop f (filled s n)
        ]
  ]

  -- A round for each byte of the file, one for its end, and one to hand the last line out.
  unfoldable pub next : LineReader → Outcome × LineReader
  next s = next_loop (length s.content + 2) s

pub data Ending : Type 0 where
  whole_file : Ending
  stopped_by : Outcome → Ending
  callback : Ending
  cut_short : Ending

-- One line of a scan: what is handed to the callback, and how the scan ends.
abbrev pub give : (Bytes → Bool) → Bytes → List Bytes × Ending → List Bytes × Ending
give fn l rest =
    if bytes_eq l [] then rest else if fn l then (l ∷ rest.0, rest.1) else (l ∷ [], callback)

module _ (read_count : ℕ → ℕ → Option ℕ) (trim_space : Bytes → Bytes) (fn : Bytes → Bool) where
  -- The loop of eachJSONLLineFrom, on fuel.
  unfoldable pub scan_loop : ℕ → LineReader → List Bytes × Ending
  scan_loop zero s = ([], cut_short)
  scan_loop (suc f) s = elim (next read_count s).0 [
    | line l ↦ give fn (trim_space l) (scan_loop f (next read_count s).1)
    | finished ↦ ([], whole_file)
    | line_too_long ↦ ([], stopped_by line_too_long)
    | read_error ↦ ([], stopped_by read_error)
    | out_of_fuel ↦ ([], cut_short)
  ]

-- The buffer's size for a scan from an offset.
unfoldable pub buffer_size : ℕ → ℕ
buffer_size remaining =
    if ltb 0 remaining
    then (if ltb remaining scan_buf_start then remaining else scan_buf_start)
    else scan_buf_steady

unfoldable pub new_line_reader : Bytes → ℕ → LineReader
new_line_reader content from = record {
  content = content;
  offset = from;
  size = buffer_size (length content - from);
  r = 0;
  pending = [];
  eof = false;
}

-- eachJSONLLineFrom on a file that is not compressed
unfoldable pub each_line_from :
    (ℕ → ℕ → Option ℕ) → (Bytes → Bytes) → (Bytes → Bool) → Bytes → ℕ → List Bytes × Ending
each_line_from read_count trim_space fn content from =
    scan_loop read_count trim_space fn (length content - from + 1) (new_line_reader content from)
