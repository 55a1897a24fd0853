-- ===== src/Clean.antt =====
-- internal/source/cleantext.go: the search that folds case, and the removal of terminal controls from
-- text that is shown.
pub mod Fold
pub mod Secrets
pub mod Strip
use agent_session_query.Prelude.{
  ℕ, zero, suc, ◌+◌, Bool, true, false, ◌&&◌, ◌||◌, List, [], ◌∷◌, ◌++◌, Option, none, some, Bytes,
  ltb, leb, not, ◌==◌, if◌then◌else◌, length, take, drop, any,
}
use agent_session_query.Record.{in_range}

abbrev pub lower : ℕ → ℕ
lower c = if in_range b'A' b'Z' c then c + 32 else c

-- The needle stands at the start of the text, once its capitals are lowered.
pub starts_fold : Bytes → Bytes → Bool
starts_fold s [] = true
starts_fold [] (c ∷ needle) = false
starts_fold (b ∷ s) (c ∷ needle) = lower b == c && starts_fold s needle

abbrev further : Option ℕ → Option ℕ
further none = none
further (some i) = some (suc i)

-- IndexFold, with `none` for -1
pub index_fold : Bytes → Bytes → Option ℕ
index_fold [] needle = if starts_fold [] needle then some 0 else none
index_fold (b ∷ s) needle =
    let later = further (index_fold s needle) in
    if starts_fold (b ∷ s) needle then some 0 else later

-- Tab and newline stay.
abbrev pub is_terminal_control : ℕ → Bool
is_terminal_control c = (ltb c 32 && (not (c == 9) && not (c == 10))) || c == 127

-- What a sequence takes of the text behind its first two bytes: a CSI, to its final byte
unfoldable pub csi_len : Bytes → ℕ
csi_len [] = 0
csi_len (b ∷ s) = if in_range 64 126 b then 1 else 1 + csi_len s

abbrev is_backslash : Bytes → Bool
is_backslash [] = false
is_backslash (b ∷ s) = b == b'\\'

-- a string sequence, to BEL or to ST
pub string_len : Bytes → ℕ
string_len [] = 0
string_len (b ∷ s) = if b == 7 then 1 else if b == 27 && is_backslash s then 2 else 1 + string_len s

-- an nF escape, to its final byte or to a byte that is no part of it
pub nf_len : Bytes → ℕ
nf_len [] = 0
nf_len (b ∷ s) = if in_range 48 126 b then 1 else if ltb b 32 || ltb 47 b then 0 else 1 + nf_len s

abbrev opens_string : ℕ → Bool
opens_string c = c == b']' || (c == b'P' || (c == b'X' || (c == b'^' || c == b'_')))

-- escapeSequenceLen
unfoldable pub escape_sequence_len : Bytes → ℕ
escape_sequence_len [] = 0
escape_sequence_len (e ∷ []) = 1
escape_sequence_len (e ∷ c ∷ s) =
    if c == b'['
    then 2 + csi_len s
    else if opens_string c
    then 2 + string_len s
    else if in_range 32 47 c
    then 2 + nf_len s
    else if in_range 48 126 c
    then 2
    else 1

-- `rune_len` is the size that utf8.DecodeRuneInString returns.
module _ (rune_len : Bytes → ℕ) where
  -- One round of the loop on a text that is not empty: what it keeps, and how far it goes.
  unfoldable pub next_piece : ℕ → Bytes → Bytes × ℕ
  next_piece c s =
      if c == 27
      then ([], escape_sequence_len (c ∷ s))
      else if is_terminal_control c
      then ([], 1)
      else (take (rune_len (c ∷ s)) (c ∷ s), rune_len (c ∷ s))

  -- The loop, on fuel: each round goes at least one byte on.
  unfoldable pub strip_loop : ℕ → Bytes → Bytes
  strip_loop zero s = []
  strip_loop (suc f) [] = []
  strip_loop (suc f) (c ∷ s) = (next_piece c s).0 ++ strip_loop f (drop (next_piece c s).1 (c ∷ s))

  unfoldable pub strip_terminal_controls : Bytes → Bytes
  strip_terminal_controls s = if any is_terminal_control s then strip_loop (length s) s else s
