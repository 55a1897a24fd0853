-- ===== src/Codex/Output/Header.antt =====
-- What codexStripHeader takes off an output, and the status that goes with the exit code it reads.
use agent_session_query.Prelude.{
  ℕ, suc, zero, List, length, any, all, ◌<◌, Bool, true, false, not, ◌&&◌, [], ◌∷◌, ◌++◌, Option,
  none, some, Bytes, codes, ◌==◌, if◌then◌else◌, bytes_eq, eq_of_bytes_eq, has_prefix, append_assoc,
  append-nil, ◌≡◌, refl, sym, ap, ◌∙◌, ◌⊎◌, inl, inr, ==_iff, Bool-cases, All, arith,
}
use agent_session_query.Prelude.Int.{ℤ}
use agent_session_query.Record.{is_empty}
use agent_session_query.Blocks.{ToolOutcome, status_ok, status_error, is_zero_int}
use agent_session_query.Title.{last_index}
use agent_session_query.Codex.Output.{
  behind_space, CodexLib, plain_outcome, cut_line, trim_cr, longer, with_exit, with_seconds,
  or_nothing, header_line, strip_lines, or_whole, codex_strip_header, is_exit_line, is_other_header,
  script_failed,
}

-- The status is that of a failure, or it is `s` and the exit code, if there is one, is zero.
abbrev pub IsJudged : Bytes → ToolOutcome → Type 0
IsJudged s o =
    (o.status ≡ status_error)
    ⊎ ((o.status ≡ s) × ((o.has_exit && not (is_zero_int o.exit_code)) ≡ false))

-- What the lines of a header open with.
abbrev header_prefixes : List Bytes
header_prefixes =
    codes "Script "
    ∷ codes "Wall time"
    ∷ codes "Process exited with code "
    ∷ codes "Exit code: "
    ∷ codes "Chunk ID:"
    ∷ codes "Original token count:"
    ∷ codes "Process running with session ID"
    ∷ []

abbrev pub opens_header : Bytes → Bool
opens_header line = any (has_prefix line) header_prefixes

-- A line of a header, without its newline.
abbrev pub IsHeaderLine : Bytes → Type 0
IsHeaderLine line = (opens_header (trim_cr line) ≡ true) × (all (λ c. not (c == b'\n')) line ≡ true)

abbrev pub joined_lines : List Bytes → Bytes
joined_lines [] = []
joined_lines (line ∷ lines) = line ++ b'\n' ∷ joined_lines lines

-- The end of a line: carriage returns and a newline, or the end of the text.
abbrev pub IsLineEnd : Bytes → Bytes → Type 0
IsLineEnd tail body =
    (returns : Bytes) × (all (λ c. c == b'\r') returns ≡ true)
    × ((tail ≡ returns ++ b'\n' ∷ []) ⊎ ((tail ≡ returns) × (body ≡ [])))

-- The body is the text behind fewer than `most` lines of a header and a line that reads "Output:".
abbrev pub IsBehindHeader : ℕ → Bytes → Bytes → Type 0
IsBehindHeader most text body =
    (lines : List Bytes) × (tail : Bytes) × (text
      ≡ joined_lines lines ++ (codes "Output:" ++ (tail ++ body)))
    × All IsHeaderLine lines
    × (length lines < most)
    × IsLineEnd tail body

abbrev with_newline : Option Bytes → Bytes
with_newline none = []
with_newline (some after) = b'\n' ∷ after

longer-with_newline :
    (c : ℕ) (cut : Bytes × Option Bytes)
    → (longer c cut).0 ++ with_newline (longer c cut).1 ≡ c ∷ (cut.0 ++ with_newline cut.1)
longer-with_newline c (line, after) = refl

cut_line-with_newline : (s : Bytes) → (cut_line s).0 ++ with_newline (cut_line s).1 ≡ s
unfolding cut_line
cut_line-with_newline [] = refl
cut_line-with_newline (c ∷ s) = elim (Bool-cases (c == b'\n')) [
  | inl newline ↦ rw newline (ap (λ n. n ∷ s) (sym ((==_iff c b'\n').0 newline)))
  | inr other ↦
      rw other (longer-with_newline c (cut_line s) ∙ ap (λ t. c ∷ t) (cut_line-with_newline s))
]

longer-free :
    (c : ℕ) (cut : Bytes × Option Bytes)
    → (c == b'\n') ≡ false
    → all (λ c. not (c == b'\n')) cut.0 ≡ true
    → all (λ c. not (c == b'\n')) (longer c cut).0 ≡ true
longer-free c (line, after) other free = ground (arith, other, free)

cut_line-free : (s : Bytes) → all (λ c. not (c == b'\n')) (cut_line s).0 ≡ true
unfolding cut_line
cut_line-free [] = refl
cut_line-free (c ∷ s) = elim (Bool-cases (c == b'\n')) [
  | inl newline ↦ rw newline refl
  | inr other ↦ rw other (longer-free c (cut_line s) other (cut_line-free s))
]

trim_cr-tail :
    (s : Bytes) → (tail : Bytes) × (s ≡ trim_cr s ++ tail) × (all (λ c. c == b'\r') tail ≡ true)
unfolding trim_cr
trim_cr-tail [] = ([], refl, refl)
trim_cr-tail (c ∷ s) =
    let (tail, whole, ends) = trim_cr-tail s in
    elim (Bool-cases (c == b'\r' && is_empty (trim_cr s))) [
      | inl cut ↦
          let nothing : trim_cr s ≡ [] = eq_of_bytes_eq (trim_cr s) [] (ground (arith, cut)) in
          rw cut (
            c ∷ tail,
            ap (λ t. c ∷ t) (whole ∙ ap (λ t. t ++ tail) nothing),
            ground (arith, cut, ends),
          )
      | inr kept ↦ rw kept (tail, ap (λ t. c ∷ t) whole, ends)
    ]

module _ (lib : CodexLib) where
  pub with_exit-IsJudged :
      (s : Bytes) (n : Option ℤ) (o : ToolOutcome) → IsJudged s o → IsJudged s (with_exit n o)
  with_exit-IsJudged s none o h = h
  with_exit-IsJudged s (some n) o h = elim (Bool-cases (is_zero_int n)) [
    | inr failed ↦ rw failed (inl refl)
    | inl passed ↦ elim h [
      | inl error ↦ rw passed (inl error)
      | inr (same, no_exit) ↦ rw passed (inr (same, refl))
    ]
  ]

  -- What a line says is judged, and the line opens as those of a header do.
  abbrev OnSaid : Bytes → Option ToolOutcome → Type 0
  OnSaid line none = Unit
  OnSaid line (some said) = IsJudged status_ok said × (opens_header line ≡ true)

  with_seconds-IsJudged :
      (f : Option ℕ) (o : ToolOutcome)
      → IsJudged status_ok o
      → IsJudged status_ok (with_seconds lib f o)
  with_seconds-IsJudged none o h = h
  with_seconds-IsJudged (some f) o h = elim (Bool-cases (lib.is_nonneg f)) [
    | inl number ↦ rw number h
    | inr negative ↦ rw negative h
  ]

  script-IsJudged :
      (failed : Bool) (o : ToolOutcome)
      → IsJudged status_ok o
      → IsJudged status_ok (if failed then record o { status = status_error } else o)
  script-IsJudged true o h = inl refl
  script-IsJudged false o h = h

  header_line-OnSaid :
      (line : Bytes) (o : ToolOutcome) → IsJudged status_ok o → OnSaid line (header_line lib line o)
  unfolding header_line
  header_line-OnSaid line o h = elim (Bool-cases (has_prefix line (codes "Script "))) [
    | inl script ↦ rw script (script-IsJudged (script_failed lib line) o h, ground (arith, script))
    | inr no_script ↦ elim (Bool-cases (has_prefix line (codes "Wall time"))) [
      | inl wall ↦ rw (no_script, wall) (with_seconds-IsJudged _ o h, ground (arith, wall))
      | inr no_wall ↦ elim (Bool-cases (is_exit_line lib line)) [
        | inl exits ↦
            rw (no_script, no_wall, exits)
              (
                with_exit-IsJudged status_ok
                    (lib.atoi
                      (lib.runtime.trim_space (behind_space line (last_index line (codes " ")))))
                    o h,
                ground (arith, exits),
              )
        | inr no_exit ↦ elim (Bool-cases (is_other_header lib line)) [
          | inl known ↦ rw (no_script, no_wall, no_exit, known) (h, ground (arith, known))
          | inr unknown ↦ rw (no_script, no_wall, no_exit, unknown) tt
        ]
      ]
    ]
  ]

  -- A cut is behind a header, and its outcome is judged.
  abbrev OnCut : ℕ → Bytes → Option (Bytes × ToolOutcome) → Type 0
  OnCut most rest none = Unit
  OnCut most rest (some (body, o)) = IsBehindHeader most rest body × IsJudged status_ok o

  output_line :
      (most : ℕ) (rest line : Bytes) (after : Option Bytes)
      → line ++ with_newline after ≡ rest
      → bytes_eq (trim_cr line) (codes "Output:") ≡ true
      → IsBehindHeader (suc most) rest (or_nothing lib after)
  output_line most rest line none e is_output =
      let (tail, whole, returns) = trim_cr-tail line in
      let line_is = whole ∙ ap (λ t. t ++ tail) (eq_of_bytes_eq (trim_cr line) _ is_output) in
      (
        [],
        tail,
        sym e
            ∙ (append-nil line
                ∙ (line_is ∙ ap (λ t. codes "Output:" ++ t) (sym (append-nil tail)))),
        tt,
        omega arith,
        (tail, returns, inr (refl, refl)),
      )
  output_line most rest line (some after) e is_output =
      let (tail, whole, returns) = trim_cr-tail line in
      let line_is = whole ∙ ap (λ t. t ++ tail) (eq_of_bytes_eq (trim_cr line) _ is_output) in
      (
        [],
        tail ++ b'\n' ∷ [],
        sym e
            ∙ (ap (λ t. t ++ b'\n' ∷ after) line_is
                ∙ ap (λ t. codes "Output:" ++ t) (sym (append_assoc tail (b'\n' ∷ []) after))),
        tt,
        omega arith,
        (tail, returns, inl refl),
      )

  behind_line :
      (most : ℕ) (rest line after : Bytes) (cut : Option (Bytes × ToolOutcome))
      → line ++ with_newline (some after) ≡ rest
      → IsHeaderLine line
      → OnCut most after cut
      → OnCut (suc most) rest cut
  behind_line most rest line after none e known h = tt
  behind_line most rest line after (some (body, o)) e known (behind, judged) =
      let (lines, tail, whole, all_known, few, ends) = behind in
      (
        (
          line ∷ lines,
          tail,
          sym e
              ∙ (ap (λ t. line ++ b'\n' ∷ t) whole
                  ∙ sym (append_assoc line (b'\n' ∷ joined_lines lines) _)),
          (known, all_known),
          omega (arith, few),
          ends,
        ),
        judged,
      )

  behind_step :
      (f : ℕ) (rest line : Bytes) (after : Option Bytes) (said : Option ToolOutcome)
      → line ++ with_newline after ≡ rest
      → all (λ c. not (c == b'\n')) line ≡ true
      → OnSaid (trim_cr line) said
      → ((t : Bytes) (o : ToolOutcome) → IsJudged status_ok o → OnCut f t (strip_lines lib f t o))
      → OnCut (suc f) rest (elim said [
        | none ↦ none
        | some o ↦ elim after [ none ↦ none | some t ↦ strip_lines lib f t o ]
      ])
  behind_step f rest line after none e free h deeper = tt
  behind_step f rest line none (some o) e free h deeper = tt
  behind_step f rest line (some t) (some o) e free (judged, known) deeper =
      behind_line f rest line t (strip_lines lib f t o) e (known, free) (deeper t o judged)

  strip_lines-OnCut :
      (f : ℕ) (rest : Bytes) (o : ToolOutcome)
      → IsJudged status_ok o
      → OnCut f rest (strip_lines lib f rest o)
  unfolding strip_lines
  strip_lines-OnCut zero rest o h = tt
  strip_lines-OnCut (suc f) rest o h =
      elim (Bool-cases (bytes_eq (trim_cr (cut_line rest).0) (codes "Output:"))) [
        | inl is_output ↦ rw is_output (
          output_line f rest (cut_line rest).0 (cut_line rest).1 (cut_line-with_newline rest)
              is_output,
          h,
        )
        | inr other ↦ rw other (
            behind_step f rest (cut_line rest).0 (cut_line rest).1 _ (cut_line-with_newline rest)
              (cut_line-free rest) (header_line-OnSaid (trim_cr (cut_line rest).0) o h)
              (strip_lines-OnCut f))
      ]

  whole_or_cut :
      (text : Bytes) (cut : Option (Bytes × ToolOutcome))
      → OnCut 8 text cut
      → (((or_whole lib text cut).0 ≡ text) ⊎ IsBehindHeader 8 text (or_whole lib text cut).0)
        × IsJudged status_ok (or_whole lib text cut).1
  whole_or_cut text none h = (inl refl, inr (refl, refl))
  whole_or_cut text (some (body, o)) (behind, judged) = (inr behind, judged)

  -- The text without its header is the whole text, or what stands behind up to seven lines, each of
  -- which opens with one of the seven texts that the lines of a header open with, and a line that
  -- reads `Output:` up to its carriage returns; and the status is an error, or it is ok and no exit
  -- code other than zero was read.
  pub codex_strip_header_lem :
      (text : Bytes)
      → (((codex_strip_header lib text).0 ≡ text)
          ⊎ IsBehindHeader 8 text (codex_strip_header lib text).0)
        × IsJudged status_ok (codex_strip_header lib text).1
  unfolding codex_strip_header
  codex_strip_header_lem text =
      whole_or_cut text (strip_lines lib 8 text plain_outcome)
        (strip_lines-OnCut 8 text plain_outcome (inr (refl, refl)))
