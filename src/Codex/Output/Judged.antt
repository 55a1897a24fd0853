-- ===== src/Codex/Output/Judged.antt =====
-- When the block of an output's result counts as failed.
use agent_session_query.Prelude.{
  ℕ, Bool, true, not, ◌&&◌, List, [], Option, none, some, Bytes, codes, bytes_eq, eq_of_bytes_eq,
  bytes_eq_refl, has_prefix, ◌≡◌, refl, sym, ◌∙◌, ◌≢◌, inl, inr, Bool-cases, arith,
}
use agent_session_query.Json.{
  Runtime, Value, null, bool, str, float, int, arr, obj, Items, nil, cons,
}
use agent_session_query.Record.{is_empty}
use agent_session_query.Blocks.Outcome.{fails, is_failed_result-apply_outcome}
use agent_session_query.Blocks.{
  tool_result_block, apply_outcome, is_failed_result, ToolOutcome, status_ok, status_error,
  is_zero_int,
}
use agent_session_query.Codex.Output.{
  legacy_seconds, read_or_strip, CodexLib, Legacy, plain_outcome, empty_outcome, with_exit,
  codex_strip_header, of_legacy, codex_legacy_output, merge_outcome, text_of_item, read_item,
  read_items, or_ok, codex_output,
}
use agent_session_query.Codex.Output.Header.{IsJudged, with_exit-IsJudged, codex_strip_header_lem}

module _ (lib : CodexLib) where
  abbrev OnRead : Option (Bytes × ToolOutcome) → Type 0
  OnRead none = Unit
  OnRead (some (body, o)) = IsJudged status_ok o

  legacy_seconds-IsJudged :
      (f : Option ℕ) (o : ToolOutcome)
      → IsJudged status_ok o
      → IsJudged status_ok (legacy_seconds lib f o)
  legacy_seconds-IsJudged none o h = h
  legacy_seconds-IsJudged (some f) o h = h

  of_legacy-OnRead : (l : Option Legacy) → OnRead (of_legacy lib l)
  of_legacy-OnRead none = tt
  of_legacy-OnRead (some l) =
      legacy_seconds-IsJudged l.duration_seconds (with_exit l.exit_code plain_outcome)
        (with_exit-IsJudged lib status_ok l.exit_code plain_outcome (inr (refl, refl)))

  codex_legacy_output-OnRead : (text : Bytes) → OnRead (codex_legacy_output lib text)
  unfolding codex_legacy_output
  codex_legacy_output-OnRead text =
      elim (Bool-cases (has_prefix (lib.runtime.trim_space text) (codes "{\"output\""))) [
        | inl older ↦ rw older (of_legacy-OnRead (lib.decode_legacy text))
        | inr newer ↦ rw newer tt
      ]

  merge-IsJudged :
      (s : Bytes) (o found : ToolOutcome)
      → IsJudged s o
      → IsJudged status_ok found
      → IsJudged s (merge_outcome lib o found)
  unfolding merge_outcome
  merge-IsJudged s o found h k = elim (Bool-cases (bytes_eq found.status status_error)) [
    | inl failed ↦ rw failed (inl refl)
    | inr passed ↦ elim h [
      | inl error ↦ rw passed (inl error)
      | inr (same, no_exit) ↦ elim k [
        | inl found_error ↦ absurd (ground (arith, passed, found_error, bytes_eq_refl status_error))
        | inr (ok, found_zero) ↦ rw passed (inr (same, ground (arith, no_exit, found_zero)))
      ]
    ]
  ]

  read_item-IsJudged :
      (text : Option Bytes) (read : Bytes × ToolOutcome)
      → IsJudged [] read.1
      → IsJudged [] (read_item lib text read).1
  read_item-IsJudged none (bodies, o) h = h
  read_item-IsJudged (some text) (bodies, o) h =
      merge-IsJudged [] o (codex_strip_header lib text).1 h (codex_strip_header_lem lib text).1

  read_items-IsJudged :
      (vs : Items) (read : Bytes × ToolOutcome)
      → IsJudged [] read.1
      → IsJudged [] (read_items lib vs read).1
  unfolding read_items
  read_items-IsJudged nil read h = h
  read_items-IsJudged (cons v vs) read h =
      read_items-IsJudged vs (read_item lib (text_of_item lib v) read)
        (read_item-IsJudged (text_of_item lib v) read h)

  status_error-some : status_error ≢ []
  status_error-some e = cc

  or_ok-IsJudged :
      (read : Bytes × ToolOutcome) → IsJudged [] read.1 → IsJudged status_ok (or_ok lib read).1
  unfolding bytes_eq
  or_ok-IsJudged (text, o) h = elim (Bool-cases (is_empty o.status)) [
    | inl nothing ↦ elim h [
      | inl error ↦
          let none_yet = eq_of_bytes_eq o.status [] nothing in
          absurd (status_error-some (sym error ∙ none_yet))
      | inr (same, no_exit) ↦ rw nothing (inr (refl, no_exit))
    ]
    | inr something ↦ elim h [
      | inl error ↦ rw something (inl error)
      | inr (same, no_exit) ↦ absurd (ground (arith, something, same))
    ]
  ]

  read_text-IsJudged :
      (text : Bytes) (older : Option (Bytes × ToolOutcome))
      → OnRead older
      → IsJudged status_ok (read_or_strip lib text older).1
  read_text-IsJudged text none h = (codex_strip_header_lem lib text).1
  read_text-IsJudged text (some (body, o)) h = h

  codex_output-IsJudged : (v : Value) → IsJudged status_ok (codex_output lib v).1
  unfolding codex_output
  codex_output-IsJudged (str s) =
      read_text-IsJudged s (codex_legacy_output lib s) (codex_legacy_output-OnRead s)
  codex_output-IsJudged (arr vs) =
      or_ok-IsJudged (read_items lib vs ([], empty_outcome))
        (read_items-IsJudged vs ([], empty_outcome) (inr (refl, refl)))
  codex_output-IsJudged null = inr (refl, refl)
  codex_output-IsJudged (bool b) = inr (refl, refl)
  codex_output-IsJudged (float x) = inr (refl, refl)
  codex_output-IsJudged (int n) = inr (refl, refl)
  codex_output-IsJudged (obj fs) = inr (refl, refl)

  error_fails : (o : ToolOutcome) → o.status ≡ status_error → fails o ≡ true
  error_fails o e = ground (arith, e, bytes_eq_refl status_error)

  exit_fails :
      (o : ToolOutcome)
      → IsJudged status_ok o
      → (o.has_exit && not (is_zero_int o.exit_code)) ≡ true
      → fails o ≡ true
  exit_fails o (inl error) e = error_fails o error
  exit_fails o (inr (ok, no_exit)) e = absurd (ground (arith, e, no_exit))

  -- When what is read of a tool output of Codex says an exit code other than zero, in a header, in
  -- the older form or in one of several items, the result block of the output counts as failed.
  pub is_failed_result-codex_output :
      (rt : Runtime) (runes : Bytes → List Bytes) (v : Value) (call_id name : Bytes) (full : Bool)
      → ((codex_output lib v).1.has_exit && not (is_zero_int (codex_output lib v).1.exit_code))
        ≡ true
      → is_failed_result rt (
          apply_outcome
            (codex_output lib v).1
            (tool_result_block runes call_id name (codex_output lib v).0 full))
        ≡ true
  is_failed_result-codex_output rt runes v call_id name full e =
      is_failed_result-apply_outcome rt runes (codex_output lib v).1 call_id name
        (codex_output lib v).0 full
      ∙ exit_fails (codex_output lib v).1 (codex_output-IsJudged v) e
