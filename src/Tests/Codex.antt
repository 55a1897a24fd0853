-- ===== src/Tests/Codex.antt =====
-- Outputs and rows of Codex at concrete inputs.
use agent_session_query.Prelude.{
  true, not, ◌&&◌, [], none, some, Bytes, codes, has_prefix, bytes_eq, ◌≡◌, List, Option, inl, inr,
  ◌⊎◌, refl,
}
use agent_session_query.Prelude.Int.{pos}
use agent_session_query.Json.{Value, get, get_map, Fields, end, field, str, obj}
use agent_session_query.Blocks.{is_failed_result, apply_outcome, tool_result_block, is_zero_int}
use agent_session_query.Codex.Output.{
  CodexLib, codex_output, codex_strip_header, codex_legacy_output, strip_lines, trim_cr, cut_line,
  header_line,
}
use agent_session_query.Codex.Output.Header.{IsJudged, IsBehindHeader, codex_strip_header_lem}
use agent_session_query.Codex.Output.Judged.{is_failed_result-codex_output}
use agent_session_query.Codex.Rows.{CodexWalker, codex_message}
use agent_session_query.Codex.Counts.{CodexProbe, codex_counts}
use agent_session_query.Codex.Counts.Mirrored.{IsProbedAs, is_drawn, codex_message-counts}
use agent_session_query.Blocks.{status_ok}
use agent_session_query.Tests.Rounds.{ascii, world}
use agent_session_query.Tests.Samples.{runtime}

abbrev codex_lib : CodexLib
codex_lib = record {
  runtime = runtime;
  atoi = λ s. some (pos 1);
  is_nonneg = λ f. true;
  to_millis = λ f. pos f;
  decode_legacy = λ s. none;
  decode_object = λ s. none;
}

abbrev failed_output : Bytes
failed_output = codes "Exit code: 1\nOutput:\nboom"

codex_strip_header_lem_example :
    (((codex_strip_header codex_lib failed_output).0 ≡ failed_output)
      ⊎ IsBehindHeader 8 failed_output (codex_strip_header codex_lib failed_output).0)
    × IsJudged status_ok (codex_strip_header codex_lib failed_output).1
codex_strip_header_lem_example = codex_strip_header_lem codex_lib failed_output

has_failed :
    ((codex_output codex_lib (str failed_output)).1.has_exit
      && not (is_zero_int (codex_output codex_lib (str failed_output)).1.exit_code))
    ≡ true
unfolding codex_output codex_legacy_output codex_strip_header strip_lines trim_cr cut_line
    header_line has_prefix bytes_eq
has_failed = refl

is_failed_result-codex_output_example :
    is_failed_result runtime (
      apply_outcome (codex_output codex_lib (str failed_output)).1 (
        tool_result_block ascii
          (codes "c1")
          (codes "shell")
          (codex_output codex_lib (str failed_output)).0
          true))
    ≡ true
is_failed_result-codex_output_example =
    is_failed_result-codex_output codex_lib runtime ascii (str failed_output) (codes "c1")
      (codes "shell") true has_failed

abbrev call_row : Fields
call_row = field (codes "type") (str (codes "response_item")) (
    field (codes "payload")
      (obj (
        field (codes "type") (str (codes "function_call"))
          (field (codes "call_id") (str (codes "c1")) end)))
      end)

abbrev walker : CodexWalker
walker = record { names = []; full = true }

abbrev texts : Value → Option (List Bytes)
texts v = some []

abbrev call_probe : CodexProbe
call_probe = record {
  type = codes "response_item";
  kind = codes "function_call";
  role = [];
  summary = none;
  content = none;
}

call_row-IsProbedAs : IsProbedAs world codex_lib texts call_row call_probe
unfolding get get_map bytes_eq
call_row-IsProbedAs = (inl refl, inl refl, inr (refl, refl), refl, refl)

codex_message-counts_example :
    is_drawn world codex_lib texts (codex_message world codex_lib call_row walker).0
    ≡ codex_counts runtime texts call_probe
codex_message-counts_example =
    codex_message-counts world codex_lib texts call_row call_probe walker call_row-IsProbedAs
