-- ===== src/Tests/Rounds.antt =====
-- Rounds and briefs at concrete inputs.
use agent_session_query.Prelude.{
  not, length, ◌+◌, true, false, List, [], ◌∷◌, none, some, Bytes, codes, ◌≡◌,
}
use agent_session_query.Prelude.Int.{pos}
use agent_session_query.Json.{Fields, end, field, str, obj, arr, nil, cons, parse_timestamp}
use agent_session_query.Record.{is_empty}
use agent_session_query.Usage.{Floats}
use agent_session_query.Rounds.{split_rounds}
use agent_session_query.Questions.{Libraries}
use agent_session_query.Rounds.Segments.{
  segments, rounds_of, all_of, from_first, split_rounds-segments,
}
use agent_session_query.Http.Query.{Lib, parse_since}
use agent_session_query.Brief.{select}
use agent_session_query.Brief.Outcome.{IsRight, IsReason, asks_for, select_lem}
use agent_session_query.Tests.Samples.{runtime}

-- ASCII: every byte is a character.
abbrev pub ascii : Bytes → List Bytes
ascii [] = []
ascii (c ∷ s) = (c ∷ []) ∷ ascii s

abbrev floats : Floats
floats = record { add = λ x y. x + y; of_int = λ n. 0; to_int = λ x. pos x }

abbrev pub world : Libraries
world = record {
  runtime = runtime;
  texts = record {
    runes = ascii;
    rune_len = λ s. 1;
    is_lower = λ r. true;
    is_upper = λ r. false;
    is_letter = λ r. true;
    is_digit = λ r. false;
    replace_all_func = λ pattern f s. s;
  };
  floats = floats;
}

abbrev lib : Lib
lib = record {
  trim_space = λ s. s;
  to_lower = λ s. s;
  equal_fold = λ s t. false;
  atoi = λ s. none;
  parse_duration = λ s. none;
  parse_layout = λ layout s. some 5;
  parse_epoch = λ s. none;
}

abbrev write_call : Fields
write_call = field (codes "type") (str (codes "toolCall")) (
    field (codes "id") (str (codes "c1")) (
      field (codes "name") (str (codes "edit"))
        (field (codes "arguments") (obj (field (codes "path") (str (codes "a.go")) end)) end)))

abbrev write_result : Fields
write_result =
    field (codes "type") (str (codes "toolResult"))
      (field (codes "callId") (str (codes "c1")) (field (codes "status") (str (codes "ok")) end))

-- A question, a call with its result, and another question.
abbrev talk : List Fields
talk =
    field (codes "role") (str (codes "system")) end
    ∷ field (codes "role") (str (codes "user")) (
        field (codes "content") (str (codes "fix it"))
          (field (codes "timestamp") (str (codes "a")) end))
    ∷ field (codes "role") (str (codes "assistant")) (
        field (codes "content") (arr (cons (obj write_call) (cons (obj write_result) nil)))
          (field (codes "timestamp") (str (codes "b")) end))
    ∷ field (codes "role") (str (codes "user"))
        (field (codes "content") (str (codes "and now")) end)
    ∷ []

split_rounds-segments_example :
    (split_rounds world talk ≡ rounds_of world 1 (segments world talk))
    × (all_of world (segments world talk) ≡ from_first world talk)
split_rounds-segments_example = split_rounds-segments world talk

select_lem_example :
    IsRight
      (not (is_empty []))
      (asks_for runtime lib 9 (length (split_rounds world talk)) [] (pos 0) [])
      (split_rounds world talk)
      (IsReason runtime
        (parse_timestamp runtime [])
        (pos 0)
        (parse_since lib 9 [])
        (split_rounds world talk))
      (select runtime lib 9 (split_rounds world talk) [] (pos 0) [])
select_lem_example = select_lem world lib 9 talk [] (pos 0) []
