-- ===== src/Http/Respond.antt =====
-- internal/app/http.go: the status of an answer about one session.
pub mod Export
use agent_session_query.Prelude.{
  ℕ, Bool, true, false, not, ◌||◌, List, [], ◌∷◌, Option, none, some, Bytes, codes, if◌then◌else◌,
  bytes_eq,
}
use agent_session_query.Prelude.Int.{ℤ, pos}
use agent_session_query.Prelude.Assoc.{lookup}
use agent_session_query.Record.{is_empty}
use agent_session_query.Sources.{listed_in}
use agent_session_query.Sink.{MessageQuery}
use agent_session_query.Http.{
  Answer, one_session, messages, subagents, rounds, brief, export_session, final_result, not_found,
}
use agent_session_query.Http.Query.{Lib, Values, value, Read, ok, fault, parse_message_query}

-- What the handlers ask of the sessions: whether a pattern finds one in a source, and why the rounds or
-- the brief of one cannot be had.
pub data BriefError : Type 0 where
  no_session : BriefError
  bad_request : BriefError

pub record Sessions : Type 0 where
  pub found : Bytes → Bytes → Bool
  pub rounds_error : Bytes → Bytes → Option BriefError
  pub brief_error : Bytes → Bytes → Option BriefError

-- briefHTTPError
abbrev pub brief_status : Option BriefError → ℕ
brief_status none = 200
brief_status (some no_session) = 404
brief_status (some bad_request) = 400

abbrev pub found_status : Bool → ℕ
found_status found = if found then 200 else 404

abbrev pub export_max_messages : ℕ
export_max_messages = 20000

abbrev pub export_formats : List Bytes
export_formats = codes "md" ∷ codes "jsonl" ∷ codes "json" ∷ codes "html" ∷ []

-- `none` is a parameter that was not given.
abbrev pub whole_unless_given : Option (List Bytes) → MessageQuery → MessageQuery
whole_unless_given none q = record q { limit = pos export_max_messages; full = true }
whole_unless_given (some vs) q = record q { full = true }

abbrev pub or_markdown : Bytes → Bytes
or_markdown format = if is_empty format then codes "md" else format

module _ (lib : Lib) (values : Values) where
  -- What an export reads.
  unfoldable pub export_query : Read MessageQuery
  export_query = elim (parse_message_query lib values export_max_messages) [
    | ok q ↦ ok (whole_unless_given (lookup (codes "limit") values) q)
    | fault e ↦ fault e
  ]

module _ (lib : Lib) (max_limit : ℕ) (sessions : Sessions) (values : Values) where
  abbrev source : Bytes
  source = value values (codes "source")

  abbrev after_query : Read MessageQuery → ℕ → ℕ
  after_query (ok q) status = status
  after_query (fault e) status = 400

  abbrev export_format : Bytes
  export_format = or_markdown (lib.to_lower (lib.trim_space (value values (codes "format"))))

  abbrev round_given : Bytes → Option ℤ → Bool
  round_given raw none = is_empty raw
  round_given raw (some n) = true

  -- The status of the handlers under /sessions/; `none` for the other answers.
  unfoldable pub session_status : Answer → Option ℕ
  session_status (one_session pattern) = some (found_status (sessions.found pattern []))
  session_status (messages pattern) = some (
      after_query (parse_message_query lib values max_limit)
        (found_status (sessions.found pattern source)))
  session_status (subagents pattern) = some (found_status (sessions.found pattern source))
  session_status (rounds pattern) = some (brief_status (sessions.rounds_error pattern source))
  session_status (brief pattern) =
      let raw = value values (codes "round") in
      some (
        if not (round_given raw (lib.atoi raw))
        then 400
        else brief_status (sessions.brief_error pattern source))
  session_status (export_session pattern) = some (
      after_query (export_query lib values) (
        if not (listed_in export_formats export_format)
        then 400
        else found_status (sessions.found pattern [])))
  session_status (final_result pattern) = some (found_status (sessions.found pattern source))
  session_status not_found = some 404
  session_status other = none
