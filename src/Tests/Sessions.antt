-- ===== src/Tests/Sessions.antt =====
-- The selection of sessions and their rows at concrete inputs.
use agent_session_query.Prelude.{
  false, List, [], ◌∷◌, none, some, ◌≡◌, refl, bytes_eq, index_byte, codes, keep,
}
use agent_session_query.Record.{
  is_subagent, is_empty, shell_arg, resume_commands, base_mode, newer_than,
}
use agent_session_query.Record.Shell.{shell_words, shell_words-shell_arg}
use agent_session_query.Sorting.{sort_stable}
use agent_session_query.Api.{Candidate, find_best, admits, records_where, all_records}
use agent_session_query.Api.Find.{IsBest, find_best-first}
use agent_session_query.Api.Filter.{records_where-keep}
use agent_session_query.Prelude.Assoc.{lookup}
use agent_session_query.Tests.Samples.{agent, recent_claude, session, work}

abbrev cases : List Candidate
cases = (work, session) ∷ (work, agent) ∷ []

shell_words-shell_arg_example :
    shell_words (shell_arg (codes "it's; rm")) ≡ some (codes "it's; rm" ∷ [])
shell_words-shell_arg_example = shell_words-shell_arg (codes "it's; rm")

at_top : is_subagent session ≡ false
unfolding is_subagent bytes_eq
at_top = refl

with_id : is_empty session.session_id ≡ false
unfolding bytes_eq
with_id = refl

in_table : lookup (base_mode session.source) resume_commands ≡ some (codes "claude --resume")
unfolding lookup base_mode bytes_eq index_byte
in_table = refl

find_best-first_example : IsBest (codes "agent") cases (find_best (codes "agent") none cases)
find_best-first_example = find_best-first (codes "agent") cases

records_where-keep_example :
    records_where recent_claude (work ∷ [])
    ≡ keep (admits recent_claude) (sort_stable newer_than (all_records (work ∷ [])))
records_where-keep_example = records_where-keep recent_claude (work ∷ []) ((refl, (refl, tt)), tt)
