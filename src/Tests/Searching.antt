-- ===== src/Tests/Searching.antt =====
-- Searches at concrete inputs.
use agent_session_query.Prelude.{
  List, [], ◌∷◌, ◌≡◌, map, bytes_eq, has_prefix, take, length, ◌≤◌, arith, any,
}
use agent_session_query.Json.{Fields}
use agent_session_query.Record.{is_subagent, newer_than}
use agent_session_query.Sorting.{sort_stable}
use agent_session_query.Api.{Candidate, each_session, source_matches_wanted, admits}
use agent_session_query.Search.{
  SearchUnit, scan_unit, scan_agents, Parts, SearchQuery, scan, outcome, search, gather, gather_all,
  units_of, selected,
}
use agent_session_query.Search.Whole.{session_of, search_stops}
use agent_session_query.Search.Page.{with_hits, trimmed, over, outcome-page}
use agent_session_query.Tests.Samples.{agent, messages, recent_claude, runtime, session, work}

abbrev units : List SearchUnit
units =
    record { lead = (work, session); agents = (work, agent) ∷ [] }
    ∷ record { lead = (work, session); agents = [] }
    ∷ []

-- Every transcript has the messages as its hits.
abbrev search_one : Candidate → List Fields
search_one c = messages

abbrev parts : List Parts
parts = scan search_one 2 units

outcome-page_example :
    ((outcome 1 3 parts).results ≡ map (trimmed 3) (take 1 (with_hits parts)))
    × ((outcome 1 3 parts).matched ≡ length (with_hits parts))
    × ((outcome 1 3 parts).hits_cut ≡ any (over 3) (take 1 (with_hits parts)))
outcome-page_example = outcome-page 1 3 parts

one_hit : 1 ≤ length (with_hits (scan search_one 2 units))
unfolding scan scan_unit scan_agents
one_hit = omega arith

abbrev query : SearchQuery
query = record { pattern = []; filter = recent_claude; limit = 1; per_session = 3 }

one_matched : 1 ≤ (search runtime search_one 1 (work ∷ []) query).matched
unfolding search outcome gather_all gather scan scan_unit scan_agents units_of selected each_session
    admits source_matches_wanted is_subagent bytes_eq has_prefix sort_stable newer_than
one_matched = omega arith

search_stops_example :
    map session_of (search runtime search_one 1 (work ∷ []) query).results
    ≡ map session_of (search runtime search_one 2 (work ∷ []) query).results
search_stops_example =
    search_stops runtime search_one (work ∷ []) query 1 2 (omega arith) one_matched
