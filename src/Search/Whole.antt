-- ===== src/Search/Whole.antt =====
-- The whole search: what stopping early does to the page.
use agent_session_query.Prelude.{ℕ, ◌≤◌, List, [], ◌∷◌, map, take, not, ◌≡◌, refl, sym, ap, ◌∙◌}
use agent_session_query.Json.{Runtime, Fields}
use agent_session_query.Record.{Record, is_empty}
use agent_session_query.Api.{SessionSource, Candidate, record_of}
use agent_session_query.Search.{
  SearchUnit, SearchQuery, Parts, scan, units_of, selected, outcome, search,
}
use agent_session_query.Search.Page.{with_hits, trimmed, outcome-page}
use agent_session_query.Search.Stop.{unit_of, stop_keeps_page}

-- The session of a row of the page.
abbrev pub session_of : Record × List Fields → Record
session_of row = row.0

abbrev lead_record : SearchUnit → Record
lead_record u = record_of u.lead

sessions_of_rows :
    (k : ℕ) (ps : List Parts)
    → map session_of (map (trimmed k) ps) ≡ map lead_record (map unit_of ps)
sessions_of_rows k [] = refl
sessions_of_rows k ((u, parts) ∷ ps) = ap (λ t. lead_record u ∷ t) (sessions_of_rows k ps)

page_sessions :
    (limit k : ℕ) (ps : List Parts)
    → map session_of (outcome limit k ps).results
      ≡ map lead_record (map unit_of (take limit (with_hits ps)))
page_sessions limit k ps =
    ap (map session_of) ((outcome-page limit k ps).0)
    ∙ sessions_of_rows k (take limit (with_hits ps))

-- A search that hands out `n` jobs, with as many sessions matched as the limit asks for, lists the
-- sessions, in the order, that it lists when it hands out more jobs.
pub search_stops :
    (rt : Runtime) (search_one : Candidate → List Fields) (sources : List SessionSource)
    (q : SearchQuery) (n m : ℕ)
    → n ≤ m
    → q.limit ≤ (search rt search_one n sources q).matched
    → map session_of (search rt search_one n sources q).results
      ≡ map session_of (search rt search_one m sources q).results
unfolding search
search_stops rt search_one sources q n m le enough =
    let us = units_of (not (is_empty q.pattern)) (selected rt sources q) in
    let counted = (outcome-page q.limit q.per_session (scan search_one n us)).1 in
    page_sessions q.limit q.per_session (scan search_one n us)
    ∙ ap (map lead_record) (stop_keeps_page search_one q.limit n m us le (rw counted at enough))
    ∙ sym (page_sessions q.limit q.per_session (scan search_one m us))
