-- ===== src/Search.antt =====
-- internal/app/search.go: the search over every session. Workers run concurrently; what they leave
-- is the hits of the jobs that were handed out, each in its place, so the model scans a prefix of
-- the jobs and takes the length of that prefix as given.
pub mod Page
pub mod Stop
pub mod Whole
use agent_session_query.Prelude.{
  ℕ, zero, suc, ◌+◌, ◌-◌, Bool, true, false, not, ◌&&◌, ◌||◌, List, [], ◌∷◌, ◌++◌, map, Option,
  none, some, Bytes, codes, ltb, leb, ◌==◌, if◌then◌else◌, bytes_eq, length, take,
}
use agent_session_query.Json.{Runtime, Value, str, Fields, put}
use agent_session_query.Record.{Record, is_empty, is_subagent, newer_than, bytes_lt}
use agent_session_query.Sorting.{sort_stable}
use agent_session_query.Api.{
  SessionSource, SessionFilter, Candidate, record_of, admits, each_session, find_session,
}

-- One session to search, with the subagents that ran in it.
pub record SearchUnit : Type 0 where
  pub lead : Candidate
  pub agents : List Candidate

abbrev mode_of : Candidate → Bytes
mode_of c = (c.0).mode

-- The candidates that are units of their own from the start: all of a search scoped to one session,
-- and otherwise the sessions.
leads : Bool → List Candidate → List SearchUnit
leads scoped [] = []
leads scoped (c ∷ cs) =
    if scoped || not (is_subagent (record_of c))
    then record { lead = c; agents = [] } ∷ leads scoped cs
    else leads scoped cs

-- The agent's session is this unit's lead.
ran_in : Candidate → SearchUnit → Bool
ran_in c u =
    not (is_subagent (record_of u.lead))
    && (bytes_eq (mode_of u.lead) (mode_of c)
        && bytes_eq (record_of u.lead).session_id (record_of c).parent_session_id)

-- Where a session is listed twice the last of its units takes the agents; `none` when there is none.
attach : Candidate → List SearchUnit → Option (List SearchUnit)
unfolding ran_in
attach c [] = none
attach c (u ∷ us) = elim (attach c us) [
  | some us' ↦ some (u ∷ us')
  | none ↦ if ran_in c u then some (record u { agents = u.agents ++ c ∷ [] } ∷ us) else none
]

group : Bool → List Candidate → List SearchUnit → List SearchUnit
unfolding attach
group scoped [] units = units
group scoped (c ∷ cs) units = group scoped cs (
    if scoped || not (is_subagent (record_of c)) then units else elim (attach c units) [
      | some units' ↦ units'
      | none ↦ units ++ record { lead = c; agents = [] } ∷ []
    ])

abbrev created_first : Candidate → Candidate → Bool
created_first a b = bytes_lt (record_of a).created_at (record_of b).created_at

abbrev newer_unit : SearchUnit → SearchUnit → Bool
newer_unit a b = newer_than (record_of a.lead) (record_of b.lead)

-- A unit's agents in the order in which they started.
by_start : SearchUnit → SearchUnit
by_start u = record u { agents = sort_stable created_first u.agents }

unfoldable pub units_of : Bool → List Candidate → List SearchUnit
unfolding leads group by_start
units_of scoped all = sort_stable newer_unit (map by_start (group scoped all (leads scoped all)))

-- source.SearchQuery, of which the scan of one transcript reads the rest.
pub record SearchQuery : Type 0 where
  pub pattern : Bytes
  pub filter : SessionFilter
  pub limit : ℕ
  pub per_session : ℕ

-- The selection: the session that the pattern names, if the filter admits it, or every session that
-- the filter admits.
unfoldable pub selected : Runtime → List SessionSource → SearchQuery → List Candidate
selected rt sources q =
    if is_empty q.pattern
    then each_session q.filter sources
    else elim (find_session rt sources q.pattern q.filter.source) [
      | none ↦ []
      | some ((src, rec), rank) ↦ if admits q.filter rec then (src, rec) ∷ [] else []
    ]

-- What a worker writes into a hit of a subagent's transcript.
tag : Record → Fields → Fields
tag rec hit =
    let named =
      put (put hit (codes "agentId") (str rec.session_id)) (codes "agent") (str rec.short_key) in
    if is_empty rec.agent_type then named else put named (codes "agentType") (str rec.agent_type)

-- A unit's parts: its own transcript's hits, then each agent's.
abbrev pub Parts : Type 0
Parts = SearchUnit × List (List Fields)

module _ (search_one : Candidate → List Fields) where
  unfoldable pub scan_agents : ℕ → List Candidate → List (List Fields)
  unfolding tag
  scan_agents n [] = []
  scan_agents zero (c ∷ cs) = [] ∷ scan_agents zero cs
  scan_agents (suc n) (c ∷ cs) = map (tag (record_of c)) (search_one c) ∷ scan_agents n cs

  -- The hits that the first `n` jobs leave: a session's own job, then its agents'.
  unfoldable pub scan_unit : ℕ → SearchUnit → List (List Fields)
  unfolding scan_agents
  scan_unit zero u = [] ∷ scan_agents zero u.agents
  scan_unit (suc n) u = search_one u.lead ∷ scan_agents n u.agents

  abbrev pub jobs_of : SearchUnit → ℕ
  jobs_of u = length u.agents + 1

  unfoldable pub scan : ℕ → List SearchUnit → List Parts
  scan n [] = []
  scan n (u ∷ us) = (u, scan_unit n u) ∷ scan (n - jobs_of u) us

  unfoldable pub job_count : List SearchUnit → ℕ
  job_count [] = 0
  job_count (u ∷ us) = jobs_of u + job_count us

-- A result is a session's record with its hits: the row is the record's public one, with the hits
-- under `matches` and their number under `matchCount`.
pub record SearchOutcome : Type 0 where
  pub results : List (Record × List Fields)
  pub matched : ℕ
  pub hits_cut : Bool

abbrev pub concat : List (List Fields) → List Fields
concat [] = []
concat (p ∷ ps) = p ++ concat ps

-- One round of the loop that reads the hits.
unfoldable pub gather : ℕ → ℕ → SearchOutcome → Record → List Fields → SearchOutcome
gather limit per_session out rec [] = out
gather limit per_session out rec (h ∷ hs) =
    if leb limit (length out.results)
    then record out { matched = out.matched + 1 }
    else if ltb per_session (length (h ∷ hs))
    then record {
      results = out.results ++ (rec, take per_session (h ∷ hs)) ∷ [];
      matched = out.matched + 1;
      hits_cut = true;
    }
    else record {
      results = out.results ++ (rec, h ∷ hs) ∷ [];
      matched = out.matched + 1;
      hits_cut = out.hits_cut;
    }

unfoldable pub gather_all : ℕ → ℕ → SearchOutcome → List Parts → SearchOutcome
gather_all limit per_session out [] = out
gather_all limit per_session out ((u, parts) ∷ rest) =
    gather_all limit per_session (gather limit per_session out (record_of u.lead) (concat parts))
      rest

unfoldable pub outcome : ℕ → ℕ → List Parts → SearchOutcome
unfolding gather_all
outcome limit per_session parts =
    gather_all limit per_session (record { results = []; matched = 0; hits_cut = false }) parts

-- The whole search, when the first `n` jobs were handed out.
unfoldable pub search :
    Runtime → (Candidate → List Fields) → ℕ → List SessionSource → SearchQuery → SearchOutcome
search rt search_one n sources q =
    outcome q.limit q.per_session
      (scan search_one n (units_of (not (is_empty q.pattern)) (selected rt sources q)))

-- sessionsCut: the page was cut by the limit, or the scan stopped there.
unfoldable pub sessions_cut : SearchOutcome → Bool → Bool
sessions_cut out scan_stopped = not (out.matched == length out.results) || scan_stopped

-- The dispatcher's test before each job: whether it stops.
unfoldable pub stops : ℕ → ℕ → Bool
stops limit found = ltb 0 limit && leb limit found
