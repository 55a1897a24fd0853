-- ===== src/Api.antt =====
-- internal/app/api.go: the selection of sessions that every surface shares, the one session that a
-- pattern names, and the subagents under a session.
pub mod Find
pub mod Filter
pub mod Projects
pub mod Timed
use agent_session_query.Prelude.{
  ℕ, zero, suc, ◌+◌, Bool, true, false, not, ◌&&◌, ◌||◌, List, [], ◌∷◌, ◌++◌, map, Option, none,
  some, Bytes, codes, Time, is_zero, before, after, ltb, if◌then◌else◌, bytes_eq, has_prefix,
  contains, drop, keep, length,
}
use agent_session_query.Prelude.Assoc.{Assoc, lookup, insert}
use agent_session_query.Json.{Runtime, Fields}
use agent_session_query.Record.{
  Record, is_empty, is_subagent, project_name, newer_than, bytes_lt, normalize_for_match,
  record_rank, public,
}
use agent_session_query.Sorting.{sort_stable}

-- A source at the moment of a query: its mode, and the list that `recordsOf` returns for it.
pub record SessionSource : Type 0 where
  pub mode : Bytes
  pub records : List Record

unfoldable pub source_matches_wanted : Bytes → Bytes → Bool
source_matches_wanted mode wanted =
    is_empty wanted || bytes_eq mode wanted || has_prefix mode (wanted ++ b':' ∷ [])

abbrev pub Candidate : Type 0
Candidate = SessionSource × Record

abbrev paired : SessionSource → List Record → List Candidate
paired src [] = []
paired src (r ∷ rs) = (src, r) ∷ paired src rs

-- Every record of the sources that are wanted, in the order in which the loops reach them.
unfoldable pub candidates : List SessionSource → Bytes → List Candidate
unfolding source_matches_wanted
candidates [] wanted = []
candidates (src ∷ srcs) wanted =
    if source_matches_wanted src.mode wanted
    then paired src src.records ++ candidates srcs wanted
    else candidates srcs wanted

-- The best match so far, with its rank.
abbrev pub Best : Type 0
Best = Option (Candidate × ℕ)

-- One round of the inner loop: the first candidate of a rank keeps its place.
unfoldable pub better : Bytes → Best → Candidate → Best
better pattern best (src, item) = elim (record_rank pattern item) [
  | none ↦ best
  | some rank ↦ elim best [
    | none ↦ some ((src, item), rank)
    | some (held, least) ↦ some (if ltb rank least then ((src, item), rank) else (held, least))
  ]
]

unfoldable pub find_best : Bytes → Best → List Candidate → Best
unfolding better
find_best pattern best [] = best
find_best pattern best (c ∷ cs) = find_best pattern (better pattern best c) cs

abbrev strip : Bytes → Bytes → Bytes
strip prefix s = if has_prefix s prefix then drop (length prefix) s else s

unfoldable pub find_session : Runtime → List SessionSource → Bytes → Bytes → Best
unfolding candidates find_best normalize_for_match
find_session rt sources raw wanted =
    let pattern = strip (codes "Session: ") (strip (codes "Run: ") (rt.trim_space raw)) in
    if is_empty pattern
    then none
    else find_best (normalize_for_match rt pattern) none (candidates sources wanted)

pub record SessionFilter : Type 0 where
  pub source : Bytes
  pub project : Bytes
  pub branch : Bytes
  pub since : Time
  pub until : Time
  pub subagents : Bool
  pub archived : Bool

unfoldable pub admits : SessionFilter → Record → Bool
admits f rec =
    if not (source_matches_wanted rec.source f.source)
    then false
    else if is_subagent rec && not f.subagents
    then false
    else if rec.archived && not f.archived
    then false
    else if not (is_empty f.project) && not (contains (project_name rec) f.project)
    then false
    else if not (is_empty f.branch) && not (contains rec.branch f.branch)
    then false
    else if not (is_zero f.since) && (is_zero rec.sort_at || before rec.sort_at f.since)
    then false
    else if not (is_zero f.until) && (is_zero rec.sort_at || after rec.sort_at f.until)
    then false
    else true

-- eachSession, with what it hands to its callback as a list.
unfoldable pub each_session : SessionFilter → List SessionSource → List Candidate
each_session f [] = []
each_session f (src ∷ srcs) =
    if not (source_matches_wanted src.mode f.source)
    then each_session f srcs
    else paired src (keep (admits f) src.records) ++ each_session f srcs

abbrev pub record_of : Candidate → Record
record_of c = c.1

-- The records that sessionsWhere renders, newest first.
unfoldable pub records_where : SessionFilter → List SessionSource → List Record
unfolding each_session
records_where f sources = sort_stable newer_than (map record_of (each_session f sources))

unfoldable pub sessions_where : Time → SessionFilter → List SessionSource → List Fields
sessions_where now f sources = map (public now) (records_where f sources)

-- listSessions: the rows, and how many sessions are archived, listed or not.
abbrev listed : Bool → Bool → Record → Bool
listed subagents archived rec =
    (subagents || not (is_subagent rec)) && (archived || not rec.archived)

abbrev pub all_records : List SessionSource → List Record
all_records [] = []
all_records (src ∷ srcs) = src.records ++ all_records srcs

unfoldable pub list_records : List SessionSource → Bool → Bool → List Record × ℕ
list_records sources subagents archived = (
  sort_stable newer_than (keep (listed subagents archived) (all_records sources)),
  length (keep (λ rec. rec.archived && not (is_subagent rec)) (all_records sources)),
)

-- descendsFrom, on the hops that are left.
unfoldable pub descends : ℕ → Record → Bytes → Assoc Record → Bool
descends zero rec agent agents = false
descends (suc hops) rec agent agents =
    if is_empty rec.parent_agent_id
    then false
    else if bytes_eq rec.parent_agent_id agent
    then true
    else elim (lookup rec.parent_agent_id agents) [
      | none ↦ false
      | some next ↦ descends hops next agent agents
    ]

unfoldable pub descends_from : Record → Bytes → Assoc Record → Bool
unfolding descends
descends_from rec agent agents = descends (length agents + 1) rec agent agents

-- The subagents of one session by id.
agents_of : Bytes → List Record → Assoc Record → Assoc Record
agents_of session [] agents = agents
agents_of session (item ∷ items) agents = agents_of session items (
    if is_subagent item && bytes_eq item.parent_session_id session
    then insert item.session_id item agents
    else agents)

abbrev values : Assoc Record → List Record
values [] = []
values ((k, r) ∷ m) = r ∷ values m

-- By creation, then by id.
started_before : Record → Record → Bool
started_before a b =
    if not (bytes_eq a.created_at b.created_at)
    then bytes_lt a.created_at b.created_at
    else bytes_lt a.session_id b.session_id

unfoldable pub children_of : Record → List Record → List Record
unfolding agents_of started_before descends_from
children_of rec items =
    let session = if is_subagent rec then rec.parent_session_id else rec.session_id in
    let agents = agents_of session items [] in
    sort_stable started_before (
      keep (λ item. not (is_subagent rec) || descends_from item rec.session_id agents)
        (values agents))

unfoldable pub subagents_of : Runtime → List SessionSource → Bytes → Bytes → Option (List Record)
unfolding find_session children_of
subagents_of rt sources pattern wanted = elim (find_session rt sources pattern wanted) [
  | none ↦ none
  | some ((src, rec), rank) ↦ some (children_of rec src.records)
]
