-- ===== src/Tests/Projects.antt =====
-- The projects of a list at a concrete input.
use mathlib.Core.List.{Perm}
use agent_session_query.Prelude.{
  true, false, [], ◌∷◌, ◌≡◌, refl, Bytes, codes, bytes_eq, All, keep, length,
}
use agent_session_query.Record.{is_empty}
use agent_session_query.Sorting.{IsSorted}
use agent_session_query.Api.{SessionSource, all_records}
use agent_session_query.Api.Projects.{rows, grouped, touched_after, list_projects}
use agent_session_query.Api.Projects.Counts.{
  is_of, is_from, no_project, not_newer, latest_of, sessions_of, sources_of, list_projects_lem,
}
use agent_session_query.Tests.Samples.{session, agent}

-- Two sessions of one repository, and a subagent.
abbrev repo : SessionSource
repo = record {
  mode = codes "claude";
  records =
      record session { cwd = codes "/repo" }
      ∷ agent
      ∷ record session { cwd = codes "/repo"; source = codes "codex" }
      ∷ [];
}

list_projects_lem_example :
    Perm (list_projects (repo ∷ []) false).0 (rows (grouped (repo ∷ []) false).buckets)
    × IsSorted touched_after (list_projects (repo ∷ []) false).0
    × ((list_projects (repo ∷ []) false).1
        ≡ length (keep (no_project false) (all_records (repo ∷ []))))
    × (sessions_of (codes "/repo") (grouped (repo ∷ []) false).buckets
        ≡ length (keep (is_of false (codes "/repo")) (all_records (repo ∷ []))))
    × ((source : Bytes)
        → sources_of (codes "/repo") source (grouped (repo ∷ []) false).buckets
          ≡ length (keep (is_from false (codes "/repo") source) (all_records (repo ∷ []))))
    × All
        (λ r. not_newer (latest_of (codes "/repo") (grouped (repo ∷ []) false).buckets) r ≡ true)
        (keep (is_of false (codes "/repo")) (all_records (repo ∷ [])))
unfolding is_empty bytes_eq
list_projects_lem_example = list_projects_lem (repo ∷ []) false (codes "/repo") refl
