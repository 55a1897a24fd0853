-- ===== src/Api/Projects.antt =====
-- internal/app/api.go: listProjects, the sessions counted by project.
pub mod Counts
use agent_session_query.Prelude.{
  ℕ, zero, suc, ◌+◌, Bool, true, false, not, ◌&&◌, ◌||◌, List, [], ◌∷◌, ◌++◌, map, Option, none,
  some, Bytes, if◌then◌else◌, bytes_eq, bytes_eq_iff, bytes_eq_refl, keep, length, ◌≡◌, refl, ap,
  sym, ◌∙◌, arith, Bool-cases, Option-cases, inl, inr, ◌⊎◌, Time, All,
}
use agent_session_query.Prelude.Assoc.{Assoc, lookup, insert, lookup-insert}
use agent_session_query.Record.{
  Record, is_empty, is_subagent, project_name, newer_than, is_active, bytes_lt,
}
use agent_session_query.Sorting.{sort_stable}
use agent_session_query.Record.Newer.{IsStrictWeakOrder, newer_than-IsStrictWeakOrder}
use agent_session_query.Api.{SessionSource, all_records, listed}

pub record Bucket : Type 0 where
  pub sessions : ℕ
  pub sources : Assoc ℕ
  pub latest : Option Record

abbrev pub or_zero : Option ℕ → ℕ
or_zero none = 0
or_zero (some n) = n

-- The later of the latest and a record.
abbrev pub later : Option Record → Record → Record
later none rec = rec
later (some held) rec = if newer_than rec held then rec else held

unfoldable pub count_in : Bucket → Record → Bucket
count_in b rec = record {
  sessions = b.sessions + 1;
  sources = insert rec.source (or_zero (lookup rec.source b.sources) + 1) b.sources;
  latest = some (later b.latest rec);
}

abbrev pub new_bucket : Bucket
new_bucket = record { sessions = 0; sources = []; latest = none }

abbrev pub or_new : Option Bucket → Bucket
or_new none = new_bucket
or_new (some b) = b

-- The buckets in the order in which their names first came, and how many records have no project.
pub record Grouped : Type 0 where
  pub buckets : Assoc Bucket
  pub ungrouped : ℕ

unfoldable pub group_record : Bool → Grouped → Record → Grouped
group_record archived g rec =
    let name = project_name rec in
    if not (listed false archived rec)
    then g
    else if is_empty name
    then record g { ungrouped = g.ungrouped + 1 }
    else record g {
      buckets = insert name (count_in (or_new (lookup name g.buckets)) rec) g.buckets;
    }

unfoldable pub group_records : Bool → Grouped → List Record → Grouped
group_records archived g [] = g
group_records archived g (rec ∷ recs) = group_records archived (group_record archived g rec) recs

pub record Project : Type 0 where
  pub name : Bytes
  pub bucket : Bucket

-- "updatedAt" of a row
abbrev pub updated_of : Option Record → Bytes
updated_of none = []
updated_of (some rec) = rec.updated_at

abbrev pub updated_at_of : Project → Bytes
updated_at_of p = updated_of p.bucket.latest

abbrev pub rows : Assoc Bucket → List Project
rows [] = []
rows ((name, b) ∷ bs) = record { name = name; bucket = b } ∷ rows bs

-- The rows, most recently touched first, without the keys that are derived from them.
abbrev pub grouped : List SessionSource → Bool → Grouped
grouped sources archived =
    group_records archived (record { buckets = []; ungrouped = 0 }) (all_records sources)

abbrev pub touched_after : Project → Project → Bool
touched_after a b = bytes_lt (updated_at_of b) (updated_at_of a)

unfoldable pub list_projects : List SessionSource → Bool → List Project × ℕ
list_projects sources archived = (
  sort_stable touched_after (rows (grouped sources archived).buckets),
  (grouped sources archived).ungrouped,
)
