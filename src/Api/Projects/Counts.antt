-- ===== src/Api/Projects/Counts.antt =====
-- What the rows of listProjects count.
use mathlib.Core.List.{Perm}
use agent_session_query.Prelude.{
  ℕ, ◌+◌, Bool, true, false, not, ◌&&◌, List, [], ◌∷◌, Option, none, some, Bytes, if◌then◌else◌,
  bytes_eq, bytes_eq_iff, keep, length, ◌≡◌, ◌∙◌, arith, All, All-keep,
}
use agent_session_query.Prelude.Assoc.{Assoc, lookup, lookup-insert}
use agent_session_query.Record.{Record, is_empty, project_name, newer_than}
use agent_session_query.Sorting.{IsSorted, sort_stable-IsSorted, sort_stable-perm}
use agent_session_query.Record.Newer.{
  IsStrictWeakOrder, bytes_lt_irrefl, bytes_lt_trans, bytes_lt_split, newer_than-IsStrictWeakOrder,
}
use agent_session_query.Api.{SessionSource, all_records, listed}
use agent_session_query.Api.Projects.{
  Bucket, or_zero, later, count_in, or_new, Grouped, group_record, group_records, rows, grouped,
  touched_after, updated_at_of, list_projects,
}

-- What a project's sessions are: the listed records with its name.
abbrev pub is_of : Bool → Bytes → Record → Bool
is_of archived name rec = listed false archived rec && bytes_eq (project_name rec) name

abbrev pub sessions_of : Bytes → Assoc Bucket → ℕ
sessions_of name bs = (or_new (lookup name bs)).sessions

group_record_lem :
    (archived : Bool) (g : Grouped) (rec : Record) (name : Bytes)
    → is_empty name ≡ false
    → sessions_of name (group_record archived g rec).buckets
      ≡ sessions_of name g.buckets + (if is_of archived name rec then 1 else 0)
unfolding group_record count_in
group_record_lem archived g rec name full = ground (
  arith,
  full,
  lookup-insert (project_name rec) name
      (count_in (or_new (lookup (project_name rec) g.buckets)) rec) g.buckets,
  bytes_eq_iff (project_name rec) name,
)

abbrev pub sources_of : Bytes → Bytes → Assoc Bucket → ℕ
sources_of name source bs = or_zero (lookup source (or_new (lookup name bs)).sources)

abbrev pub is_from : Bool → Bytes → Bytes → Record → Bool
is_from archived name source rec = is_of archived name rec && bytes_eq rec.source source

sources_lem :
    (archived : Bool) (g : Grouped) (rec : Record) (name source : Bytes)
    → is_empty name ≡ false
    → sources_of name source (group_record archived g rec).buckets
      ≡ sources_of name source g.buckets + (if is_from archived name source rec then 1 else 0)
unfolding group_record count_in
sources_lem archived g rec name source full =
    let b = or_new (lookup (project_name rec) g.buckets) in
    ground (
      arith,
      full,
      lookup-insert (project_name rec) name (count_in b rec) g.buckets,
      lookup-insert rec.source source (or_zero (lookup rec.source b.sources) + 1) b.sources,
      bytes_eq_iff (project_name rec) name,
      bytes_eq_iff rec.source source,
    )

abbrev pub latest_of : Bytes → Assoc Bucket → Option Record
latest_of name bs = (or_new (lookup name bs)).latest

latest_lem :
    (archived : Bool) (g : Grouped) (rec : Record) (name : Bytes)
    → is_empty name ≡ false
    → latest_of name (group_record archived g rec).buckets ≡ (
        if is_of archived name rec
        then some (later (latest_of name g.buckets) rec)
        else latest_of name g.buckets)
unfolding group_record count_in
latest_lem archived g rec name full = ground (
  arith,
  full,
  lookup-insert (project_name rec) name
      (count_in (or_new (lookup (project_name rec) g.buckets)) rec) g.buckets,
  bytes_eq_iff (project_name rec) name,
)

abbrev pub no_project : Bool → Record → Bool
no_project archived rec = listed false archived rec && is_empty (project_name rec)

ungrouped_lem :
    (archived : Bool) (g : Grouped) (rec : Record)
    → (group_record archived g rec).ungrouped
      ≡ g.ungrouped + (if no_project archived rec then 1 else 0)
unfolding group_record
ungrouped_lem archived g rec = ground arith

-- A record that is not newer than the latest.
abbrev pub not_newer : Option Record → Record → Bool
not_newer none r = false
not_newer (some l) r = not (newer_than r l)

not_newer-later :
    (o : Option Record) (rec r : Record)
    → not_newer o r ≡ true
    → not_newer (some (later o rec)) r ≡ true
not_newer-later none rec r h = absurd (ground (arith, h))
not_newer-later (some held) rec r h =
    ground (arith, h, newer_than-IsStrictWeakOrder.transitive r rec held)

later_covers : (o : Option Record) (rec : Record) → not_newer (some (later o rec)) rec ≡ true
later_covers none rec = ground (arith, newer_than-IsStrictWeakOrder.irreflexive rec)
later_covers (some held) rec = ground (arith, newer_than-IsStrictWeakOrder.irreflexive rec)

module _ (archived : Bool) (name : Bytes) (full : is_empty name ≡ false) where
  latest_kept :
      (recs : List Record) (g : Grouped) (r : Record)
      → not_newer (latest_of name g.buckets) r ≡ true
      → not_newer (latest_of name (group_records archived g recs).buckets) r ≡ true
  unfolding group_records
  latest_kept [] g r h = h
  latest_kept (rec ∷ recs) g r h = latest_kept recs (group_record archived g rec) r (
      rw (latest_lem archived g rec name full)
        (ground (arith, h, not_newer-later (latest_of name g.buckets) rec r)))

  covered :
      (recs : List Record) (g : Grouped)
      → All
          (λ r.
            is_of archived name r ≡ true
            → not_newer (latest_of name (group_records archived g recs).buckets) r ≡ true)
          recs
  unfolding group_records
  covered [] g = tt
  covered (rec ∷ recs) g = (
    λ of_it. latest_kept recs (group_record archived g rec) rec (
        rw (latest_lem archived g rec name full, of_it)
          (later_covers (latest_of name g.buckets) rec)),
    covered recs (group_record archived g rec),
  )

  sessions_counted :
      (recs : List Record) (g : Grouped)
      → sessions_of name (group_records archived g recs).buckets
        ≡ sessions_of name g.buckets + length (keep (is_of archived name) recs)
  unfolding group_records
  sessions_counted [] g = omega arith
  sessions_counted (rec ∷ recs) g = ground (
    arith,
    sessions_counted recs (group_record archived g rec),
    group_record_lem archived g rec name full,
  )

  sources_counted :
      (source : Bytes) (recs : List Record) (g : Grouped)
      → sources_of name source (group_records archived g recs).buckets
        ≡ sources_of name source g.buckets + length (keep (is_from archived name source) recs)
  unfolding group_records
  sources_counted source [] g = omega arith
  sources_counted source (rec ∷ recs) g = ground (
    arith,
    sources_counted source recs (group_record archived g rec),
    sources_lem archived g rec name source full,
  )

ungrouped_counted :
    (archived : Bool) (recs : List Record) (g : Grouped)
    → (group_records archived g recs).ungrouped
      ≡ g.ungrouped + length (keep (no_project archived) recs)
unfolding group_records
ungrouped_counted archived [] g = omega arith
ungrouped_counted archived (rec ∷ recs) g = ground (
  arith,
  ungrouped_counted archived recs (group_record archived g rec),
  ungrouped_lem archived g rec,
)

touched_after-IsStrictWeakOrder : IsStrictWeakOrder touched_after
touched_after-IsStrictWeakOrder = record {
  irreflexive = λ a. bytes_lt_irrefl (updated_at_of a);
  transitive =
      λ a b c h k. bytes_lt_trans (updated_at_of c) (updated_at_of b) (updated_at_of a) k h;
  splits = λ a b c h.
      ground (arith, h, bytes_lt_split (updated_at_of c) (updated_at_of b) (updated_at_of a));
}

-- The rows of the projects are the groups, rearranged with the latest update first, and the
-- sessions without a project are counted beside them. The group of a name that is not empty counts
-- the listed sessions of that name, in all and for each source, and none of them is newer than its
-- latest session. A session is listed when it is no subagent's and, unless asked, not archived.
pub list_projects_lem :
    (sources : List SessionSource) (archived : Bool) (name : Bytes)
    → is_empty name ≡ false
    → Perm (list_projects sources archived).0 (rows (grouped sources archived).buckets)
      × IsSorted touched_after (list_projects sources archived).0
      × ((list_projects sources archived).1
          ≡ length (keep (no_project archived) (all_records sources)))
      × (sessions_of name (grouped sources archived).buckets
          ≡ length (keep (is_of archived name) (all_records sources)))
      × ((source : Bytes)
          → sources_of name source (grouped sources archived).buckets
            ≡ length (keep (is_from archived name source) (all_records sources)))
      × All
          (λ r. not_newer (latest_of name (grouped sources archived).buckets) r ≡ true)
          (keep (is_of archived name) (all_records sources))
unfolding list_projects lookup
list_projects_lem sources archived name full =
    let none_yet : Grouped = record { buckets = []; ungrouped = 0 } in
    let recs = all_records sources in
    (
      sort_stable-perm touched_after (rows (grouped sources archived).buckets),
      sort_stable-IsSorted touched_after touched_after-IsStrictWeakOrder
          (rows (grouped sources archived).buckets),
      ungrouped_counted archived recs none_yet ∙ omega arith,
      sessions_counted archived name full recs none_yet ∙ omega arith,
      λ source. sources_counted archived name full source recs none_yet ∙ omega arith,
      All-keep (λ r. not_newer (latest_of name (grouped sources archived).buckets) r ≡ true)
          (is_of archived name) recs (covered archived name full recs none_yet),
    )
