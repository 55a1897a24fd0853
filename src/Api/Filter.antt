-- ===== src/Api/Filter.antt =====
-- One filter selects one set of sessions, in the order of the whole list.
use mathlib.Core.List.{map-append}
use agent_session_query.Prelude.{
  Bool, false, List, [], ◌∷◌, ◌++◌, map, ◌≡◌, refl, sym, ap, ◌∙◌, arith, Bytes, Bool-cases, inl,
  inr, keep, All,
}
use agent_session_query.Record.{Record, newer_than}
use agent_session_query.Record.Newer.{newer_than-IsStrictWeakOrder}
use agent_session_query.Sorting.{sort_stable, keep-sort_stable, IsSorted, sort_stable-IsSorted}
use agent_session_query.Api.{
  SessionSource, SessionFilter, record_of, paired, admits, source_matches_wanted, each_session,
  records_where, all_records,
}

-- Every record of a source is marked with the source's own mode, a labeled instance's included.
abbrev pub IsMarked : SessionSource → Type 0
IsMarked src = All (λ (r : Record). r.source ≡ src.mode) src.records

keep-append :
    {A : Type 0} (p : A → Bool) (xs ys : List A) → keep p (xs ++ ys) ≡ keep p xs ++ keep p ys
keep-append p [] ys = refl
keep-append p (x ∷ xs) ys = ground (arith, keep-append p xs ys)

map-paired : (src : SessionSource) (rs : List Record) → map record_of (paired src rs) ≡ rs
map-paired src [] = refl
map-paired src (r ∷ rs) = ap (λ t. r ∷ t) (map-paired src rs)

-- A record of a source that the filter names out is not admitted.
admits_wanted :
    (f : SessionFilter) (r : Record)
    → source_matches_wanted r.source f.source ≡ false
    → admits f r ≡ false
unfolding admits
admits_wanted f r h = rw h

keep_none :
    (f : SessionFilter) (mode : Bytes) (rs : List Record)
    → source_matches_wanted mode f.source ≡ false
    → All (λ (r : Record). r.source ≡ mode) rs
    → keep (admits f) rs ≡ []
keep_none f mode [] h a = refl
keep_none f mode (r ∷ rs) h (e, a) =
    rw (admits_wanted f r (ap (λ m. source_matches_wanted m f.source) e ∙ h))
      (keep_none f mode rs h a)

each_session-keep :
    (f : SessionFilter) (sources : List SessionSource)
    → All IsMarked sources
    → map record_of (each_session f sources) ≡ keep (admits f) (all_records sources)
unfolding each_session
each_session-keep f [] a = refl
each_session-keep f (src ∷ srcs) (m, a) =
    elim (Bool-cases (source_matches_wanted src.mode f.source)) [
      | inl wanted ↦
          rw (wanted, map-append, map-paired, each_session-keep f srcs a)
            (sym (keep-append (admits f) src.records (all_records srcs)))
      | inr other ↦
          rw (other, keep-append, keep_none f src.mode src.records other m)
            (each_session-keep f srcs a)
    ]

-- When every record is marked with its source's mode, the selection has the rows, in the order,
-- that the whole list newest first has once the filter is applied to it.
pub records_where-keep :
    (f : SessionFilter) (sources : List SessionSource)
    → All IsMarked sources
    → records_where f sources ≡ keep (admits f) (sort_stable newer_than (all_records sources))
unfolding records_where
records_where-keep f sources a =
    ap (sort_stable newer_than) (each_session-keep f sources a)
    ∙ sym
        (keep-sort_stable newer_than newer_than-IsStrictWeakOrder (admits f) (all_records sources))

-- The selection stands newest first: no record comes before one that stands ahead of it.
pub records_where-IsSorted :
    (f : SessionFilter) (sources : List SessionSource)
    → IsSorted newer_than (records_where f sources)
unfolding records_where
records_where-IsSorted f sources =
    sort_stable-IsSorted newer_than newer_than-IsStrictWeakOrder
      (map record_of (each_session f sources))
