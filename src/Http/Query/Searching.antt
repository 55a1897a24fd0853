-- ===== src/Http/Query/Searching.antt =====
-- internal/app/http.go: parseSearchQuery.
use agent_session_query.Prelude.{
  ℕ, ◌-◌, take, length, bytes_eq, ◌≤◌, ◌<◌, true, false, ◌||◌, List, [], ◌∷◌, Option, none, some,
  Bytes, codes, Time, zero_time, ltb, if◌then◌else◌, ◌≡◌, ◌⊎◌, inl, inr, refl, arith, Bool-cases,
  Option-cases,
}
use agent_session_query.Prelude.Int.{ℤ, pos, negsuc}
use agent_session_query.Record.{is_empty}
use agent_session_query.Sources.{listed_in, known_modes}
use agent_session_query.Search.{SearchQuery}
use agent_session_query.Http.Query.{
  Lib, Values, value, missing_query, bad_since, bad_role, bad_source, Read, ok, fault, and_then,
  or_else, given_limit, given_positive, valid_role, query_flag, parse_since, parse_search_role,
  source_name, window_end, ends_in_day, as_days, as_duration, first_layout, since_layouts,
}

abbrev pub default_search_limit : ℕ
default_search_limit = 30

abbrev pub default_search_per_session : ℕ
default_search_per_session = 3

-- source.SearchQuery as the handler reads it.
pub record SearchRequest : Type 0 where
  pub needle : Bytes
  pub role : Bytes
  pub query : SearchQuery

abbrev pub at_most : ℕ → ℕ → ℕ
at_most ceiling n = if ltb ceiling n then ceiling else n

nil_of_empty : (s : Bytes) → is_empty s ≡ true → s ≡ []
unfolding is_empty bytes_eq
nil_of_empty [] h = refl
nil_of_empty (c ∷ s) h = absurd (ground (arith, h))

module _ (lib : Lib) (max_limit : ℕ) (now : Time) (active : List Bytes) (values : Values) where
  abbrev pub raw : Bytes → Bytes
  raw key = lib.trim_space (value values key)

  unfoldable pub with_source : Time → Time → Bytes → Bytes → SearchRequest
  with_source since until role source = record {
    needle = raw (codes "q");
    role = role;
    query = record {
      pattern = raw (codes "pattern");
      filter = record {
        source = source;
        project = raw (codes "project");
        branch = raw (codes "branch");
        since = since;
        until = until;
        subagents =
            is_empty (value values (codes "subagents"))
            || query_flag lib (value values (codes "subagents"));
        archived = query_flag lib (value values (codes "include_archived"));
      };
      limit = at_most max_limit (given_limit default_search_limit (lib.atoi (raw (codes "limit"))));
      per_session =
          at_most max_limit
            (given_positive default_search_per_session (lib.atoi (raw (codes "per_session"))));
    };
  }

  unfoldable pub parse_search_query : Read SearchRequest
  parse_search_query =
      if is_empty (raw (codes "q"))
      then fault missing_query
      else and_then (window_end lib now zero_time (value values (codes "since"))) (λ since.
        and_then (window_end lib now zero_time (value values (codes "until"))) (λ until.
          and_then (parse_search_role lib (value values (codes "role"))) (λ role.
            and_then (source_name lib active (value values (codes "source")))
              (λ source. ok (with_source since until role source)))))

  abbrev pub IsSourceName : Bytes → Type 0
  IsSourceName s = (s ≡ []) ⊎ ((listed_in known_modes s || listed_in active s) ≡ true)

  -- What a read of the search parameters gives, and why it fails.
  abbrev pub Searches : Read SearchRequest → Type 0
  Searches (ok req) =
      (is_empty req.needle ≡ false)
      × (req.query.limit ≤ max_limit)
      × (req.query.per_session ≤ max_limit)
      × ((0 < req.query.per_session) ⊎ (max_limit ≡ 0))
      × (valid_role req.role ≡ true)
      × IsSourceName req.query.filter.source
  Searches (fault missing_query) = is_empty (raw (codes "q")) ≡ true
  Searches (fault (bad_since s)) =
      ((s ≡ raw (codes "since")) ⊎ (s ≡ raw (codes "until")))
      × (is_empty s ≡ false)
      × (parse_since lib now s ≡ fault (bad_since s))
  Searches (fault (bad_role s)) = (s ≡ raw (codes "role")) × (valid_role s ≡ false)
  Searches (fault (bad_source s)) =
      (s ≡ raw (codes "source"))
      × (is_empty s ≡ false)
      × ((listed_in known_modes s || listed_in active s) ≡ false)
  Searches (fault e) = ⊥

  at_most-le : (n : ℕ) → at_most max_limit n ≤ max_limit
  at_most-le n = ground arith

  per_session_lem :
      (o : Option ℤ)
      → (0 < at_most max_limit (given_positive default_search_per_session o)) ⊎ (max_limit ≡ 0)
  per_session_lem none = ground arith
  per_session_lem (some (pos n)) = ground arith
  per_session_lem (some (negsuc n)) = ground arith

  since_cases :
      (s : Bytes)
      → ((t : Time) × (parse_since lib now s ≡ ok t))
        ⊎ (parse_since lib now s ≡ fault (bad_since s))
  unfolding parse_since
  since_cases s =
      elim (Option-cases (
        or_else (if ends_in_day s then as_days now (lib.atoi (take (length s - 1) s)) else none)
          (or_else (as_duration now (lib.parse_duration s)) (first_layout lib since_layouts s)))) [
            | inl gone ↦ rw gone (inr refl)
            | inr (t, at) ↦ rw at (inl (t, refl))
          ]

  window_cases :
      (def : Time) (v : Bytes)
      → ((t : Time) × (window_end lib now def v ≡ ok t))
        ⊎ ((is_empty (lib.trim_space v) ≡ false)
            × (parse_since lib now (lib.trim_space v) ≡ fault (bad_since (lib.trim_space v)))
            × (window_end lib now def v ≡ fault (bad_since (lib.trim_space v))))
  unfolding window_end
  window_cases def v = elim (Bool-cases (is_empty (lib.trim_space v))) [
    | inl empty ↦ rw empty (inl (def, refl))
    | inr full ↦ elim (since_cases (lib.trim_space v)) [
      | inl (t, at) ↦ rw (full, at) (inl (t, refl))
      | inr bad ↦ inr (full, bad, rw (full, bad) refl)
    ]
  ]

  role_cases :
      (v : Bytes)
      → ((valid_role (lib.trim_space v) ≡ true) × (parse_search_role lib v ≡ ok (lib.trim_space v)))
        ⊎ ((valid_role (lib.trim_space v) ≡ false)
            × (parse_search_role lib v ≡ fault (bad_role (lib.trim_space v))))
  unfolding parse_search_role
  role_cases v = elim (Bool-cases (valid_role (lib.trim_space v))) [
    | inl good ↦ inl (good, rw good refl)
    | inr bad ↦ inr (bad, rw bad refl)
  ]

  source_cases :
      (v : Bytes)
      → (IsSourceName (lib.trim_space v) × (source_name lib active v ≡ ok (lib.trim_space v)))
        ⊎ (((is_empty (lib.trim_space v) ≡ false)
              × ((listed_in known_modes (lib.trim_space v) || listed_in active (lib.trim_space v))
                  ≡ false))
            × (source_name lib active v ≡ fault (bad_source (lib.trim_space v))))
  unfolding source_name
  source_cases v =
      let s = lib.trim_space v in
      elim (Bool-cases (is_empty s)) [
        | inl empty ↦ inl (inl (nil_of_empty s empty), rw empty refl)
        | inr full ↦ elim (Bool-cases (listed_in known_modes s)) [
          | inl known ↦ inl (inr (rw known refl), rw (full, known) refl)
          | inr unknown ↦ elim (Bool-cases (listed_in active s)) [
            | inl here ↦ inl (inr (rw (unknown, here) refl), rw (full, unknown, here) refl)
            | inr gone ↦ inr ((full, rw (unknown, gone) refl), rw (full, unknown, gone) refl)
          ]
        ]
      ]

  -- The search parameters are read or refused for one of four reasons. What is read has a needle,
  -- limit and per_session within the server's limit, per_session positive unless that limit is 0, a
  -- role that is known or none, and a source that is known or active or none. A missing query, a
  -- since or until that does not parse, another role and another source are the errors, and each
  -- names the text of its parameter.
  pub parse_search_query_lem : Searches parse_search_query
  unfolding parse_search_query with_source
  parse_search_query_lem = elim (Bool-cases (is_empty (raw (codes "q")))) [
    | inl empty ↦ rw empty empty
    | inr full ↦ elim (window_cases zero_time (value values (codes "since"))) [
      | inr (given, bad, e) ↦ rw (full, e) (inl refl, given, bad)
      | inl (since, e) ↦ elim (window_cases zero_time (value values (codes "until"))) [
        | inr (given, bad, e₁) ↦ rw (full, e) (rw e₁ (inr refl, given, bad))
        | inl (until, e₁) ↦ elim (role_cases (value values (codes "role"))) [
          | inr (bad, e₂) ↦ rw (full, e) (rw e₁ (rw e₂ (refl, bad)))
          | inl (good, e₂) ↦ elim (source_cases (value values (codes "source"))) [
            | inr (bad, e₃) ↦ rw (full, e) (rw e₁ (rw e₂ (rw e₃ (refl, bad.0, bad.1))))
            | inl (named, e₃) ↦
                rw (full, e)
                  (rw e₁ (
                    rw e₂ (
                      rw e₃ (
                        full,
                        at_most-le
                            (given_limit default_search_limit (lib.atoi (raw (codes "limit")))),
                        at_most-le (
                            given_positive default_search_per_session
                              (lib.atoi (raw (codes "per_session")))),
                        per_session_lem (lib.atoi (raw (codes "per_session"))),
                        good,
                        named,
                      ))))
          ]
        ]
      ]
    ]
  ]
