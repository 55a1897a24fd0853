-- ===== src/Http/Query/Limits.antt =====
-- What the parameters of a request come to, and which errors they give.
use agent_session_query.Prelude.{
  ℕ, ◌≤◌, ◌<◌, false, [], Option, none, some, Bytes, codes, Time, zero_time, ltb, ◌>>=◌, ◌≡◌, ◌⊎◌,
  inl, inr, refl, arith, Bool-cases, Option-cases,
}
use agent_session_query.Prelude.Int.{ℤ, pos, negsuc}
use agent_session_query.Prelude.Assoc.{lookup}
use agent_session_query.Record.{is_empty}
use agent_session_query.Sink.{MessageQuery}
use agent_session_query.Paging.{max_message_offset}
use agent_session_query.Http.Query.{
  Lib, Values, value, bad_offset, bad_at, Read, ok, fault, and_then, min_int, or_default,
  only_value, parse_limit, read_offset, in_reach, parse_at, anchored, parse_message_query,
  query_flag, or_else, first_layout, at_layouts,
}

min_int-le : (n : ℤ) (ceiling : ℕ) → min_int n ceiling ≤ ceiling
min_int-le (pos n) ceiling = ground arith
min_int-le (negsuc n) ceiling = omega arith

parse_limit-le :
    (lib : Lib) (values : Values) (ceiling : ℕ) → parse_limit lib values ceiling ≤ ceiling
unfolding parse_limit
parse_limit-le lib values ceiling =
    min_int-le
      (or_default
        (only_value (lookup (codes "limit") values) >>= (λ v. lib.atoi (lib.trim_space v))))
      ceiling

-- An integer that the offset may not be.
abbrev pub IsOutOfReach : Option ℤ → Type 0
IsOutOfReach none = Unit
IsOutOfReach (some (negsuc n)) = Unit
IsOutOfReach (some (pos n)) = max_message_offset < n

-- What a read of the message parameters gives.
abbrev pub Asks : Lib → Values → ℕ → Read MessageQuery → Type 0
Asks lib values ceiling (ok q) =
    ((n : ℕ) × (q.limit ≡ pos n) × (n ≤ ceiling))
    × (q.offset ≤ max_message_offset)
    × ((q.offset ≡ 0) ⊎ (q.at ≡ zero_time))
Asks lib values ceiling (fault (bad_offset raw)) =
    (raw ≡ lib.trim_space (value values (codes "offset")))
    × (is_empty raw ≡ false)
    × IsOutOfReach (lib.atoi raw)
Asks lib values ceiling (fault (bad_at raw)) =
    (raw ≡ lib.trim_space (value values (codes "at")))
    × (is_empty raw ≡ false)
    × (parse_at lib raw ≡ fault (bad_at raw))
Asks lib values ceiling (fault e) = ⊥

module _ (lib : Lib) where
  abbrev Reaches : Bytes → Read ℕ → Type 0
  Reaches raw (ok n) = n ≤ max_message_offset
  Reaches raw (fault e) =
      (e ≡ bad_offset raw) × (is_empty raw ≡ false) × IsOutOfReach (lib.atoi raw)

  in_reach_lem :
      (raw : Bytes) (o : Option ℤ)
      → is_empty raw ≡ false
      → lib.atoi raw ≡ o
      → Reaches raw (in_reach raw o)
  in_reach_lem raw none full e = (refl, full, rw e tt)
  in_reach_lem raw (some (negsuc n)) full e = (refl, full, rw e tt)
  in_reach_lem raw (some (pos n)) full e = elim (Bool-cases (ltb max_message_offset n)) [
    | inl far ↦ rw far (refl, full, rw e (ground (arith, far)))
    | inr near ↦ rw near (ground (arith, near))
  ]

  read_offset_lem : (raw : Bytes) → Reaches raw (read_offset lib raw)
  unfolding read_offset
  read_offset_lem raw = elim (Bool-cases (is_empty raw)) [
    | inl empty ↦ rw empty (omega arith)
    | inr full ↦ rw full (in_reach_lem raw (lib.atoi raw) full refl)
  ]

  parse_at_cases :
      (raw : Bytes)
      → ((t : Time) × (parse_at lib raw ≡ ok t)) ⊎ (parse_at lib raw ≡ fault (bad_at raw))
  unfolding parse_at
  parse_at_cases raw =
      elim (Option-cases (or_else (first_layout lib at_layouts raw) (lib.parse_epoch raw))) [
        | inl gone ↦ rw gone (inr refl)
        | inr (t, at) ↦ rw at (inl (t, refl))
      ]

  module _ (values : Values) (ceiling : ℕ) where
    abbrev raw_at : Bytes
    raw_at = lib.trim_space (value values (codes "at"))

    anchored_lem :
        (q : MessageQuery)
        → Asks lib values ceiling (ok q)
        → Asks lib values ceiling (anchored lib raw_at q)
    unfolding anchored
    anchored_lem q a = elim (Bool-cases (is_empty raw_at)) [
      | inl empty ↦ rw empty a
      | inr full ↦ elim (parse_at_cases raw_at) [
        | inl (t, at) ↦ rw (full, at) (a.0, omega arith, inl refl)
        | inr bad ↦ rw (full, bad) (refl, full, bad)
      ]
    ]

    unfoldable raw_offset : Bytes
    raw_offset = lib.trim_space (value values (codes "offset"))

    unfoldable query_of : ℕ → MessageQuery
    query_of offset = record {
      limit = pos (parse_limit lib values ceiling);
      from_end = lib.equal_fold (lib.trim_space (value values (codes "order"))) (codes "desc");
      at = zero_time;
      offset = offset;
      full = query_flag lib (value values (codes "full"));
      role = [];
    }

    from_offset :
        (o : Read ℕ)
        → Reaches raw_offset o
        → Asks lib values ceiling (and_then o (λ n. anchored lib raw_at (query_of n)))
    unfolding query_of raw_offset
    from_offset (ok n) le =
        anchored_lem (query_of n)
          ((parse_limit lib values ceiling, refl, parse_limit-le lib values ceiling), le, inr refl)
    from_offset (fault e) (same, full, far) = rw same (refl, full, far)

-- The message parameters are read or refused for one of two reasons. What is read has a limit
-- within the ceiling, an offset within the deepest one served, and no offset beside an anchor. An
-- offset that is no number or out of reach and an anchor that does not parse are the errors, and
-- each names the text of its parameter.
pub parse_message_query_lem :
    (lib : Lib) (values : Values) (ceiling : ℕ)
    → Asks lib values ceiling (parse_message_query lib values ceiling)
unfolding parse_message_query query_of raw_offset
parse_message_query_lem lib values ceiling =
    from_offset lib values ceiling (read_offset lib (raw_offset lib values ceiling))
      (read_offset_lem lib (raw_offset lib values ceiling))
