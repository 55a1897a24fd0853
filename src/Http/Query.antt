-- ===== src/Http/Query.antt =====
-- internal/app/http.go: the parameters of a request, and internal/app/api.go: sourceName.
pub mod Limits
pub mod Since
pub mod Searching
use agent_session_query.Prelude.{
  ℕ, zero, suc, ◌+◌, ◌-◌, ◌*◌, ◌%◌, ◌^◌, Bool, true, false, not, ◌&&◌, ◌||◌, List, [], ◌∷◌, ◌++◌,
  Option, none, some, Bytes, codes, Time, zero_time, ltb, leb, ◌==◌, if◌then◌else◌, bytes_eq, any,
  contains, take, drop, length, ◌>>=◌,
}
use agent_session_query.Prelude.Int.{ℤ, pos, negsuc}
use agent_session_query.Prelude.Assoc.{Assoc, lookup}
use agent_session_query.Record.{is_empty}
use agent_session_query.Sources.{listed_in, known_modes}
use agent_session_query.Sink.{MessageQuery}
use agent_session_query.Paging.{max_message_offset}

-- What the parsers use of Go's standard library. Times are instants, durations nanoseconds.
pub record Lib : Type 0 where
  pub trim_space : Bytes → Bytes
  pub to_lower : Bytes → Bytes
  pub equal_fold : Bytes → Bytes → Bool
  -- strconv.Atoi
  pub atoi : Bytes → Option ℤ
  -- time.ParseDuration
  pub parse_duration : Bytes → Option ℤ
  -- time.Parse
  pub parse_layout : Bytes → Bytes → Option Time
  -- strconv.ParseFloat, and the instant of such an epoch: in milliseconds above 1e11, else in seconds
  pub parse_epoch : Bytes → Option Time

-- url.Values
abbrev pub Values : Type 0
Values = Assoc (List Bytes)

abbrev first_value : Option (List Bytes) → Bytes
first_value none = []
first_value (some []) = []
first_value (some (v ∷ vs)) = v

-- values.Get
unfoldable pub value : Values → Bytes → Bytes
value values key = first_value (lookup key values)

pub data Fault : Type 0 where
  missing_query : Fault
  bad_since : Bytes → Fault
  bad_role : Bytes → Fault
  bad_source : Bytes → Fault
  bad_offset : Bytes → Fault
  bad_at : Bytes → Fault

pub data Read (A : Type 0) : Type 0 where
  ok : A → Read A
  fault : Fault → Read A

-- The next step of a parser, or its error.
abbrev pub and_then : {A B : Type 0} → Read A → (A → Read B) → Read B
and_then (ok a) f = f a
and_then (fault e) f = fault e

abbrev pub default_max_limit : ℕ
default_max_limit = 1000

-- effectiveMaxLimit
unfoldable pub effective_max_limit : ℤ → ℕ
effective_max_limit (pos n) = if ltb n 1 then default_max_limit else n
effective_max_limit (negsuc n) = default_max_limit

abbrev pub day : ℕ
day = 24 * 3600 * 10 ^ 9

-- time.Now().Add(-time.Duration(days) * 24 * time.Hour): the product is an int64, and wraps.
unfoldable pub days_before : Time → ℕ → Time
days_before now days =
    let span = (days * day) % 2 ^ 64 in
    if leb span (2 ^ 63) then now - span else now + (2 ^ 64 - span)

abbrev pub min_int : ℤ → ℕ → ℕ
min_int (pos n) ceiling = if ltb ceiling n then ceiling else n
min_int (negsuc n) ceiling = 0

abbrev pub valid_role : Bytes → Bool
valid_role role =
    is_empty role || (bytes_eq role (codes "user") || bytes_eq role (codes "assistant"))

-- The value where a limit is given, and what stands for one that is not or is refused.
abbrev pub given_limit : ℕ → Option ℤ → ℕ
given_limit def none = def
given_limit def (some (pos n)) = n
given_limit def (some (negsuc n)) = def

abbrev pub given_positive : ℕ → Option ℤ → ℕ
given_positive def none = def
given_positive def (some (pos n)) = if ltb 0 n then n else def
given_positive def (some (negsuc n)) = def

-- The form "30d".
abbrev pub as_days : Time → Option ℤ → Option Time
as_days now none = none
as_days now (some (negsuc n)) = none
as_days now (some (pos n)) = some (days_before now n)

abbrev pub as_duration : Time → Option ℤ → Option Time
as_duration now none = none
as_duration now (some (negsuc n)) = none
as_duration now (some (pos n)) = some (now - n)

abbrev pub ends_in_day : Bytes → Bool
ends_in_day raw =
    ltb 1 (length raw)
    && (bytes_eq (drop (length raw - 1) raw) (codes "d")
        || bytes_eq (drop (length raw - 1) raw) (codes "D"))

abbrev pub since_layouts : List Bytes
since_layouts =
    codes "2006-01-02T15:04:05Z07:00" ∷ codes "2006-01-02T15:04:05" ∷ codes "2006-01-02" ∷ []

abbrev pub or_else : {A : Type 0} → Option A → Option A → Option A
or_else none b = b
or_else (some a) b = some a

abbrev pub or_fault : {A : Type 0} → Fault → Option A → Read A
or_fault e none = fault e
or_fault e (some a) = ok a

abbrev pub at_layouts : List Bytes
at_layouts =
    codes "2006-01-02T15:04:05.999999999Z07:00"
    ∷ codes "2006-01-02T15:04:05Z07:00"
    ∷ codes "2006-01-02T15:04:05"
    ∷ codes "2006-01-02"
    ∷ []

abbrev pub only_value : Option (List Bytes) → Option Bytes
only_value none = none
only_value (some []) = none
only_value (some (v ∷ [])) = some v
only_value (some (v ∷ w ∷ vs)) = none

abbrev pub default_limit : ℕ
default_limit = 50

abbrev pub or_default : Option ℤ → ℤ
or_default none = pos default_limit
or_default (some n) = n

-- The offset, where one is given.
abbrev pub in_reach : Bytes → Option ℤ → Read ℕ
in_reach raw none = fault (bad_offset raw)
in_reach raw (some (negsuc n)) = fault (bad_offset raw)
in_reach raw (some (pos n)) = if ltb max_message_offset n then fault (bad_offset raw) else ok n

module _ (lib : Lib) where
  unfoldable pub query_flag : Bytes → Bool
  query_flag raw =
      let v = lib.to_lower (lib.trim_space raw) in
      bytes_eq v (codes "1") || (bytes_eq v (codes "true") || bytes_eq v (codes "yes"))

  abbrev pub first_layout : List Bytes → Bytes → Option Time
  first_layout [] raw = none
  first_layout (l ∷ ls) raw = elim (lib.parse_layout l raw) [
    | some t ↦ some t
    | none ↦ first_layout ls raw
  ]

  unfoldable pub parse_since : Time → Bytes → Read Time
  parse_since now raw = or_fault (bad_since raw) (
      or_else (if ends_in_day raw then as_days now (lib.atoi (take (length raw - 1) raw)) else none)
        (or_else (as_duration now (lib.parse_duration raw)) (first_layout since_layouts raw)))

  unfoldable pub parse_at : Bytes → Read Time
  parse_at raw = or_fault (bad_at raw) (or_else (first_layout at_layouts raw) (lib.parse_epoch raw))

  unfoldable pub parse_search_role : Bytes → Read Bytes
  parse_search_role raw =
      let role = lib.trim_space raw in if valid_role role then ok role else fault (bad_role role)

  -- The modes of the active sources are `active`.
  unfoldable pub source_name : List Bytes → Bytes → Read Bytes
  source_name active raw =
      let want = lib.trim_space raw in
      if is_empty want || listed_in known_modes want
      then ok want
      else if listed_in active want
      then ok want
      else fault (bad_source want)

  -- One end of a window: the value where the parameter is empty, or the instant.
  unfoldable pub window_end : Time → Time → Bytes → Read Time
  window_end now def raw =
      let s = lib.trim_space raw in if is_empty s then ok def else parse_since now s

  unfoldable pub parse_activity_window : Time → Values → Read (Time × Time)
  parse_activity_window now values =
      and_then (window_end now (now - 7 * day) (value values (codes "since"))) (λ since.
        and_then (window_end now zero_time (value values (codes "until")))
          (λ until. ok (since, until)))

  unfoldable pub parse_limit : Values → ℕ → ℕ
  parse_limit values ceiling =
      min_int
        (or_default
          (only_value (lookup (codes "limit") values) >>= (λ v. lib.atoi (lib.trim_space v))))
        ceiling

  unfoldable pub read_offset : Bytes → Read ℕ
  read_offset raw = if is_empty raw then ok 0 else in_reach raw (lib.atoi raw)

  -- The anchor, where one is given; it resets the offset.
  unfoldable pub anchored : Bytes → MessageQuery → Read MessageQuery
  anchored raw q =
      if is_empty raw
      then ok q
      else and_then (parse_at raw) (λ at. ok (record q { at = at; offset = 0 }))

  unfoldable pub parse_message_query : Values → ℕ → Read MessageQuery
  parse_message_query values ceiling =
      let order = lib.trim_space (value values (codes "order")) in
      and_then (read_offset (lib.trim_space (value values (codes "offset")))) (λ offset.
        anchored (lib.trim_space (value values (codes "at"))) (record {
          limit = pos (parse_limit values ceiling);
          from_end = lib.equal_fold order (codes "desc");
          at = zero_time;
          offset = offset;
          full = query_flag (value values (codes "full"));
          role = [];
        }))
