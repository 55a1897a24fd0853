-- ===== src/Brief.antt =====
-- internal/app/brief.go: which rounds of a session a brief is about, and what it counts of them.
pub mod Selected
pub mod Outcome
use agent_session_query.Prelude.{
  ℕ, suc, zero, ◌+◌, ◌-◌, Bool, true, false, not, ◌&&◌, ◌||◌, List, [], ◌∷◌, ◌++◌, Option, none,
  some, Bytes, codes, Time, before, after, ◌==◌, ltb, leb, if◌then◌else◌, bytes_eq, has_prefix,
  drop, take, drop_last, take_last, length, get_elem?,
}
use agent_session_query.Prelude.Int.{ℤ, pos, negsuc}
use agent_session_query.Prelude.Assoc.{Assoc}
use agent_session_query.Json.{
  Runtime, Value, null, bool, str, float, int, arr, obj, Fields, end, get, parse_timestamp,
}
use agent_session_query.Record.{Record, is_empty, in_range}
use agent_session_query.Tools.{append_all_unique, contains_string}
use agent_session_query.Usage.{Floats}
use agent_session_query.Rounds.{Round, split_rounds}
use agent_session_query.Questions.{Libraries}
use agent_session_query.Http.Query.{Lib, Read, ok, fault, Fault, parse_since}

-- round.spanEnd
unfoldable pub span_end : Round → Bytes
span_end r =
    if not (is_empty r.last_at)
    then r.last_at
    else if not (is_empty r.end_at)
    then r.end_at
    else r.start_at

-- round.workEnd
unfoldable pub work_end : Round → Bytes
work_end r = if not (is_empty r.end_at) then r.end_at else r.start_at

-- asCount
unfoldable pub as_count : Floats → Value → Option ℤ
as_count fl (int n) = some n
as_count fl (float bits) = some (fl.to_int bits)
as_count fl _ = none

abbrev total_of : ℕ → Option ℤ → ℕ
total_of scanned none = scanned
total_of scanned (some (negsuc n)) = scanned
total_of scanned (some (pos n)) = if ltb scanned n then n else scanned

-- sessionRoundsRead
pub record RoundsRead : Type 0 where
  pub item : Record
  pub rounds : List Round
  pub scanned : ℕ
  pub total : ℕ

-- roundsOf, of a session that was found with its tail of messages and its final result
unfoldable pub rounds_read : Libraries → Record → List Fields → Fields → RoundsRead
unfolding as_count
rounds_read w item messages final = record {
  item = item;
  rounds = split_rounds w messages;
  scanned = length messages;
  total = total_of (length messages) (as_count w.floats (get final (codes "messageCount")));
}

pub data Refusal : Type 0 where
  unreadable_at : Refusal
  in_no_round : Refusal
  no_such_round : Refusal
  since_fault : Fault → Refusal
  none_since : Refusal

-- The numbers of the rounds, and the moment since which they ran.
pub data Selection : Type 0 where
  chosen : List ℕ → Option Time → Selection
  refused : Refusal → Selection

abbrev pub is_within : Time → Option Time → Option Time → Bool
is_within at (some start) (some end') = not (before at start) && not (after at end')
is_within at _ _ = false

abbrev pub not_over : Time → Option Time → Bool
not_over cut none = true
not_over cut (some end') = not (before end' cut)

module _ (rt : Runtime) where
  -- The round covers the moment.
  unfoldable pub covers : Time → Round → Bool
  covers at r = is_within at (parse_timestamp rt r.start_at) (parse_timestamp rt (span_end r))

  unfoldable pub first_covering : Time → List Round → Option Round
  first_covering at [] = none
  first_covering at (r ∷ rs) =
      let rest = first_covering at rs in if covers at r then some r else rest

  -- The round was still running at the moment, or ran after it.
  unfoldable pub runs_since : Time → Round → Bool
  runs_since cut r = not_over cut (parse_timestamp rt (span_end r))

  unfoldable pub indices_since : Time → List Round → List ℕ
  indices_since cut [] = []
  indices_since cut (r ∷ rs) =
      let rest = indices_since cut rs in if runs_since cut r then r.index ∷ rest else rest

  abbrev pub of_covering : Option Round → Selection
  of_covering none = refused in_no_round
  of_covering (some r) = chosen (r.index ∷ []) none

  abbrev pub select_at : List Round → Option Time → Selection
  select_at rounds none = refused unreadable_at
  select_at rounds (some at) = of_covering (first_covering at rounds)

  abbrev pub some_since : Time → List ℕ → Selection
  some_since cut [] = refused none_since
  some_since cut (i ∷ is) = chosen (i ∷ is) (some cut)

  abbrev pub select_since : List Round → Read Time → Selection
  select_since rounds (fault e) = refused (since_fault e)
  select_since rounds (ok cut) = some_since cut (indices_since cut rounds)

abbrev pub select_number : List Round → ℤ → Selection
select_number rounds (negsuc n) = refused no_such_round
select_number rounds (pos n) =
    if ltb n 1 || ltb (length rounds) n then refused no_such_round else chosen (n ∷ []) none

abbrev pub is_zero_number : ℤ → Bool
is_zero_number (pos n) = n == 0
is_zero_number (negsuc n) = false

unfoldable pub latest_index : List Round → List ℕ
latest_index [] = []
latest_index (r ∷ []) = r.index ∷ []
latest_index (r ∷ s ∷ rs) = latest_index (s ∷ rs)

-- sessionBrief, up to its rendering
unfoldable pub select : Runtime → Lib → Time → List Round → Bytes → ℤ → Bytes → Selection
select rt lib now rounds at number since =
    if not (is_empty at)
    then select_at rt rounds (parse_timestamp rt at)
    else if not (is_zero_number number)
    then select_number rounds number
    else if not (is_empty since)
    then select_since rt rounds (parse_since lib now since)
    else chosen (latest_index rounds) none

abbrev most_rounds_listed : ℕ
most_rounds_listed = 20

-- The rounds of the list at the head of a brief, and how many it leaves out.
unfoldable pub shown_rounds : List Round → List Round × ℕ
shown_rounds rounds =
    let shown = take 5 rounds ++ take_last 15 rounds in
    if ltb most_rounds_listed (length rounds)
    then (shown, length rounds - length shown)
    else (rounds, 0)

abbrev pub brief_max_sections : ℕ
brief_max_sections = 12

-- The numbers of the rounds that are spelled out: the latest of those that are selected.
unfoldable pub detailed : List ℕ → List ℕ
detailed selected =
    if ltb brief_max_sections (length selected)
    then take_last brief_max_sections selected
    else selected

abbrev pub is_chosen : List ℕ → ℕ → Bool
is_chosen [] i = false
is_chosen (j ∷ js) i = j == i || is_chosen js i

unfoldable pub chosen_rounds : List ℕ → List Round → List Round
chosen_rounds selected [] = []
chosen_rounds selected (r ∷ rs) =
    let rest = chosen_rounds selected rs in if is_chosen selected r.index then r ∷ rest else rest

-- What the stretch of a delta adds up to.
pub record Delta : Type 0 where
  pub files : List Bytes
  pub changed : List Bytes
  pub calls : ℕ
  pub failures : ℕ

abbrev no_delta : Delta
no_delta = record { files = []; changed = []; calls = 0; failures = 0 }

unfoldable pub add_round : Delta → Round → Delta
add_round d r = record {
  files = append_all_unique d.files r.files;
  changed = append_all_unique d.changed r.changed;
  calls = d.calls + r.tool_calls;
  failures = d.failures + r.failures;
}

unfoldable pub add_rounds : Delta → List Round → Delta
add_rounds d [] = d
add_rounds d (r ∷ rs) = add_rounds (add_round d r) rs

unfoldable pub delta_of : List ℕ → List Round → Delta
delta_of selected rounds = add_rounds no_delta (chosen_rounds selected rounds)

-- The outcome at the end: that of the last round that has one.
unfoldable pub state_at_end : List Round → Bytes
state_at_end [] = []
state_at_end (r ∷ rs) = let later = state_at_end rs in if is_empty later then r.outcome else later

-- isAbsolutePath
unfoldable pub is_absolute_path : Bytes → Bool
is_absolute_path p = has_prefix p (codes "/") || drive p
  where
    drive : Bytes → Bool
    drive (letter ∷ colon ∷ slash ∷ rest) =
        (in_range b'A' b'Z' letter || in_range b'a' b'z' letter)
        && (colon == b':' && (slash == b'\\' || slash == b'/'))
    drive _ = false
