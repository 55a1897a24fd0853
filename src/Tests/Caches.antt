-- ===== src/Tests/Caches.antt =====
-- The caches at concrete runs.
use mathlib.Core.Path.{subst}
use agent_session_query.Prelude.{
  All, contains, index, has_prefix, has_suffix, ap, ℕ, true, List, [], ◌∷◌, Option, none, some, ◌≡◌,
  refl, map, Bytes, bytes_eq, codes, length, arith,
}
use agent_session_query.Record.{Record}
use agent_session_query.Prelude.Assoc.{lookup}
use agent_session_query.Cache.Snapshot.{
  Stat, FileStamp, load, stamp_database, IsFaithful, load-IsFaithful,
}
use agent_session_query.Cache.Final.{
  content_at, final_stamp, load_final, IsSound, load_final-IsSound,
}
use agent_session_query.Cache.Count.{
  CountEntry, CountState, queue_count, start_counting, start_workers, next_request, bank_count,
  requested, started, looked, banked, Steps, done, step, new_counts,
}
use agent_session_query.Cache.Count.Orderly.{IsOrderly, Steps-IsOrderly}
use agent_session_query.Cache.Records.{uncounted, records, built, IsBuilt, records-IsBuilt}
use agent_session_query.Cache.Resume.{File, steady, count_stable, IsHonest, IsOfPrefix, IsBanked}
use agent_session_query.Codex.Counts.{CodexProbe, codex_counts}
use agent_session_query.Counters.{CounterLib, codex_line, codex_count_messages}
use agent_session_query.Counters.Contract.{
  codex_messages, count_nonblank, count_stable-codex_count_messages,
}
use agent_session_query.Lines.Split.{lines_of}
use agent_session_query.Lines.Scan.{IsCapped}
use agent_session_query.Tests.Lines.{reads_threes, reads_threes-IsFileRead}
use agent_session_query.Tests.Samples.{session, runtime}

abbrev stat : Stat
stat path = elim path [ [] ↦ none | c ∷ cs ↦ some (record { mod_time = c; size = length cs }) ]

abbrev content : Bytes → List (Option FileStamp) → Option ℕ
content path stamp = some (length path)

faithful : IsFaithful content []
unfolding lookup
faithful = record { entry = λ path e h. cc h }

load-IsFaithful_example :
    ((load stat [] (codes "a.db") (content (codes "a.db") (stamp_database stat (codes "a.db")))).1
      ≡ content (codes "a.db") (stamp_database stat (codes "a.db")))
    × IsFaithful content
        (load stat []
          (codes "a.db")
          (content (codes "a.db") (stamp_database stat (codes "a.db")))).0
load-IsFaithful_example = load-IsFaithful content stat [] (codes "a.db") faithful

abbrev file_content : Bytes → Option ℕ
file_content stamp = some 3

at_stamp : content_at file_content [] (final_stamp stat (codes "a" ∷ [])) (some 3) ≡ some 3
unfolding final_stamp
at_stamp = refl

sound : IsSound file_content []
unfolding lookup
sound = record { bounded = omega arith; entry = λ stamp v h. cc h }

load_final-IsSound_example :
    ((load_final {V = ℕ} stat [] (codes "a" ∷ []) (some 3)).1 ≡ some 3)
    × IsSound file_content (load_final {V = ℕ} stat [] (codes "a" ∷ []) (some 3)).0
load_final-IsSound_example =
    load_final-IsSound file_content [] stat (codes "a" ∷ []) (some 3) at_stamp sound

abbrev new_stamp : FileStamp
new_stamp = record { mod_time = 5; size = 2 }

-- A file is asked for, a worker starts and takes it, and its scan is dropped.
run : Steps 8 new_counts (
    bank_count
      (codes "a")
      none
      (next_request (start_counting 8 (queue_count (codes "a") new_stamp new_counts).0)))
unfolding queue_count start_counting next_request start_workers lookup bytes_eq
run =
    let asked = (queue_count (codes "a") new_stamp new_counts).0 in
    let on = start_counting 8 asked in
    let taken = next_request on in
    let end = bank_count (codes "a") none taken in
    step new_counts asked end (requested new_counts (codes "a") new_stamp) (
      step asked on end (started asked) (
        step on taken end (looked on (omega arith))
          (step taken end end (banked taken (codes "a") none refl) (done end))))

orderly : IsOrderly 8 new_counts
orderly = record { once = λ p. refl; bounded = omega arith; in_hand = omega arith }

Steps-IsOrderly_example : IsOrderly 8 (
    bank_count
      (codes "a")
      none
      (next_request (start_counting 8 (queue_count (codes "a") new_stamp new_counts).0)))
Steps-IsOrderly_example =
    Steps-IsOrderly 8 new_counts
      (bank_count (codes "a") none
        (next_request (start_counting 8 (queue_count (codes "a") new_stamp new_counts).0)))
      run orderly

abbrev two_queued : CountState
two_queued = record new_counts { queue = codes "a" ∷ codes "b" ∷ []; counting = λ p. true }

-- Every file parses to the session.
abbrev parse : Bytes → FileStamp → Record
parse path st = session

known_one : IsBuilt stat parse ((codes "a.db", record { stamp = new_stamp; rec = session }) ∷ [])
unfolding lookup
known_one = record { entry = λ path e h. ground (arith, h) }

records-IsBuilt_example :
    (map uncounted
        (records stat parse 8
          ((codes "a.db", record { stamp = new_stamp; rec = session }) ∷ [])
          new_counts
          (codes "a.db" ∷ [] ∷ codes "b.db" ∷ [])).0
      ≡ map uncounted (built stat parse (codes "a.db" ∷ [] ∷ codes "b.db" ∷ [])))
    × IsBuilt stat parse
        (records stat parse 8
          ((codes "a.db", record { stamp = new_stamp; rec = session }) ∷ [])
          new_counts
          (codes "a.db" ∷ [] ∷ codes "b.db" ∷ [])).1
records-IsBuilt_example =
    records-IsBuilt stat parse 8 ((codes "a.db", record { stamp = new_stamp; rec = session }) ∷ [])
      new_counts (codes "a.db" ∷ [] ∷ codes "b.db" ∷ []) known_one

-- A rollout of two aborted turns, of which the first was counted.
abbrev aborted : CodexProbe
aborted = record {
  type = codes "event_msg";
  kind = codes "turn_aborted";
  role = [];
  summary = none;
  content = none;
}

abbrev counter_lib : CounterLib
counter_lib = record {
  runtime = runtime;
  read_count = reads_threes;
  trim_line = λ l. l;
  claude_probe = λ l. none;
  pi_type = λ l. none;
  codex_probe = λ l. some aborted;
  codex_items = λ v. none;
  zst_lines = λ s. [];
}

abbrev grown : File
grown = record { mod_time = 9; bytes = codes "\"turn_aborted\"\n\"turn_aborted\"" }

abbrev shorter : CountEntry
shorter = record {
  stamp = record { mod_time = 7; size = 15 };
  n = 1;
  tail = codes "\"turn_aborted\"\n";
}

grown-IsHonest : IsHonest (steady grown)
grown-IsHonest settled f e = ap steady (cc e)

grown_lines :
    All IsCapped (lines_of grown.bytes)
    × IsOfPrefix
        (λ s. s)
        (codex_messages counter_lib (codes "r.jsonl"))
        (codex_count_messages counter_lib (codes "r.jsonl"))
        grown
        (some shorter)
unfolding lines_of codex_messages count_nonblank codex_line codex_counts contains index has_prefix
    has_suffix bytes_eq
grown_lines = ((omega arith, (omega arith, tt)), λ h. refl)

count_stable-codex_count_messages_example :
    IsBanked
      (λ s. s)
      (codex_messages counter_lib (codes "r.jsonl"))
      (codex_count_messages counter_lib (codes "r.jsonl"))
      (steady grown)
      (count_stable
        (λ s. s)
        (codex_count_messages counter_lib (codes "r.jsonl"))
        (steady grown)
        (some shorter))
count_stable-codex_count_messages_example =
    count_stable-codex_count_messages counter_lib refl reads_threes-IsFileRead (λ s. s)
      (codes "r.jsonl") (steady grown) (some shorter) grown-IsHonest
      (λ f e.
        subst
          (λ g.
            All IsCapped (lines_of g.bytes)
            × IsOfPrefix (λ s. s) (codex_messages counter_lib (codes "r.jsonl"))
                (codex_count_messages counter_lib (codes "r.jsonl")) g (some shorter))
          (cc e) grown_lines)
