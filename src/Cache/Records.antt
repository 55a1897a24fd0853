-- ===== src/Cache/Records.antt =====
-- internal/source/filecache.go: the records of a list, one per file, kept while the file's
-- modification time and size stay.
use agent_session_query.Prelude.{
  ℕ, Bool, true, false, ◌&&◌, List, [], ◌∷◌, map, Option, none, some, Option-cases, ◌≡◌, refl, ap,
  ◌∙◌, arith, Bytes, ◌==◌, if◌then◌else◌, Bool-cases, inl, inr, bytes_eq, bytes_eq_iff,
}
use agent_session_query.Prelude.Int.{ℤ, pos}
use agent_session_query.Prelude.Assoc.{Assoc, lookup, insert, lookup-insert}
use agent_session_query.Record.{Record}
use agent_session_query.Cache.Snapshot.{FileStamp, Stat}
use agent_session_query.Cache.Count.{CountState, queue_count, keep_counts, start_counting}

pub record RecordEntry : Type 0 where
  pub stamp : FileStamp
  pub rec : Record

abbrev pub RecordCache : Type 0
RecordCache = Assoc RecordEntry

abbrev is_count : ℕ → ℤ → Bool
is_count n (ℤ.pos m) = m == n
is_count n (ℤ.negsuc m) = false

unfoldable pub has_count : RecordEntry → ℕ → Bool
has_count e n = e.rec.has_count && is_count n e.rec.message_count

-- The count that was at hand, on a record that is reused or new.
attach_count : Record → Option ℕ → Record
attach_count rec none = rec
attach_count rec (some n) = record rec { message_count = pos n; has_count = true }

recount : RecordEntry → Option ℕ → RecordEntry
unfolding has_count
recount hit none = hit
recount hit (some n) =
    if has_count hit n
    then hit
    else record hit { rec = record hit.rec { message_count = pos n; has_count = true } }

module _ (stat : Stat) (build : Bytes → FileStamp → Record) where
  -- The entry of one file that is there, from what is known of it.
  pub entry_of : Option RecordEntry → Bytes → FileStamp → Option ℕ → RecordEntry
  entry_of none path st count = record { stamp = st; rec = attach_count (build path st) count }
  entry_of (some hit) path st count =
      if hit.stamp.size == st.size && hit.stamp.mod_time == st.mod_time
      then recount hit count
      else record { stamp = st; rec = attach_count (build path st) count }

  -- The loop over the paths: the records, the entries for the next round, and the counts.
  pub resolve :
      RecordCache → List Bytes → RecordCache → CountState → List Record × RecordCache × CountState
  resolve known [] fresh s = ([], fresh, s)
  resolve known (path ∷ paths) fresh s = elim (stat path) [
    | none ↦ resolve known paths fresh s
    | some st ↦
        let (s', count) = queue_count path st s in
        let entry = entry_of (lookup path known) path st count in
        let (out, fresh', s'') = resolve known paths (insert path entry fresh) s' in
        (entry.rec ∷ out, fresh', s'')
  ]

  unfoldable pub records :
      ℕ → RecordCache → CountState → List Bytes → List Record × RecordCache × CountState
  records procs known s paths =
      let (out, fresh, s') = resolve known paths [] s in
      (out, fresh, start_counting procs (record s' { counts = keep_counts paths s'.counts }))

-- A record without the count that is attached to it later.
abbrev pub uncounted : Record → Record
uncounted r = record r { message_count = pos 0; has_count = false }

uncounted-attach_count :
    (r : Record) (count : Option ℕ) → uncounted (attach_count r count) ≡ uncounted r
unfolding attach_count
uncounted-attach_count r none = refl
uncounted-attach_count r (some n) = refl

recount_stamp : (e : RecordEntry) (count : Option ℕ) → (recount e count).stamp ≡ e.stamp
unfolding recount
recount_stamp e none = refl
recount_stamp e (some n) = elim (Bool-cases (has_count e n)) [
  | inl t ↦ rw t refl
  | inr f ↦ rw f refl
]

uncounted-recount :
    (e : RecordEntry) (count : Option ℕ) → uncounted (recount e count).rec ≡ uncounted e.rec
unfolding recount
uncounted-recount e none = refl
uncounted-recount e (some n) = elim (Bool-cases (has_count e n)) [
  | inl t ↦ rw t refl
  | inr f ↦ rw f refl
]

module _ (stat : Stat) (build : Bytes → FileStamp → Record) where
  abbrev before_rest : Option FileStamp → Bytes → List Record → List Record
  before_rest none path rest = rest
  before_rest (some st) path rest = build path st ∷ rest

  -- What parsing every file that is there would list.
  abbrev pub built : List Bytes → List Record
  built [] = []
  built (path ∷ paths) = before_rest (stat path) path (built paths)

  -- Every entry is what its file parsed to at its stamp, up to the count.
  pub record IsBuilt (known : RecordCache) : Type 0 where
    pub entry :
        (path : Bytes) (e : RecordEntry)
        → lookup path known ≡ some e
        → uncounted e.rec ≡ uncounted (build path e.stamp)

  -- What is meant of one entry.
  abbrev IsOf : Bytes → FileStamp → RecordEntry → Type 0
  IsOf path st e = (e.stamp ≡ st) × (uncounted e.rec ≡ uncounted (build path st))

  entry_of-IsOf :
      (found : Option RecordEntry) (path : Bytes) (st : FileStamp) (count : Option ℕ)
      → ((e : RecordEntry) → found ≡ some e → uncounted e.rec ≡ uncounted (build path e.stamp))
      → IsOf path st (entry_of stat build found path st count)
  unfolding entry_of
  entry_of-IsOf none path st count h = (refl, uncounted-attach_count (build path st) count)
  entry_of-IsOf (some hit) path st count h =
      elim (Bool-cases (hit.stamp.size == st.size && hit.stamp.mod_time == st.mod_time)) [
        | inl t ↦
            let same : hit.stamp ≡ st = ground (arith, t) in
            rw t (
              recount_stamp hit count ∙ same,
              uncounted-recount hit count ∙ h hit refl ∙ ap (λ s. uncounted (build path s)) same,
            )
        | inr f ↦ rw f (refl, uncounted-attach_count (build path st) count)
      ]

  insert-IsBuilt :
      (known : RecordCache) (path : Bytes) (st : FileStamp) (e : RecordEntry)
      → IsOf path st e
      → IsBuilt known
      → IsBuilt (insert path e known)
  insert-IsBuilt known path st e is h = record {
    entry = λ j x. rw lookup-insert (elim (Bool-cases (bytes_eq path j)) [
      | inl q ↦ λ g. ground (arith, bytes_eq_iff path j, q, is)
      | inr q ↦ rw q (h.entry j x)
    ]);
  }

  resolve-IsBuilt :
      (known fresh : RecordCache) (paths : List Bytes) (s : CountState)
      → IsBuilt known
      → IsBuilt fresh
      → (map uncounted (resolve stat build known paths fresh s).0 ≡ map uncounted (built paths))
        × IsBuilt (resolve stat build known paths fresh s).1
  unfolding resolve
  resolve-IsBuilt known fresh [] s k f = (refl, f)
  resolve-IsBuilt known fresh (path ∷ paths) s k f = elim (Option-cases (stat path)) [
    | inl gone ↦ rw (gone, resolve) (resolve-IsBuilt known fresh paths s k f)
    | inr (st, at) ↦
        let entry = entry_of stat build (lookup path known) path st (queue_count path st s).1 in
        let is =
          entry_of-IsOf (lookup path known) path st (queue_count path st s).1 (k.entry path) in
        let rest =
          resolve-IsBuilt known (insert path entry fresh) paths (queue_count path st s).0 k
            (insert-IsBuilt fresh path st entry is f) in
        rw (at, resolve) (cc (is.1, rest.0), rest.1)
  ]

  empty-IsBuilt : IsBuilt []
  unfolding lookup
  empty-IsBuilt = record { entry = λ path e h. cc h }

  -- When every entry is what its file parsed to at its stamp, up to the count, the list has, up to
  -- the counts, what parsing every file that is there would list, in order, and the entries it
  -- leaves are again what the files parsed to.
  pub records-IsBuilt :
      (procs : ℕ) (known : RecordCache) (s : CountState) (paths : List Bytes)
      → IsBuilt known
      → (map uncounted (records stat build procs known s paths).0 ≡ map uncounted (built paths))
        × IsBuilt (records stat build procs known s paths).1
  unfolding records
  records-IsBuilt procs known s paths k = resolve-IsBuilt known [] paths s k empty-IsBuilt
