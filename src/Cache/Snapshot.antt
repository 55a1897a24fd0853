-- ===== src/Cache/Snapshot.antt =====
-- internal/source/sqlitecache.go: the answers of a SQLite source, kept at a fingerprint of the
-- database and the files beside it.
use agent_session_query.Prelude.{
  ℕ, Bool, true, false, ◌&&◌, List, [], ◌∷◌, ◌++◌, map, Option, none, some, Option-cases, ◌≡◌, refl,
  arith, Bytes, codes, ◌==◌, if◌then◌else◌, Bool-cases, inl, inr, bytes_eq, bytes_eq_iff,
}
use agent_session_query.Prelude.Assoc.{Assoc, lookup, insert, lookup-insert}

-- What os.Stat says of a file: `none` when it is missing. `fileStamp` writes that as -1, which no
-- file's modification time and size are together.
pub record FileStamp : Type 0 where
  pub mod_time : ℕ
  pub size : ℕ

abbrev pub DbStamp : Type 0
DbStamp = List (Option FileStamp)

-- The file system at one moment.
abbrev pub Stat : Type 0
Stat = Bytes → Option FileStamp

abbrev suffixes : List Bytes
suffixes = [] ∷ codes "-wal" ∷ codes "-shm" ∷ codes "-journal" ∷ []

unfoldable pub stamp_database : Stat → Bytes → DbStamp
stamp_database stat path = map (λ suffix. stat (path ++ suffix)) suffixes

same_stamp : Option FileStamp → Option FileStamp → Bool
same_stamp none none = true
same_stamp none (some b) = false
same_stamp (some a) none = false
same_stamp (some a) (some b) = a.mod_time == b.mod_time && a.size == b.size

pub same_db : DbStamp → DbStamp → Bool
unfolding same_stamp
same_db [] [] = true
same_db [] (b ∷ bs) = false
same_db (a ∷ as') [] = false
same_db (a ∷ as') (b ∷ bs) = same_stamp a b && same_db as' bs

same_stamp_eq : (a b : Option FileStamp) → same_stamp a b ≡ true → a ≡ b
unfolding same_stamp
same_stamp_eq none none h = refl
same_stamp_eq none (some b) h = cc
same_stamp_eq (some a) none h = cc
same_stamp_eq (some a) (some b) h = ground arith

same_db_eq : (a b : DbStamp) → same_db a b ≡ true → a ≡ b
unfolding same_db
same_db_eq [] [] h = refl
same_db_eq [] (b ∷ bs) h = cc
same_db_eq (a ∷ as') [] h = cc
same_db_eq (a ∷ as') (b ∷ bs) h = ground (arith, same_stamp_eq a b, same_db_eq as' bs)

same_stamp_refl : (a : Option FileStamp) → same_stamp a a ≡ true
unfolding same_stamp
same_stamp_refl none = refl
same_stamp_refl (some a) = ground arith

same_db_refl : (a : DbStamp) → same_db a a ≡ true
unfolding same_db
same_db_refl [] = refl
same_db_refl (a ∷ as') = ground (arith, same_stamp_refl a, same_db_refl as')

pub record SnapshotEntry (V : Type 0) : Type 0 where
  pub stamp : DbStamp
  pub value : V

abbrev pub SnapshotCache : Type 0 → Type 0
SnapshotCache V = Assoc (SnapshotEntry V)

module _ {V : Type 0} where
  -- The answer banked for a path, if the stamp is still the one it was read at.
  pub fresh : SnapshotCache V → Bytes → DbStamp → Option V
  fresh c path stamp = elim (lookup path c) [
    | none ↦ none
    | some e ↦ if same_db e.stamp stamp then some e.value else none
  ]

  -- What a load does with the answer at hand, if any, and with what a read would return, `none`
  -- for an error. The last part is whether the read was made.
  pub settle :
      SnapshotCache V → Bytes → DbStamp → Option V → Option V → SnapshotCache V × Option V × Bool
  settle c path stamp (some v) read = (c, some v, false)
  settle c path stamp none none = (c, none, true)
  settle c path stamp none (some v) =
      (insert path (record { stamp = stamp; value = v }) c, some v, true)

  unfoldable pub load :
      Stat → SnapshotCache V → Bytes → Option V → SnapshotCache V × Option V × Bool
  load stat c path read =
      let stamp = stamp_database stat path in settle c path stamp (fresh c path stamp) read

  -- Every banked answer is what the database at its stamp holds.
  pub record IsFaithful (content : Bytes → DbStamp → Option V) (c : SnapshotCache V) : Type 0 where
    pub entry :
        (path : Bytes) (e : SnapshotEntry V)
        → lookup path c ≡ some e
        → content path e.stamp ≡ some e.value

module _ {V : Type 0} (content : Bytes → DbStamp → Option V) (stat : Stat) (c : SnapshotCache V)
    (path : Bytes) where
  abbrev now : Option V
  now = content path (stamp_database stat path)

  fresh_faithful :
      (v : V)
      → IsFaithful content c
      → fresh c path (stamp_database stat path) ≡ some v
      → now ≡ some v
  unfolding fresh
  fresh_faithful v f h = elim (Option-cases (lookup path c)) [
    | inl miss ↦ ground (arith, miss)
    | inr (e, at) ↦
        ground (arith, at, f.entry path e, same_db_eq e.stamp (stamp_database stat path))
  ]

  banked :
      (v : V)
      → now ≡ some v
      → IsFaithful content c
      → IsFaithful content (insert path (record { stamp = stamp_database stat path; value = v }) c)
  banked v e f = record {
    entry = λ j x. rw lookup-insert (elim (Bool-cases (bytes_eq path j)) [
      | inl q ↦ λ h. ground (arith, bytes_eq_iff path j, q, e)
      | inr q ↦ rw q (f.entry j x)
    ]);
  }

  settled :
      (held read : Option V)
      → fresh c path (stamp_database stat path) ≡ held
      → now ≡ read
      → IsFaithful content c
      → ((settle c path (stamp_database stat path) held read).1 ≡ read)
        × IsFaithful content (settle c path (stamp_database stat path) held read).0
  unfolding settle
  settled (some v) read h e f = (cc (fresh_faithful v f h, e), f)
  settled none none h e f = (refl, f)
  settled none (some v) h e f = (refl, banked v e f)

  -- From a faithful cache, a load that would read what the database holds returns that, from the
  -- cache or not, an error included, and leaves a faithful cache.
  pub load-IsFaithful :
      IsFaithful content c
      → ((load stat c path now).1 ≡ now) × IsFaithful content (load stat c path now).0
  unfolding load
  load-IsFaithful f = settled (fresh c path (stamp_database stat path)) now refl refl f
