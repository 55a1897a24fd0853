-- ===== src/Cache/Resume.antt =====
-- internal/source/filecache.go: the count of one file, resumed from the end of the version that was
-- counted last.
use mathlib.Core.Path.{subst}
use agent_session_query.Prelude.{
  ℕ, zero, suc, ◌+◌, ◌-◌, Bool, true, false, ◌&&◌, [], ◌∷◌, Option, none, some, ◌≡◌, arith, Bytes,
  ltb, ◌==◌, if◌then◌else◌, Bool-cases, Option-cases, refl, ap, sym, ◌∙◌, ==_iff, inl, inr,
  bytes_eq, eq_of_bytes_eq, length, take, drop, get_elem?,
}
use agent_session_query.Cache.Snapshot.{FileStamp}
use agent_session_query.Cache.Count.{CountEntry}

-- A file as it is read at one moment, and what os.Stat says of it.
pub record File : Type 0 where
  pub mod_time : ℕ
  pub bytes : Bytes

abbrev pub stamp_of : File → FileStamp
stamp_of f = record { mod_time = f.mod_time; size = length f.bytes }

abbrev zeros : ℕ → Bytes
zeros zero = []
zeros (suc n) = 0 ∷ zeros n

-- The last bytes before the offset, hashed; all zeros when they cannot be read.
unfoldable pub tail_print : (Bytes → Bytes) → Option File → ℕ → Bytes
tail_print hash none off = zeros 32
tail_print hash (some f) off =
    if off == 0
    then zeros 32
    else if ltb (length f.bytes) off
    then zeros 32
    else hash (take (off - (off - 256)) (drop (off - 256) f.bytes))

unfoldable pub newline_before : Option File → ℕ → Bool
newline_before none off = off == 0
newline_before (some f) off =
    if off == 0
    then true
    else elim (get_elem? f.bytes (off - 1)) [ none ↦ false | some b ↦ b == b'\n' ]

-- What the steps of one count see of the file, each at its own moment.
pub record Sightings : Type 0 where
  -- os.Stat before
  pub pre : Option File
  -- the two reads at the old end
  pub line_end : Option File
  pub old_tail : Option File
  -- the scan
  pub scanned : Option File
  -- os.Stat after
  pub post : Option File
  -- the read of the new tail
  pub new_tail : Option File

module _ (hash : Bytes → Bytes) (count_file : Option File → ℕ → ℕ × Bool) where
  -- Where the scan starts, and the count up to there.
  pub resume : Sightings → Option CountEntry → ℕ → ℕ × ℕ
  resume d none size = (0, 0)
  resume d (some prev) size =
      if ltb prev.stamp.size size
        && (newline_before d.line_end prev.stamp.size
            && bytes_eq (tail_print hash d.old_tail prev.stamp.size) prev.tail)
      then (prev.stamp.size, prev.n)
      else (0, 0)

  -- The messages of the whole file, from what the scan from `from` found.
  pub total : Option File → ℕ × ℕ → ℕ
  total f (from, base) =
      let (n, resumed) = count_file f from in if ltb 0 from && resumed then n + base else n

  same_file : File → Option File → Bool
  same_file pre none = false
  same_file pre (some post) = length post.bytes == length pre.bytes && post.mod_time == pre.mod_time

  unfoldable pub count_stable : Sightings → Option CountEntry → Option CountEntry
  unfolding same_file
  count_stable d prev = elim d.pre [
    | none ↦ none
    | some pre ↦
        if same_file pre d.post
        then some (record {
          stamp = stamp_of pre;
          n = total d.scanned (resume d prev (length pre.bytes));
          tail = tail_print hash d.new_tail (length pre.bytes);
        })
        else none
  ]

-- What the cache asks of a source's counter at a file: from the start it counts the messages of the
-- whole file, and from a line's start either those behind it, or, when it says that it did not resume,
-- all.
pub record IsCounter (messages : Bytes → ℕ) (count_file : Option File → ℕ → ℕ × Bool) (f : File)
    : Type 0 where
  pub whole : (count_file (some f) 0).0 ≡ messages f.bytes
  pub resumed :
      (from : ℕ)
      → newline_before (some f) from ≡ true
      → (count_file (some f) from).1 ≡ true
      → (count_file (some f) from).0 + messages (take from f.bytes) ≡ messages f.bytes
  pub refused :
      (from : ℕ)
      → (count_file (some f) from).1 ≡ false
      → (count_file (some f) from).0 ≡ messages f.bytes

-- A file that does not change while it is counted.
abbrev pub steady : File → Sightings
steady f = record {
  pre = some f;
  line_end = some f;
  old_tail = some f;
  scanned = some f;
  post = some f;
  new_tail = some f;
}

-- The file is there before and after, with the same stamp.
abbrev pub IsSettled : Sightings → Type 0
IsSettled d =
    (f : File) × (g : File) × (d.pre ≡ some f) × (d.post ≡ some g) × (stamp_of g ≡ stamp_of f)

-- A file whose stamp is the same before and after did not change between.
abbrev pub IsHonest : Sightings → Type 0
IsHonest d = IsSettled d → (f : File) → d.pre ≡ some f → d ≡ steady f

module _ (hash : Bytes → Bytes) (messages : Bytes → ℕ)
    (count_file : Option File → ℕ → ℕ × Bool) where
  -- Where the old end's fingerprint matches, the old count is of the bytes before it.
  abbrev pub IsOfPrefix : File → Option CountEntry → Type 0
  IsOfPrefix f none = Unit
  IsOfPrefix f (some prev) =
      tail_print hash (some f) prev.stamp.size ≡ prev.tail
      → prev.n ≡ messages (take prev.stamp.size f.bytes)

  total_resumed :
      (f : File) (counter : IsCounter messages count_file f) (from base : ℕ)
      → newline_before (some f) from ≡ true
      → base ≡ messages (take from f.bytes)
      → total hash count_file (some f) (from, base) ≡ messages f.bytes
  unfolding total
  total_resumed f counter zero base line e = counter.whole
  total_resumed f counter (suc k) base line e = elim (Bool-cases (count_file (some f) (suc k)).1) [
    | inl t ↦ ground (arith, t, e, counter.resumed (suc k) line t)
    | inr n ↦ ground (arith, n, counter.refused (suc k) n)
  ]

  total_whole :
      (f : File)
      → IsCounter messages count_file f
      → total hash count_file (some f) (0, 0) ≡ messages f.bytes
  unfolding total
  total_whole f counter = counter.whole

  total-resume :
      (f : File) (prev : Option CountEntry)
      → IsCounter messages count_file f
      → IsOfPrefix f prev
      → total hash count_file (some f) (resume hash count_file (steady f) prev (length f.bytes))
        ≡ messages f.bytes
  unfolding resume
  total-resume f none counter h = total_whole f counter
  total-resume f (some prev) counter h =
      let at_line = newline_before (some f) prev.stamp.size in
      let same_tail = bytes_eq (tail_print hash (some f) prev.stamp.size) prev.tail in
      elim (Bool-cases (ltb prev.stamp.size (length f.bytes) && (at_line && same_tail))) [
        | inl t ↦
            let line : at_line ≡ true = ground (arith, t) in
            let tail : same_tail ≡ true = ground (arith, t) in
            rw t (
              total_resumed f counter prev.stamp.size prev.n line
                (h (eq_of_bytes_eq (tail_print hash (some f) prev.stamp.size) prev.tail tail)))
        | inr e ↦ rw e (total_whole f counter)
      ]

  -- What is banked is the number of messages of the file, and nothing is where its stamp differs.
  abbrev pub IsBanked : Sightings → Option CountEntry → Type 0
  IsBanked d none = ¬ IsSettled d
  IsBanked d (some e) =
      (f : File) × (d.pre ≡ some f)
      × IsSettled d
      × (e ≡ record {
        stamp = stamp_of f;
        n = messages f.bytes;
        tail = tail_print hash (some f) (length f.bytes);
      })

  stamp_at : ℕ → ℕ → FileStamp
  stamp_at m n = record { mod_time = m; size = n }

  settled-same_file :
      (f g : File) → same_file hash count_file f (some g) ≡ true → stamp_of g ≡ stamp_of f
  unfolding same_file stamp_at
  settled-same_file f g same =
      let size = (==_iff (length g.bytes) (length f.bytes)).0 (ground (arith, same)) in
      let time = (==_iff g.mod_time f.mod_time).0 (ground (arith, same)) in
      ap (λ n. stamp_at g.mod_time n) size ∙ ap (λ m. stamp_at m (length f.bytes)) time

  unsettled :
      (d : Sightings) (f : File)
      → d.pre ≡ some f
      → same_file hash count_file f d.post ≡ false
      → ¬ IsSettled d
  unfolding same_file
  unsettled d f at differ (f', g, at', after, same) =
      let e : f' ≡ f = cc (at, at') in
      let there : same_file hash count_file f (some g) ≡ false =
        sym (ap (same_file hash count_file f) after) ∙ differ in
      let size = ap (λ (x : FileStamp). x.size) same ∙ ap (λ (x : File). length x.bytes) e in
      let time = ap (λ (x : FileStamp). x.mod_time) same ∙ ap (λ (x : File). x.mod_time) e in
      ground (arith, there, size, time)

  settled :
      (d : Sightings) (f : File)
      → d.pre ≡ some f
      → same_file hash count_file f d.post ≡ true
      → IsSettled d
  unfolding same_file
  settled d f at same = elim (Option-cases d.post) [
    | inl gone ↦ absurd (cc (sym same ∙ ap (same_file hash count_file f) gone))
    | inr (g, after) ↦ (
      f,
      g,
      at,
      after,
      settled-same_file f g (sym (ap (same_file hash count_file f) after) ∙ same),
    )
  ]

  count_stable-missing :
      (d : Sightings) (prev : Option CountEntry)
      → d.pre ≡ none
      → count_stable hash count_file d prev ≡ none
  unfolding count_stable
  count_stable-missing d prev missing = rw missing refl

  count_stable-differ :
      (d : Sightings) (prev : Option CountEntry) (f : File)
      → d.pre ≡ some f
      → same_file hash count_file f d.post ≡ false
      → count_stable hash count_file d prev ≡ none
  unfolding count_stable
  count_stable-differ d prev f at differ = rw at (rw differ refl)

  count_stable-steady :
      (f : File) (prev : Option CountEntry)
      → IsCounter messages count_file f
      → IsOfPrefix f prev
      → count_stable hash count_file (steady f) prev
        ≡ some (record {
          stamp = stamp_of f;
          n = messages f.bytes;
          tail = tail_print hash (some f) (length f.bytes);
        })
  unfolding count_stable same_file
  count_stable-steady f prev counter h = ground (arith, total-resume f prev counter h)

  pub count_stable_lem :
      (d : Sightings) (prev : Option CountEntry)
      → IsHonest d
      → ((f : File) → d.pre ≡ some f → IsCounter messages count_file f × IsOfPrefix f prev)
      → IsBanked d (count_stable hash count_file d prev)
  count_stable_lem d prev honest at_file = elim (Option-cases d.pre) [
    | inl missing ↦
        subst (IsBanked d) (sym (count_stable-missing d prev missing))
          (λ (f, g, at, after, same). absurd (cc (missing, at)))
    | inr (f, at) ↦ elim (Bool-cases (same_file hash count_file f d.post)) [
      | inr differ ↦
          subst (IsBanked d) (sym (count_stable-differ d prev f at differ))
            (unsettled d f at differ)
      | inl same ↦
          let whole = settled d f at same in
          let (counter, prefix) = at_file f at in
          subst (IsBanked d)
            (sym (
              ap (λ d'. count_stable hash count_file d' prev) (honest whole f at)
              ∙ count_stable-steady f prev counter prefix))
            (f, at, whole, refl)
    ]
  ]
