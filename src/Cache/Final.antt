-- ===== src/Cache/Final.antt =====
-- internal/source/finalcache.go: the final results of sessions, kept at the fingerprint of the files
-- that each was built from, in a map of bounded size.
use agent_session_query.Prelude.{
  ℕ, ◌+◌, ◌≤◌, Bool, true, false, List, [], ◌∷◌, ◌++◌, Option, none, some, ◌≡◌, refl, arith, Bytes,
  if◌then◌else◌, Bool-cases, inl, inr, bytes_eq_iff, leb, length,
}
use agent_session_query.Prelude.Int.{pos}
use agent_session_query.Prelude.Assoc.{Assoc, lookup, insert, lookup-insert}
use agent_session_query.Json.{decimal}
use agent_session_query.Cache.Snapshot.{Stat}

abbrev pub max_cached_finals : ℕ
max_cached_finals = 4096

-- The fingerprint of every file of a final, or `none` when one of them is missing.
unfoldable pub final_stamp : Stat → List Bytes → Option Bytes
final_stamp stat [] = some []
final_stamp stat (p ∷ ps) = elim (stat p) [
  | none ↦ none
  | some info ↦ elim (final_stamp stat ps) [
    | none ↦ none
    | some rest ↦ some (
        p ++ b'\0' ∷ decimal (pos info.mod_time) ++ b'\0' ∷ decimal (pos info.size) ++ b'\0' ∷ rest)
  ]
]

abbrev pub FinalCache : Type 0 → Type 0
FinalCache V = Assoc V

module _ {V : Type 0} where
  -- What is banked, with the fingerprint at hand or without one, and what a read returned. A map
  -- that is full is dropped whole.
  pub bank : FinalCache V → Option Bytes → Option V → FinalCache V
  bank c none final = c
  bank c (some stamp) none = c
  bank c (some stamp) (some final) =
      insert stamp final (if leb max_cached_finals (length c) then [] else c)

  pub held : FinalCache V → Option Bytes → Option V
  held c none = none
  held c (some stamp) = lookup stamp c

  -- The last part is whether the files were read.
  pub answer : FinalCache V → Option Bytes → Option V → Option V → FinalCache V × Option V × Bool
  answer c stamp (some final) read = (c, some final, false)
  answer c stamp none read = (bank c stamp read, read, true)

  unfoldable pub load_final :
      Stat → FinalCache V → List Bytes → Option V → FinalCache V × Option V × Bool
  load_final stat c paths read =
      let stamp = final_stamp stat paths in answer c stamp (held c stamp) read

length-insert :
    {V : Type 0} (k : Bytes) (v : V) (m : Assoc V) → length (insert k v m) ≤ length m + 1
unfolding insert
length-insert k v [] = omega arith
length-insert k v ((j, w) ∷ m) = ground (arith, length-insert k v m)

-- The map is in bounds, and every final in it is what the files with that fingerprint hold.
pub record IsSound {V : Type 0} (content : Bytes → Option V) (c : FinalCache V) : Type 0 where
  pub bounded : length c ≤ max_cached_finals
  pub entry : (stamp : Bytes) (v : V) → lookup stamp c ≡ some v → content stamp ≡ some v

module _ {V : Type 0} (content : Bytes → Option V) (c : FinalCache V) where
  -- What the files at a fingerprint hold, or what was read when there is none.
  abbrev pub content_at : Option Bytes → Option V → Option V
  content_at none read = read
  content_at (some stamp) read = content stamp

  insert_entry :
      (m : FinalCache V) (stamp : Bytes) (v : V)
      → content stamp ≡ some v
      → ((s : Bytes) (w : V) → lookup s m ≡ some w → content s ≡ some w)
      → (s : Bytes) (w : V) → lookup s (insert stamp v m) ≡ some w
      → content s ≡ some w
  insert_entry m stamp v e f s w =
      rw lookup-insert (λ h. ground (arith, bytes_eq_iff stamp s, e, f s w, h))

  bank-IsSound :
      (stamp : Option Bytes) (read : Option V)
      → content_at stamp read ≡ read
      → IsSound content c
      → IsSound content (bank c stamp read)
  unfolding bank lookup
  bank-IsSound none read e h = h
  bank-IsSound (some stamp) none e h = h
  bank-IsSound (some stamp) (some v) e h = elim (Bool-cases (leb max_cached_finals (length c))) [
    | inl full ↦ rw full (record {
      bounded = omega (arith, length-insert stamp v []);
      entry = insert_entry [] stamp v e (λ s w x. absurd (cc x));
    })
    | inr room ↦ rw room (record {
      bounded = ground (arith, room, length-insert stamp v c);
      entry = insert_entry c stamp v e h.entry;
    })
  ]

  answer-IsSound :
      (stamp : Option Bytes) (found read : Option V)
      → held c stamp ≡ found
      → content_at stamp read ≡ read
      → IsSound content c
      → ((answer c stamp found read).1 ≡ read) × IsSound content (answer c stamp found read).0
  unfolding answer held
  answer-IsSound none (some v) read q e h = absurd (cc q)
  answer-IsSound (some stamp) (some v) read q e h = (cc (h.entry stamp v q, e), h)
  answer-IsSound stamp none read q e h = (refl, bank-IsSound stamp read e h)

  -- From a sound cache, a load returns what a read of the files returns, when that is what they
  -- hold, and leaves a sound cache: at most 4096 finals, each what the files with its fingerprint
  -- hold.
  pub load_final-IsSound :
      (stat : Stat) (paths : List Bytes) (read : Option V)
      → content_at (final_stamp stat paths) read ≡ read
      → IsSound content c
      → ((load_final stat c paths read).1 ≡ read) × IsSound content (load_final stat c paths read).0
  unfolding load_final
  load_final-IsSound stat paths read e h =
      answer-IsSound (final_stamp stat paths) (held c (final_stamp stat paths)) read refl e h
