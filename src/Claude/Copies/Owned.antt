-- ===== src/Claude/Copies/Owned.antt =====
-- A transcript that is dropped as a copy ends on a message that the one which stands for it has.
use agent_session_query.Prelude.{
  Bool, true, false, not, ◌&&◌, ◌||◌, List, [], ◌∷◌, Option, none, some, Bytes, ◌==◌, length, keep,
  if◌then◌else◌, bytes_eq, bytes_eq_refl, ◌≡◌, inl, inr, Bool-cases, All, All-append, arith,
}
use agent_session_query.Prelude.Assoc.{
  Assoc, lookup, Entries, OnFound, Entries-insert, Entries-lookup,
}
use agent_session_query.Record.{is_empty}
use agent_session_query.Tools.{contains_string}
use agent_session_query.Tools.Names.{IsWithin, IsWithin-self}
use agent_session_query.Claude.Copies.{
  Identity, or_none, append_at, is_better, best_of, claude_copy_target, owners_of, contained_in,
  contained_by, is_other, goes_beyond, targets_of, note_copy, find_copy, find_copies,
  find_claude_session_copies,
}

or_none-All :
    (P : Bytes → Bytes → Type 0) (key : Bytes) (found : Option (List Bytes))
    → OnFound (λ k fs. All (P k) fs) key found
    → All (P key) (or_none found)
or_none-All P key none h = tt
or_none-All P key (some fs) h = h

append_at-Entries :
    (P : Bytes → Bytes → Type 0) (key file : Bytes) (m : Assoc (List Bytes))
    → P key file
    → Entries (λ k fs. All (P k) fs) m
    → Entries (λ k fs. All (P k) fs) (append_at key file m)
unfolding append_at
append_at-Entries P key file m p h =
    Entries-insert _ key _ m
      (All-append (P key) (or_none (lookup key m)) (file ∷ [])
        (or_none-All P key (lookup key m) (Entries-lookup _ key m h)) (p, tt))
      h

keep-All :
    (P : Bytes → Type 0) (test : Bytes → Bool) (xs : List Bytes) → All P xs → All P (keep test xs)
keep-All P test [] h = tt
keep-All P test (x ∷ xs) (p, h) = elim (Bool-cases (test x)) [
  | inl passes ↦ rw passes (p, keep-All P test xs h)
  | inr fails ↦ rw fails (keep-All P test xs h)
]

module _ (identities : Bytes → Identity) (uuids : Bytes → List Bytes) where
  -- The file names the message, or ends on it.
  abbrev pub IsHolding : Bytes → Bytes → Type 0
  IsHolding uuid file =
      (contains_string (uuids file) uuid || bytes_eq (identities file).last_uuid uuid) ≡ true

  -- The entry of a copy: another file, which holds the last message of the copy.
  abbrev pub IsCopy : Bytes → Bytes → Type 0
  IsCopy file target = IsHolding (identities file).last_uuid target × (bytes_eq target file ≡ false)

  abbrev IsHeld : Assoc (List Bytes) → Type 0
  IsHeld m = Entries (λ uuid files. All (IsHolding uuid) files) m

  owners_of-IsHeld :
      (files : List Bytes) (owners : Assoc (List Bytes))
      → IsHeld owners
      → IsHeld (owners_of identities uuids files owners)
  unfolding owners_of
  owners_of-IsHeld [] owners h = h
  owners_of-IsHeld (file ∷ files) owners h =
      owners_of-IsHeld files _ (elim (Bool-cases (bytes_eq (identities file).last_uuid [])) [
        | inl no_uuid ↦ rw no_uuid h
        | inr ends ↦ rw ends (
            append_at-Entries IsHolding (identities file).last_uuid file owners
              (ground (arith, bytes_eq_refl (identities file).last_uuid)) h)
      ])

  contained_in-IsHeld :
      (owners : Assoc (List Bytes)) (file : Bytes) (rest seen : List Bytes)
      (contained : Assoc (List Bytes))
      → IsWithin (uuids file) rest
      → IsHeld contained
      → IsHeld (contained_in identities uuids owners file rest seen contained)
  unfolding contained_in
  contained_in-IsHeld owners file [] seen contained within h = h
  contained_in-IsHeld owners file (uuid ∷ rest) seen contained (named, within) h =
      elim (Bool-cases (
        is_empty uuid
        || (length (or_none (lookup uuid owners)) == 0 || contains_string seen uuid))) [
          | inl skip ↦ rw skip (contained_in-IsHeld owners file rest seen contained within h)
          | inr note ↦ rw note (
              contained_in-IsHeld owners file rest (uuid ∷ seen) (append_at uuid file contained)
                within (append_at-Entries IsHolding uuid file contained (ground (arith, named)) h))
        ]

  contained_by-IsHeld :
      (owners : Assoc (List Bytes)) (files : List Bytes) (contained : Assoc (List Bytes))
      → IsHeld contained
      → IsHeld (contained_by identities uuids owners files contained)
  unfolding contained_by
  contained_by-IsHeld owners [] contained h = h
  contained_by-IsHeld owners (file ∷ files) contained h =
      contained_by-IsHeld owners files _
        (contained_in-IsHeld owners file (uuids file) [] contained (IsWithin-self (uuids file)) h)

  best_of-All :
      (P : Bytes → Type 0) (best : Bytes) (paths : List Bytes)
      → P best
      → All P paths
      → P (best_of identities best paths)
  unfolding best_of
  best_of-All P best [] p h = p
  best_of-All P best (path ∷ paths) p (q, h) =
      best_of-All P (if is_better identities path best then path else best) paths
        (elim (Bool-cases (is_better identities path best)) [
          | inl better ↦ rw better q
          | inr worse ↦ rw worse p
        ])
        h

  note_copy-Entries :
      (file target : Bytes) (copies : Assoc Bytes)
      → IsHolding (identities file).last_uuid target
      → Entries IsCopy copies
      → Entries IsCopy (note_copy identities uuids file target copies)
  note_copy-Entries file target copies holds h =
      elim (Bool-cases (not (is_empty target) && not (bytes_eq target file))) [
        | inl another ↦
            rw another (Entries-insert IsCopy file target copies (holds, ground (arith, another)) h)
        | inr same ↦ rw same h
      ]

  target-Entries :
      (file : Bytes) (targets : List Bytes) (copies : Assoc Bytes)
      → All (IsHolding (identities file).last_uuid) targets
      → Entries IsCopy copies
      → Entries IsCopy
          (note_copy identities uuids file (claude_copy_target identities targets) copies)
  unfolding claude_copy_target bytes_eq
  target-Entries file [] copies all h = h
  target-Entries file (path ∷ paths) copies (holds, all) h =
      note_copy-Entries file _ copies
        (best_of-All (IsHolding (identities file).last_uuid) path paths holds all) h

  targets_of-All :
      (P : Bytes → Type 0) (advanced owners : List Bytes)
      → All P advanced
      → All P owners
      → All P (targets_of identities uuids advanced owners)
  targets_of-All P [] owners h k = k
  targets_of-All P (path ∷ paths) owners h k = h

  find_copy-Entries :
      (owners contained : Assoc (List Bytes)) (file : Bytes) (copies : Assoc Bytes)
      → IsHeld owners
      → IsHeld contained
      → Entries IsCopy copies
      → Entries IsCopy (find_copy identities uuids owners contained file copies)
  unfolding find_copy
  find_copy-Entries owners contained file copies held_owners held_contained h =
      let last = (identities file).last_uuid in
      let there =
        or_none-All IsHolding last (lookup last contained)
          (Entries-lookup _ last contained held_contained) in
      let owning =
        or_none-All IsHolding last (lookup last owners)
          (Entries-lookup _ last owners held_owners) in
      let containing = keep (is_other identities uuids file) (or_none (lookup last contained)) in
      elim (Bool-cases (is_empty last || length containing == 0)) [
        | inl nothing ↦ rw nothing h
        | inr something ↦ rw something (
            target-Entries file _ copies
              (targets_of-All (IsHolding last) _ _
                (keep-All (IsHolding last) (goes_beyond identities uuids last) containing
                  (keep-All (IsHolding last) (is_other identities uuids file) _ there))
                owning)
              h)
      ]

  find_copies-Entries :
      (owners contained : Assoc (List Bytes)) (files : List Bytes) (copies : Assoc Bytes)
      → IsHeld owners
      → IsHeld contained
      → Entries IsCopy copies
      → Entries IsCopy (find_copies identities uuids owners contained files copies)
  unfolding find_copies
  find_copies-Entries owners contained [] copies ho hc h = h
  find_copies-Entries owners contained (file ∷ files) copies ho hc h =
      find_copies-Entries owners contained files _ ho hc
        (find_copy-Entries owners contained file copies ho hc h)

  -- Each transcript of a group that is listed as a copy is listed under another file, which names
  -- the last message of the copy among its own or ends on it.
  pub find_claude_session_copies-Entries :
      (files : List Bytes) → Entries IsCopy (find_claude_session_copies identities uuids files)
  unfolding find_claude_session_copies
  find_claude_session_copies-Entries files =
      elim (Bool-cases (length (owners_of identities uuids files []) == 0)) [
        | inl nobody ↦ rw nobody tt
        | inr owned ↦ rw owned (
            find_copies-Entries (owners_of identities uuids files [])
              (contained_by identities uuids (owners_of identities uuids files []) files []) files
              [] (owners_of-IsHeld files [] tt)
              (contained_by-IsHeld (owners_of identities uuids files []) files [] tt) tt)
      ]
