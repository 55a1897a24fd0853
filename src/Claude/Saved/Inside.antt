-- ===== src/Claude/Saved/Inside.antt =====
-- Where a saved output is looked for, whatever path a transcript records.
use agent_session_query.Prelude.{
  ℕ, ◌-◌, Bool, false, ◌||◌, [], ◌∷◌, Option, none, some, Bytes, codes, ◌==◌, length, take, any,
  zero, suc, has_suffix, ◌≡◌, refl, ◌⊎◌, inl, inr, Bool-cases, arith,
}
use agent_session_query.Json.{Runtime, Fields}
use agent_session_query.Record.{is_empty}
use agent_session_query.Claude.Saved.{
  SavedParts, Disk, is_bad_part, trim_suffix_dot, kept_parts, good_parts, parts_found,
  recorded_path, persisted_parts, when_regular, claude_persisted_path,
}

abbrev pub has_slash : Bytes → Bool
has_slash s = any (λ c. c == b'/') s

-- The groups of the regular expression have no slash: each is a run of [^/\s].
abbrev pub IsSlashless : SavedParts → Type 0
IsSlashless m =
    (has_slash m.project ≡ false) × (has_slash m.session ≡ false) × (has_slash m.file ≡ false)

-- The name of one entry of a directory.
abbrev pub IsEntryName : Bytes → Type 0
IsEntryName part = (is_bad_part part ≡ false) × (has_slash part ≡ false)

abbrev pub IsInside : SavedParts → Type 0
IsInside p = IsEntryName p.project × IsEntryName p.session × IsEntryName p.file

slash-take : (n : ℕ) (s : Bytes) → has_slash s ≡ false → has_slash (take n s) ≡ false
slash-take zero s e = refl
slash-take (suc n) [] e = refl
slash-take (suc n) (c ∷ s) e = ground (arith, e, slash-take n s)

slash-trim_suffix_dot : (s : Bytes) → has_slash s ≡ false → has_slash (trim_suffix_dot s) ≡ false
unfolding trim_suffix_dot
slash-trim_suffix_dot s e = elim (Bool-cases (has_suffix s (codes "."))) [
  | inl dot ↦ rw dot (slash-take (length s - 1) s e)
  | inr plain ↦ rw plain e
]

abbrev pub OnParts : Option SavedParts → Type 0
OnParts none = Unit
OnParts (some p) = IsInside p

good_parts-Inside : (p : SavedParts) → IsSlashless p → OnParts (good_parts p)
good_parts-Inside p (project, session, file) =
    elim (Bool-cases (is_bad_part p.project || (is_bad_part p.session || is_bad_part p.file))) [
      | inl bad ↦ rw bad tt
      | inr good ↦ rw good (
        (ground (arith, good), project),
        (ground (arith, good), session),
        (ground (arith, good), file),
      )
    ]

found-Inside :
    (disk : Disk) (s : Bytes) (found : Option SavedParts)
    → disk.saved_output s ≡ found
    → ((t : Bytes) (m : SavedParts) → disk.saved_output t ≡ some m → IsSlashless m)
    → OnParts (parts_found found)
found-Inside disk s none e groups = tt
found-Inside disk s (some m) e groups =
    let (project, session, file) = groups s m e in
    good_parts-Inside (kept_parts m) (project, session, slash-trim_suffix_dot m.file file)

regular-Inside :
    (disk : Disk) (root : Bytes) (found : Option SavedParts)
    → OnParts found
    → (when_regular disk root found ≡ [])
      ⊎ ((p : SavedParts) × (when_regular disk root found ≡ disk.join root p) × IsInside p)
regular-Inside disk root none h = inl refl
regular-Inside disk root (some p) h = elim (Bool-cases (disk.is_regular (disk.join root p))) [
  | inl there ↦ rw there (inr (p, refl, h))
  | inr missing ↦ rw missing (inl refl)
]

module _ (rt : Runtime) (disk : Disk) (root : Bytes) (row : Fields) (text : Bytes) where
  parts-Inside :
      ((t : Bytes) (m : SavedParts) → disk.saved_output t ≡ some m → IsSlashless m)
      → OnParts (persisted_parts rt disk root row text)
  unfolding persisted_parts
  parts-Inside groups = elim (Bool-cases (is_empty root || is_empty (recorded_path rt row text))) [
    | inl nothing ↦ rw nothing tt
    | inr recorded ↦ rw recorded (found-Inside disk _ _ refl groups)
  ]

  -- When the groups of the pattern for saved outputs have no slash, the path of a saved output is
  -- empty, or it is joined from the root and three names of which none is empty, a dot, two dots,
  -- or has a slash.
  pub claude_persisted_path-Inside :
      ((t : Bytes) (m : SavedParts) → disk.saved_output t ≡ some m → IsSlashless m)
      → (claude_persisted_path rt disk root row text ≡ [])
        ⊎ ((p : SavedParts) × (claude_persisted_path rt disk root row text ≡ disk.join root p)
            × IsInside p)
  unfolding claude_persisted_path
  claude_persisted_path-Inside groups =
      regular-Inside disk root (persisted_parts rt disk root row text) (parts-Inside groups)
