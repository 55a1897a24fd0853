-- ===== src/Sources/Flag.antt =====
-- What the --path flag prints is read back by it: set_path and print_path of Sources.
use agent_session_query.Prelude.{
  ℕ, Bool, true, false, not, ◌&&◌, ◌||◌, List, [], ◌∷◌, ◌++◌, append_assoc, none, some, ◌≡◌, refl,
  ap, sym, ◌∙◌, arith, Bytes, ◌==◌, if◌then◌else◌, bytes_eq, bytes_eq_iff, eq_of_bytes_eq, all,
  Bool-cases, inl, inr,
}
use agent_session_query.Record.{is_empty}
use agent_session_query.Sources.{
  SourcePath, accepted, relocatable, listed_in, is_relocatable, reserved, in_label,
  valid_source_label, valid_mode, cut_at, check_parts, check_spec, check_value, set_path,
  print_path,
}

-- What the flag may name: a source that can move, a label or none, and a directory.
unfoldable pub movable : SourcePath → Bool
movable sp =
    is_relocatable sp.mode
    && ((is_empty sp.label || valid_source_label sp.label) && not (is_empty sp.dir))

abbrev free_of : ℕ → Bytes → Bool
free_of b s = all (λ c. not (c == b)) s

cut_at-append : (b : ℕ) (x y : Bytes) → free_of b x ≡ true → cut_at b (x ++ b ∷ y) ≡ some (x, y)
unfolding cut_at
cut_at-append b [] y h = ground arith
cut_at-append b (c ∷ x) y h = ground (arith, h, cut_at-append b x y)

cut_at-none : (b : ℕ) (x : Bytes) → free_of b x ≡ true → cut_at b x ≡ none
unfolding cut_at
cut_at-none b [] h = refl
cut_at-none b (c ∷ x) h = ground (arith, h, cut_at-none b x)

free_of-append :
    (b : ℕ) (x y : Bytes) → free_of b x ≡ true → free_of b y ≡ true → free_of b (x ++ y) ≡ true
free_of-append b [] y h k = k
free_of-append b (c ∷ x) y h k = ground (arith, h, free_of-append b x y)

-- What holds of each of the modes holds of a mode that is listed.
of_listed :
    (P : Bytes → Bool) (modes : List Bytes) (mode : Bytes)
    → all P modes ≡ true
    → listed_in modes mode ≡ true
    → P mode ≡ true
of_listed P [] mode h l = cc l
of_listed P (m ∷ modes) mode h l = ground (arith, h, bytes_eq_iff mode m, of_listed P modes mode, l)

-- A mode that can move is a known one, is not auto or all, and holds neither sign.
pub is_plain : Bytes → Bool
is_plain m = valid_mode m && (not (reserved m) && (free_of b'=' m && free_of b':' m))

relocatable_plain : all is_plain relocatable ≡ true
unfolding is_plain valid_mode reserved bytes_eq
relocatable_plain = refl

mode_plain : (mode : Bytes) → is_relocatable mode ≡ true → is_plain mode ≡ true
unfolding is_relocatable
mode_plain mode = of_listed is_plain relocatable mode relocatable_plain

letters_free : (s : Bytes) → all in_label s ≡ true → free_of b'=' s ≡ true
letters_free [] h = refl
letters_free (c ∷ s) h = ground (arith, h, letters_free s)

-- A label that is valid holds no equals sign.
label_free : (label : Bytes) → valid_source_label label ≡ true → free_of b'=' label ≡ true
unfolding valid_source_label
label_free label h = letters_free label (ground (arith, h))

-- The facts of a mode that can move, one by one.
mode_facts :
    (mode : Bytes)
    → is_relocatable mode ≡ true
    → (valid_mode mode ≡ true)
      × (reserved mode ≡ false)
      × (free_of b'=' mode ≡ true)
      × (free_of b':' mode ≡ true)
unfolding is_plain
mode_facts mode m =
    let h = mode_plain mode m in
    (ground (arith, h), ground (arith, h), ground (arith, h), ground (arith, h))

-- What the checks let through.
check_parts_movable :
    (colon : Bool) (mode label dir : Bytes)
    → is_relocatable mode ≡ true
    → (colon && not (valid_source_label label)) ≡ false
    → is_empty dir ≡ false
    → check_parts colon mode label dir ≡ accepted (record { mode = mode; label = label; dir = dir })
unfolding check_parts
check_parts_movable colon mode label dir m l d = ground (arith, m, l, d, mode_facts mode m)

set_plain :
    (mode dir : Bytes)
    → is_relocatable mode ≡ true
    → is_empty dir ≡ false
    → set_path (mode ++ b'=' ∷ dir) ≡ accepted (record { mode = mode; label = []; dir = dir })
unfolding set_path
set_plain mode dir m d =
    ap check_value (cut_at-append b'=' mode dir ((mode_facts mode m).2))
    ∙ ap (check_spec mode dir) (cut_at-none b':' mode ((mode_facts mode m).3))
    ∙ check_parts_movable false mode [] dir m refl d

set_labeled :
    (mode label dir : Bytes)
    → is_relocatable mode ≡ true
    → valid_source_label label ≡ true
    → is_empty dir ≡ false
    → set_path (mode ++ b':' ∷ (label ++ b'=' ∷ dir))
      ≡ accepted (record { mode = mode; label = label; dir = dir })
unfolding set_path
set_labeled mode label dir m l d =
    let free =
      free_of-append b'=' mode (b':' ∷ label) ((mode_facts mode m).2) (label_free label l) in
    ap set_path (sym (append_assoc mode (b':' ∷ label) (b'=' ∷ dir)))
    ∙ ap check_value (cut_at-append b'=' (mode ++ b':' ∷ label) dir free)
    ∙ ap (check_spec (mode ++ b':' ∷ label) dir)
        (cut_at-append b':' mode label ((mode_facts mode m).3))
    ∙ check_parts_movable true mode label dir m (ap not l) d

-- The --path flag reads back a path that it prints, with a label or without one, when the path's
-- source can move, its label is valid where it has one, and its directory is not empty.
pub set_path-print_path :
    (sp : SourcePath) → movable sp ≡ true → set_path (print_path sp) ≡ accepted sp
unfolding print_path movable
set_path-print_path sp h = elim (Bool-cases (is_empty sp.label)) [
  | inl plain ↦
      ap set_path (
        ap
          (λ b.
            if b then sp.mode ++ b'=' ∷ sp.dir else sp.mode ++ b':' ∷ (sp.label ++ b'=' ∷ sp.dir))
          plain)
      ∙ set_plain sp.mode sp.dir (ground (arith, h)) (ground (arith, h))
      ∙ ap (λ l. accepted (record { mode = sp.mode; label = l; dir = sp.dir }))
          (sym (eq_of_bytes_eq sp.label [] plain))
  | inr labeled ↦
      ap set_path (
        ap
          (λ b.
            if b then sp.mode ++ b'=' ∷ sp.dir else sp.mode ++ b':' ∷ (sp.label ++ b'=' ∷ sp.dir))
          labeled)
      ∙ set_labeled sp.mode sp.label sp.dir (ground (arith, h)) (ground (arith, h, labeled))
          (ground (arith, h))
]
