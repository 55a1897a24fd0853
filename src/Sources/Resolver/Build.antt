-- ===== src/Sources/Resolver/Build.antt =====
-- What NewResolver makes of a mode and of the paths of a command line.
use mathlib.Core.Path.{subst}
use mathlib.Core.List.{map-append}
use agent_session_query.Prelude.{
  ℕ, ◌+◌, ◌<◌, Bool, true, false, not, List, [], ◌∷◌, ◌++◌, append-nil, append_assoc, map, none,
  some, Bytes, if◌then◌else◌, bytes_eq, bytes_eq_iff, bytes_eq_refl, ◌≡◌, ◌⊎◌, inl, inr, refl, sym,
  ap, ◌∙◌, arith, Bool-cases, all, keep, length,
}
use agent_session_query.Prelude.Assoc.{insert, lookup}
use agent_session_query.Record.{is_empty}
use agent_session_query.Sources.{
  SourcePath, known_modes, listed_in, is_relocatable, reserved, valid_mode,
}
use agent_session_query.Sources.Resolver.{
  Spec, Instance, World, exists_now, not_found, at_source, mode_name, Built, resolver, given_twice,
  unknown_mode, panics, Gathered, Paths, read, twice, no_constructor, labeled, read_paths,
  nothing_read, re_resolving, build, new_resolver,
}
use agent_session_query.Sources.Resolver.Wiring.{
  IsWired, IsDistinct, specs, names_of, names_of-append, times_detected, times_detected-append,
  at_source_known,
}

abbrev pub has_label : SourcePath → Bool
has_label p = not (is_empty p.label)

abbrev pub label_names : List SourcePath → List Bytes
label_names [] = []
label_names (p ∷ ps) =
    if has_label p then mode_name p.mode p.label ∷ label_names ps else label_names ps

abbrev pub times : Bytes → List Bytes → ℕ
times name names = length (keep (bytes_eq name) names)

abbrev pub can_move : SourcePath → Bool
can_move p = is_relocatable p.mode

-- The names that are not among those seen.
abbrev unseen : List Bytes → List Bytes → Bool
unseen seen names = all (λ n. not (listed_in seen n)) names

times_listed : (xs : List Bytes) (x : Bytes) → listed_in xs x ≡ true → 0 < times x xs
times_listed [] x h = absurd (cc h)
times_listed (y ∷ xs) x h = ground (arith, h, times_listed xs x)

unseen_cons :
    (seen names : List Bytes) (x : Bytes)
    → unseen (x ∷ seen) names ≡ true
    → (unseen seen names ≡ true) × (listed_in names x ≡ false)
unseen_cons seen [] x h = (refl, refl)
unseen_cons seen (n ∷ names) x h =
    ground (arith, h, unseen_cons seen names x, bytes_eq_iff n x, bytes_eq_iff x n)

abbrev pub added : List SourcePath → List Spec
added ps = map labeled (keep has_label ps)

-- What the loop over the paths gives from what it has gathered, by the names and the sources of its
-- labeled paths.
abbrev ReadsAs : List Bytes → List Spec → Gathered → Paths → Type 0
ReadsAs names list g (read g') =
    IsDistinct names
    × (unseen g.seen names ≡ true)
    × (specs g'.extra ≡ specs g.extra ++ list)
    × (names_of g'.notes ≡ names_of g.notes)
    × (times_detected g'.notes ≡ times_detected g.notes)
ReadsAs names list g (twice name) = 1 < times name g.seen + times name names
ReadsAs names list g no_constructor = ⊥

plain_step :
    (p : SourcePath) (ps : List SourcePath)
    → is_empty p.label ≡ true
    → (label_names (p ∷ ps) ≡ label_names ps) × (added (p ∷ ps) ≡ added ps)
plain_step p ps plain = rw plain (refl, refl)

label_step :
    (p : SourcePath) (ps : List SourcePath)
    → is_empty p.label ≡ false
    → (label_names (p ∷ ps) ≡ mode_name p.mode p.label ∷ label_names ps)
      × (added (p ∷ ps) ≡ labeled p ∷ added ps)
label_step p ps label = rw label (refl, refl)

abbrev moved : SourcePath → Gathered → Gathered
moved p g = record g { moves = insert p.mode p.dir g.moves }

abbrev beside : World → SourcePath → Gathered → Gathered
beside w p g = record g {
  extra = g.extra ++ record { id = g.fresh; spec = labeled p } ∷ [];
  seen = mode_name p.mode p.label ∷ g.seen;
  fresh = g.fresh + 1;
  notes =
      if exists_now w (labeled p)
      then g.notes
      else g.notes ++ not_found (mode_name p.mode p.label) ∷ [];
}

module _ (w : World) (p : SourcePath) (ps : List SourcePath) (g : Gathered) where
  read_moved :
      (names : List Bytes) (list : List Spec) (out : Paths)
      → ReadsAs names list (moved p g) out
      → ReadsAs names list g out
  read_moved names list (read g') a = a
  read_moved names list (twice name) a = a
  read_moved names list no_constructor a = a

  notes_same :
      (names_of (beside w p g).notes ≡ names_of g.notes)
      × (times_detected (beside w p g).notes ≡ times_detected g.notes)
  notes_same = elim (Bool-cases (exists_now w (labeled p))) [
    | inl there ↦ rw there (refl, refl)
    | inr missing ↦ rw missing (
      names_of-append g.notes (not_found (mode_name p.mode p.label) ∷ [])
          ∙ append-nil (names_of g.notes),
      times_detected-append g.notes (not_found (mode_name p.mode p.label) ∷ []) ∙ omega arith,
    )
  ]

  read_beside :
      (names : List Bytes) (list : List Spec) (out : Paths)
      → listed_in g.seen (mode_name p.mode p.label) ≡ false
      → ReadsAs names list (beside w p g) out
      → ReadsAs (mode_name p.mode p.label ∷ names) (labeled p ∷ list) g out
  read_beside names list (read g') new (d, u, e, n, t) =
      let (u', out) = unseen_cons g.seen names (mode_name p.mode p.label) u in
      (
        (out, d),
        ground (arith, new, u'),
        e
            ∙ ap (λ l. l ++ list)
                (map-append (λ (i : Instance). i.spec) g.extra
                  (record { id = g.fresh; spec = labeled p } ∷ []))
            ∙ append_assoc (specs g.extra) (labeled p ∷ []) list,
        n ∙ notes_same.0,
        t ∙ notes_same.1,
      )
  read_beside names list (twice name) new a = ground (arith, a)
  read_beside names list no_constructor new a = a

read_paths_lem :
    (w : World) (ps : List SourcePath) (g : Gathered)
    → all can_move ps ≡ true
    → ReadsAs (label_names ps) (added ps) g (read_paths w ps g)
unfolding read_paths
read_paths_lem w [] g can = ((tt, refl, sym (append-nil (specs g.extra)), refl, refl))
read_paths_lem w (p ∷ ps) g can = elim (Bool-cases (is_empty p.label)) [
  | inl plain ↦
      let (e, e') = plain_step p ps plain in
      subst (λ n. ReadsAs n (added (p ∷ ps)) g (read_paths w (p ∷ ps) g)) (sym e)
        (subst (λ l. ReadsAs (label_names ps) l g (read_paths w (p ∷ ps) g)) (sym e')
          (rw plain (
            read_moved w p ps g (label_names ps) (added ps) (read_paths w ps (moved p g))
              (read_paths_lem w ps (moved p g) (ground (arith, can))))))
  | inr label ↦
      let name = mode_name p.mode p.label in
      let (e, e') = label_step p ps label in
      subst (λ n. ReadsAs n (added (p ∷ ps)) g (read_paths w (p ∷ ps) g)) (sym e)
        (subst (λ l. ReadsAs (name ∷ label_names ps) l g (read_paths w (p ∷ ps) g)) (sym e')
          (elim (Bool-cases (listed_in g.seen name)) [
            | inl again ↦
                rw (label, again)
                  (ground (arith, times_listed g.seen name again, bytes_eq_refl name))
            | inr new ↦
                let can' : is_relocatable p.mode ≡ true = ground (arith, can) in
                rw (label, new, can')
                  (read_beside w p ps g (label_names ps) (added ps) (read_paths w ps (beside w p g))
                    new (read_paths_lem w ps (beside w p g) (ground (arith, can))))
          ]))
]

-- How a resolver that was just built stands.
abbrev pub Builds : World → Bytes → List SourcePath → Built → Type 0
Builds w mode paths (resolver r) =
    IsDistinct (label_names paths)
    × (valid_mode mode ≡ true)
    × IsWired r
    × (specs r.extras ≡ added paths)
    × (((reserved mode ≡ true) × (r.fixed ≡ none))
        ⊎ ((reserved mode ≡ false)
            × (s : Spec) × (i : ℕ) × (at_source w mode r.replacements ≡ some s)
            × (r.fixed ≡ some (record { id = i; spec = s } ∷ r.extras))))
Builds w mode paths (given_twice name) = 1 < times name (label_names paths)
Builds w mode paths unknown_mode = IsDistinct (label_names paths) × (valid_mode mode ≡ false)
Builds w mode paths panics = ⊥

re_resolving-IsWired :
    (mode : Bytes) (g : Gathered)
    → names_of g.notes ≡ []
    → times_detected g.notes ≡ 0
    → IsWired (re_resolving mode g)
unfolding lookup
re_resolving-IsWired mode g n t = record {
  placed = λ name i h. absurd (cc h);
  fallen = λ i h. absurd (cc h);
  named = n;
  once = tt;
  quiet = λ e. refl;
  told = t;
}

build_lem :
    (w : World) (mode : Bytes) (paths : List SourcePath) (out : Paths)
    → ReadsAs (label_names paths) (added paths) nothing_read out
    → Builds w mode paths (build w mode out)
unfolding build valid_mode
build_lem w mode paths (twice name) a = omega (arith, a)
build_lem w mode paths no_constructor a = a
build_lem w mode paths (read g) (d, u, e, n, t) = elim (Bool-cases (reserved mode)) [
  | inl auto ↦ rw auto (d, rw auto refl, re_resolving-IsWired mode g n t, e, inl (auto, refl))
  | inr named ↦ elim (Bool-cases (listed_in known_modes mode)) [
    | inr unknown ↦ rw (named, unknown) (d, rw (named, unknown) refl)
    | inl known ↦
        let (s, at) = at_source_known w mode g.moves known in
        let k = re_resolving-IsWired mode g n t in
        rw (named, known, at)
          (
            d,
            rw (named, known) refl,
            record {
              placed = k.placed;
              fallen = k.fallen;
              named = k.named;
              once = k.once;
              quiet = k.quiet;
              told = k.told;
            },
            e,
            inr (named, s, g.fresh, at, refl),
          )
  ]
]

-- When every path names a source that can move, NewResolver gives one of three outcomes. A name
-- given twice is reported when it is; an unknown mode when the labels are distinct; otherwise a
-- resolver, which is wired and has the labeled sources in their order, and whose fixed list is nil
-- for auto and all and else the mode's source and the labeled ones.
pub new_resolver_lem :
    (w : World) (mode : Bytes) (paths : List SourcePath)
    → all can_move paths ≡ true
    → Builds w mode paths (new_resolver w mode paths)
unfolding new_resolver
new_resolver_lem w mode paths can =
    build_lem w mode paths (read_paths w paths nothing_read)
      (read_paths_lem w paths nothing_read can)
