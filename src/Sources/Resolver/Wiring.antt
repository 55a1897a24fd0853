-- ===== src/Sources/Resolver/Wiring.antt =====
-- What holds of a resolver between its calls.
use mathlib.Core.Path.{subst}
use mathlib.Core.List.{Memᴰ}
use agent_session_query.Prelude.{
  ℕ, suc, ◌+◌, Bool, sym, eq_of_bytes_eq, true, false, not, ◌&&◌, ◌||◌, List, [], ◌∷◌, ◌++◌, map,
  Option, none, some, Bytes, codes, if◌then◌else◌, bytes_eq, bytes_eq_iff, bytes_eq_refl, ◌≡◌, inl,
  inr, refl, ap, ◌∙◌, arith, Bool-cases, Option-cases, All,
}
use agent_session_query.Prelude.Assoc.{Assoc, lookup, insert, lookup-insert}
use agent_session_query.Sources.{known_modes, listed_in, is_relocatable}
use agent_session_query.Sources.Resolver.{
  Spec, Instance, World, Resolver, Warning, skipped, not_found, nothing_detected, plain, exists_now,
  default_source, relocated, at_source, miss, look_new, look_held, visit,
}

abbrev pub names_of : List Warning → List Bytes
names_of [] = []
names_of (skipped name ∷ log) = name ∷ names_of log
names_of (not_found name ∷ log) = names_of log
names_of (nothing_detected ∷ log) = names_of log

abbrev pub times_detected : List Warning → ℕ
times_detected [] = 0
times_detected (skipped name ∷ log) = times_detected log
times_detected (not_found name ∷ log) = times_detected log
times_detected (nothing_detected ∷ log) = suc (times_detected log)

pub names_of-append : (a b : List Warning) → names_of (a ++ b) ≡ names_of a ++ names_of b
names_of-append [] b = refl
names_of-append (skipped name ∷ a) b = ap (λ t. name ∷ t) (names_of-append a b)
names_of-append (not_found name ∷ a) b = names_of-append a b
names_of-append (nothing_detected ∷ a) b = names_of-append a b

pub times_detected-append :
    (a b : List Warning) → times_detected (a ++ b) ≡ times_detected a + times_detected b
times_detected-append [] b = omega arith
times_detected-append (skipped name ∷ a) b = times_detected-append a b
times_detected-append (not_found name ∷ a) b = times_detected-append a b
times_detected-append (nothing_detected ∷ a) b = omega (arith, times_detected-append a b)

-- No name is listed twice.
abbrev pub IsDistinct : List Bytes → Type 0
IsDistinct [] = Unit
IsDistinct (x ∷ xs) = (listed_in xs x ≡ false) × IsDistinct xs

listed_in-snoc :
    (xs : List Bytes) (x y : Bytes) → listed_in (xs ++ y ∷ []) x ≡ (listed_in xs x || bytes_eq x y)
listed_in-snoc [] x y = ground arith
listed_in-snoc (z ∷ xs) x y = ground (arith, listed_in-snoc xs x y)

IsDistinct-snoc :
    (xs : List Bytes) (y : Bytes)
    → IsDistinct xs
    → listed_in xs y ≡ false
    → IsDistinct (xs ++ y ∷ [])
IsDistinct-snoc [] y d h = (refl, tt)
IsDistinct-snoc (x ∷ xs) y (new, d) h = (
  ground (arith, listed_in-snoc xs x y, new, bytes_eq_iff x y, bytes_eq_iff y x, h),
  IsDistinct-snoc xs y d (ground (arith, h)),
)

-- Every instance that is held is one that `at` makes for its name at some moment. A missing source is named once,
-- and only in the mode all; the fallback is named once.
pub record IsWired (r : Resolver) : Type 0 where
  pub placed :
      (name : Bytes) (i : Instance)
      → lookup name r.live ≡ some i
      → (w : World) × (at_source w name r.replacements ≡ some i.spec)
  pub fallen :
      (i : Instance)
      → r.fallback_src ≡ some i
      → (w : World) × (at_source w (codes "openclaw") r.replacements ≡ some i.spec)
  pub named : names_of r.log ≡ r.warned
  pub once : IsDistinct r.warned
  pub quiet : bytes_eq r.mode (codes "all") ≡ false → r.warned ≡ []
  pub told : times_detected r.log ≡ (if r.fallback then 1 else 0)

-- What a call leaves as it was; an instance that is held stays.
pub record Extends (r r₁ : Resolver) : Type 0 where
  pub moves : r₁.replacements ≡ r.replacements
  pub added : r₁.extras ≡ r.extras
  pub chosen : r₁.fixed ≡ r.fixed
  pub kept :
      (name : Bytes) (i : Instance) → lookup name r.live ≡ some i → lookup name r₁.live ≡ some i
  pub held : (i : Instance) → r.fallback_src ≡ some i → r₁.fallback_src ≡ some i

pub Extends-refl : (r : Resolver) → Extends r r
Extends-refl r = record {
  moves = refl;
  added = refl;
  chosen = refl;
  kept = λ name i h. h;
  held = λ i h. h;
}

pub Extends-trans : {a b c : Resolver} → Extends a b → Extends b c → Extends a c
Extends-trans x y = record {
  moves = y.moves ∙ x.moves;
  added = y.added ∙ x.added;
  chosen = y.chosen ∙ x.chosen;
  kept = λ name i h. y.kept name i (x.kept name i h);
  held = λ i h. y.held i (x.held i h);
}

-- The source that `at` makes for a name, if it exists.
abbrev pub if_present : World → Option Spec → List Spec
if_present w none = []
if_present w (some s) = if exists_now w s then s ∷ [] else []

-- The held instance of a name stands for it; a name that has none is looked for anew.
abbrev pub held_or_new : World → Assoc Bytes → Bytes → Option Instance → List Spec
held_or_new w moves name none = if_present w (at_source w name moves)
held_or_new w moves name (some i) = if_present w (some i.spec)

abbrev pub present : World → Resolver → Bytes → List Spec
present w r name = held_or_new w r.replacements name (lookup name r.live)

abbrev pub specs : List Instance → List Spec
specs = map (λ i. i.spec)

-- What one round and the whole loop give.
abbrev pub Visited : World → Bytes → Resolver → List Instance × Resolver → Type 0
Visited w name r (here, r₁) =
    (specs here ≡ present w r name)
    × IsWired r₁
    × Extends r r₁
    × All (λ i. lookup name r₁.live ≡ some i) here
    × ((i : Instance) → lookup name r.live ≡ some i → exists_now w i.spec ≡ true → Memᴰ i here)
    × ((name' : Bytes) → present w r₁ name' ≡ present w r name')
    × (r₁.fallback_src ≡ r.fallback_src)

one_of_two :
    (a b : Bool) (s t : Spec)
    → b ≡ true
    → (u : Spec) × ((if a then some s else if b then some t else none) ≡ some u)
one_of_two true b s t h = (s, refl)
one_of_two false b s t h = (t, rw h refl)

default_source_known :
    (w : World) (name : Bytes)
    → listed_in known_modes name ≡ true
    → (s : Spec) × (default_source w name ≡ some s)
unfolding default_source
default_source_known w name h = one_of_two _ _ _ _ h

pub at_source_known :
    (w : World) (name : Bytes) (moves : Assoc Bytes)
    → listed_in known_modes name ≡ true
    → (s : Spec) × (at_source w name moves ≡ some s)
unfolding at_source
at_source_known w name moves h =
    let (s, default) = default_source_known w name h in
    elim (Option-cases (lookup name moves)) [
      | inl gone ↦ (s, rw gone default)
      | inr (dir, at) ↦ elim (Bool-cases (is_relocatable name)) [
        | inl can ↦ (plain name (some dir), rw (at, relocated) (rw can refl))
        | inr cannot ↦ (s, rw (at, relocated) (rw cannot default))
      ]
    ]

miss-IsWired : (name : Bytes) (r : Resolver) → IsWired r → IsWired (miss name r)
unfolding miss
miss-IsWired name r k =
    elim (Bool-cases (bytes_eq r.mode (codes "all") && not (listed_in r.warned name))) [
      | inr missing ↦ rw missing k
      | inl there ↦ rw there (record {
        placed = k.placed;
        fallen = k.fallen;
        named = names_of-append r.log (skipped name ∷ []) ∙ ap (λ t. t ++ name ∷ []) k.named;
        once = IsDistinct-snoc r.warned name k.once (ground (arith, there));
        quiet = λ e. absurd (ground (arith, there, e));
        told = times_detected-append r.log (skipped name ∷ []) ∙ omega (arith, k.told);
      })
    ]

miss-Extends : (name : Bytes) (r : Resolver) → Extends r (miss name r)
unfolding miss
miss-Extends name r =
    elim (Bool-cases (bytes_eq r.mode (codes "all") && not (listed_in r.warned name))) [
      | inr missing ↦ rw missing (Extends-refl r)
      | inl there ↦ rw there (record {
        moves = refl;
        added = refl;
        chosen = refl;
        kept = λ name i h. h;
        held = λ i h. h;
      })
    ]

module _ (w : World) (name : Bytes) (r : Resolver) (k : IsWired r) where
  missed :
      (j : Instance)
      → lookup name r.live ≡ some j
      → exists_now w j.spec ≡ true
      → {i : Instance} → lookup name r.live ≡ some i
      → exists_now w i.spec ≡ false
      → ⊥
  missed j h t at e = cc

  visit_held :
      (i : Instance)
      → lookup name r.live ≡ some i
      → Visited w name r (if exists_now w i.spec then i ∷ [] else [], r)
  visit_held i at = elim (Bool-cases (exists_now w i.spec)) [
    | inl there ↦
        rw (there, at)
          (rw there (
            refl,
            k,
            Extends-refl r,
            (refl, tt),
            (λ j h t. Memᴰ.head (cc h)),
            (λ name'. refl),
            refl,
          ))
    | inr missing ↦
        rw (missing, at)
          (rw missing (
            refl,
            k,
            Extends-refl r,
            tt,
            (λ j h t. absurd (missed j (at ∙ h) t at missing)),
            (λ name'. refl),
            refl,
          ))
  ]

  abbrev made : Resolver
  made = record r { next_id = r.next_id + 1 }

  abbrev candidate : Spec → Instance
  candidate s = record { id = r.next_id; spec = s }

  made-IsWired : IsWired made
  made-IsWired = record {
    placed = k.placed;
    fallen = k.fallen;
    named = k.named;
    once = k.once;
    quiet = k.quiet;
    told = k.told;
  }

  made-Extends : Extends r made
  made-Extends = record {
    moves = refl;
    added = refl;
    chosen = refl;
    kept = λ name i h. h;
    held = λ i h. h;
  }

  abbrev joined : Spec → Resolver
  joined s = record made { live = insert name (candidate s) r.live }

  joined-IsWired : (s : Spec) → at_source w name r.replacements ≡ some s → IsWired (joined s)
  joined-IsWired s at = record {
    placed = λ j i h. elim (Bool-cases (bytes_eq name j)) [
      | inl same ↦ (
        w,
        ground (arith, lookup-insert name j (candidate s) r.live, bytes_eq_iff name j, same, at, h),
      )
      | inr differ ↦
          k.placed j i (ground (arith, lookup-insert name j (candidate s) r.live, differ, h))
    ];
    fallen = k.fallen;
    named = k.named;
    once = k.once;
    quiet = k.quiet;
    told = k.told;
  }

  joined-Extends : (s : Spec) → lookup name r.live ≡ none → Extends r (joined s)
  joined-Extends s gone = record {
    moves = refl;
    added = refl;
    chosen = refl;
    kept = λ j i h.
        ground (arith, lookup-insert name j (candidate s) r.live, bytes_eq_iff name j, gone, h);
    held = λ i h. h;
  }

  present_new :
      (s : Spec)
      → lookup name r.live ≡ none
      → at_source w name r.replacements ≡ some s
      → present w r name ≡ if_present w (some s)
  present_new s gone at = rw gone (rw at refl)

  present-joined :
      (s : Spec)
      → lookup name r.live ≡ none
      → at_source w name r.replacements ≡ some s
      → (name' : Bytes) → present w (joined s) name' ≡ present w r name'
  present-joined s gone at name' =
      ap (held_or_new w r.replacements name') (lookup-insert name name' (candidate s) r.live)
      ∙ elim (Bool-cases (bytes_eq name name')) [
        | inr differ ↦ rw differ refl
        | inl same ↦ rw same (
            subst (λ n. if_present w (some s) ≡ present w r n) (eq_of_bytes_eq name name' same)
              (sym (present_new s gone at)))
      ]

  missed_live : (miss name made).live ≡ r.live
  unfolding miss
  missed_live = elim (Bool-cases (bytes_eq r.mode (codes "all") && not (listed_in r.warned name))) [
    | inl missing ↦ rw missing refl
    | inr there ↦ rw there refl
  ]

  missed_same :
      ((miss name made).replacements ≡ r.replacements)
      × ((miss name made).fallback_src ≡ r.fallback_src)
  unfolding miss
  missed_same = elim (Bool-cases (bytes_eq r.mode (codes "all") && not (listed_in r.warned name))) [
    | inl missing ↦ rw missing (refl, refl)
    | inr there ↦ rw there (refl, refl)
  ]

  missed_present : (name' : Bytes) → present w (miss name made) name' ≡ present w r name'
  missed_present name' = rw (missed_same.0, missed_live) refl

  visit_new :
      (s : Spec)
      → lookup name r.live ≡ none
      → at_source w name r.replacements ≡ some s
      → Visited w name r
          (if exists_now w s then (candidate s ∷ [], joined s) else ([], miss name made))
  visit_new s gone at = elim (Bool-cases (exists_now w s)) [
    | inl there ↦
        let found : present w r name ≡ s ∷ [] = present_new s gone at ∙ rw there refl in
        rw there (
          sym found,
          joined-IsWired s at,
          joined-Extends s gone,
          (rw (lookup-insert name name (candidate s) r.live, bytes_eq_refl name) refl, tt),
          (λ j h t. absurd (cc (gone, h))),
          present-joined s gone at,
          refl,
        )
    | inr missing ↦
        let not_found : present w r name ≡ [] = present_new s gone at ∙ rw missing refl in
        rw missing (
          sym not_found,
          miss-IsWired name made made-IsWired,
          Extends-trans made-Extends (miss-Extends name made),
          tt,
          (λ j h t. absurd (cc (gone, h))),
          missed_present,
          missed_same.1,
        )
  ]

  pub visit_lem :
      listed_in known_modes name ≡ true
      → (out : List Instance × Resolver) × (visit w name r ≡ some out) × Visited w name r out
  unfolding visit look_new look_held
  visit_lem known = elim (Option-cases (lookup name r.live)) [
    | inr (i, at) ↦
        ((if exists_now w i.spec then i ∷ [] else [], r), rw (at, visit) refl, visit_held i at)
    | inl gone ↦
        let (s, at) = at_source_known w name r.replacements known in
        (
          (if exists_now w s then (candidate s ∷ [], joined s) else ([], miss name made)),
          rw (gone, visit) (rw (at, visit) refl),
          visit_new s gone at,
        )
  ]
