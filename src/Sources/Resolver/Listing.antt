-- ===== src/Sources/Resolver/Listing.antt =====
-- What a call of Sources returns.
use mathlib.Core.Path.{subst}
use mathlib.Core.List.{Memᴰ, map-append}
use mathlib.Core.List.Memᴰ
use agent_session_query.Prelude.{
  ◌+◌, true, List, [], ◌∷◌, ◌++◌, append-nil, Option, none, some, Bytes, codes, if◌then◌else◌,
  bytes_eq, ◌≡◌, ◌⊎◌, inl, inr, refl, ap, ◌∙◌, arith, Bool-cases, All, All-append, all,
}
use agent_session_query.Prelude.Assoc.{Assoc, lookup}
use agent_session_query.Sources.{known_modes, listed_in}
use agent_session_query.Sources.Resolver.{
  Spec, Instance, World, Resolver, exists_now, Warning, nothing_detected, at_source, enable,
  fall_back, or_fall_back, sources, one_fallback,
}
use agent_session_query.Sources.Resolver.Wiring.{
  IsWired, Extends, Extends-refl, Extends-trans, present, specs, visit_lem, Visited, times_detected,
  times_detected-append, names_of, names_of-append, at_source_known,
}

-- The sources that exist, in the order of the names.
abbrev pub detected : World → Resolver → List Bytes → List Spec
detected w r [] = []
detected w r (name ∷ names) = present w r name ++ detected w r names

detected-present :
    (w : World) (r r₁ : Resolver) (names : List Bytes)
    → ((name : Bytes) → present w r₁ name ≡ present w r name)
    → detected w r₁ names ≡ detected w r names
detected-present w r r₁ [] f = refl
detected-present w r r₁ (name ∷ names) f =
    rw (f name) (ap (λ t. present w r name ++ t) (detected-present w r r₁ names f))

-- An instance that the resolver keeps for one of the names.
pub record IsHeld (names : List Bytes) (r : Resolver) (i : Instance) : Type 0 where
  pub name : Bytes
  pub is_name : Memᴰ name names
  pub at : lookup name r.live ≡ some i

abbrev pub Enabled : World → List Bytes → Resolver → List Instance × Resolver → Type 0
Enabled w names r (on, r₁) =
    (specs on ≡ detected w r names)
    × IsWired r₁
    × Extends r r₁
    × All (IsHeld names r₁) on
    × ((name : Bytes) (i : Instance)
        → Memᴰ name names
        → lookup name r.live ≡ some i
        → exists_now w i.spec ≡ true
        → Memᴰ i on)
    × (r₁.fallback_src ≡ r.fallback_src)

IsHeld-later :
    {names : List Bytes} {r r₁ : Resolver} (name : Bytes) (on : List Instance)
    → Memᴰ name names
    → Extends r r₁
    → All (λ i. lookup name r.live ≡ some i) on
    → All (IsHeld names r₁) on
IsHeld-later name [] m x a = tt
IsHeld-later name (i ∷ is) m x (at, a) =
    (record { name = name; is_name = m; at = x.kept name i at }, IsHeld-later name is m x a)

IsHeld-tail :
    (names : List Bytes) (r : Resolver) (name : Bytes) (on : List Instance)
    → All (IsHeld names r) on
    → All (IsHeld (name ∷ names) r) on
IsHeld-tail names r name [] a = tt
IsHeld-tail names r name (i ∷ is) (h, a) = (
  record { name = h.name; is_name = Memᴰ.tail h.is_name; at = h.at },
  IsHeld-tail names r name is a,
)

found_in :
    {names : List Bytes} (name name' : Bytes) (i : Instance) (here later : List Instance)
    → (name' ≡ name) ⊎ Memᴰ name' names
    → (name' ≡ name → Memᴰ i here)
    → (Memᴰ name' names → Memᴰ i later)
    → Memᴰ i (here ++ later)
found_in name name' i here later (inl e) f g = Memᴰ.append_left later (f e)
found_in name name' i here later (inr m) f g = Memᴰ.append_right here (g m)

round :
    (w : World) (name : Bytes) (names : List Bytes) (r r₁ r₂ : Resolver)
    (here later : List Instance)
    → Visited w name r (here, r₁)
    → Enabled w names r₁ (later, r₂)
    → Enabled w (name ∷ names) r (here ++ later, r₂)
round w name names r r₁ r₂ here later (spec, k₁, x₁, a, f, steady, src)
      (spec', k₂, x₂, b, g, src') =
    (
      map-append (λ (i : Instance). i.spec) here later
          ∙ ap (λ t. t ++ specs later) spec
          ∙ ap (λ t. present w r name ++ t) (spec' ∙ detected-present w r r₁ names steady),
      k₂,
      Extends-trans x₁ x₂,
      All-append (IsHeld (name ∷ names) r₂) here later
          (IsHeld-later name here (Memᴰ.head refl) x₂ a) (IsHeld-tail names r₂ name later b),
      (λ name' i m at there.
          found_in name name' i here later (Memᴰ.cases_cons m)
            (λ e. f i (subst (λ n. lookup n r.live ≡ some i) e at) there)
            (λ m'. g name' i m' (x₁.kept name' i at) there)),
      src' ∙ src,
    )

pub enable_lem :
    (w : World) (names : List Bytes) (r : Resolver)
    → IsWired r
    → all (listed_in known_modes) names ≡ true
    → (out : List Instance × Resolver) × (enable w names r ≡ some out) × Enabled w names r out
unfolding enable
enable_lem w [] r k known =
    (([], r), refl, (refl, k, Extends-refl r, tt, (λ name i m. absurd (Memᴰ.not-nil m)), refl))
enable_lem w (name ∷ names) r k known =
    let ((here, r₁), first, v) = visit_lem w name r k (ground (arith, known)) in
    let ((later, r₂), rest, en) = enable_lem w names r₁ v.1 (ground (arith, known)) in
    (
      (here ++ later, r₂),
      rw (first, enable) (rw (rest, enable) refl),
      round w name names r r₁ r₂ here later v en,
    )

pub known_known : all (listed_in known_modes) known_modes ≡ true
unfolding bytes_eq
known_known = refl

-- The list of an answer: the sources that exist, then the labeled ones. If there are none it is the
-- OpenClaw of the calls before, and at the first such call the one that is found then.
abbrev pub openclaw_of : World → Assoc Bytes → Option Instance → List Spec
openclaw_of w moves (some i) = i.spec ∷ []
openclaw_of w moves none = elim (at_source w (codes "openclaw") moves) [
  | none ↦ []
  | some s ↦ s ∷ []
]

abbrev pub or_openclaw : World → Assoc Bytes → Option Instance → List Spec → List Spec
or_openclaw w moves src [] = openclaw_of w moves src
or_openclaw w moves src (s ∷ ss) = s ∷ ss

abbrev pub listing : World → Resolver → List Spec
listing w r =
    or_openclaw w r.replacements r.fallback_src (detected w r known_modes ++ specs r.extras)

abbrev pub Answered : Resolver → List Spec → List Instance × Resolver → Type 0
Answered r list (on, r₁) = (specs on ≡ list) × IsWired r₁ × Extends r r₁

one_fallback_lem :
    (w : World) (r : Resolver) (k : IsWired r) (o : Option Instance)
    → r.fallback_src ≡ o
    → (s : Spec) → at_source w (codes "openclaw") r.replacements ≡ some s
    → (out : List Instance × Resolver) × (one_fallback r (some s) o ≡ some out)
      × Answered r (openclaw_of w r.replacements o) out
one_fallback_lem w r k (some i) src s at = ((i ∷ [], r), refl, (refl, k, Extends-refl r))
one_fallback_lem w r k none src s at =
    let i : Instance = record { id = r.next_id; spec = s } in
    (
      (i ∷ [], record r { fallback_src = some i; next_id = r.next_id + 1 }),
      refl,
      (
        rw (at, openclaw_of) refl,
        record {
          placed = k.placed;
          fallen = λ j h. (
            w,
            at ∙ ap (λ (o : Option Instance). elim o [ none ↦ none | some x ↦ some x.spec ]) h,
          );
          named = k.named;
          once = k.once;
          quiet = k.quiet;
          told = k.told;
        },
        record {
          moves = refl;
          added = refl;
          chosen = refl;
          kept = λ name j h. h;
          held = λ j h. absurd (cc (src, h));
        },
      ),
    )

module _ (w : World) (r : Resolver) (k : IsWired r) where
  abbrev told : List Warning
  told = if r.fallback then r.log else r.log ++ nothing_detected ∷ []

  told_once : times_detected told ≡ 1
  told_once = elim (Bool-cases r.fallback) [
    | inl before ↦ rw (before, told) (ground (arith, k.told, before))
    | inr first ↦
        rw (first, told)
          (times_detected-append r.log (nothing_detected ∷ []) ∙ ground (arith, k.told, first))
  ]

  told_names : names_of told ≡ r.warned
  told_names = elim (Bool-cases r.fallback) [
    | inl before ↦ rw (before, told) k.named
    | inr first ↦
        rw (first, told)
          (names_of-append r.log (nothing_detected ∷ []) ∙ append-nil (names_of r.log) ∙ k.named)
  ]

  fall_back_lem :
      (out : List Instance × Resolver) × (fall_back w r ≡ some out)
      × Answered r (or_openclaw w r.replacements r.fallback_src []) out
  unfolding fall_back bytes_eq
  fall_back_lem =
      let (s, at) = at_source_known w (codes "openclaw") r.replacements refl in
      let r' : Resolver = record r { fallback = true; log = told } in
      let k' : IsWired r' = record {
        placed = k.placed;
        fallen = k.fallen;
        named = told_names;
        once = k.once;
        quiet = k.quiet;
        told = told_once;
      } in
      let x' : Extends r r' = record {
        moves = refl;
        added = refl;
        chosen = refl;
        kept = λ name j h. h;
        held = λ j h. h;
      } in
      let ((on, r₁), made, (spec, k₁, x₁)) = one_fallback_lem w r' k' r'.fallback_src refl s at in
      ((on, r₁), rw (at, fall_back) made, (spec, k₁, Extends-trans x' x₁))

or_fall_back_lem :
    (w : World) (on : List Instance) (r : Resolver)
    → IsWired r
    → (out : List Instance × Resolver) × (or_fall_back w on r ≡ some out)
      × Answered r (or_openclaw w r.replacements r.fallback_src (specs on)) out
unfolding or_fall_back
or_fall_back_lem w [] r k = fall_back_lem w r k
or_fall_back_lem w (i ∷ is) r k = ((i ∷ is, r), refl, (refl, k, Extends-refl r))

-- A call of Sources on a wired resolver that re-resolves succeeds. In the order of KnownModes it
-- lists, for each mode, the instance that is held if it says that it exists, or without one the
-- source that is found then if it exists, and the labeled instances behind them; if there are none,
-- the OpenClaw of the earlier calls without any, or the one that is found then. The resolver stays
-- wired, so each mode has the one instance of its place, in mode all a missing source is named once
-- at most and in auto never, and the fallback is named once; and no instance that it keeps is lost.
pub sources_lem :
    (w : World) (r : Resolver)
    → IsWired r
    → r.fixed ≡ none
    → (out : List Instance × Resolver) × (sources w r ≡ some out) × Answered r (listing w r) out
unfolding sources
sources_lem w r k auto =
    let ((on, r₁), enabled, (spec, k₁, x₁, a, f, src)) = enable_lem w known_modes r k known_known in
    let (out, settled, (spec', k₂, x₂)) = or_fall_back_lem w (on ++ r.extras) r₁ k₁ in
    (
      out,
      rw (auto, sources) (rw (enabled, sources) settled),
      (
        spec'
            ∙ ap (λ m. or_openclaw w m r₁.fallback_src (specs (on ++ r.extras))) x₁.moves
            ∙ ap (λ o. or_openclaw w r.replacements o (specs (on ++ r.extras))) src
            ∙ ap (or_openclaw w r.replacements r.fallback_src) (
                map-append (λ (i : Instance). i.spec) on r.extras
                ∙ ap (λ t. t ++ specs r.extras) spec),
        k₂,
        Extends-trans x₁ x₂,
      ),
    )
