-- ===== src/Sources/Resolver/Kept.antt =====
-- When an instance that was handed out is handed out again.
use mathlib.Core.List.{Memᴰ}
use mathlib.Core.Path.{subst}
use mathlib.Core.List.Memᴰ
use agent_session_query.Prelude.{
  true, List, [], ◌∷◌, ◌++◌, Option, none, some, Bytes, ◌>>=◌, ◌≡◌, refl, sym, ap, ◌∙◌, arith, All,
  All-keep, keep, length, length-append, ◌<◌,
}
use agent_session_query.Prelude.Assoc.{lookup}
use agent_session_query.Sources.{known_modes}
use agent_session_query.Sources.Resolver.{
  Instance, World, exists_now, Resolver, or_fall_back, sources,
}
use agent_session_query.Sources.Resolver.Wiring.{
  IsWired, specs, Extends, Extends-refl, Extends-trans,
}
use agent_session_query.Sources.Resolver.Listing.{
  IsHeld, Enabled, enable_lem, known_known, sources_lem, detected,
}

-- Calls one after another, each at a world of its own.
abbrev pub runs : List World → Resolver → Option Resolver
runs [] r = some r
runs (w ∷ ws) r = do (on, r₁) ← sources w r; runs ws r₁

-- The calls of any number of worlds succeed, and extend the resolver.
pub runs_lem :
    (ws : List World) (r : Resolver)
    → IsWired r
    → r.fixed ≡ none
    → (r₁ : Resolver) × (runs ws r ≡ some r₁) × (IsWired r₁ × Extends r r₁)
runs_lem [] r k auto = (r, refl, (k, Extends-refl r))
runs_lem (w ∷ ws) r k auto =
    let ((on, r₁), e, (spec, k₁, x₁)) = sources_lem w r k auto in
    let (r₂, e', (k₂, x₂)) = runs_lem ws r₁ k₁ (x₁.chosen ∙ auto) in
    (r₂, rw (e, runs) e', (k₂, Extends-trans x₁ x₂))

-- What stands behind a call: the loop's answer, and the instances added to it.
sources_split :
    (w : World) (r : Resolver)
    → IsWired r
    → r.fixed ≡ none
    → (mid : List Instance × Resolver) × (sources w r ≡ or_fall_back w (mid.0 ++ r.extras) mid.1)
      × Enabled w known_modes r mid
unfolding sources
sources_split w r k auto =
    let (mid, enabled, facts) = enable_lem w known_modes r k known_known in
    (mid, rw (auto, sources) (rw (enabled, sources) refl), facts)

-- What is handed out again: an instance that exists, or one that a path added.
handed_again :
    (w : World) (r r₂ : Resolver) (here extras on : List Instance)
    → All (IsHeld known_modes r) here
    → Extends r r₂
    → ((name : Bytes) (i : Instance)
        → Memᴰ name known_modes
        → lookup name r₂.live ≡ some i
        → exists_now w i.spec ≡ true
        → Memᴰ i on)
    → ((i : Instance) → Memᴰ i extras → Memᴰ i on)
    → All (λ i. exists_now w i.spec ≡ true → Memᴰ i on) (here ++ extras)
handed_again w r r₂ [] [] on a x f g = tt
handed_again w r r₂ [] (i ∷ is) on a x f g =
    (λ there. g i (Memᴰ.head refl), handed_again w r r₂ [] is on a x f (λ j m. g j (Memᴰ.tail m)))
handed_again w r r₂ (i ∷ is) extras on (h, a) x f g = (
  λ there. f h.name i h.is_name (x.kept h.name i h.at) there,
  handed_again w r r₂ is extras on a x f g,
)

settled :
    (w : World) (on : List Instance) (r : Resolver) (out : List Instance × Resolver)
    → 0 < length on
    → or_fall_back w on r ≡ some out
    → out ≡ (on, r)
unfolding or_fall_back
settled w [] r out h e = absurd (omega (arith, h))
settled w (i ∷ is) r out h e = cc

length-Memᴰ : (on : List Instance) (i : Instance) → Memᴰ i on → 0 < length on
length-Memᴰ [] i m = absurd (Memᴰ.not-nil m)
length-Memᴰ (x ∷ xs) i m = omega arith

length-specs : (on : List Instance) → length (specs on) ≡ length on
length-specs [] = omega arith
length-specs (i ∷ is) = omega (arith, length-specs is)

-- From a wired resolver that re-resolves, when something was detected or added at a call, every
-- instance that the call handed out is handed out again by a later call at which it exists,
-- whatever existed at the calls between.
pub sources_again :
    (w w' : World) (ws : List World) (r r₁ r₂ r₃ : Resolver) (on on' : List Instance)
    → IsWired r
    → r.fixed ≡ none
    → 0 < length (detected w r known_modes ++ specs r.extras)
    → sources w r ≡ some (on, r₁)
    → runs ws r₁ ≡ some r₂
    → sources w' r₂ ≡ some (on', r₃)
    → All (λ i. Memᴰ i on') (keep (λ i. exists_now w' i.spec) on)
sources_again w w' ws r r₁ r₂ r₃ on on' k auto some_there first between last =
    let ((here, mid), split, (spec, k₁, x₁, a, f, src)) = sources_split w r k auto in
    let full : 0 < length (here ++ r.extras) = omega (
      arith,
      some_there,
      length-append here r.extras,
      length-append (specs here) (specs r.extras),
      length-append (detected w r known_modes) (specs r.extras),
      ap length spec,
      length-specs here,
      length-specs r.extras,
    ) in
    let e : (on, r₁) ≡ (here ++ r.extras, mid) =
      settled w (here ++ r.extras) mid (on, r₁) full (sym split ∙ first) in
    let k' : IsWired r₁ = subst IsWired (sym (ap (λ (o : List Instance × Resolver). o.1) e)) k₁ in
    let x' : Extends r r₁ =
      subst (Extends r) (sym (ap (λ (o : List Instance × Resolver). o.1) e)) x₁ in
    let (r₂', e₂, (k₂', x₂')) = runs_lem ws r₁ k' (x'.chosen ∙ auto) in
    let same : r₂' ≡ r₂ = cc (e₂, between) in
    let x₂ : Extends r₁ r₂ = subst (Extends r₁) same x₂' in
    let k₂ : IsWired r₂ = subst IsWired same k₂' in
    let ((here', mid'), split', (spec', k₃, x₃, a', f', src')) =
      sources_split w' r₂ k₂ (x₂.chosen ∙ x'.chosen ∙ auto) in
    let there : (i : Instance) → Memᴰ i (here' ++ r₂.extras) → Memᴰ i on' = λ i m.
      subst (Memᴰ i)
        (sym (
          ap (λ (o : List Instance × Resolver). o.0)
            (settled w' (here' ++ r₂.extras) mid' (on', r₃) (length-Memᴰ (here' ++ r₂.extras) i m)
              (sym split' ∙ last))))
        m in
    let extras : r₂.extras ≡ r.extras = x₂.added ∙ x'.added in
    All-keep (λ i. Memᴰ i on') (λ i. exists_now w' i.spec) on
      (subst (All (λ i. exists_now w' i.spec ≡ true → Memᴰ i on'))
        (sym (ap (λ (o : List Instance × Resolver). o.0) e))
        (handed_again w' mid r₂ here r.extras on' a
          (subst (λ m. Extends m r₂) (ap (λ (o : List Instance × Resolver). o.1) e) x₂)
          (λ name i m at t. there i (Memᴰ.append_left r₂.extras (f' name i m at t)))
          (λ i m. there i (Memᴰ.append_right here' (subst (Memᴰ i) (sym extras) m)))))
