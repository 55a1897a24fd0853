-- ===== src/Tests/Resolver.antt =====
-- The resolver at concrete inputs.
use mathlib.Core.List.{Memᴰ}
use agent_session_query.Prelude.{
  keep, List, [], ◌∷◌, Option, none, some, ◌≡◌, refl, ◌∙◌, arith, Bytes, bytes_eq, codes, All,
}
use agent_session_query.Prelude.Assoc.{lookup, insert}
use agent_session_query.Sources.{SourcePath, is_relocatable}
use agent_session_query.Sources.Resolver.{
  Instance, World, exists_now, Resolver, given_twice, new_resolver, read_paths, build, nothing_read,
  re_resolving, sources, enable, visit, look_new, look_held, miss, or_fall_back, fall_back,
  at_source, default_source, mode_of,
}
use agent_session_query.Sources.Resolver.Wiring.{IsWired, Extends}
use agent_session_query.Sources.Resolver.Listing.{Answered, listing, sources_lem}
use agent_session_query.Sources.Resolver.Kept.{runs, runs_lem, sources_again}

abbrev box : SourcePath
box = record { mode = codes "claude"; label = codes "box"; dir = codes "/box" }

abbrev moved_pi : SourcePath
moved_pi = record { mode = codes "pi"; label = []; dir = codes "/pi" }

-- Only one kind exists.
abbrev only : Bytes → World
only kind = record { agent_dbs = []; there = λ s. bytes_eq s.kind kind }

-- The resolver of --mode all, built without paths.
abbrev plain_all : Resolver
plain_all = re_resolving (codes "all") nothing_read

plain_all-IsWired : IsWired plain_all
unfolding lookup
plain_all-IsWired = record {
  placed = λ name i h. absurd (cc h);
  fallen = λ i h. absurd (cc h);
  named = refl;
  once = tt;
  quiet = λ e. refl;
  told = refl;
}

twice_is_an_error :
    new_resolver (only (codes "pi")) (codes "auto") (box ∷ box ∷ [])
    ≡ given_twice (codes "claude:box")
unfolding new_resolver build read_paths is_relocatable bytes_eq
twice_is_an_error = refl

modes_of : List Instance → List Bytes
modes_of [] = []
modes_of (i ∷ is) = mode_of i.spec ∷ modes_of is

abbrev answer : Option (List Instance × Resolver) → List Bytes
answer none = []
answer (some (on, r)) = modes_of on

only_pi : answer (sources (only (codes "pi")) plain_all) ≡ codes "pi" ∷ []
unfolding sources enable visit look_new look_held miss or_fall_back fall_back at_source
    default_source exists_now lookup insert bytes_eq modes_of mode_of
only_pi = refl

nothing_there : answer (sources (only []) plain_all) ≡ codes "openclaw" ∷ []
unfolding sources enable visit look_new look_held miss or_fall_back fall_back at_source
    default_source exists_now lookup insert bytes_eq modes_of mode_of
nothing_there = refl

sources_lem_example :
    (out : List Instance × Resolver) × (sources (only (codes "pi")) plain_all ≡ some out)
    × Answered plain_all (listing (only (codes "pi")) plain_all) out
sources_lem_example = sources_lem (only (codes "pi")) plain_all plain_all-IsWired refl

abbrev pi_world : World
pi_world = only (codes "pi")

-- Three calls: Pi is there, Pi is away, Pi is there again.
abbrev first_call : List Instance × Resolver
first_call = (sources_lem pi_world plain_all plain_all-IsWired refl).0

first_call-facts :
    (sources pi_world plain_all ≡ some first_call)
    × Answered plain_all (listing pi_world plain_all) first_call
first_call-facts = (
  (sources_lem pi_world plain_all plain_all-IsWired refl).1,
  (sources_lem pi_world plain_all plain_all-IsWired refl).2,
)

abbrev away : Resolver
away = (runs_lem (only [] ∷ []) first_call.1 first_call-facts.1.1 first_call-facts.1.2.chosen).0

away-facts :
    (runs (only [] ∷ []) first_call.1 ≡ some away) × (IsWired away × Extends first_call.1 away)
away-facts = (
  (runs_lem (only [] ∷ []) first_call.1 first_call-facts.1.1 first_call-facts.1.2.chosen).1,
  (runs_lem (only [] ∷ []) first_call.1 first_call-facts.1.1 first_call-facts.1.2.chosen).2,
)

abbrev last_call : List Instance × Resolver
last_call =
    (sources_lem pi_world away away-facts.1.0
      (away-facts.1.1.chosen ∙ first_call-facts.1.2.chosen)).0

last_call-facts : sources pi_world away ≡ some last_call
last_call-facts =
    (sources_lem pi_world away away-facts.1.0
      (away-facts.1.1.chosen ∙ first_call-facts.1.2.chosen)).1

sources_again_example :
    All (λ i. Memᴰ i last_call.0) (keep (λ i. exists_now pi_world i.spec) first_call.0)
unfolding at_source default_source exists_now lookup bytes_eq
sources_again_example =
    sources_again pi_world pi_world (only [] ∷ []) plain_all first_call.1 away last_call.1
      first_call.0 last_call.0 plain_all-IsWired refl (omega arith) first_call-facts.0 away-facts.0
      last_call-facts
