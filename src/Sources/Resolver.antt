-- ===== src/Sources/Resolver.antt =====
-- internal/source/source.go: the resolver, which says at each call which sources are enabled.
pub mod Listing
pub mod Kept
pub mod Wiring
pub mod Build
use agent_session_query.Prelude.{
  ℕ, ◌+◌, Bool, true, false, not, ◌&&◌, ◌||◌, List, [], ◌∷◌, ◌++◌, map, Option, none, some, Bytes,
  codes, if◌then◌else◌, bytes_eq, ◌>>=◌,
}
use agent_session_query.Prelude.Assoc.{Assoc, lookup, insert}
use agent_session_query.Record.{is_empty}
use agent_session_query.Sources.{
  SourcePath, known_modes, listed_in, is_relocatable, reserved, valid_mode,
}

-- What a source is built from: its kind, the directory that --path gave it, the label of an instance
-- beside the default one, and the databases that an OpenClawSource was made with.
pub record Spec : Type 0 where
  pub kind : Bytes
  pub moved : Option Bytes
  pub label : Bytes
  pub dbs : List Bytes

-- An instance, with an id of its own: two calls of a constructor give two instances.
pub record Instance : Type 0 where
  pub id : ℕ
  pub spec : Spec

-- Mode()
abbrev pub mode_name : Bytes → Bytes → Bytes
mode_name mode label = mode ++ b':' ∷ label

unfoldable pub mode_of : Spec → Bytes
mode_of s = if is_empty s.label then s.kind else mode_name s.kind s.label

-- What is found at the moment of a call: the databases of OpenClaw's agents (openClawAgentDBs), and
-- which of the sources exist that look at their data.
pub record World : Type 0 where
  pub agent_dbs : List Bytes
  pub there : Spec → Bool

abbrev has_dbs : List Bytes → Bool
has_dbs [] = false
has_dbs (db ∷ dbs) = true

-- Exists(): an OpenClawSource says so for as long as it was made with a database.
unfoldable pub exists_now : World → Spec → Bool
exists_now w s = if has_dbs s.dbs then true else w.there s

pub data Warning : Type 0 where
  skipped : Bytes → Warning
  not_found : Bytes → Warning
  nothing_detected : Warning

-- `replacements` stands for the function `at`, `log` for what was written to stderr, and `next_id` is the
-- id that the next instance gets.
pub record Resolver : Type 0 where
  pub mode : Bytes
  pub replacements : Assoc Bytes
  pub extras : List Instance
  pub fixed : Option (List Instance)
  pub live : Assoc Instance
  pub warned : List Bytes
  pub fallback : Bool
  pub fallback_src : Option Instance
  pub next_id : ℕ
  pub log : List Warning

abbrev pub plain : Bytes → Option Bytes → Spec
plain name moved = record { kind = name; moved = moved; label = []; dbs = [] }

-- An OpenClawSource of the databases; the source of sessions.json when there are none.
abbrev pub openclaw_source : List Bytes → Spec
openclaw_source dbs = record { kind = codes "openclaw"; moved = none; label = []; dbs = dbs }

-- nil for a name that is not known
unfoldable pub default_source : World → Bytes → Option Spec
default_source w name =
    if bytes_eq name (codes "openclaw")
    then some (openclaw_source w.agent_dbs)
    else if listed_in known_modes name
    then some (plain name none)
    else none

abbrev pub relocated : World → Bytes → Option Bytes → Option Spec
relocated w name none = default_source w name
relocated w name (some dir) =
    if is_relocatable name then some (plain name (some dir)) else default_source w name

unfoldable pub at_source : World → Bytes → Assoc Bytes → Option Spec
at_source w name replacements = relocated w name (lookup name replacements)

-- The methods of a nil source panic: `none`.
abbrev pub Call : Type 0
Call = Option (List Instance × Resolver)

-- A missing source is named once, in all.
unfoldable pub miss : Bytes → Resolver → Resolver
miss name r =
    if bytes_eq r.mode (codes "all") && not (listed_in r.warned name)
    then record r { warned = r.warned ++ name ∷ []; log = r.log ++ skipped name ∷ [] }
    else r

-- One round of the loop, for a mode that has no instance yet, and for one that has.
unfoldable pub look_new : World → Bytes → Option Spec → Resolver → Call
look_new w name none r = none
look_new w name (some s) r =
    let candidate : Instance = record { id = r.next_id; spec = s } in
    let made : Resolver = record r { next_id = r.next_id + 1 } in
    some (
      if exists_now w s
      then (candidate ∷ [], record made { live = insert name candidate r.live })
      else ([], miss name made))

unfoldable pub look_held : World → Instance → Resolver → Call
look_held w i r = some (if exists_now w i.spec then i ∷ [] else [], r)

unfoldable pub visit : World → Bytes → Resolver → Call
visit w name r = elim (lookup name r.live) [
  | none ↦ look_new w name (at_source w name r.replacements) r
  | some i ↦ look_held w i r
]

unfoldable pub enable : World → List Bytes → Resolver → Call
unfolding visit
enable w [] r = some ([], r)
enable w (name ∷ names) r = do
  (here, r₁) ← visit w name r
  (later, r₂) ← enable w names r₁
  some (here ++ later, r₂)

-- The one instance behind the fallback, made at the first need.
abbrev pub one_fallback : Resolver → Option Spec → Option Instance → Call
one_fallback r s (some i) = some (i ∷ [], r)
one_fallback r none none = none
one_fallback r (some s) none =
    let i : Instance = record { id = r.next_id; spec = s } in
    some (i ∷ [], record r { fallback_src = some i; next_id = r.next_id + 1 })

-- Nothing is enabled: OpenClaw is.
unfoldable pub fall_back : World → Resolver → Call
fall_back w r =
    let log : List Warning = if r.fallback then r.log else r.log ++ nothing_detected ∷ [] in
    one_fallback (record r { fallback = true; log = log })
      (at_source w (codes "openclaw") r.replacements) r.fallback_src

unfoldable pub or_fall_back : World → List Instance → Resolver → Call
or_fall_back w [] r = fall_back w r
or_fall_back w (i ∷ is) r = some (i ∷ is, r)

unfoldable pub sources : World → Resolver → Call
sources w r = elim r.fixed [
  | some chosen ↦ some (chosen, r)
  | none ↦ do (on, r₁) ← enable w known_modes r; or_fall_back w (on ++ r.extras) r₁
]

-- NewResolver. `panics`: the map movableSources has no constructor for a labeled path's kind, which is a
-- call of a nil function, or the one source of a named mode is nil.
pub data Built : Type 0 where
  resolver : Resolver → Built
  given_twice : Bytes → Built
  unknown_mode : Built
  panics : Built

-- What the loop over the paths gathers.
pub record Gathered : Type 0 where
  pub moves : Assoc Bytes
  pub extra : List Instance
  pub seen : List Bytes
  pub fresh : ℕ
  pub notes : List Warning

pub data Paths : Type 0 where
  read : Gathered → Paths
  twice : Bytes → Paths
  no_constructor : Paths

abbrev pub labeled : SourcePath → Spec
labeled p = record { kind = p.mode; moved = some p.dir; label = p.label; dbs = [] }

unfoldable pub read_paths : World → List SourcePath → Gathered → Paths
read_paths w [] g = read g
read_paths w (p ∷ ps) g =
    let name = mode_name p.mode p.label in
    let instance' : Instance = record { id = g.fresh; spec = labeled p } in
    let rest = read_paths w ps (
      if is_empty p.label then record g { moves = insert p.mode p.dir g.moves } else record g {
        extra = g.extra ++ instance' ∷ [];
        seen = name ∷ g.seen;
        fresh = g.fresh + 1;
        notes = if exists_now w (labeled p) then g.notes else g.notes ++ not_found name ∷ [];
      }) in
    if is_empty p.label
    then rest
    else if listed_in g.seen name
    then twice name
    else if not (is_relocatable p.mode)
    then no_constructor
    else rest

abbrev pub nothing_read : Gathered
nothing_read = record { moves = []; extra = []; seen = []; fresh = 0; notes = [] }

abbrev pub re_resolving : Bytes → Gathered → Resolver
re_resolving mode g = record {
  mode = mode;
  replacements = g.moves;
  extras = g.extra;
  fixed = none;
  live = [];
  warned = [];
  fallback = false;
  fallback_src = none;
  next_id = g.fresh;
  log = g.notes;
}

abbrev pub one_source : Bytes → Gathered → Option Spec → Built
one_source mode g none = panics
one_source mode g (some s) = resolver (record (re_resolving mode g) {
  fixed = some (record { id = g.fresh; spec = s } ∷ g.extra);
  next_id = g.fresh + 1;
})

unfoldable pub build : World → Bytes → Paths → Built
build w mode (twice name) = given_twice name
build w mode no_constructor = panics
build w mode (read g) =
    if reserved mode
    then resolver (re_resolving mode g)
    else if not (valid_mode mode)
    then unknown_mode
    else one_source mode g (at_source w mode g.moves)

unfoldable pub new_resolver : World → Bytes → List SourcePath → Built
new_resolver w mode paths = build w mode (read_paths w paths nothing_read)
