-- ===== src/Search/Page.antt =====
-- What a page of search results holds.
use native.Mathlib.Decide.{dec_lt}
use agent_session_query.Prelude.{
  ℕ, zero, suc, ◌+◌, ◌-◌, ◌≤◌, ◌<◌, Bool, true, false, ◌||◌, List, [], ◌∷◌, ◌++◌, append_assoc,
  append-nil, map, ◌≡◌, refl, ap, ◌∙◌, arith, ltb, length, length-append, take, take-nil, keep, any,
}
use agent_session_query.Json.{Fields}
use agent_session_query.Record.{Record}
use agent_session_query.Api.{record_of}
use agent_session_query.Search.{
  SearchUnit, Parts, SearchOutcome, concat, gather, gather_all, outcome,
}
use agent_session_query.Sink.Ring.{take_all}

-- Some part of the unit has a hit.
abbrev pub nonempty : List Fields → Bool
nonempty [] = false
nonempty (h ∷ hs) = true

abbrev pub hit : Parts → Bool
hit (u, parts) = nonempty (concat parts)

abbrev pub with_hits : List Parts → List Parts
with_hits = keep hit

-- A session's result: its record, and the first of its hits.
abbrev pub trimmed : ℕ → Parts → Record × List Fields
trimmed per_session (u, parts) = (record_of u.lead, take per_session (concat parts))

abbrev pub over : ℕ → Parts → Bool
over per_session (u, parts) = ltb per_session (length (concat parts))

take-map : {A B : Type 0} (f : A → B) (n : ℕ) (xs : List A) → take n (map f xs) ≡ map f (take n xs)
take-map f zero xs = refl
take-map f (suc n) [] = refl
take-map f (suc n) (x ∷ xs) = ap (λ t. f x ∷ t) (take-map f n xs)

or_assoc : (a b c : Bool) → (a || b) || c ≡ a || (b || c)
or_assoc true b c = refl
or_assoc false b c = refl

-- What the loop adds to an outcome.
record Adds (limit per_session : ℕ) (out : SearchOutcome) (found : List Parts)
    (out' : SearchOutcome) : Type 0 where
  results :
      out'.results
      ≡ out.results ++ take (limit - length out.results) (map (trimmed per_session) found)
  matched : out'.matched ≡ out.matched + length found
  hits_cut :
      out'.hits_cut
      ≡ out.hits_cut || any (over per_session) (take (limit - length out.results) found)

module _ (limit per_session : ℕ) where
  -- A unit with a hit, on a page that is full.
  Adds-full :
      (out out' : SearchOutcome) (x : Parts) (found : List Parts)
      → limit ≤ length out.results
      → Adds limit per_session (record out { matched = out.matched + 1 }) found out'
      → Adds limit per_session out (x ∷ found) out'
  Adds-full out out' x found full r =
      let z : limit - length out.results ≡ 0 = omega arith in
      record {
        results = rw z (rw z at (r.results));
        matched = omega (arith, r.matched);
        hits_cut = rw z (rw z at (r.hits_cut));
      }

  -- A unit with a hit, on a page with room.
  Adds-room :
      (out out' : SearchOutcome) (x : Parts) (found : List Parts)
      → length out.results < limit
      → Adds limit per_session
          (record {
            results = out.results ++ trimmed per_session x ∷ [];
            matched = out.matched + 1;
            hits_cut = out.hits_cut || over per_session x;
          })
          found
          out'
      → Adds limit per_session out (x ∷ found) out'
  Adds-room out out' x found room r =
      let next = out.results ++ trimmed per_session x ∷ [] in
      let k : limit - length out.results ≡ suc (limit - length next) =
        omega (arith, length-append out.results (trimmed per_session x ∷ [])) in
      record {
        results = rw k (r.results ∙ append_assoc out.results (trimmed per_session x ∷ []) _);
        matched = omega (arith, r.matched);
        hits_cut = rw k (r.hits_cut ∙ or_assoc out.hits_cut (over per_session x) _);
      }

  gather-room :
      (out : SearchOutcome) (rec : Record) (h : Fields) (hs : List Fields)
      → length out.results < limit
      → gather limit per_session out rec (h ∷ hs) ≡ record {
        results = out.results ++ (rec, take per_session (h ∷ hs)) ∷ [];
        matched = out.matched + 1;
        hits_cut = out.hits_cut || ltb per_session (length (h ∷ hs));
      }
  unfolding gather
  gather-room out rec h hs room = ground (arith, take_all per_session (h ∷ hs))

  gather-full :
      (out : SearchOutcome) (rec : Record) (h : Fields) (hs : List Fields)
      → limit ≤ length out.results
      → gather limit per_session out rec (h ∷ hs) ≡ record out { matched = out.matched + 1 }
  unfolding gather
  gather-full out rec h hs full = ground arith

  -- One unit, whatever its hits are.
  Adds-one :
      (out : SearchOutcome) (u : SearchUnit) (ps : List (List Fields)) (c : List Fields)
      (rest : List Parts)
      → concat ps ≡ c
      → ((next : SearchOutcome)
          → Adds limit per_session next (with_hits rest) (gather_all limit per_session next rest))
      → Adds limit per_session out (with_hits ((u, ps) ∷ rest)) (
          gather_all limit per_session
            (gather limit per_session out (record_of u.lead) (concat ps))
            rest)
  Adds-one out u ps [] rest e ih = rw e (unfold gather in ih out)
  Adds-one out u ps (h ∷ hs) rest e ih = elim (dec_lt (length out.results) limit) [
    | yes room ↦
        let step = gather-room out (record_of u.lead) h hs room in
        let trim : trimmed per_session (u, ps) ≡ (record_of u.lead, take per_session (h ∷ hs)) =
          rw e in
        let cut : over per_session (u, ps) ≡ ltb per_session (length (h ∷ hs)) = rw e in
        rw (e, step, ← trim, ← cut) (Adds-room out _ (u, ps) (with_hits rest) room (ih _))
    | no full ↦
        rw (e, gather-full out (record_of u.lead) h hs (omega arith))
          (Adds-full out _ (u, ps) (with_hits rest) (omega arith) (ih _))
  ]

  gather_all-Adds :
      (out : SearchOutcome) (parts : List Parts)
      → Adds limit per_session out (with_hits parts) (gather_all limit per_session out parts)
  unfolding gather_all
  gather_all-Adds out [] = record {
    results = rw (take-nil, append-nil);
    matched = omega arith;
    hits_cut = rw take-nil (ground arith);
  }
  gather_all-Adds out ((u, ps) ∷ rest) =
      Adds-one out u ps (concat ps) rest refl (λ next. gather_all-Adds next rest)

  -- The page is the first sessions with a hit, up to the limit, each with the first of its hits;
  -- the count is of every session with a hit; and the flag says whether a session on the page had
  -- more.
  pub outcome-page :
      (parts : List Parts)
      → ((outcome limit per_session parts).results
          ≡ map (trimmed per_session) (take limit (with_hits parts)))
        × ((outcome limit per_session parts).matched ≡ length (with_hits parts))
        × ((outcome limit per_session parts).hits_cut
            ≡ any (over per_session) (take limit (with_hits parts)))
  unfolding outcome
  outcome-page parts =
      let a = gather_all-Adds (record { results = []; matched = 0; hits_cut = false }) parts in
      let z : limit - 0 ≡ limit = omega arith in
      (
        rw z at (a.results) ∙ take-map (trimmed per_session) limit (with_hits parts),
        omega (arith, a.matched),
        rw z at (a.hits_cut),
      )
