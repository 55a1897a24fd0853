-- ===== src/Search/Stop.antt =====
-- Stopping the scan early does not change which sessions the page holds.
use native.Mathlib.Decide.{dec_lt}
use agent_session_query.Prelude.{
  ℕ, zero, suc, ◌-◌, ◌≤◌, ◌<◌, Bool, true, false, ◌||◌, List, [], ◌∷◌, ◌++◌, map, ◌≡◌, refl, ap,
  arith, Bool-cases, inl, inr, length, take,
}
use agent_session_query.Json.{Fields}
use agent_session_query.Api.{Candidate, record_of}
use agent_session_query.Search.{
  SearchUnit, Parts, concat, scan, scan_unit, scan_agents, jobs_of, tag,
}
use agent_session_query.Search.Page.{hit, nonempty, with_hits}

abbrev pub unit_of : Parts → SearchUnit
unit_of p = p.0

module _ (search_one : Candidate → List Fields) where
  -- A part that was not scanned has no hit.
  none_scanned : (cs : List Candidate) → concat (scan_agents search_one 0 cs) ≡ []
  unfolding scan_agents
  none_scanned [] = refl
  none_scanned (c ∷ cs) = none_scanned cs

  agents_all :
      (n m : ℕ) (cs : List Candidate)
      → length cs ≤ n
      → length cs ≤ m
      → scan_agents search_one n cs ≡ scan_agents search_one m cs
  unfolding scan_agents
  agents_all n m [] h k = refl
  agents_all zero m (c ∷ cs) h k = absurd (omega arith)
  agents_all (suc n) zero (c ∷ cs) h k = absurd (omega arith)
  agents_all (suc n) (suc m) (c ∷ cs) h k =
      ap (λ t. map (tag (record_of c)) (search_one c) ∷ t)
        (agents_all n m cs (omega arith) (omega arith))

  unit_all :
      (n m : ℕ) (u : SearchUnit)
      → jobs_of search_one u ≤ n
      → jobs_of search_one u ≤ m
      → scan_unit search_one n u ≡ scan_unit search_one m u
  unfolding scan_unit
  unit_all zero m u h k = absurd (omega arith)
  unit_all (suc n) zero u h k = absurd (omega arith)
  unit_all (suc n) (suc m) u h k =
      ap (λ t. search_one u.lead ∷ t) (agents_all n m u.agents (omega arith) (omega arith))

  nonempty_append : (xs ys : List Fields) → nonempty (xs ++ ys) ≡ nonempty xs || nonempty ys
  nonempty_append [] ys = refl
  nonempty_append (x ∷ xs) ys = refl

  -- More jobs leave no fewer hits.
  agents_more :
      (n m : ℕ) (cs : List Candidate)
      → n ≤ m
      → nonempty (concat (scan_agents search_one n cs)) ≡ true
      → nonempty (concat (scan_agents search_one m cs)) ≡ true
  unfolding scan_agents
  agents_more n m [] le h = h
  agents_more zero m (c ∷ cs) le h = ground (arith, none_scanned cs)
  agents_more (suc n) zero (c ∷ cs) le h = absurd (omega arith)
  agents_more (suc n) (suc m) (c ∷ cs) le h =
      let here = map (tag (record_of c)) (search_one c) in
      ground (
        arith,
        nonempty_append here (concat (scan_agents search_one n cs)),
        nonempty_append here (concat (scan_agents search_one m cs)),
        agents_more n m cs,
      )

  unit_more :
      (n m : ℕ) (u : SearchUnit)
      → n ≤ m
      → hit (u, scan_unit search_one n u) ≡ true
      → hit (u, scan_unit search_one m u) ≡ true
  unfolding scan_unit
  unit_more zero m u le h = ground (arith, none_scanned u.agents)
  unit_more (suc n) zero u le h = absurd (omega arith)
  unit_more (suc n) (suc m) u le h = ground (
    arith,
    nonempty_append (search_one u.lead) (concat (scan_agents search_one n u.agents)),
    nonempty_append (search_one u.lead) (concat (scan_agents search_one m u.agents)),
    agents_more n m u.agents,
  )

  scan_cons :
      (n : ℕ) (u : SearchUnit) (us : List SearchUnit)
      → scan search_one n (u ∷ us)
        ≡ (u, scan_unit search_one n u) ∷ scan search_one (n - jobs_of search_one u) us
  unfolding scan
  scan_cons n u us = refl

  unit_none : (u : SearchUnit) → hit (u, scan_unit search_one 0 u) ≡ false
  unfolding scan_unit
  unit_none u = rw (none_scanned u.agents)

  no_jobs : (us : List SearchUnit) → with_hits (scan search_one 0 us) ≡ []
  no_jobs [] = unfold scan in refl
  no_jobs (u ∷ us) =
      let z : 0 - jobs_of search_one u ≡ 0 = omega arith in
      rw (scan_cons, unit_none u, z) (no_jobs us)

  -- The scan stopped inside this unit, so it is the last that matched.
  stopped :
      (l n m : ℕ) (u : SearchUnit) (us : List SearchUnit)
      → n ≤ m
      → n < jobs_of search_one u
      → suc l
        ≤ length (
            with_hits
              ((u, scan_unit search_one n u) ∷ scan search_one (n - jobs_of search_one u) us))
      → map unit_of (take (suc l) (with_hits (scan search_one n (u ∷ us))))
        ≡ map unit_of (take (suc l) (with_hits (scan search_one m (u ∷ us))))
  stopped l n m u us le partial h =
      let z : n - jobs_of search_one u ≡ 0 = omega arith in
      let behind : with_hits (scan search_one (n - jobs_of search_one u) us) ≡ [] =
        rw z (no_jobs us) in
      elim (Bool-cases (hit (u, scan_unit search_one n u))) [
        | inl t ↦
            let bound = rw (t, behind) at h in
            let last : l ≡ 0 = omega (arith, bound) in
            rw (scan_cons n u us, scan_cons m u us, t, unit_more n m u le t, last)
        | inr f ↦ let bound = rw (f, behind) at h in absurd (omega (arith, bound))
      ]

  -- The scan went through this unit.
  passed :
      (l n m : ℕ) (u : SearchUnit) (us : List SearchUnit) (b : Bool)
      → hit (u, scan_unit search_one m u) ≡ b
      → suc l
        ≤ length (
            with_hits
              ((u, scan_unit search_one m u) ∷ scan search_one (n - jobs_of search_one u) us))
      → ((k : ℕ)
          → k ≤ length (with_hits (scan search_one (n - jobs_of search_one u) us))
          → map unit_of (take k (with_hits (scan search_one (n - jobs_of search_one u) us)))
            ≡ map unit_of (take k (with_hits (scan search_one (m - jobs_of search_one u) us))))
      → map unit_of (
          take (suc l) (
            with_hits
              ((u, scan_unit search_one m u) ∷ scan search_one (n - jobs_of search_one u) us)))
        ≡ map unit_of (
            take (suc l) (
              with_hits
                ((u, scan_unit search_one m u) ∷ scan search_one (m - jobs_of search_one u) us)))
  passed l n m u us true e h ih =
      let bound = rw e at h in rw e (ap (λ t. u ∷ t) (ih l (omega (arith, bound))))
  passed l n m u us false e h ih = rw e (ih (suc l) (rw e at h))

  -- A scan of `n` jobs in which `limit` sessions have matched has the first `limit` matching
  -- sessions of any longer scan, in the same order.
  pub stop_keeps_page :
      (limit n m : ℕ) (us : List SearchUnit)
      → n ≤ m
      → limit ≤ length (with_hits (scan search_one n us))
      → map unit_of (take limit (with_hits (scan search_one n us)))
        ≡ map unit_of (take limit (with_hits (scan search_one m us)))
  stop_keeps_page limit n m [] le h = unfold scan in refl
  stop_keeps_page zero n m (u ∷ us) le h = refl
  stop_keeps_page (suc l) n m (u ∷ us) le h = elim (dec_lt n (jobs_of search_one u)) [
    | yes partial ↦ stopped l n m u us le partial (rw scan_cons at h)
    | no whole ↦
        let same = unit_all n m u (omega arith) (omega arith) in
        let ih = λ (k : ℕ).
          stop_keeps_page k (n - jobs_of search_one u) (m - jobs_of search_one u) us
            (omega arith) in
        rw (scan_cons n u us, scan_cons m u us, same)
          (passed l n m u us (hit (u, scan_unit search_one m u)) refl (rw (scan_cons, same) at h)
            ih)
  ]
