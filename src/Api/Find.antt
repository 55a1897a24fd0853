-- ===== src/Api/Find.antt =====
-- Which session a pattern finds.
use agent_session_query.Prelude.{
  ℕ, ◌≤◌, ◌<◌, List, [], ◌∷◌, ◌++◌, append_assoc, Option, none, some, Bool-cases, ltb→lt,
  append-nil, ◌≡◌, refl, ap, ◌∙◌, inl, inr, arith, Bytes, ltb, if◌then◌else◌, All, All-append,
}
use agent_session_query.Record.{record_rank}
use agent_session_query.Api.{Candidate, Best, better, find_best}

-- No candidate of the list ranks below `k`, or at all.
abbrev pub RankAtLeast : Bytes → ℕ → Candidate → Type 0
RankAtLeast pattern k c = (r : ℕ) → record_rank pattern (c.1) ≡ some r → k ≤ r

abbrev pub RankAbove : Bytes → ℕ → Candidate → Type 0
RankAbove pattern k c = (r : ℕ) → record_rank pattern (c.1) ≡ some r → k < r

abbrev pub Unranked : Bytes → Candidate → Type 0
Unranked pattern c = record_rank pattern (c.1) ≡ none

-- Where the best match stands: nothing before it ranks as well, and nothing behind it better.
pub record IsFirstBest (pattern : Bytes) (cs : List Candidate) (c : Candidate) (k : ℕ)
    : Type 0 where
  pub ahead : List Candidate
  pub behind : List Candidate
  pub stands : cs ≡ ahead ++ c ∷ behind
  pub rank : record_rank pattern (c.1) ≡ some k
  pub above : All (RankAbove pattern k) ahead
  pub at_least : All (RankAtLeast pattern k) behind

abbrev pub IsBest : Bytes → List Candidate → Best → Type 0
IsBest pattern cs none = All (Unranked pattern) cs
IsBest pattern cs (some (c, k)) = IsFirstBest pattern cs c k

module _ (pattern : Bytes) where
  All-Unranked-Above :
      (k : ℕ) (cs : List Candidate) → All (Unranked pattern) cs → All (RankAbove pattern k) cs
  All-Unranked-Above k [] a = tt
  All-Unranked-Above k (c ∷ cs) (u, a) = (λ r e. absurd (cc (u, e)), All-Unranked-Above k cs a)

  All-lower :
      (k j : ℕ) (cs : List Candidate)
      → j < k
      → All (RankAtLeast pattern k) cs
      → All (RankAbove pattern j) cs
  All-lower k j [] lt a = tt
  All-lower k j (c ∷ cs) lt (h, a) = (λ r e. omega (arith, h r e), All-lower k j cs lt a)

  All-Above-lower :
      (k j : ℕ) (cs : List Candidate)
      → j < k
      → All (RankAbove pattern k) cs
      → All (RankAbove pattern j) cs
  All-Above-lower k j [] lt a = tt
  All-Above-lower k j (c ∷ cs) lt (h, a) =
      (λ r e. omega (arith, h r e), All-Above-lower k j cs lt a)

  -- A candidate behind the best one that does not rank better leaves it.
  stays :
      (seen : List Candidate) (held c : Candidate) (k : ℕ)
      → RankAtLeast pattern k c
      → IsFirstBest pattern seen held k
      → IsFirstBest pattern (seen ++ c ∷ []) held k
  stays seen held c k least h = record {
    ahead = h.ahead;
    behind = h.behind ++ c ∷ [];
    stands = ap (λ s. s ++ c ∷ []) h.stands ∙ append_assoc h.ahead (held ∷ h.behind) (c ∷ []);
    rank = h.rank;
    above = h.above;
    at_least = All-append (RankAtLeast pattern k) h.behind (c ∷ []) h.at_least (least, tt);
  }

  -- One that ranks below all that was seen takes its place.
  replaces :
      (seen : List Candidate) (c : Candidate) (k : ℕ)
      → record_rank pattern (c.1) ≡ some k
      → All (RankAbove pattern k) seen
      → IsFirstBest pattern (seen ++ c ∷ []) c k
  replaces seen c k e a = record {
    ahead = seen;
    behind = [];
    stands = refl;
    rank = e;
    above = a;
    at_least = tt;
  }

  below_best :
      (seen : List Candidate) (held : Candidate) (k j : ℕ)
      → j < k
      → IsFirstBest pattern seen held k
      → All (RankAbove pattern j) seen
  below_best seen held k j lt h = rw (h.stands) (
      All-append (RankAbove pattern j) h.ahead (held ∷ h.behind)
        (All-Above-lower k j h.ahead lt h.above)
        ((λ r e. ground (arith, h.rank, e)), All-lower k j h.behind lt h.at_least))

  better_unranked :
      (best : Best) (c : Candidate)
      → record_rank pattern (c.1) ≡ none
      → better pattern best c ≡ best
  unfolding better
  better_unranked best c e = rw (e, better)

  better_first :
      (c : Candidate) (r : ℕ)
      → record_rank pattern (c.1) ≡ some r
      → better pattern none c ≡ some (c, r)
  unfolding better
  better_first c r e = rw (e, better)

  better_ranked :
      (held c : Candidate) (k r : ℕ)
      → record_rank pattern (c.1) ≡ some r
      → better pattern (some (held, k)) c ≡ some (if ltb r k then (c, r) else (held, k))
  unfolding better
  better_ranked held c k r e = rw (e, better)

  -- One more candidate.
  better-IsBest :
      (seen : List Candidate) (best : Best) (c : Candidate) (rank : Option ℕ)
      → record_rank pattern (c.1) ≡ rank
      → IsBest pattern seen best
      → IsBest pattern (seen ++ c ∷ []) (better pattern best c)
  better-IsBest seen none c none e h =
      rw (better_unranked none c e) (All-append (Unranked pattern) seen (c ∷ []) h (e, tt))
  better-IsBest seen none c (some r) e h =
      rw (better_first c r e) (replaces seen c r e (All-Unranked-Above r seen h))
  better-IsBest seen (some (held, k)) c none e h =
      rw (better_unranked (some (held, k)) c e) (stays seen held c k (λ r f. absurd (cc (e, f))) h)
  better-IsBest seen (some (held, k)) c (some r) e h = elim (Bool-cases (ltb r k)) [
    | inl lt ↦
        rw (better_ranked held c k r e, lt)
          (replaces seen c r e (below_best seen held k r (ltb→lt r k lt) h))
    | inr ge ↦
        rw (better_ranked held c k r e, ge) (stays seen held c k (λ j f. ground (arith, e, f)) h)
  ]

  find_best-IsBest :
      (seen cs : List Candidate) (best : Best)
      → IsBest pattern seen best
      → IsBest pattern (seen ++ cs) (find_best pattern best cs)
  unfolding find_best
  find_best-IsBest seen [] best h = rw append-nil h
  find_best-IsBest seen (c ∷ cs) best h =
      let next = better-IsBest seen best c (record_rank pattern (c.1)) refl h in
      rw append_assoc at (find_best-IsBest (seen ++ c ∷ []) cs (better pattern best c) next)

  -- The search finds the first of the candidates that rank best, and nothing only when none ranks.
  pub find_best-first : (cs : List Candidate) → IsBest pattern cs (find_best pattern none cs)
  find_best-first cs = find_best-IsBest [] cs none tt
