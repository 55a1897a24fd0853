-- ===== src/Rounds/Tally.antt =====
-- What a round counts and lists agrees with itself, after any messages.
use mathlib.Core.Path.{subst}
use agent_session_query.Prelude.{
  ℕ, suc, ◌+◌, codes, Bool, true, false, List, [], ◌∷◌, length, ◌≡◌, refl, ap, sym, arith,
}
use agent_session_query.Json.{Fields}
use agent_session_query.Json.{get}
use agent_session_query.Rounds.{opened, Round, take_message, split_rounds, open_round, end_round}
use agent_session_query.Questions.{text_at, content_blocks, Libraries}
use agent_session_query.Rounds.Segments.{
  Segment, take_messages, round_of, rounds_of, segments, split_rounds-segments,
}
use agent_session_query.Rounds.Tallied.{IsTallied, take_blocks-IsTallied}

module _ (w : Libraries) (n : ℕ) where
  take_message-IsTallied :
      (k : ℕ) (starting : Bool) (m : Fields) (r : Round)
      → IsTallied n k r
      → IsTallied n (suc k) (take_message w starting m r)
  unfolding take_message
  take_message-IsTallied k starting m r h =
      let (in_changed, awaited, files_once, changed_once, failures, kinds, number, size) = h in
      take_blocks-IsTallied w n (suc k) (text_at w m (codes "timestamp"))
        (content_blocks (get m (codes "content"))) (opened w _ m r, _)
        (
          in_changed,
          awaited,
          files_once,
          changed_once,
          failures,
          kinds,
          number,
          ap (λ x. suc x) size,
        )

  take_messages-IsTallied :
      (ms : List Fields) (k : ℕ) (r : Round)
      → IsTallied n k r
      → IsTallied n (k + length ms) (take_messages w ms r)
  unfolding take_messages
  take_messages-IsTallied [] k r h = let e : k + 0 ≡ k = omega arith in rw e h
  take_messages-IsTallied (m ∷ ms) k r h =
      let e : k + suc (length ms) ≡ suc k + length ms = omega arith in
      rw e (
        take_messages-IsTallied ms (suc k) (take_message w false m r)
          (take_message-IsTallied k false m r h))

  round_of-IsTallied :
      (m : Fields) (ms : List Fields) → IsTallied n (1 + length ms) (round_of w n (m, ms))
  unfolding round_of end_round open_round
  round_of-IsTallied m ms =
      take_messages-IsTallied ms 1 _ (
        take_message-IsTallied 0 true m (open_round w n m) (tt, tt, tt, tt, refl, refl, refl, refl))

-- The rounds are tallied, numbered from `n` on, and have the messages of their segments.
abbrev pub AreTallied : ℕ → List Segment → List Round → Type 0
AreTallied n [] [] = Unit
AreTallied n ((m, ms) ∷ rest) (r ∷ rs) = IsTallied n (1 + length ms) r × AreTallied (suc n) rest rs
AreTallied n _ _ = ⊥

module _ (w : Libraries) where
  rounds_of-AreTallied : (n : ℕ) (cut : List Segment) → AreTallied n cut (rounds_of w n cut)
  unfolding rounds_of
  rounds_of-AreTallied n [] = tt
  rounds_of-AreTallied n ((m, ms) ∷ rest) =
      (round_of-IsTallied w n m ms, rounds_of-AreTallied (suc n) rest)

  pub split_rounds-AreTallied :
      (ms : List Fields) → AreTallied 1 (segments w ms) (split_rounds w ms)
  split_rounds-AreTallied ms =
      subst (AreTallied 1 (segments w ms)) (sym (split_rounds-segments w ms).0)
        (rounds_of-AreTallied 1 (segments w ms))
