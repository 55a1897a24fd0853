-- ===== src/Rounds/Segments.antt =====
-- The rounds of a session are its messages cut at each question of the user.
use agent_session_query.Prelude.{
  ℕ, suc, ◌+◌, Bool, true, false, List, [], ◌∷◌, ◌++◌, none, some, length, if◌then◌else◌, ◌≡◌, refl,
  ap, ◌∙◌, inl, inr, Bool-cases, length-append, append_assoc, arith,
}
use agent_session_query.Json.{Fields}
use agent_session_query.Rounds.{
  Round, Split, split_rounds, split_from, split_step, end_round, take_message, open_round,
}
use agent_session_query.Questions.{Libraries, is_round_start}

-- A question, and the messages behind it up to the next question.
abbrev pub Segment : Type 0
Segment = Fields × List Fields

module _ (w : Libraries) where
  -- The messages up to the next question.
  unfoldable pub behind : List Fields → List Fields
  behind [] = []
  behind (m ∷ ms) = let rest = behind ms in if is_round_start w m then [] else m ∷ rest

  unfoldable pub segments : List Fields → List Segment
  segments [] = []
  segments (m ∷ ms) =
      let rest = segments ms in if is_round_start w m then (m, behind ms) ∷ rest else rest

  unfoldable pub take_messages : List Fields → Round → Round
  take_messages [] r = r
  take_messages (m ∷ ms) r = take_messages ms (take_message w false m r)

  abbrev pub is_nil : List Fields → Bool
  is_nil [] = true
  is_nil (m ∷ ms) = false

  -- The round of a segment. When nothing stands behind the question, nobody answered it.
  unfoldable pub round_of : ℕ → Segment → Round
  round_of index (m, ms) =
      end_round (is_nil ms) (take_messages ms (take_message w true m (open_round w index m)))

  unfoldable pub rounds_of : ℕ → List Segment → List Round
  rounds_of index [] = []
  rounds_of index (segment ∷ rest) = round_of index segment ∷ rounds_of (suc index) rest

  -- Nobody answered the last question when nothing stands behind it.
  abbrev last_round : Bool → Round → List Fields → Round
  last_round human_last r ms =
      end_round (if is_nil ms then human_last else false) (take_messages ms r)

  abbrev within : List Round → Round → Bool → Split
  within done r human_last = record { rounds = done; cur = some r; human_last = human_last }

  round_of-last :
      (n : ℕ) (m : Fields) (ms : List Fields)
      → last_round true (take_message w true m (open_round w n m)) ms ≡ round_of n (m, ms)
  unfolding round_of
  round_of-last n m [] = refl
  round_of-last n m (x ∷ xs) = refl

  last_round-false :
      (r : Round) (m : Fields) (ms : List Fields) (h : Bool)
      → last_round false (take_message w false m r) ms ≡ last_round h r (m ∷ ms)
  unfolding take_messages
  last_round-false r m [] h = refl
  last_round-false r m (x ∷ xs) h = refl

  after_start :
      (done : List Round) (r : Round) (m : Fields) (ms : List Fields) (rest : List Round) (n : ℕ)
      → length done + 2 ≡ n
      → (done ++ r ∷ [])
          ++ last_round true
              (take_message w true m (open_round w (length (done ++ r ∷ []) + 1) m))
              ms
            ∷ rest
        ≡ done ++ r ∷ round_of n (m, ms) ∷ rest
  after_start done r m ms rest n e =
      let size : length (done ++ r ∷ []) + 1 ≡ n = omega (arith, e, length-append done (r ∷ [])) in
      rw size (
        ap (λ x. (done ++ r ∷ []) ++ x ∷ rest) (round_of-last n m ms)
        ∙ append_assoc done (r ∷ []) (round_of n (m, ms) ∷ rest))

  start_step :
      (done : List Round) (r : Round) (h : Bool) (m : Fields)
      → is_round_start w m ≡ true
      → split_step w (within done r h) m
        ≡ within
            (done ++ end_round h r ∷ [])
            (take_message w true m (open_round w (length (done ++ end_round h r ∷ []) + 1) m))
            true
  unfolding split_step
  start_step done r h m e = rw e refl

  other_step :
      (done : List Round) (r : Round) (h : Bool) (m : Fields)
      → is_round_start w m ≡ false
      → split_step w (within done r h) m ≡ within done (take_message w false m r) false
  unfolding split_step
  other_step done r h m e = rw e refl

  split_from-segments :
      (done : List Round) (r : Round) (h : Bool) (ms : List Fields) (n : ℕ)
      → length done + 2 ≡ n
      → split_from w (within done r h) ms
        ≡ done ++ last_round h r (behind ms) ∷ rounds_of n (segments ms)
  unfolding split_from behind segments rounds_of take_messages
  split_from-segments done r h [] n e = refl
  split_from-segments done r h (m ∷ ms) n e = elim (Bool-cases (is_round_start w m)) [
    | inl starts ↦
        let size : length (done ++ end_round h r ∷ []) + 2 ≡ suc n =
          omega (arith, e, length-append done (end_round h r ∷ [])) in
        let behind_it =
          split_from-segments (done ++ end_round h r ∷ [])
            (take_message w true m (open_round w (length (done ++ end_round h r ∷ []) + 1) m)) true
            ms (suc n) size in
        rw starts (
          ap (λ s. split_from w s ms) (start_step done r h m starts)
          ∙ (behind_it ∙ after_start done (end_round h r) m (behind ms) _ n e))
    | inr goes_on ↦ rw goes_on (
        ap (λ s. split_from w s ms) (other_step done r h m goes_on)
        ∙ (split_from-segments done (take_message w false m r) false ms n e
            ∙ ap (λ x. done ++ x ∷ rounds_of n (segments ms)) (last_round-false r m (behind ms) h)))
  ]

  none_start :
      (h : Bool) (m : Fields)
      → is_round_start w m ≡ true
      → split_step w (record { rounds = []; cur = none; human_last = h }) m
        ≡ within [] (take_message w true m (open_round w 1 m)) true
  unfolding split_step
  none_start h m e = rw e refl

  none_other :
      (h : Bool) (m : Fields)
      → is_round_start w m ≡ false
      → split_step w (record { rounds = []; cur = none; human_last = h }) m
        ≡ record { rounds = []; cur = none; human_last = h }
  unfolding split_step
  none_other h m e = rw e refl

  split_from-none :
      (ms : List Fields) (h : Bool)
      → split_from w (record { rounds = []; cur = none; human_last = h }) ms
        ≡ rounds_of 1 (segments ms)
  unfolding split_from segments rounds_of
  split_from-none [] h = refl
  split_from-none (m ∷ ms) h = elim (Bool-cases (is_round_start w m)) [
    | inl starts ↦ rw starts (
        ap (λ s. split_from w s ms) (none_start h m starts)
        ∙ (split_from-segments [] (take_message w true m (open_round w 1 m)) true ms 2 refl
            ∙ ap (λ x. x ∷ rounds_of 2 (segments ms)) (round_of-last 1 m (behind ms))))
    | inr goes_on ↦
        rw goes_on (ap (λ s. split_from w s ms) (none_other h m goes_on) ∙ split_from-none ms h)
  ]

  -- The messages from the first question on.
  unfoldable pub from_first : List Fields → List Fields
  from_first [] = []
  from_first (m ∷ ms) = let rest = from_first ms in if is_round_start w m then m ∷ ms else rest

  unfoldable pub all_of : List Segment → List Fields
  all_of [] = []
  all_of ((m, ms) ∷ rest) = m ∷ (ms ++ all_of rest)

  behind-segments : (ms : List Fields) → behind ms ++ all_of (segments ms) ≡ ms
  unfolding behind segments all_of
  behind-segments [] = refl
  behind-segments (m ∷ ms) = elim (Bool-cases (is_round_start w m)) [
    | inl starts ↦ rw starts (ap (λ x. m ∷ x) (behind-segments ms))
    | inr goes_on ↦ rw goes_on (ap (λ x. m ∷ x) (behind-segments ms))
  ]

  all_of-segments : (ms : List Fields) → all_of (segments ms) ≡ from_first ms
  unfolding segments all_of from_first
  all_of-segments [] = refl
  all_of-segments (m ∷ ms) = elim (Bool-cases (is_round_start w m)) [
    | inl starts ↦ rw starts (ap (λ x. m ∷ x) (behind-segments ms))
    | inr goes_on ↦ rw goes_on (all_of-segments ms)
  ]

  -- Splitting messages into rounds gives the round of each segment, numbered from 1, where a
  -- segment is a question with the messages behind it up to the next question, and a round takes
  -- its segment's messages one by one and is interrupted when nothing stands behind the question.
  -- The segments joined are the messages from the first question on.
  pub split_rounds-segments :
      (ms : List Fields)
      → (split_rounds w ms ≡ rounds_of 1 (segments ms)) × (all_of (segments ms) ≡ from_first ms)
  unfolding split_rounds
  split_rounds-segments ms = (split_from-none ms false, all_of-segments ms)
