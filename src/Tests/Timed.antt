-- ===== src/Tests/Timed.antt =====
-- A timed answer at a concrete run.
use agent_session_query.Prelude.{ℕ, true, [], ◌∷◌, ◌≡◌, refl, arith, Time}
use agent_session_query.Api.Timed.{
  Entry, ask, bank_answer, Turns, still, turn, passes, asks, answers, new_entry,
}
use agent_session_query.Api.Timed.Recent.{IsTimed, new_entry-Turns}

-- An answer that says when its computation ended.
abbrev ended : Time → Time → ℕ
ended from to = to

abbrev asked : Entry ℕ
asked = ask 10 (new_entry 3)

abbrev waited : Entry ℕ
waited = record asked { now = 7 }

abbrev answered : Entry ℕ
answered = bank_answer ended 3 [] waited

abbrev asked_again : Entry ℕ
asked_again = ask 10 (record answered { now = 12 })

-- The second question is answered from the entry.
served_again :
    asked_again.served ≡ record { time = 12; answer = 7 } ∷ record { time = 7; answer = 7 } ∷ []
unfolding ask bank_answer
served_again = refl

run : Turns 10 ended true (new_entry 3) asked_again
unfolding ask bank_answer
run =
    turn (new_entry 3) (record answered { now = 12 }) asked_again
      (turn (new_entry 3) answered (record answered { now = 12 })
        (turn (new_entry 3) waited answered
          (turn (new_entry 3) asked waited
            (turn (new_entry 3) (new_entry 3) asked (still (new_entry 3))
              (asks (new_entry 3) (λ l. refl)))
            (passes asked 7 (omega arith)))
          (answers waited [] 3 [] refl))
        (passes answered 12 (omega arith)))
      (asks (record answered { now = 12 }) (λ l. refl))

new_entry-Turns_example : IsTimed 10 ended true asked_again
new_entry-Turns_example = new_entry-Turns 10 ended true 3 asked_again (omega arith) run
