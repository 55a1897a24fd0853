-- ===== src/Tests/Args.antt =====
-- The limit of a tool call at concrete inputs.
use agent_session_query.Prelude.{
  ℕ, Bool, true, ◌+◌, ltb, if◌then◌else◌, List, ◌-◌, ◌^◌, [], ◌∷◌, none, ◌≡◌, refl, arith, codes,
  bytes_eq,
}
use agent_session_query.Prelude.Int.{ℤ, pos, negsuc}
use agent_session_query.Json.{Value, float, int, Fields, field, end, get}
use agent_session_query.Usage.{Floats, to_float}
use agent_session_query.Paging.Args.{arg_int, cut_sessions}
use agent_session_query.Paging.Args.Bounds.{Cuts, cut_sessions-arg_int}

-- Numbers that stand for themselves up to 2 ^ 62; above it the least int, as on amd64.
abbrev fits : ℕ → Bool
fits v = ltb v (2 ^ 62)

abbrev is_nonneg : ℕ → Bool
is_nonneg v = ltb v (2 ^ 63)

abbrev magnitude : ℤ → ℕ
magnitude (pos n) = n
magnitude (negsuc n) = 2 ^ 63 + n

abbrev floats : Floats
floats = record {
  add = λ x y. x + y;
  of_int = magnitude;
  to_int = λ v. if fits v then pos v else negsuc (2 ^ 63 - 1);
}

exact : (v : ℕ) → is_nonneg v ≡ true → fits v ≡ true → (n : ℕ) × (floats.to_int v ≡ pos n)
exact v nonneg holds = (v, rw holds refl)

abbrev limited : Value → Fields
limited v = field (codes "limit") v end

abbrev three : List ℕ
three = 1 ∷ 2 ∷ 3 ∷ []

too_large :
    cut_sessions three (arg_int floats is_nonneg (limited (float (2 ^ 62))) (codes "limit") 20 2)
    ≡ none
unfolding cut_sessions arg_int get bytes_eq to_float
too_large = refl

cut_sessions-arg_int_example :
    Cuts floats is_nonneg fits 2
      (get (limited (int (pos 9))) (codes "limit"))
      (cut_sessions three (arg_int floats is_nonneg (limited (int (pos 9))) (codes "limit") 20 2))
cut_sessions-arg_int_example =
    cut_sessions-arg_int floats is_nonneg fits exact (limited (int (pos 9))) (codes "limit") 20 2
      three (omega arith)
