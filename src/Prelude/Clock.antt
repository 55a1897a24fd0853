-- ===== src/Prelude/Clock.antt =====
-- Instants. Go's `time.Time` as nanoseconds from a point 720 days before its zero time, so that
-- every time its parsers return (years 0 to 9999, any offset) is a natural number.
use Prim.Native.Nat.{ℕ, ◌*◌, ◌^◌}
use mathlib.Core.Bool.{Bool}
use agent_session_query.Prelude.Tests.{ltb, ◌==◌}

abbrev pub Time : Type 0
Time = ℕ

abbrev pub zero_time : Time
zero_time = 720 * 86400 * 10 ^ 9

-- t.IsZero()
abbrev pub is_zero : Time → Bool
is_zero t = t == zero_time

-- t.After(u)
abbrev pub after : Time → Time → Bool
after t u = ltb u t

-- t.Before(u)
abbrev pub before : Time → Time → Bool
before t u = ltb t u
