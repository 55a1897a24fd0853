-- ===== src/Paging/Args.antt =====
-- internal/app/mcp.go: the arguments of a tool call, and the cut of list_sessions at a limit.
pub mod Bounds
use agent_session_query.Prelude.{
  ℕ, ◌&&◌, Bool, true, false, List, [], ◌∷◌, Option, none, some, Bytes, ltb, if◌then◌else◌,
  bytes_eq, codes, ◌||◌, take, length,
}
use agent_session_query.Prelude.Int.{ℤ, pos, negsuc}
use agent_session_query.Usage.{Floats, to_float}
use agent_session_query.Json.{Runtime, Value, bool, str, Fields, get, to_str}

-- A nil map of arguments reads as an empty one.
module _ (rt : Runtime) where
  unfoldable pub arg_string : Fields → Bytes → Bytes
  arg_string args key = to_str rt (get args key)

  unfoldable pub flag_of : Bytes → Bool
  flag_of raw =
      let v = rt.to_lower (rt.trim_space raw) in
      bytes_eq v (codes "1") || (bytes_eq v (codes "true") || bytes_eq v (codes "yes"))

  unfoldable pub arg_bool : Fields → Bytes → Bool
  arg_bool args key = elim (get args key) [ bool b ↦ b | str s ↦ flag_of s | _ ↦ false ]

abbrev pub or_int : ℕ → Option ℤ → ℤ
or_int def none = pos def
or_int def (some n) = n

-- max > 0 && n > max
abbrev pub clamped : ℕ → ℤ → ℤ
clamped max (pos n) = if ltb 0 max && ltb max n then pos max else pos n
clamped max (negsuc n) = negsuc n

-- `is_nonneg` is v >= 0, and `to_int` of the floats is int(v). The conversion of a float64 that no int
-- holds is left to the implementation; on amd64 it is the least int.
module _ (fl : Floats) (is_nonneg : ℕ → Bool) where
  -- v, ok := ToFloat(args[key]); ok && v >= 0
  abbrev pub given_int : Option ℕ → Option ℤ
  given_int none = none
  given_int (some v) = if is_nonneg v then some (fl.to_int v) else none

  -- A nil map of arguments gives the default too.
  unfoldable pub arg_int : Fields → Bytes → ℕ → ℕ → ℤ
  arg_int args key def max = clamped max (or_int def (given_int (to_float fl (get args key))))

-- sessions[:limit] where there are more; `none`: the slice panics on a negative bound.
unfoldable pub cut_sessions : {A : Type 0} → List A → ℤ → Option (List A)
cut_sessions sessions (pos n) = some (if ltb n (length sessions) then take n sessions else sessions)
cut_sessions sessions (negsuc n) = none
