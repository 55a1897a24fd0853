-- ===== src/Json.antt =====
-- The dynamically typed values of internal/source (Go's `any` as encoding/json fills it), the
-- conversions of internal/source/record.go, and what the model takes from Go's runtime.
use agent_session_query.Prelude.{
  ℕ, zero, suc, ◌+◌, ◌/◌, ◌%◌, ◌^◌, Bool, true, false, not, ◌||◌, List, [], ◌∷◌, Option, none, some,
  Bytes, codes, Time, ◌==◌, ltb, if◌then◌else◌, bytes_eq,
}
use agent_session_query.Prelude.Int.{ℤ, pos, negsuc}

-- A float64 is its bit pattern. A Go map's entries stand in some order.
mutual
  pub data Value : Type 0 where
    null : Value
    bool : Bool → Value
    str : Bytes → Value
    float : ℕ → Value
    int : ℤ → Value
    arr : Items → Value
    obj : Fields → Value

  pub data Items : Type 0 where
    nil : Items
    cons : Value → Items → Items

  pub data Fields : Type 0 where
    end : Fields
    field : Bytes → Value → Fields → Fields

-- Parts of Go's standard library that rest on float64 arithmetic, the calendar or the Unicode
-- tables, and `epochToTime`, which is float64 arithmetic.
pub record Runtime : Type 0 where
  -- strconv.FormatFloat(t, 'f', -1, 64)
  pub format_float : ℕ → Bytes
  -- strconv.ParseFloat(s, 64)
  pub parse_float : Bytes → Option ℕ
  -- time.Parse(layout, s)
  pub parse_layout : Bytes → Bytes → Option Time
  pub epoch_to_time : ℕ → Option Time
  -- strings.TrimSpace
  pub trim_space : Bytes → Bytes
  -- strings.ToLower
  pub to_lower : Bytes → Bytes

-- m[key], which is nil when the key is missing
unfoldable pub get : Fields → Bytes → Value
get end key = null
get (field k v fs) key = if bytes_eq k key then v else get fs key

-- GetOr: v, ok := m[key]
unfoldable pub get_or : Fields → Bytes → Value → Value
get_or end key def = def
get_or (field k v fs) key def = if bytes_eq k key then v else get_or fs key def

-- The digits of `n` before `out`, on fuel: each round divides `n` by ten.
decimal_digits : ℕ → ℕ → Bytes → Bytes
decimal_digits zero n out = out
decimal_digits (suc f) n out =
    let more = decimal_digits f (n / 10) ((b'0' + n % 10) ∷ out) in
    if ltb n 10 then (b'0' + n) ∷ out else more

-- strconv.Itoa
unfoldable pub decimal : ℤ → Bytes
unfolding decimal_digits
decimal (pos n) = decimal_digits (suc n) n []
decimal (negsuc n) = b'-' ∷ decimal_digits (suc (suc n)) (suc n) []

-- float64 zero: both signs
is_float_zero : ℕ → Bool
is_float_zero bits = bits == 0 || bits == 2 ^ 63

-- Truthy
unfoldable pub truthy : Value → Bool
unfolding is_float_zero
truthy null = false
truthy (bool b) = b
truthy (str s) = not (bytes_eq s [])
truthy (float bits) = not (is_float_zero bits)
truthy (int (pos n)) = not (n == 0)
truthy (int (negsuc n)) = true
truthy (arr nil) = false
truthy (arr (cons v vs)) = true
truthy (obj end) = false
truthy (obj (field k v fs)) = true

module _ (rt : Runtime) where
  -- ToStr
  unfoldable pub to_str : Value → Bytes
  to_str null = []
  to_str (str s) = s
  to_str (bool true) = codes "True"
  to_str (bool false) = codes "False"
  to_str (float bits) = rt.format_float bits
  to_str (int n) = decimal n
  to_str (arr vs) = []
  to_str (obj fs) = []

  -- StrOr
  unfoldable pub str_or : Value → Bytes → Bytes
  unfolding truthy to_str
  str_or v def = if truthy v then to_str v else def

  -- The first layout that parses wins.
  parse_layouts : List Bytes → Bytes → Option Time
  parse_layouts [] s = none
  parse_layouts (l ∷ ls) s = elim (rt.parse_layout l s) [
    | some t ↦ some t
    | none ↦ parse_layouts ls s
  ]

-- getMap
unfoldable pub get_map : Fields → Bytes → Fields
unfolding get
get_map m key = elim (get m key) [ obj fs ↦ fs | _ ↦ end ]

-- getSlice; a nil slice and an empty one are read alike
unfoldable pub get_slice : Fields → Bytes → Items
unfolding get
get_slice m key = elim (get m key) [ arr vs ↦ vs | _ ↦ nil ]

-- strField
unfoldable pub str_field : Fields → Bytes → Bytes
unfolding get
str_field m key = elim (get m key) [ str s ↦ s | _ ↦ [] ]

abbrev time_layouts : List Bytes
time_layouts =
    codes "2006-01-02T15:04:05.999999999Z07:00"
    ∷ codes "2006-01-02T15:04:05"
    ∷ codes "2006-01-02 15:04:05.999999999"
    ∷ codes "2006-01-02 15:04:05"
    ∷ []

module _ (rt : Runtime) where
  -- ParseTimestamp
  unfoldable pub parse_timestamp : Bytes → Option Time
  unfolding parse_layouts
  parse_timestamp raw =
      let s = rt.trim_space raw in
      if bytes_eq s [] then none else elim (parse_layouts rt time_layouts s) [
        | some t ↦ some t
        | none ↦ elim (rt.parse_float s) [ some sec ↦ rt.epoch_to_time sec | none ↦ none ]
      ]

  -- parseTimestampValue; the conversion of an int to float64 is `float_of_int`
  unfoldable pub parse_timestamp_value : (ℤ → ℕ) → Value → Option Time
  unfolding parse_timestamp
  parse_timestamp_value float_of_int (str s) = parse_timestamp s
  parse_timestamp_value float_of_int (float bits) = rt.epoch_to_time bits
  parse_timestamp_value float_of_int (int n) = rt.epoch_to_time (float_of_int n)
  parse_timestamp_value float_of_int _ = none

-- m[key] = v
unfoldable pub put : Fields → Bytes → Value → Fields
put end key v = field key v end
put (field k w fs) key v = if bytes_eq k key then field k v fs else field k w (put fs key v)
