-- ===== src/Usage.antt =====
-- internal/source/usage.go: the counters of the providers under one set of names, and their sum.
use agent_session_query.Prelude.{
  ℕ, Bool, true, false, ◌||◌, List, [], ◌∷◌, Option, none, some, Bytes, codes, if◌then◌else◌,
  bytes_eq, replace_byte,
}
use agent_session_query.Prelude.Int.{ℤ}
use agent_session_query.Prelude.Assoc.{Assoc, lookup}
use agent_session_query.Json.{Runtime, Value, float, int, obj, Fields, end, field, get, put}

-- float64 arithmetic on bit patterns
pub record Floats : Type 0 where
  pub add : ℕ → ℕ → ℕ
  -- float64(n)
  pub of_int : ℤ → ℕ
  -- int64(x)
  pub to_int : ℕ → ℤ

-- The shared names
abbrev pub usage_order : List Bytes
usage_order =
    codes "inputTokens"
    ∷ codes "outputTokens"
    ∷ codes "cacheReadTokens"
    ∷ codes "cacheWriteTokens"
    ∷ codes "reasoningTokens"
    ∷ codes "totalTokens"
    ∷ codes "estimatedCostUsd"
    ∷ []

abbrev pub cost_name : Bytes
cost_name = codes "estimatedCostUsd"

abbrev usage_field_aliases : Assoc Bytes
usage_field_aliases =
    (codes "inputtokens", codes "inputTokens")
    ∷ (codes "input", codes "inputTokens")
    ∷ (codes "prompttokens", codes "inputTokens")
    ∷ (codes "outputtokens", codes "outputTokens")
    ∷ (codes "output", codes "outputTokens")
    ∷ (codes "completiontokens", codes "outputTokens")
    ∷ (codes "cachereadinputtokens", codes "cacheReadTokens")
    ∷ (codes "cachedinputtokens", codes "cacheReadTokens")
    ∷ (codes "cacheread", codes "cacheReadTokens")
    ∷ (codes "cached", codes "cacheReadTokens")
    ∷ (codes "cachedtokens", codes "cacheReadTokens")
    ∷ (codes "cachedreadtokens", codes "cacheReadTokens")
    ∷ (codes "cachereadtokens", codes "cacheReadTokens")
    ∷ (codes "cachecreationinputtokens", codes "cacheWriteTokens")
    ∷ (codes "cachewriteinputtokens", codes "cacheWriteTokens")
    ∷ (codes "cachewrite", codes "cacheWriteTokens")
    ∷ (codes "cachecreationtokens", codes "cacheWriteTokens")
    ∷ (codes "cachewritetokens", codes "cacheWriteTokens")
    ∷ (codes "reasoningtokens", codes "reasoningTokens")
    ∷ (codes "reasoningoutputtokens", codes "reasoningTokens")
    ∷ (codes "reasoning", codes "reasoningTokens")
    ∷ (codes "thoughts", codes "reasoningTokens")
    ∷ (codes "totaltokens", codes "totalTokens")
    ∷ (codes "total", codes "totalTokens")
    ∷ (codes "estimatedcostusd", codes "estimatedCostUsd")
    ∷ (codes "costusd", codes "estimatedCostUsd")
    ∷ []

-- What one entry of a provider's object says: a shared name and its value, or nothing.
abbrev pub Said : Type 0
Said = Option (Bytes × Value)

module _ (fl : Floats) where
  -- ToFloat
  unfoldable pub to_float : Value → Option ℕ
  to_float (float bits) = some bits
  to_float (int n) = some (fl.of_int n)
  to_float _ = none

  unfoldable pub is_number : Value → Bool
  unfolding to_float
  is_number v = elim (to_float v) [ some x ↦ true | none ↦ false ]

  abbrev pub counted : Bytes → Value → Said
  counted name v = if is_number v then some (name, v) else none

  -- An entry named cost or costs: a nested total, or the number itself.
  unfoldable pub cost_of : Value → Said
  unfolding to_float
  cost_of (obj nested) = elim (to_float (get nested (codes "total"))) [
    | some x ↦ some (cost_name, float x)
    | none ↦ none
  ]
  cost_of v = counted cost_name v

  unfoldable pub read_entry : Runtime → Bytes → Value → Said
  unfolding is_number
  read_entry rt key v =
      let folded = replace_byte b'_' [] (rt.to_lower key) in
      elim (lookup folded usage_field_aliases) [
        | some name ↦ counted name v
        | none ↦
            if bytes_eq folded (codes "cost") || bytes_eq folded (codes "costs")
            then cost_of v
            else none
      ]

  abbrev pub write_said : Said → Fields → Fields
  write_said none out = out
  write_said (some (name, v)) out = put out name v

  -- The entries in the order in which `range` meets them.
  unfoldable pub normalize_entries : Runtime → Fields → Fields → Fields
  normalize_entries rt end out = out
  normalize_entries rt (field key v raw) out =
      normalize_entries rt raw (write_said (read_entry rt key v) out)

  -- normalizeUsage
  unfoldable pub normalize_usage : Runtime → Fields → Fields
  normalize_usage rt raw = normalize_entries rt raw end

  -- UsageOf; a nil map and an empty one are read alike
  unfoldable pub usage_of : Runtime → Value → Fields
  usage_of rt (obj raw) = normalize_usage rt raw
  usage_of rt _ = end

  -- sums[name] += x
  unfoldable pub add_to : Bytes → ℕ → Assoc ℕ → Assoc ℕ
  add_to name x [] = (name, fl.add 0 x) ∷ []
  add_to name x ((other, sum) ∷ sums) =
      let rest = add_to name x sums in
      if bytes_eq other name then (other, fl.add sum x) ∷ sums else (other, sum) ∷ rest

  -- for name, value := range usage { if n, ok := ToFloat(value); ok { sums[name] += n } }
  unfoldable pub add_usage : Fields → Assoc ℕ → Assoc ℕ
  add_usage end sums = sums
  add_usage (field name v usage) sums =
      add_usage usage (elim (to_float v) [ some x ↦ add_to name x sums | none ↦ sums ])

-- usageTotals
pub record UsageTotals : Type 0 where
  pub sums : Assoc ℕ
  pub seen : Bool

abbrev pub no_totals : UsageTotals
no_totals = record { sums = []; seen = false }

abbrev add_known : Floats → Fields → UsageTotals → UsageTotals
add_known fl end t = t
add_known fl (field name v usage) t = record {
  sums = add_usage fl (field name v usage) t.sums;
  seen = true;
}

-- usageTotals.add
unfoldable pub add_message : Floats → Runtime → UsageTotals → Fields → UsageTotals
add_message fl rt t raw = add_known fl (normalize_usage fl rt raw) t

abbrev total_value : Floats → Bytes → ℕ → Value
total_value fl name sum = if bytes_eq name cost_name then float sum else int (fl.to_int sum)

unfoldable pub totals_in_order : Floats → Assoc ℕ → List Bytes → Fields
totals_in_order fl sums [] = end
totals_in_order fl sums (name ∷ names) = elim (lookup name sums) [
  | some sum ↦ field name (total_value fl name sum) (totals_in_order fl sums names)
  | none ↦ totals_in_order fl sums names
]

-- usageTotals.result; a nil map and an empty one are read alike
unfoldable pub usage_result : Floats → UsageTotals → Fields
unfolding totals_in_order
usage_result fl t = if t.seen then totals_in_order fl t.sums usage_order else end
