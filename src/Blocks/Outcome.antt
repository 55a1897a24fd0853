-- ===== src/Blocks/Outcome.antt =====
-- What a reader learns of a tool call, and what a cut keeps.
use agent_session_query.Prelude.{
  ℕ, zero, suc, ◌+◌, ◌<◌, Bool, true, false, not, ◌&&◌, ◌||◌, List, [], ◌∷◌, ◌++◌, some, ◌≡◌, refl,
  ap, sym, ◌∙◌, arith, Bool-cases, inl, inr, Bytes, codes, leb, if◌then◌else◌, bytes_eq,
  bytes_eq_iff, bytes_eq_refl, take, drop, length, length-append, take-append, append_assoc,
}
use agent_session_query.Prelude.Int.{is_nonpos}
use agent_session_query.Json.{
  Runtime, Value, null, bool, int, str, Fields, end, field, get, put, to_str,
}
use agent_session_query.Record.{is_empty}
use agent_session_query.Blocks.{
  tool_result_limit, rune_start, truncate, clip, truncation_mark, tool_result_block, ToolOutcome,
  status_of, apply_outcome, is_failed_result, is_zero_int, status_error, status_interrupted,
}

abbrev pub joined : List Bytes → Bytes
joined [] = []
joined (r ∷ rs) = r ++ joined rs

pub get-put :
    (fs : Fields) (k j : Bytes) (v : Value)
    → get (put fs k v) j ≡ (if bytes_eq k j then v else get fs j)
unfolding get put
get-put end k j v = refl
get-put (field i w fs) k j v =
    ground (arith, bytes_eq_iff k j, bytes_eq_iff i k, bytes_eq_iff i j, get-put fs k j v)

rune_start_lem :
    (rs : List Bytes) (n i : ℕ)
    → n < length rs
    → rune_start rs n i ≡ some (i + length (joined (take n rs)))
unfolding rune_start
rune_start_lem [] n i lt = absurd (omega (arith, lt))
rune_start_lem (r ∷ rs) zero i lt = ap some (omega arith)
rune_start_lem (r ∷ rs) (suc n) i lt =
    rune_start_lem rs n (i + length r) (omega (arith, lt))
    ∙ ap some (omega (arith, length-append r (joined (take n rs))))

joined_split : (n : ℕ) (rs : List Bytes) → joined rs ≡ joined (take n rs) ++ joined (drop n rs)
joined_split zero rs = refl
joined_split (suc n) [] = refl
joined_split (suc n) (r ∷ rs) =
    ap (λ t. r ++ t) (joined_split n rs)
    ∙ sym (append_assoc r (joined (take n rs)) (joined (drop n rs)))

take-joined :
    (n : ℕ) (rs : List Bytes) → take (length (joined (take n rs))) (joined rs) ≡ joined (take n rs)
take-joined n rs =
    ap (take (length (joined (take n rs)))) (joined_split n rs)
    ∙ take-append (joined (take n rs)) (joined (drop n rs))

-- When a text's characters join to the text, the cut is the text itself on a full read or when it
-- has no more characters than the limit, and otherwise the first characters up to the limit and the
-- mark.
pub clip_lem :
    (runes : Bytes → List Bytes) (text : Bytes) (limit : ℕ) (full : Bool)
    → joined (runes text) ≡ text
    → clip runes text limit full ≡ (
        if full || leb (length (runes text)) limit
        then (text, false)
        else (joined (take limit (runes text)) ++ truncation_mark, true))
unfolding clip truncate
clip_lem runes text limit full whole = elim (Bool-cases (full || leb (length (runes text)) limit)) [
  | inl short ↦ rw short refl
  | inr long ↦
      let over : leb (length (runes text)) limit ≡ false = ground (arith, long) in
      let cut : take (0 + length (joined (take limit (runes text)))) text
          ≡ joined (take limit (runes text)) =
        ap (λ n. take n text) {x = 0 + length (joined (take limit (runes text)))} (omega arith)
        ∙ ap (take (length (joined (take limit (runes text))))) (sym whole)
        ∙ take-joined limit (runes text) in
      rw (long, over)
        (rw (rune_start_lem (runes text) limit 0 (ground (arith, over)))
          (ap (λ t. (t ++ truncation_mark, true)) cut))
]

-- An outcome that is a failure.
abbrev pub fails : ToolOutcome → Bool
fails o =
    (bytes_eq o.status status_error || bytes_eq o.status status_interrupted)
    || (is_empty o.status && (o.has_exit && not (is_zero_int o.exit_code)))

pub kept_unless :
    (c : Bool) (fs : Fields) (k j : Bytes) (v : Value)
    → bytes_eq k j ≡ false
    → get (if c then fs else put fs k v) j ≡ get fs j
kept_unless true fs k j v other = refl
kept_unless false fs k j v other = get-put fs k j v ∙ rw other refl

pub kept_if :
    (c : Bool) (fs : Fields) (k j : Bytes) (v : Value)
    → bytes_eq k j ≡ false
    → get (if c then put fs k v else fs) j ≡ get fs j
kept_if true fs k j v other = get-put fs k j v ∙ rw other refl
kept_if false fs k j v other = refl

-- What the outcome does not write.
with_status : ToolOutcome → Fields → Fields
with_status o block =
    if is_empty (status_of o) then block else put block (codes "status") (str (status_of o))

others_kept :
    (o : ToolOutcome) (block : Fields) (j : Bytes)
    → bytes_eq (codes "exitCode") j ≡ false
    → bytes_eq (codes "durationMs") j ≡ false
    → get (apply_outcome o block) j ≡ get (with_status o block) j
unfolding apply_outcome with_status
others_kept o block j exit duration =
    let b = with_status o block in
    let b' = if o.has_exit then put b (codes "exitCode") (int o.exit_code) else b in
    kept_unless (is_nonpos o.duration_ms) b' (codes "durationMs") j (int o.duration_ms) duration
    ∙ kept_if o.has_exit b (codes "exitCode") j (int o.exit_code) exit

new_block :
    (runes : Bytes → List Bytes) (call_id tool_name content : Bytes) (full : Bool)
    → (get (tool_result_block runes call_id tool_name content full) (codes "type")
        ≡ str (codes "toolResult"))
      × (get (tool_result_block runes call_id tool_name content full) (codes "status") ≡ null)
unfolding tool_result_block get bytes_eq
new_block runes call_id tool_name content full =
    let cut = clip runes content tool_result_limit full in
    let block : Fields =
      field (codes "type") (str (codes "toolResult"))
        (field (codes "toolName") (str tool_name) (field (codes "content") (str cut.0) end)) in
    let named : Fields =
      if is_empty call_id then block else put block (codes "callId") (str call_id) in
    (
      kept_if cut.1 named (codes "truncated") (codes "type") (bool true) refl
          ∙ kept_unless (is_empty call_id) block (codes "callId") (codes "type") (str call_id) refl,
      kept_if cut.1 named (codes "truncated") (codes "status") (bool true) refl
          ∙ kept_unless (is_empty call_id) block (codes "callId") (codes "status") (str call_id)
              refl,
    )

status_put :
    (c : Bool) (block : Fields) (s : Bytes)
    → get block (codes "status") ≡ null
    → get (if c then block else put block (codes "status") (str s)) (codes "status")
      ≡ (if c then null else str s)
status_put true block s gone = gone
status_put false block s gone =
    get-put block (codes "status") (codes "status") (str s)
    ∙ rw (bytes_eq_refl (codes "status")) refl

read_status : (rt : Runtime) (s : Bytes) → to_str rt (if is_empty s then null else str s) ≡ s
unfolding to_str is_empty bytes_eq
read_status rt [] = refl
read_status rt (c ∷ s) = refl

status_fails :
    (o : ToolOutcome)
    → (bytes_eq (status_of o) status_error || bytes_eq (status_of o) status_interrupted) ≡ fails o
unfolding status_of
status_fails o =
    elim (Bool-cases (is_empty o.status && (o.has_exit && not (is_zero_int o.exit_code)))) [
      | inl exit ↦ rw exit (ground (arith, bytes_eq_refl status_error))
      | inr said ↦ rw said (ground arith)
    ]

-- A new tool result with an outcome written onto it is read as failed exactly when the outcome's
-- status is error or interrupted, or it has no status and an exit code that is not zero; whatever
-- the call's id, the tool, the content and its cut.
pub is_failed_result-apply_outcome :
    (rt : Runtime) (runes : Bytes → List Bytes) (o : ToolOutcome)
    (call_id tool_name content : Bytes) (full : Bool)
    → is_failed_result rt (apply_outcome o (tool_result_block runes call_id tool_name content full))
      ≡ fails o
unfolding is_failed_result bytes_eq to_str with_status status_of
is_failed_result-apply_outcome rt runes o call_id tool_name content full =
    let block = tool_result_block runes call_id tool_name content full in
    let (is_result, no_status) = new_block runes call_id tool_name content full in
    let type_is : get (apply_outcome o block) (codes "type") ≡ str (codes "toolResult") =
      others_kept o block (codes "type") refl refl
      ∙ kept_unless (is_empty (status_of o)) block (codes "status") (codes "type")
          (str (status_of o)) refl
      ∙ is_result in
    let status_is : get (apply_outcome o block) (codes "status")
        ≡ (if is_empty (status_of o) then null else str (status_of o)) =
      others_kept o block (codes "status") refl refl
      ∙ status_put (is_empty (status_of o)) block (status_of o) no_status in
    let reads : to_str rt (get (apply_outcome o block) (codes "status")) ≡ status_of o =
      ap (to_str rt) status_is ∙ read_status rt (status_of o) in
    rw type_is (rw reads (status_fails o))
