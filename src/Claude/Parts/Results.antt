-- ===== src/Claude/Parts/Results.antt =====
-- The block of a tool's result, and the status that is put on it.
use mathlib.Core.Path.{subst}
use agent_session_query.Prelude.{
  sym, ap, bytes_eq_refl, ◌∷◌, Bool, true, false, List, [], Bytes, codes, if◌then◌else◌, bytes_eq,
  ◌≡◌, refl, ◌∙◌,
}
use agent_session_query.Prelude.Int.{pos}
use agent_session_query.Json.{Value, null, bool, str, Fields, end, field, get, put}
use agent_session_query.Record.{is_empty}
use agent_session_query.Blocks.{
  tool_result_block, apply_outcome, status_from_error, status_interrupted, ToolOutcome, clip,
  tool_result_limit, status_of,
}
use agent_session_query.Blocks.Outcome.{get-put}

-- A value that is left out when it is empty.
abbrev pub or_missing : Bytes → Value
or_missing s = if is_empty s then null else str s

-- A new block of a result: its own fields, whatever marks are put on it.
unfoldable pub IsResult : Bytes → Bytes → Fields → Type 0
IsResult id content block =
    (get block (codes "type") ≡ str (codes "toolResult"))
    × (get block (codes "callId") ≡ or_missing id)
    × (get block (codes "content") ≡ str content)

pub put-IsResult :
    (id content key : Bytes) (v : Value) (block : Fields)
    → bytes_eq key (codes "type") ≡ false
    → bytes_eq key (codes "callId") ≡ false
    → bytes_eq key (codes "content") ≡ false
    → IsResult id content block
    → IsResult id content (put block key v)
unfolding IsResult
put-IsResult id content key v block no_type no_id no_content (t, n, c) = (
  get-put block key (codes "type") v ∙ (rw no_type t),
  get-put block key (codes "callId") v ∙ (rw no_id n),
  get-put block key (codes "content") v ∙ (rw no_content c),
)

pub choose-IsResult :
    (test : Bool) (id content : Bytes) (a b : Fields)
    → IsResult id content a
    → IsResult id content b
    → IsResult id content (if test then a else b)
choose-IsResult true id content a b ha hb = ha
choose-IsResult false id content a b ha hb = hb

abbrev unnamed : Bytes → Bytes → Fields
unnamed name content =
    field (codes "type") (str (codes "toolResult"))
      (field (codes "toolName") (str name) (field (codes "content") (str content) end))

with_id-IsResult :
    (id name content : Bytes)
    → IsResult id content (
        if is_empty id
        then unnamed name content
        else put (unnamed name content) (codes "callId") (str id))
unfolding IsResult get put bytes_eq
with_id-IsResult [] name content = (refl, refl, refl)
with_id-IsResult (c ∷ id) name content = (refl, refl, refl)

pub tool_result_block-IsResult :
    (runes : Bytes → List Bytes) (call_id name content : Bytes) (full : Bool)
    → IsResult call_id
        (clip runes content tool_result_limit full).0
        (tool_result_block runes call_id name content full)
unfolding tool_result_block bytes_eq
tool_result_block-IsResult runes call_id name content full =
    let cut = clip runes content tool_result_limit full in
    let whole = with_id-IsResult call_id name cut.0 in
    choose-IsResult cut.1 call_id cut.0 _ _
      (put-IsResult call_id cut.0 (codes "truncated") (bool true) _ refl refl refl whole) whole

-- A status is put on a result that has no exit code and no duration.
abbrev pub only_status : Bytes → ToolOutcome
only_status s = record { status = s; exit_code = pos 0; has_exit = false; duration_ms = pos 0 }

else_branch : (test : Bool) (a b : Fields) → test ≡ false → (if test then a else b) ≡ b
else_branch true a b e = absurd cc
else_branch false a b e = refl

apply_only :
    (s : Bytes) (block : Fields)
    → bytes_eq s [] ≡ false
    → apply_outcome (only_status s) block ≡ put block (codes "status") (str s)
unfolding apply_outcome status_of
apply_only s block some_status =
    let status : status_of (only_status s) ≡ s = rw some_status refl in
    ap (λ t. if is_empty t then block else put block (codes "status") (str t)) status
    ∙ else_branch (bytes_eq s []) block (put block (codes "status") (str s)) some_status

-- The key is none of the fields of a result.
abbrev pub IsMark : Bytes → Type 0
IsMark key =
    (bytes_eq key (codes "type") ≡ false)
    × (bytes_eq key (codes "callId") ≡ false)
    × (bytes_eq key (codes "content") ≡ false)

status-IsMark : IsMark (codes "status")
unfolding bytes_eq
status-IsMark = (refl, refl, refl)

pub truncated-IsMark : IsMark (codes "truncated")
unfolding bytes_eq
truncated-IsMark = (refl, refl, refl)

-- A result with its status.
abbrev pub IsEnded : Bytes → Bytes → Bytes → Fields → Type 0
IsEnded id content s block = IsResult id content block × (get block (codes "status") ≡ str s)

pub outcome-IsEnded :
    (s id content : Bytes) (block : Fields)
    → bytes_eq s [] ≡ false
    → IsResult id content block
    → IsEnded id content s (apply_outcome (only_status s) block)
outcome-IsEnded s id content block some_status h =
    let (other_type, other_id, other_content) = status-IsMark in
    subst (IsEnded id content s) (sym (apply_only s block some_status)) (
      put-IsResult id content (codes "status") (str s) block other_type other_id other_content h,
      get-put block (codes "status") (codes "status") (str s)
          ∙ rw (bytes_eq_refl (codes "status")) refl,
    )

error_or_ok : (b : Bool) → bytes_eq (status_from_error b) [] ≡ false
unfolding status_from_error bytes_eq
error_or_ok true = refl
error_or_ok false = refl

pub some_status :
    (test b : Bool) → bytes_eq (if test then status_interrupted else status_from_error b) [] ≡ false
unfolding bytes_eq
some_status true b = refl
some_status false b = error_or_ok b
