-- ===== src/Codex/Rows/Roles.antt =====
-- The speaker that CodexHitRole names for a row, and the role of the message that is read of it.
use mathlib.Core.Path.{subst}
use agent_session_query.Prelude.{
  sym, eq_of_bytes_eq, Bool, true, false, [], Option, none, some, Bytes, codes, bytes_eq, ◌≡◌, refl,
  ◌⊎◌, inl, inr, Bool-cases, arith,
}
use agent_session_query.Json.{Value, str, null, bool, float, int, arr, obj, Fields, get}
use agent_session_query.Record.{is_empty}
use agent_session_query.Questions.{Libraries}
use agent_session_query.Claude.Parts.{is_str}
use agent_session_query.Codex.Output.{CodexLib}
use agent_session_query.Codex.Rows.{
  PayloadKind, message, reasoning, function_call, custom_tool_call, local_shell_call,
  web_search_call, call_output, other, CodexWalker, thought, item_message, codex_message,
  role_of_kind, codex_hit_role,
}

module _ (libs : Libraries) (lib : CodexLib) where
  -- The search names no speaker, no message is read, or the message has the speaker's role.
  abbrev pub IsSpokenBy : Bytes → Option Fields → Type 0
  IsSpokenBy role none = Unit
  IsSpokenBy role (some m) = (role ≡ []) ⊎ (get m (codes "role") ≡ str role)

  thought-IsSpokenBy :
      (payload : Fields) (timestamp : Value) (full : Bool) (text : Bytes)
      → IsSpokenBy (codes "assistant") (thought libs lib payload timestamp full text)
  unfolding get bytes_eq
  thought-IsSpokenBy payload timestamp full text = elim (Bool-cases (is_empty text)) [
    | inl nothing ↦ rw nothing tt
    | inr something ↦ rw something (inr refl)
  ]

  unspoken : (m : Option Fields) → IsSpokenBy [] m
  unspoken none = tt
  unspoken (some m) = inl refl

  item_message-IsSpokenBy :
      (kind : PayloadKind) (payload : Fields) (timestamp : Value) (w : CodexWalker)
      → IsSpokenBy (role_of_kind libs lib kind) (item_message libs lib kind payload timestamp w).0
  unfolding item_message role_of_kind get bytes_eq
  item_message-IsSpokenBy message payload timestamp w = unspoken _
  item_message-IsSpokenBy reasoning payload timestamp w =
      thought-IsSpokenBy payload timestamp w.full _
  item_message-IsSpokenBy function_call payload timestamp w = inr refl
  item_message-IsSpokenBy custom_tool_call payload timestamp w = inr refl
  item_message-IsSpokenBy local_shell_call payload timestamp w = inr refl
  item_message-IsSpokenBy web_search_call payload timestamp w = inr refl
  item_message-IsSpokenBy call_output payload timestamp w = inr refl
  item_message-IsSpokenBy other payload timestamp w = tt

  not_both :
      (v : Value) → is_str v (codes "response_item") ≡ true → is_str v (codes "event_msg") ≡ false
  unfolding bytes_eq
  not_both (str s) item =
      subst (λ t. bytes_eq t (codes "event_msg") ≡ false)
        (sym (eq_of_bytes_eq s (codes "response_item") item)) refl
  not_both null item = absurd (ground (arith, item))
  not_both (bool b) item = absurd (ground (arith, item))
  not_both (float x) item = absurd (ground (arith, item))
  not_both (int n) item = absurd (ground (arith, item))
  not_both (arr vs) item = absurd (ground (arith, item))
  not_both (obj fs) item = absurd (ground (arith, item))

  -- For every row and whatever calls came before, the search names no speaker, or the reader makes
  -- no message of the row, or the message has the role that the search names.
  pub codex_hit_role-IsSpokenBy :
      (row : Fields) (w : CodexWalker)
      → IsSpokenBy (codex_hit_role libs lib row) (codex_message libs lib row w).0
  unfolding codex_hit_role codex_message
  codex_hit_role-IsSpokenBy row w =
      elim (Bool-cases (is_str (get row (codes "type")) (codes "response_item"))) [
        | inr not_an_item ↦ rw not_an_item (unspoken _)
        | inl item ↦ elim (Bool-cases (is_str (get row (codes "type")) (codes "event_msg"))) [
          | inl happened ↦ absurd (ground (arith, happened, not_both (get row (codes "type")) item))
          | inr no_event ↦ rw (item, no_event) (item_message-IsSpokenBy _ _ _ w)
        ]
      ]
