-- ===== src/Claude/Rows/Counted.antt =====
-- claudeProbe.counts beside the messages that are read of the rows.
use mathlib.Core.Path.{subst}
use agent_session_query.Prelude.{
  ℕ, suc, Bool, true, false, not, ◌&&◌, ◌||◌, List, [], ◌∷◌, Option, none, some, Bytes, codes, ltb,
  ◌==◌, if◌then◌else◌, bytes_eq, eq_of_bytes_eq, length, map, ◌≡◌, refl, sym, ap, ◌∙◌, inl, inr,
  Bool-cases, All, arith,
}
use agent_session_query.Json.{
  Value, null, bool, str, float, int, arr, obj, Items, nil, cons, Fields, get, get_map, get_slice,
  str_field, truthy,
}
use agent_session_query.Record.{is_empty}
use agent_session_query.Claude.Content.{content_text, texts_of}
use agent_session_query.Claude.Rows.{
  ClaudeProbe, is_turn, is_some, claude_queued_prompt, claude_queued_text, system_message,
  row_message, with_message, row_messages, probe_counts, count_rows,
}
use agent_session_query.Claude.Parts.{Reader, ClaudeRow, is_str, claude_system_event}

abbrev size : Items → ℕ
size nil = 0
size (cons v vs) = suc (size vs)

-- What json.Unmarshal reads into a probe when every field of the row has the probe's type.
abbrev pub probe_of : Fields → ClaudeProbe
probe_of row =
    let a = get_map row (codes "attachment") in
    record {
      type = str_field row (codes "type");
      subtype = str_field row (codes "subtype");
      is_sidechain = truthy (get row (codes "isSidechain"));
      hook_errors = size (get_slice row (codes "hookErrors"));
      attachment_type = str_field a (codes "type");
      command_mode = str_field a (codes "commandMode");
      is_meta = truthy (get a (codes "isMeta"));
      prompt = get a (codes "prompt");
    }

-- The probe reads the row, and a hook's errors have text where there are errors.
abbrev pub IsProbed : (Fields → Option ClaudeProbe) → Fields → Type 0
IsProbed decode row =
    (decode row ≡ some (probe_of row))
    × (ltb 0 (size (get_slice row (codes "hookErrors")))
        ≡ not (length (texts_of (get_slice row (codes "hookErrors"))) == 0))

str_of : Value → Bytes
str_of v = elim v [ str s ↦ s | _ ↦ [] ]

is_str-str_of : (v : Value) (c : ℕ) (t : Bytes) → is_str v (c ∷ t) ≡ bytes_eq (str_of v) (c ∷ t)
unfolding bytes_eq str_of
is_str-str_of null c t = refl
is_str-str_of (bool b) c t = refl
is_str-str_of (str s) c t = refl
is_str-str_of (float x) c t = refl
is_str-str_of (int n) c t = refl
is_str-str_of (arr vs) c t = refl
is_str-str_of (obj fs) c t = refl

is_str-str_field :
    (m : Fields) (key : Bytes) (c : ℕ) (t : Bytes)
    → is_str (get m key) (c ∷ t) ≡ bytes_eq (str_field m key) (c ∷ t)
unfolding str_field str_of
is_str-str_field m key c t = is_str-str_of (get m key) c t

-- A type that is another one is not that of a turn.
no_turn :
    (t k : Bytes)
    → (bytes_eq k (codes "user") || bytes_eq k (codes "assistant")) ≡ false
    → bytes_eq t k ≡ true
    → (bytes_eq t (codes "user") || bytes_eq t (codes "assistant")) ≡ false
no_turn t k differ e =
    subst (λ s. (bytes_eq s (codes "user") || bytes_eq s (codes "assistant")) ≡ false)
      (sym (eq_of_bytes_eq t k e)) differ

system_no_turn :
    (bytes_eq (codes "system") (codes "user") || bytes_eq (codes "system") (codes "assistant"))
    ≡ false
unfolding bytes_eq
system_no_turn = refl

attachment_no_turn :
    (bytes_eq (codes "attachment") (codes "user")
      || bytes_eq (codes "attachment") (codes "assistant"))
    ≡ false
unfolding bytes_eq
attachment_no_turn = refl

in_either_order :
    (turn system attachment s a : Bool)
    → (system ≡ true → turn ≡ false)
    → (attachment ≡ true → turn ≡ false)
    → (if system then s else if attachment then a else turn)
      ≡ (if turn then true else if system then s else if attachment then a else false)
in_either_order true true attachment s a h k = absurd (ground (arith, h refl))
in_either_order true false true s a h k = absurd (ground (arith, k refl))
in_either_order true false false s a h k = refl
in_either_order false system true s a h k = refl
in_either_order false system false s a h k = refl

module _ (rd : Reader) (subagent : Bool) where
  abbrev drawn : Fields → Bool
  drawn row =
      let kind = get row (codes "type") in
      if truthy (get row (codes "isSidechain")) && not subagent
      then false
      else if is_str kind (codes "system")
      then is_some rd (claude_system_event rd row)
      else if is_str kind (codes "attachment")
      then not (not (claude_queued_prompt rd row) || is_empty (claude_queued_text rd row))
      else is_turn rd kind

  system-some :
      (row : Fields) (event : Option Fields)
      → is_some rd (system_message rd row event) ≡ is_some rd event
  system-some row none = refl
  system-some row (some event) = refl

  row_message-drawn :
      (c : ClaudeRow) (row : Fields) → is_some rd (row_message rd subagent c row).0 ≡ drawn row
  unfolding row_message
  row_message-drawn c row =
      elim (Bool-cases (truthy (get row (codes "isSidechain")) && not subagent)) [
        | inl aside ↦ rw aside refl
        | inr ours ↦ elim (Bool-cases (is_str (get row (codes "type")) (codes "system"))) [
          | inl system ↦ rw (ours, system) (system-some row (claude_system_event rd row))
          | inr no_system ↦
              elim (Bool-cases (is_str (get row (codes "type")) (codes "attachment"))) [
                | inl attached ↦
                    elim (Bool-cases
                      (not (claude_queued_prompt rd row) || is_empty (claude_queued_text rd row))) [
                        | inl dropped ↦ rw (ours, no_system, attached, dropped) refl
                        | inr queued ↦ rw (ours, no_system, attached, queued) refl
                      ]
                | inr no_attachment ↦ elim (Bool-cases (is_turn rd (get row (codes "type")))) [
                  | inl turn ↦ rw (ours, no_system, no_attachment, turn) refl
                  | inr no_turn ↦ rw (ours, no_system, no_attachment, no_turn) refl
                ]
              ]
        ]
      ]

  event-some :
      (row : Fields)
      → is_some rd (claude_system_event rd row) ≡ (
          is_str (get row (codes "subtype")) (codes "compact_boundary")
          || (is_str (get row (codes "subtype")) (codes "stop_hook_summary")
              && not (length (texts_of (get_slice row (codes "hookErrors"))) == 0)))
  unfolding claude_system_event
  event-some row =
      elim (Bool-cases (is_str (get row (codes "subtype")) (codes "compact_boundary"))) [
        | inl compact ↦ rw compact refl
        | inr no_compact ↦
            elim (Bool-cases (is_str (get row (codes "subtype")) (codes "stop_hook_summary"))) [
              | inl hook ↦
                  elim (Bool-cases (length (texts_of (get_slice row (codes "hookErrors"))) == 0)) [
                    | inl nothing ↦ rw (no_compact, hook, nothing) refl
                    | inr errors ↦ rw (no_compact, hook, errors) refl
                  ]
              | inr no_hook ↦ rw (no_compact, no_hook) refl
            ]
      ]

  event_counts :
      (row : Fields)
      → (ltb 0 (size (get_slice row (codes "hookErrors")))
          ≡ not (length (texts_of (get_slice row (codes "hookErrors"))) == 0))
      → is_some rd (claude_system_event rd row) ≡ (
          bytes_eq (str_field row (codes "subtype")) (codes "compact_boundary")
          || (bytes_eq (str_field row (codes "subtype")) (codes "stop_hook_summary")
              && ltb 0 (size (get_slice row (codes "hookErrors")))))
  event_counts row hooks =
      let compact = is_str-str_field row (codes "subtype") b'c' (codes "ompact_boundary") in
      let hook = is_str-str_field row (codes "subtype") b's' (codes "top_hook_summary") in
      event-some row ∙ rw (compact, hook, hooks) refl

  queued_counts :
      (row : Fields)
      → not (not (claude_queued_prompt rd row) || is_empty (claude_queued_text rd row)) ≡ (
          bytes_eq (probe_of row).attachment_type (codes "queued_command")
          && (bytes_eq (probe_of row).command_mode (codes "prompt")
              && (not (probe_of row).is_meta
                  && not (is_empty (rd.runtime.trim_space (content_text (probe_of row).prompt))))))
  unfolding claude_queued_prompt claude_queued_text
  queued_counts row =
      let a = get_map row (codes "attachment") in
      let command = is_str-str_field a (codes "type") b'q' (codes "ueued_command") in
      let prompt = is_str-str_field a (codes "commandMode") b'p' (codes "rompt") in
      ground (arith, command, prompt)

  drawn-probe_counts :
      (row : Fields)
      → (ltb 0 (size (get_slice row (codes "hookErrors")))
          ≡ not (length (texts_of (get_slice row (codes "hookErrors"))) == 0))
      → drawn row ≡ probe_counts rd.runtime (probe_of row) subagent
  unfolding probe_counts
  drawn-probe_counts row hooks =
      let t = str_field row (codes "type") in
      let user = is_str-str_field row (codes "type") b'u' (codes "ser") in
      let assistant = is_str-str_field row (codes "type") b'a' (codes "ssistant") in
      let system = is_str-str_field row (codes "type") b's' (codes "ystem") in
      let attachment = is_str-str_field row (codes "type") b'a' (codes "ttachment") in
      rw (user, assistant, system, attachment, event_counts row hooks, queued_counts row)
        (ap (λ x. if truthy (get row (codes "isSidechain")) && not subagent then false else x)
          (in_either_order (bytes_eq t (codes "user") || bytes_eq t (codes "assistant"))
            (bytes_eq t (codes "system")) (bytes_eq t (codes "attachment")) _ _
            (no_turn t (codes "system") system_no_turn)
            (no_turn t (codes "attachment") attachment_no_turn)))

  counted-drawn :
      (message : Option Fields) (p : ClaudeProbe) (messages : List Fields)
      (ps : List (Option ClaudeProbe))
      → is_some rd message ≡ probe_counts rd.runtime p subagent
      → length messages ≡ count_rows rd.runtime subagent ps
      → length (with_message rd message messages) ≡ count_rows rd.runtime subagent (some p ∷ ps)
  unfolding count_rows
  counted-drawn none p messages ps e h = rw (← e) h
  counted-drawn (some m) p messages ps e h = rw (← e) (ap (λ k. suc k) h)

  -- When the probe of each row reads the row's fields, and a hook's errors have text where there
  -- are errors, the reader hands out as many messages as rows count.
  pub length-row_messages :
      (decode : Fields → Option ClaudeProbe) (c : ClaudeRow) (rows : List Fields)
      → All (IsProbed decode) rows
      → length (row_messages rd subagent c rows) ≡ count_rows rd.runtime subagent (map decode rows)
  unfolding row_messages count_rows
  length-row_messages decode c [] h = refl
  length-row_messages decode c (row ∷ rows) ((probed, hooks), h) = rw probed (
      counted-drawn (row_message rd subagent c row).0 (probe_of row) _ (map decode rows)
        (row_message-drawn c row ∙ drawn-probe_counts row hooks)
        (length-row_messages decode (record c { names = (row_message rd subagent c row).1 }) rows
          h))
