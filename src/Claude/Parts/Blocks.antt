-- ===== src/Claude/Parts/Blocks.antt =====
-- What each block that a row is read as says of the row's content.
use agent_session_query.Prelude.{
  Option, none, some, ◌∷◌, ◌&&◌, ◌||◌, not, ◌⊎◌, arith, Bool, true, false, [], Bytes, codes,
  if◌then◌else◌, bytes_eq, ◌≡◌, refl, inl, inr, Bool-cases, All, All-append,
}
use agent_session_query.Json.{
  Value, null, bool, str, float, int, arr, obj, Items, nil, cons, Fields, end, field, get, put,
  str_field, get_or, get_map, truthy,
}
use agent_session_query.Record.{is_empty}
use agent_session_query.Blocks.{
  text_block, thinking_block, tool_call_block, event_block, status_from_error, status_interrupted,
  clip, thinking_limit, tool_result_limit, or_empty_object,
}
use agent_session_query.Blocks.Outcome.{kept_unless, kept_if}
use agent_session_query.Claude.Parts.Results.{
  or_missing, IsResult, put-IsResult, choose-IsResult, tool_result_block-IsResult, truncated-IsMark,
  IsEnded, outcome-IsEnded, some_status,
}
use agent_session_query.Claude.Content.{content_text}
use agent_session_query.Claude.Saved.{claude_persisted_path}
use agent_session_query.Claude.Parts.{
  or_content, Reader, ClaudeRow, is_str, is_interruption, text_or_event, event_interrupted,
  tool_result, text_part, part, parts_of_items, parts_in, claude_parts,
}

pub data Shape : Type 0 where
  text : Shape
  thinking : Shape
  tool_call : Shape
  tool_result' : Shape
  event : Shape

abbrev pub shape_name : Shape → Bytes
shape_name text = codes "text"
shape_name thinking = codes "thinking"
shape_name tool_call = codes "toolCall"
shape_name tool_result' = codes "toolResult"
shape_name event = codes "event"

-- An object among the items of a list.
abbrev pub IsAmong : Fields → Items → Type 0
IsAmong m nil = ⊥
IsAmong m (cons v vs) = (v ≡ obj m) ⊎ IsAmong m vs

-- An item of the content, of the type.
abbrev pub IsItem : Value → Bytes → Fields → Type 0
IsItem content type m =
    (vs : Items) × (content ≡ arr vs) × IsAmong m vs × (is_str (get m (codes "type")) type ≡ true)

-- A text of the content: the whole of it, or that of a text item.
abbrev pub IsTextOf : Value → Bytes → Type 0
IsTextOf content s =
    (content ≡ str s)
    ⊎ ((m : Fields) × IsItem content (codes "text") m × (str_field m (codes "text") ≡ s))

module _ (rd : Reader) (full : Bool) (read_persisted : Bytes → Option Bytes) (row : Fields)
    (content : Value) where
  -- The text of a result: that of its item, or in a full reading that of a saved output.
  abbrev pub IsResultText : Fields → Bytes → Type 0
  IsResultText m s =
      (s ≡ content_text (get m (codes "content")))
      ⊎ ((full ≡ true) × (path : Bytes) × (read_persisted path ≡ some s))

  -- How the call of a result ended.
  abbrev pub ending_of : Fields → Bytes
  ending_of m =
      if truthy (get (get_map row (codes "toolUseResult")) (codes "interrupted"))
        || is_interruption rd (content_text (get m (codes "content")))
      then status_interrupted
      else status_from_error (truthy (get m (codes "is_error")))

  -- What a block of the shape says of the content that it is read from.
  abbrev pub IsFilled : Shape → Fields → Type 0
  IsFilled text block =
      (s : Bytes) × IsTextOf content s
      × (is_empty s ≡ false)
      × (is_interruption rd s ≡ false)
      × (get block (codes "content") ≡ str s)
  IsFilled event block =
      (s : Bytes) × IsTextOf content s
      × (is_interruption rd s ≡ true)
      × (get block (codes "kind") ≡ str event_interrupted)
      × (get block (codes "content") ≡ str (rd.runtime.trim_space s))
  IsFilled thinking block =
      (m : Fields) × IsItem content (codes "thinking") m
      × (get block (codes "content")
          ≡ str (clip rd.runes (str_field m (codes "thinking")) thinking_limit full).0)
  IsFilled tool_call block =
      (m : Fields) × IsItem content (codes "tool_use") m
      × (get block (codes "name") ≡ str (str_field m (codes "name")))
      × (get block (codes "id") ≡ or_missing (str_field m (codes "id")))
      × (get block (codes "arguments") ≡ or_empty_object (get_or m (codes "input") (obj end)))
  IsFilled tool_result' block =
      (m : Fields) × IsItem content (codes "tool_result") m
      × (get block (codes "callId") ≡ or_missing (str_field m (codes "tool_use_id")))
      × (get block (codes "status") ≡ str (ending_of m))
      × (s : Bytes) × IsResultText m s
      × (get block (codes "content") ≡ str (clip rd.runes s tool_result_limit full).0)

  abbrev pub IsBlock : Fields → Type 0
  IsBlock block =
      (shape : Shape) × (get block (codes "type") ≡ str (shape_name shape)) × IsFilled shape block

or_content-text :
    (rd : Reader) (test full : Bool) (item : Bytes) (whole : Option Bytes)
    → ((if test && full then or_content rd item whole else item) ≡ item)
      ⊎ ((full ≡ true) × (whole ≡ some (if test && full then or_content rd item whole else item)))
or_content-text rd test full item none = elim (Bool-cases (test && full)) [
  | inl both ↦ rw both (inl refl)
  | inr either ↦ rw either (inl refl)
]
or_content-text rd test full item (some saved) = elim (Bool-cases (test && full)) [
  | inl both ↦ let in_full : full ≡ true = ground (arith, both) in rw both (inr (in_full, refl))
  | inr either ↦ rw either (inl refl)
]

id_of :
    (id name : Bytes) (arguments : Value)
    → get (tool_call_block id name arguments) (codes "id") ≡ or_missing id
unfolding tool_call_block get put bytes_eq
id_of [] name arguments = refl
id_of (c ∷ id) name arguments = refl

module _ (rd : Reader) (full : Bool) (read_persisted : Bytes → Option Bytes) (row : Fields)
    (content : Value) where
  abbrev Holds : Fields → Type 0
  Holds = IsBlock rd full read_persisted row content

  text_or_event-IsBlock :
      (s : Bytes) → IsTextOf content s → is_empty s ≡ false → Holds (text_or_event rd s)
  unfolding text_or_event text_block event_block get bytes_eq
  text_or_event-IsBlock s here some_text = elim (Bool-cases (is_interruption rd s)) [
    | inl stopped ↦ rw stopped (event, refl, (s, here, stopped, refl, refl))
    | inr said ↦ rw said (text, refl, (s, here, some_text, said, refl))
  ]

  text_part-AreBlocks : (s : Bytes) → IsTextOf content s → All Holds (text_part rd s)
  text_part-AreBlocks s here = elim (Bool-cases (is_empty s)) [
    | inl nothing ↦ rw nothing tt
    | inr something ↦ rw something (text_or_event-IsBlock s here something, tt)
  ]

  thinking-IsBlock :
      (m : Fields)
      → IsItem content (codes "thinking") m
      → Holds (thinking_block rd.runes (str_field m (codes "thinking")) full)
  unfolding thinking_block get bytes_eq
  thinking-IsBlock m here =
      let cut = clip rd.runes (str_field m (codes "thinking")) thinking_limit full in
      let block : Fields =
        field (codes "type") (str (codes "thinking")) (field (codes "content") (str cut.0) end) in
      (
        thinking,
        kept_if cut.1 block (codes "truncated") (codes "type") (bool true) refl,
        (m, here, kept_if cut.1 block (codes "truncated") (codes "content") (bool true) refl),
      )

  call-IsBlock :
      (m : Fields)
      → IsItem content (codes "tool_use") m
      → Holds (
          tool_call_block
            (str_field m (codes "id"))
            (str_field m (codes "name"))
            (get_or m (codes "input") (obj end)))
  unfolding tool_call_block get bytes_eq
  call-IsBlock m here =
      let id = str_field m (codes "id") in
      let name = str_field m (codes "name") in
      let arguments = get_or m (codes "input") (obj end) in
      let block : Fields = field (codes "type") (str (codes "toolCall")) (
        field (codes "name") (str name)
          (field (codes "arguments") (or_empty_object arguments) end)) in
      (
        tool_call,
        kept_unless (is_empty id) block (codes "id") (codes "type") (str id) refl,
        (
          m,
          here,
          kept_unless (is_empty id) block (codes "id") (codes "name") (str id) refl,
          id_of id name arguments,
          kept_unless (is_empty id) block (codes "id") (codes "arguments") (str id) refl,
        ),
      )

  ended-IsBlock :
      (m : Fields) (s : Bytes) (block : Fields)
      → IsItem content (codes "tool_result") m
      → IsResultText rd full read_persisted row content m s
      → IsEnded
          (str_field m (codes "tool_use_id"))
          (clip rd.runes s tool_result_limit full).0
          (ending_of rd full read_persisted row content m)
          block
      → Holds block
  unfolding IsResult
  ended-IsBlock m s block here is_text ((t, id, c), status) =
      (tool_result', t, (m, here, id, status, s, is_text, c))

module _ (rd : Reader) (row : Fields) (content : Value) where
  abbrev HoldsIn : ClaudeRow → Fields → Type 0
  HoldsIn c = IsBlock rd c.full c.read_persisted row content

  result_text :
      (c : ClaudeRow) (m : Fields)
      → let item = content_text (get m (codes "content")) in
        let saved = claude_persisted_path rd.runtime rd.disk c.root row item in
        IsResultText rd c.full c.read_persisted row content m (
          if not (is_empty saved) && c.full
          then or_content rd item (c.read_persisted saved)
          else item)
  result_text c m =
      let item = content_text (get m (codes "content")) in
      let saved = claude_persisted_path rd.runtime rd.disk c.root row item in
      elim (or_content-text rd (not (is_empty saved)) c.full item (c.read_persisted saved)) [
        | inl own ↦ inl own
        | inr (in_full, whole) ↦ inr (in_full, saved, whole)
      ]

  tool_result-IsBlock :
      (c : ClaudeRow) (m : Fields)
      → IsItem content (codes "tool_result") m
      → HoldsIn c (tool_result rd c row m)
  unfolding tool_result
  tool_result-IsBlock c m here =
      let (other_type, other_id, other_content) = truncated-IsMark in
      let whole =
        tool_result_block-IsResult rd.runes (str_field m (codes "tool_use_id")) _ _ c.full in
      ended-IsBlock rd c.full c.read_persisted row content m _ _ here (result_text c m) (
        outcome-IsEnded (ending_of rd c.full c.read_persisted row content m) _ _ _ (some_status _ _)
          (choose-IsResult _ _ _ _ _
            (put-IsResult _ _ (codes "truncated") (bool true) _ other_type other_id other_content
              whole)
            whole))

  part-AreBlocks :
      (c : ClaudeRow) (vs : Items) (m : Fields)
      → content ≡ arr vs
      → IsAmong m vs
      → All (HoldsIn c) (part rd c row m).0
  unfolding part
  part-AreBlocks c vs m e among =
      let kind = get m (codes "type") in
      elim (Bool-cases (is_str kind (codes "text"))) [
        | inl is_text ↦ rw is_text (
            text_part-AreBlocks rd c.full c.read_persisted row content (str_field m (codes "text"))
              (inr (m, (vs, e, among, is_text), refl)))
        | inr no_text ↦ elim (Bool-cases (is_str kind (codes "thinking"))) [
          | inl thinks ↦
              rw (no_text, thinks)
                (
                  thinking-IsBlock rd c.full c.read_persisted row content m (vs, e, among, thinks),
                  tt,
                )
          | inr no_thinking ↦ elim (Bool-cases (is_str kind (codes "tool_use"))) [
            | inl uses ↦
                rw (no_text, no_thinking, uses)
                  (call-IsBlock rd c.full c.read_persisted row content m (vs, e, among, uses), tt)
            | inr no_use ↦ elim (Bool-cases (is_str kind (codes "tool_result"))) [
              | inl results ↦
                  rw (no_text, no_thinking, no_use, results)
                    (tool_result-IsBlock c m (vs, e, among, results), tt)
              | inr no_result ↦ rw (no_text, no_thinking, no_use, no_result) tt
            ]
          ]
        ]
      ]

  parts_of_items-AreBlocks :
      (c : ClaudeRow) (all_items vs : Items)
      → content ≡ arr all_items
      → ((m : Fields) → IsAmong m vs → IsAmong m all_items)
      → All (HoldsIn c) (parts_of_items rd c row vs).0
  unfolding parts_of_items
  parts_of_items-AreBlocks c all_items nil e f = tt
  parts_of_items-AreBlocks c all_items (cons (obj m) vs) e f =
      All-append (HoldsIn c) (part rd c row m).0 _ (part-AreBlocks c all_items m e (f m (inl refl)))
        (parts_of_items-AreBlocks (record c { names = (part rd c row m).1 }) all_items vs e
          (λ n h. f n (inr h)))
  parts_of_items-AreBlocks c all_items (cons null vs) e f =
      parts_of_items-AreBlocks c all_items vs e (λ n h. f n (inr h))
  parts_of_items-AreBlocks c all_items (cons (bool b) vs) e f =
      parts_of_items-AreBlocks c all_items vs e (λ n h. f n (inr h))
  parts_of_items-AreBlocks c all_items (cons (str s) vs) e f =
      parts_of_items-AreBlocks c all_items vs e (λ n h. f n (inr h))
  parts_of_items-AreBlocks c all_items (cons (float x) vs) e f =
      parts_of_items-AreBlocks c all_items vs e (λ n h. f n (inr h))
  parts_of_items-AreBlocks c all_items (cons (int n) vs) e f =
      parts_of_items-AreBlocks c all_items vs e (λ n h. f n (inr h))
  parts_of_items-AreBlocks c all_items (cons (arr ws) vs) e f =
      parts_of_items-AreBlocks c all_items vs e (λ n h. f n (inr h))

module _ (rd : Reader) where
  parts_in-AreBlocks :
      (c : ClaudeRow) (row : Fields) (v : Value)
      → All (IsBlock rd c.full c.read_persisted row v) (parts_in rd c row v).0
  unfolding parts_in
  parts_in-AreBlocks c row (str s) =
      text_part-AreBlocks rd c.full c.read_persisted row (str s) s (inl refl)
  parts_in-AreBlocks c row (arr vs) =
      parts_of_items-AreBlocks rd row (arr vs) c vs vs refl (λ m h. h)
  parts_in-AreBlocks c row null = tt
  parts_in-AreBlocks c row (bool b) = tt
  parts_in-AreBlocks c row (float x) = tt
  parts_in-AreBlocks c row (int n) = tt
  parts_in-AreBlocks c row (obj fs) = tt

  -- Every block that a row is read as is one of five. A text block has a text of the row's content,
  -- which is not empty and no interruption; an event has one that is an interruption, trimmed; a
  -- thinking block has the clipped thinking of a thinking item; a call has the name, the id unless
  -- it is empty, and the arguments of a tool_use item; and a result has the id of a tool_result
  -- item unless it is empty, the clipped text of the item, or in a full reading that of a saved
  -- output, and as its status interrupted where the row or the text says so, and else what the
  -- item's error mark says.
  pub claude_parts-AreBlocks :
      (c : ClaudeRow) (row : Fields)
      → All
          (IsBlock rd c.full c.read_persisted row
            (get (get_map row (codes "message")) (codes "content")))
          (claude_parts rd c row).0
  unfolding claude_parts
  claude_parts-AreBlocks c row = parts_in-AreBlocks c row _
