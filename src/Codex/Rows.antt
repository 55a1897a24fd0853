-- ===== src/Codex/Rows.antt =====
-- internal/source/source_codex.go: the message that each row of a rollout is read as.
pub mod Roles
use agent_session_query.Prelude.{
  ℕ, Bool, true, false, not, ◌&&◌, ◌||◌, List, [], ◌∷◌, ◌++◌, Option, none, some, Bytes, codes,
  if◌then◌else◌, bytes_eq, has_prefix, any,
}
use agent_session_query.Prelude.Assoc.{Assoc, lookup, insert}
use agent_session_query.Json.{
  Runtime, Value, null, bool, str, float, int, arr, obj, Items, nil, cons, Fields, end, field, get,
  get_or, get_map, get_slice, str_field, str_or, to_str, put,
}
use agent_session_query.Record.{is_empty}
use agent_session_query.Blocks.{
  ToolOutcome, text_block, thinking_block, tool_call_block, tool_result_block, event_block,
  apply_outcome, status_ok, status_error,
}
use agent_session_query.Questions.{Libraries, wrapped_in_tag}
use agent_session_query.Sink.{MessageQuery}
use agent_session_query.Claude.Content.{join_lines}
use agent_session_query.Claude.Parts.{is_str, event_interrupted, name_or_empty}
use agent_session_query.Codex.Output.{CodexLib, codex_output, codex_patch_rejected}

-- payload["type"], as the switches of the walker tell it apart
pub data PayloadKind : Type 0 where
  message : PayloadKind
  reasoning : PayloadKind
  function_call : PayloadKind
  custom_tool_call : PayloadKind
  local_shell_call : PayloadKind
  web_search_call : PayloadKind
  call_output : PayloadKind
  other : PayloadKind

unfoldable pub payload_kind : Bytes → PayloadKind
payload_kind kind =
    if bytes_eq kind (codes "message")
    then message
    else if bytes_eq kind (codes "reasoning")
    then reasoning
    else if bytes_eq kind (codes "function_call")
    then function_call
    else if bytes_eq kind (codes "custom_tool_call")
    then custom_tool_call
    else if bytes_eq kind (codes "local_shell_call")
    then local_shell_call
    else if bytes_eq kind (codes "web_search_call")
    then web_search_call
    else if bytes_eq kind (codes "function_call_output")
        || bytes_eq kind (codes "custom_tool_call_output")
    then call_output
    else other

-- codexWalker
pub record CodexWalker : Type 0 where
  pub names : Assoc Bytes
  pub full : Bool

-- codexWalker.remember
unfoldable pub remember : Bytes → Bytes → CodexWalker → CodexWalker
remember id name w = if is_empty id then w else record w { names = insert id name w.names }

-- strings.Join(texts, "\n\n")
unfoldable pub join_paragraphs : List Bytes → Bytes
join_paragraphs [] = []
join_paragraphs (s ∷ []) = s
join_paragraphs (s ∷ t ∷ ss) = s ++ b'\n' ∷ b'\n' ∷ join_paragraphs (t ∷ ss)

abbrev pub blocks_of : List Fields → Items
blocks_of [] = nil
blocks_of (block ∷ blocks) = cons (obj block) (blocks_of blocks)

abbrev pub message_of : Value → Bytes → Value → List Fields → Fields
message_of id role timestamp blocks = field (codes "id") id (
    field (codes "role") (str role)
      (field (codes "timestamp") timestamp (field (codes "content") (arr (blocks_of blocks)) end)))

abbrev codex_injected_prefixes : List Bytes
codex_injected_prefixes =
    codes "<environment_context"
    ∷ codes "<user_instructions"
    ∷ codes "# AGENTS.md"
    ∷ codes "<permissions instructions"
    ∷ codes "<INSTRUCTIONS"
    ∷ codes "<turn_aborted"
    ∷ []

module _ (libs : Libraries) (lib : CodexLib) where
  abbrev trimmed_text : Fields → Bytes
  trimmed_text m = libs.runtime.trim_space (str_field m (codes "text"))

  unfoldable pub reasoning_texts : Items → List Bytes
  reasoning_texts nil = []
  reasoning_texts (cons (obj m) vs) =
      if is_empty (trimmed_text m) then reasoning_texts vs else trimmed_text m ∷ reasoning_texts vs
  reasoning_texts (cons _ vs) = reasoning_texts vs

  -- getSliceAny
  abbrev pub slice_of : Value → Items
  slice_of (arr vs) = vs
  slice_of _ = nil

  -- codexReasoningText
  unfoldable pub codex_reasoning_text : Value → Value → Bytes
  codex_reasoning_text summary content =
      join_paragraphs (reasoning_texts (slice_of summary) ++ reasoning_texts (slice_of content))

  abbrev decoded_or_raw : Bytes → Option Fields → Value
  decoded_or_raw text none = obj (field (codes "raw") (str text) end)
  decoded_or_raw text (some decoded) = obj decoded

  -- codexArguments
  unfoldable pub codex_arguments : Value → Value
  codex_arguments (str text) = decoded_or_raw text (lib.decode_object text)
  codex_arguments null = obj end
  codex_arguments v = v

  abbrev item_text : Value → Option Bytes
  item_text (str text) = some text
  item_text _ = none

  abbrev item_texts : Option Bytes → List Bytes → List Bytes
  item_texts none texts = texts
  item_texts (some text) texts = text ∷ texts

  unfoldable pub message_texts : Items → List Bytes
  message_texts nil = []
  message_texts (cons (obj m) vs) = item_texts (item_text (get m (codes "text"))) (message_texts vs)
  message_texts (cons _ vs) = message_texts vs

  abbrev text_blocks_of : List Bytes → List Fields
  text_blocks_of [] = []
  text_blocks_of (text ∷ texts) = text_block text ∷ text_blocks_of texts

  -- codexInjected
  unfoldable pub codex_injected : Bytes → Bool
  codex_injected text =
      let t = libs.runtime.trim_space text in
      if any (has_prefix t) codex_injected_prefixes then true else wrapped_in_tag libs t

  -- StrOr(payload["call_id"], StrOr(payload["id"], ""))
  abbrev call_id_of : Fields → Bytes
  call_id_of payload =
      str_or libs.runtime (get payload (codes "call_id"))
        (str_or libs.runtime (get payload (codes "id")) [])

  abbrev name_in : Fields → Bytes
  name_in payload = str_or libs.runtime (get payload (codes "name")) (codes "unknown")

  abbrev pub assistant : Fields → Value → List Fields → Option Fields
  assistant payload timestamp blocks =
      some (message_of (get_or payload (codes "id") (str [])) (codes "assistant") timestamp blocks)

  abbrev flag_injected : Bool → Fields → Fields
  flag_injected injected m = if injected then put m (codes "injected") (bool true) else m

  abbrev pub said : Fields → Value → Bytes → List Bytes → Option Fields
  said payload timestamp role texts =
      if bytes_eq role (codes "developer")
      then none
      else some (
          flag_injected (bytes_eq role (codes "user") && codex_injected (join_lines texts)) (
            message_of (get_or payload (codes "id") (str [])) role timestamp
              (text_blocks_of texts)))

  abbrev pub thought : Fields → Value → Bool → Bytes → Option Fields
  thought payload timestamp full text =
      if is_empty text
      then none
      else assistant payload timestamp (thinking_block libs.texts.runes text full ∷ [])

  abbrev search_result : Fields → Bool → Fields
  search_result payload full =
      let result = tool_result_block libs.texts.runes [] (codes "web_search") [] full in
      if is_str (get payload (codes "status")) (codes "completed")
      then put result (codes "status") (str status_ok)
      else result

  -- The outcome of an output, where a rejected patch is a failure.
  abbrev pub judged : Bytes → Bytes → ToolOutcome → ToolOutcome
  judged name text o =
      if bytes_eq name (codes "apply_patch") && codex_patch_rejected lib text
      then record o { status = status_error }
      else o

  abbrev output_message : Fields → Value → CodexWalker → Fields
  output_message payload timestamp w =
      let id = to_str libs.runtime (get payload (codes "call_id")) in
      let name = name_or_empty (lookup id w.names) in
      let (text, outcome) = codex_output lib (get payload (codes "output")) in
      message_of (get_or payload (codes "id") (str [])) (codes "tool") timestamp (
        apply_outcome (judged name text outcome)
          (tool_result_block libs.texts.runes id name text w.full)
        ∷ [])

  -- The response items: the message, and the walker behind it.
  unfoldable pub item_message :
      PayloadKind → Fields → Value → CodexWalker → Option Fields × CodexWalker
  item_message message payload timestamp w = (
    said payload timestamp (str_or libs.runtime (get payload (codes "role")) (codes "unknown"))
        (message_texts (get_slice payload (codes "content"))),
    w,
  )
  item_message reasoning payload timestamp w = (
    thought payload timestamp w.full
        (codex_reasoning_text (get payload (codes "summary")) (get payload (codes "content"))),
    w,
  )
  item_message function_call payload timestamp w = (
    assistant payload timestamp (
        tool_call_block (call_id_of payload) (name_in payload)
          (codex_arguments (get payload (codes "arguments")))
        ∷ []),
    remember (call_id_of payload) (name_in payload) w,
  )
  item_message custom_tool_call payload timestamp w = (
    assistant payload timestamp (
        tool_call_block (call_id_of payload) (name_in payload) (
          obj (field (codes "input") (str (to_str libs.runtime (get payload (codes "input")))) end))
        ∷ []),
    remember (call_id_of payload) (name_in payload) w,
  )
  item_message local_shell_call payload timestamp w = (
    assistant payload timestamp (
        tool_call_block (call_id_of payload) (codes "local_shell")
          (get_or payload (codes "action") (obj end))
        ∷ []),
    remember (call_id_of payload) (codes "local_shell") w,
  )
  item_message web_search_call payload timestamp w = (
    assistant payload timestamp (
        tool_call_block [] (codes "web_search") (get_or payload (codes "action") (obj end))
        ∷ search_result payload w.full
        ∷ []),
    w,
  )
  item_message call_output payload timestamp w = (some (output_message payload timestamp w), w)
  item_message other payload timestamp w = (none, w)

  abbrev aborted : Fields → Value → Fields
  aborted payload timestamp = message_of (str []) (codes "system") timestamp (
      event_block event_interrupted (
        codes "Turn aborted: "
        ++ str_or libs.runtime (get payload (codes "reason")) (codes "interrupted"))
      ∷ [])

  -- codexWalker.message
  unfoldable pub codex_message : Fields → CodexWalker → Option Fields × CodexWalker
  codex_message row w =
      let payload = get_map row (codes "payload") in
      let kind = to_str libs.runtime (get payload (codes "type")) in
      let timestamp = get_or row (codes "timestamp") (str []) in
      if is_str (get row (codes "type")) (codes "event_msg")
      then (
        (if bytes_eq kind (codes "turn_aborted") then some (aborted payload timestamp) else none),
        w,
      )
      else if is_str (get row (codes "type")) (codes "response_item")
      then item_message (payload_kind kind) payload timestamp w
      else (none, w)

  unfoldable pub role_of_kind : PayloadKind → Bytes
  role_of_kind message = []
  role_of_kind reasoning = codes "assistant"
  role_of_kind function_call = codes "assistant"
  role_of_kind custom_tool_call = codes "assistant"
  role_of_kind local_shell_call = codes "assistant"
  role_of_kind web_search_call = codes "assistant"
  role_of_kind call_output = codes "tool"
  role_of_kind other = []

  -- CodexHitRole
  unfoldable pub codex_hit_role : Fields → Bytes
  codex_hit_role row =
      if is_str (get row (codes "type")) (codes "response_item")
      then role_of_kind
          (payload_kind (to_str libs.runtime (get (get_map row (codes "payload")) (codes "type"))))
      else []
