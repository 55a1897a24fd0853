-- ===== src/Codex/Counts/Mirrored.antt =====
-- codexProbe.counts beside the message that is read of a row.
use agent_session_query.Prelude.{
  ℕ, Bool, true, false, not, ◌&&◌, ◌||◌, List, [], ◌∷◌, ◌++◌, Option, none, some, Bytes, codes,
  bytes_eq, any, ◌≡◌, refl, ap, ◌∙◌, ◌⊎◌, inl, inr, Bool-cases, All, All-append, arith,
}
use agent_session_query.Json.{
  Runtime, Value, null, bool, str, float, int, arr, obj, Items, nil, cons, Fields, get, get_map,
  str_field, str_or, to_str, truthy,
}
use agent_session_query.Record.{is_empty}
use agent_session_query.Questions.{Libraries}
use agent_session_query.Claude.Parts.{is_str}
use agent_session_query.Codex.Output.{CodexLib}
use agent_session_query.Codex.Rows.{
  PayloadKind, message, reasoning, function_call, custom_tool_call, local_shell_call,
  web_search_call, call_output, other, payload_kind, CodexWalker, said, thought, join_paragraphs,
  reasoning_texts, codex_reasoning_text, slice_of, item_message, codex_message,
}
use agent_session_query.Codex.Counts.{
  CodexProbe, codex_reasoning_has_text, kind_counts, codex_counts,
}

-- What json.Unmarshal reads into a field of type string: the text, or nothing where it is missing.
abbrev pub IsRead : Value → Bytes → Type 0
IsRead v s = (v ≡ str s) ⊎ ((v ≡ null) × (s ≡ []))

-- The text of every item that is an object.
unfoldable pub texts_in : Items → List Bytes
texts_in nil = []
texts_in (cons (obj m) vs) = str_field m (codes "text") ∷ texts_in vs
texts_in (cons _ vs) = texts_in vs

abbrev is_nil : List Bytes → Bool
is_nil [] = true
is_nil (s ∷ ss) = false

is_nil-append : (ss ts : List Bytes) → is_nil (ss ++ ts) ≡ (is_nil ss && is_nil ts)
is_nil-append [] ts = refl
is_nil-append (s ∷ ss) ts = refl

is_str-read :
    (v : Value) (s : Bytes) (c : ℕ) (t : Bytes) → IsRead v s → is_str v (c ∷ t) ≡ bytes_eq s (c ∷ t)
unfolding bytes_eq
is_str-read v s c t (inl text) = rw text refl
is_str-read v s c t (inr (missing, nothing)) = rw (missing, nothing) refl

to_str-read : (rt : Runtime) (v : Value) (s : Bytes) → IsRead v s → to_str rt v ≡ s
unfolding to_str
to_str-read rt v s (inl text) = rw text refl
to_str-read rt v s (inr (missing, nothing)) = rw (missing, nothing) refl

role-read :
    (rt : Runtime) (v : Value) (s : Bytes)
    → IsRead v s
    → bytes_eq (str_or rt v (codes "unknown")) (codes "developer") ≡ bytes_eq s (codes "developer")
unfolding str_or truthy to_str bytes_eq
role-read rt v s (inr (missing, nothing)) = rw (missing, nothing) refl
role-read rt v [] (inl text) = rw text refl
role-read rt v (c ∷ s) (inl text) = rw text refl

join_paragraphs-is_nil :
    (ss : List Bytes) → All (λ s. is_empty s ≡ false) ss → is_empty (join_paragraphs ss) ≡ is_nil ss
unfolding join_paragraphs bytes_eq
join_paragraphs-is_nil [] h = refl
join_paragraphs-is_nil (s ∷ []) (some_text, h) = some_text
join_paragraphs-is_nil ([] ∷ t ∷ ss) h = refl
join_paragraphs-is_nil ((c ∷ s) ∷ t ∷ ss) h = refl

module _ (libs : Libraries) (lib : CodexLib) (decode : Value → Option (List Bytes)) where
  abbrev has_text_in : List Bytes → Bool
  has_text_in texts = any (λ t. not (is_empty (libs.runtime.trim_space t))) texts

  -- What is decoded of a raw list are the texts of its items.
  abbrev pub IsListed : Value → Option Value → Type 0
  IsListed v none = slice_of libs lib v ≡ nil
  IsListed v (some raw) = decode raw ≡ some (texts_in (slice_of libs lib v))

  -- The probe reads the row.
  abbrev pub IsProbedAs : Fields → CodexProbe → Type 0
  IsProbedAs row p =
      let payload = get_map row (codes "payload") in
      IsRead (get row (codes "type")) p.type
      × IsRead (get payload (codes "type")) p.kind
      × IsRead (get payload (codes "role")) p.role
      × IsListed (get payload (codes "summary")) p.summary
      × IsListed (get payload (codes "content")) p.content

  abbrev pub is_drawn : Option Fields → Bool
  is_drawn none = false
  is_drawn (some m) = true

  reasoning_texts-nonempty :
      (vs : Items) → All (λ s. is_empty s ≡ false) (reasoning_texts libs lib vs)
  unfolding reasoning_texts
  reasoning_texts-nonempty nil = tt
  reasoning_texts-nonempty (cons (obj m) vs) =
      elim (Bool-cases (is_empty (libs.runtime.trim_space (str_field m (codes "text"))))) [
        | inl blank ↦ rw blank (reasoning_texts-nonempty vs)
        | inr some_text ↦ rw some_text (some_text, reasoning_texts-nonempty vs)
      ]
  reasoning_texts-nonempty (cons null vs) = reasoning_texts-nonempty vs
  reasoning_texts-nonempty (cons (bool b) vs) = reasoning_texts-nonempty vs
  reasoning_texts-nonempty (cons (str s) vs) = reasoning_texts-nonempty vs
  reasoning_texts-nonempty (cons (float x) vs) = reasoning_texts-nonempty vs
  reasoning_texts-nonempty (cons (int n) vs) = reasoning_texts-nonempty vs
  reasoning_texts-nonempty (cons (arr ws) vs) = reasoning_texts-nonempty vs

  reasoning_texts-is_nil :
      (vs : Items) → is_nil (reasoning_texts libs lib vs) ≡ not (has_text_in (texts_in vs))
  unfolding reasoning_texts texts_in
  reasoning_texts-is_nil nil = refl
  reasoning_texts-is_nil (cons (obj m) vs) =
      elim (Bool-cases (is_empty (libs.runtime.trim_space (str_field m (codes "text"))))) [
        | inl blank ↦ rw blank (reasoning_texts-is_nil vs)
        | inr some_text ↦ rw some_text refl
      ]
  reasoning_texts-is_nil (cons null vs) = reasoning_texts-is_nil vs
  reasoning_texts-is_nil (cons (bool b) vs) = reasoning_texts-is_nil vs
  reasoning_texts-is_nil (cons (str s) vs) = reasoning_texts-is_nil vs
  reasoning_texts-is_nil (cons (float x) vs) = reasoning_texts-is_nil vs
  reasoning_texts-is_nil (cons (int n) vs) = reasoning_texts-is_nil vs
  reasoning_texts-is_nil (cons (arr ws) vs) = reasoning_texts-is_nil vs

  listed-is_nil :
      (v : Value) (raw : Option Value)
      → IsListed v raw
      → is_nil (reasoning_texts libs lib (slice_of libs lib v))
        ≡ not (codex_reasoning_has_text libs.runtime decode raw)
  unfolding codex_reasoning_has_text reasoning_texts
  listed-is_nil v none h = rw h refl
  listed-is_nil v (some raw) h = rw h (reasoning_texts-is_nil (slice_of libs lib v))

  codex_reasoning_text-counted :
      (s c : Value) (summary content : Option Value)
      → IsListed s summary
      → IsListed c content
      → not (is_empty (codex_reasoning_text libs lib s c)) ≡ (
          codex_reasoning_has_text libs.runtime decode summary
          || codex_reasoning_has_text libs.runtime decode content)
  unfolding codex_reasoning_text
  codex_reasoning_text-counted s c summary content hs hc =
      let ss = reasoning_texts libs lib (slice_of libs lib s) in
      let cs = reasoning_texts libs lib (slice_of libs lib c) in
      let joined = join_paragraphs-is_nil (ss ++ cs) (
        All-append (λ t. is_empty t ≡ false) ss cs (reasoning_texts-nonempty (slice_of libs lib s))
          (reasoning_texts-nonempty (slice_of libs lib c))) in
      let parts = is_nil-append ss cs in
      let in_summary = listed-is_nil s summary hs in
      let in_content = listed-is_nil c content hc in
      ground (arith, joined, parts, in_summary, in_content)

  drawn-said :
      (payload : Fields) (timestamp : Value) (role : Bytes) (texts : List Bytes)
      → is_drawn (said libs lib payload timestamp role texts)
        ≡ not (bytes_eq role (codes "developer"))
  drawn-said payload timestamp role texts = elim (Bool-cases (bytes_eq role (codes "developer"))) [
    | inl developer ↦ rw developer refl
    | inr speaker ↦ rw speaker refl
  ]

  drawn-thought :
      (payload : Fields) (timestamp : Value) (full : Bool) (text : Bytes)
      → is_drawn (thought libs lib payload timestamp full text) ≡ not (is_empty text)
  drawn-thought payload timestamp full text = elim (Bool-cases (is_empty text)) [
    | inl nothing ↦ rw nothing refl
    | inr something ↦ rw something refl
  ]

  item_counts :
      (kind : PayloadKind) (row : Fields) (p : CodexProbe) (timestamp : Value) (w : CodexWalker)
      → IsProbedAs row p
      → is_drawn (item_message libs lib kind (get_map row (codes "payload")) timestamp w).0
        ≡ kind_counts libs.runtime decode kind p
  unfolding item_message kind_counts
  item_counts message row p timestamp w (type, kind, role, summary, content) =
      drawn-said (get_map row (codes "payload")) timestamp _ _
      ∙ ap not (role-read libs.runtime _ p.role role)
  item_counts reasoning row p timestamp w (type, kind, role, summary, content) =
      drawn-thought (get_map row (codes "payload")) timestamp w.full _
      ∙ codex_reasoning_text-counted _ _ p.summary p.content summary content
  item_counts function_call row p timestamp w h = refl
  item_counts custom_tool_call row p timestamp w h = refl
  item_counts local_shell_call row p timestamp w h = refl
  item_counts web_search_call row p timestamp w h = refl
  item_counts call_output row p timestamp w h = refl
  item_counts other row p timestamp w h = refl

  -- When the probe holds the type, the kind and the role of a row as texts, empty where they are
  -- missing, and the reading of its two raw lists gives the texts of the items, the row counts
  -- exactly when it is read as a message, whatever calls came before.
  pub codex_message-counts :
      (row : Fields) (p : CodexProbe) (w : CodexWalker)
      → IsProbedAs row p
      → is_drawn (codex_message libs lib row w).0 ≡ codex_counts libs.runtime decode p
  unfolding codex_message codex_counts
  codex_message-counts row p w h =
      let payload = get_map row (codes "payload") in
      let event = is_str-read (get row (codes "type")) p.type b'e' (codes "vent_msg") h.0 in
      let item = is_str-read (get row (codes "type")) p.type b'r' (codes "esponse_item") h.0 in
      let same = to_str-read libs.runtime (get payload (codes "type")) p.kind h.1 in
      rw (event, item, same)
        (elim (Bool-cases (bytes_eq p.type (codes "event_msg"))) [
          | inl happened ↦ elim (Bool-cases (bytes_eq p.kind (codes "turn_aborted"))) [
            | inl stopped ↦ rw (happened, stopped) refl
            | inr going ↦ rw (happened, going) refl
          ]
          | inr no_event ↦ elim (Bool-cases (bytes_eq p.type (codes "response_item"))) [
            | inl answered ↦ rw (no_event, answered) (item_counts (payload_kind p.kind) row p _ w h)
            | inr nothing ↦ rw (no_event, nothing) refl
          ]
        ])
