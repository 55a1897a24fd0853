-- ===== src/Tools/Kinds.antt =====
-- internal/app/brief.go: what a tool is for, by the words of its name; and the cut of a text at a
-- space.
use agent_session_query.Prelude.{
  ℕ, zero, suc, ◌/◌, Bool, false, ◌&&◌, ◌||◌, List, [], ◌∷◌, ◌++◌, none, some, Bytes, codes, ◌==◌,
  leb, if◌then◌else◌, bytes_eq, take, length, get_elem?, any,
}
use agent_session_query.Json.{Runtime}
use agent_session_query.Record.{is_empty, in_range}
use agent_session_query.Clean.{strip_terminal_controls}
use agent_session_query.Clean.Secrets.{Texts, redact_secrets}
use agent_session_query.Tools.{contains_string}

-- What a tool is for, and the words that say so.
pub data Kind : Type 0 where
  exec : Kind
  write : Kind
  read : Kind
  search : Kind
  net : Kind
  agent : Kind
  other : Kind

abbrev words_of : Kind → List Bytes
words_of exec =
    codes "bash"
    ∷ codes "sh"
    ∷ codes "zsh"
    ∷ codes "shell"
    ∷ codes "terminal"
    ∷ codes "exec"
    ∷ codes "run"
    ∷ codes "cmd"
    ∷ codes "command"
    ∷ codes "process"
    ∷ codes "container"
    ∷ codes "docker"
    ∷ []
words_of write =
    codes "write"
    ∷ codes "edit"
    ∷ codes "patch"
    ∷ codes "replace"
    ∷ codes "create"
    ∷ codes "delete"
    ∷ codes "remove"
    ∷ codes "move"
    ∷ codes "rename"
    ∷ codes "apply"
    ∷ codes "save"
    ∷ codes "notebook"
    ∷ []
words_of read = codes "read" ∷ codes "view" ∷ codes "cat" ∷ codes "open" ∷ codes "show" ∷ []
words_of search =
    codes "grep"
    ∷ codes "glob"
    ∷ codes "search"
    ∷ codes "find"
    ∷ codes "list"
    ∷ codes "scan"
    ∷ codes "ls"
    ∷ []
words_of net =
    codes "fetch"
    ∷ codes "web"
    ∷ codes "url"
    ∷ codes "download"
    ∷ codes "browser"
    ∷ codes "http"
    ∷ codes "curl"
    ∷ []
words_of agent =
    codes "task" ∷ codes "agent" ∷ codes "dispatch" ∷ codes "delegate" ∷ codes "subagent" ∷ []
words_of other = []

abbrev kinds_in_order : List Kind
kinds_in_order = exec ∷ write ∷ read ∷ search ∷ net ∷ agent ∷ []

unfoldable pub kind_of_tokens : List Kind → List Bytes → Kind
kind_of_tokens [] tokens = other
kind_of_tokens (kind ∷ kinds) tokens =
    let rest = kind_of_tokens kinds tokens in
    if any (λ token. contains_string (words_of kind) token) tokens then kind else rest

-- A byte that separates the words of a tool's name. All are ASCII, so bytes and runes are the same.
abbrev is_separator : ℕ → Bool
is_separator c =
    c == b'_' || (c == b'-' || (c == b'.' || (c == b':' || (c == b' ' || in_range b'0' b'9' c))))

-- strings.FieldsFunc: `word` is the field that is being read.
unfoldable pub fields_func : Bytes → Bytes → List Bytes
fields_func word [] = if is_empty word then [] else word ∷ []
fields_func word (c ∷ s) =
    let cut = fields_func [] s in
    let longer = fields_func (word ++ c ∷ []) s in
    if is_separator c then (if is_empty word then cut else word ∷ cut) else longer

module _ (rt : Runtime) (tx : Texts) where
  -- The words of a field, from the rune behind `before` on; `word` is the one that is being read.
  camel_words : Bytes → Bytes → List Bytes → List Bytes
  camel_words before word [] = rt.to_lower word ∷ []
  camel_words before word (r ∷ rs) =
      let cut = camel_words r r rs in
      let longer = camel_words r (word ++ r) rs in
      if tx.is_lower before && tx.is_upper r then rt.to_lower word ∷ cut else longer

  abbrev words_of_field : List Bytes → List Bytes
  words_of_field [] = rt.to_lower [] ∷ []
  words_of_field (r ∷ rs) = camel_words r r rs

  words_of_fields : List Bytes → List Bytes
  words_of_fields [] = []
  words_of_fields (field' ∷ fields') = words_of_field (tx.runes field') ++ words_of_fields fields'

  -- toolNameTokens
  unfoldable pub tool_name_tokens : Bytes → List Bytes
  unfolding words_of_fields camel_words
  tool_name_tokens name = words_of_fields (fields_func [] name)

  -- toolKindOf
  unfoldable pub tool_kind_of : Bytes → Kind
  tool_kind_of name = kind_of_tokens kinds_in_order (tool_name_tokens name)

  abbrev is_space_at : List Bytes → ℕ → Bool
  is_space_at cut i = elim (get_elem? cut i) [ none ↦ false | some r ↦ bytes_eq r (codes " ") ]

  -- The loop that looks for a space, from position `i` down to the half.
  unfoldable pub cut_at_space : ℕ → ℕ → List Bytes → List Bytes
  cut_at_space zero half cut = cut
  cut_at_space (suc i) half cut =
      let rest = cut_at_space i half cut in
      if leb i half then cut else if is_space_at cut i then take i cut else rest

  unfoldable pub rune_string : List Bytes → Bytes
  rune_string [] = []
  rune_string (r ∷ rs) = r ++ rune_string rs

  -- " …"
  abbrev ellipsis : Bytes
  ellipsis = 32 ∷ 226 ∷ 128 ∷ 166 ∷ []

  abbrev cut_runes : ℕ → List Bytes → List Bytes
  cut_runes n rs = let cut = take n rs in cut_at_space (length cut) (n / 2) cut

  -- capText
  unfoldable pub cap_text : Bytes → ℕ → Bytes
  cap_text s n =
      let t = rt.trim_space (redact_secrets tx (strip_terminal_controls tx.rune_len s)) in
      if n == 0 || leb (length (tx.runes t)) n
      then t
      else rune_string (cut_runes n (tx.runes t)) ++ ellipsis

abbrev pub kind_name : Kind → Bytes
kind_name exec = codes "exec"
kind_name write = codes "write"
kind_name read = codes "read"
kind_name search = codes "search"
kind_name net = codes "net"
kind_name agent = codes "agent"
kind_name other = codes "other"
