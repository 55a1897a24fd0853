-- ===== src/Claude/Content.antt =====
-- internal/source/record.go: ContentText, the plain text of a content of any shape.
use agent_session_query.Prelude.{
  List, [], ◌∷◌, ◌++◌, Option, none, some, Bytes, codes, if◌then◌else◌, bytes_eq,
}
use agent_session_query.Json.{
  Value, null, bool, str, float, int, arr, obj, Items, nil, cons, Fields, end, field,
}
use agent_session_query.Record.{is_empty}

-- strings.Join(parts, "\n")
unfoldable pub join_lines : List Bytes → Bytes
join_lines [] = []
join_lines (s ∷ []) = s
join_lines (s ∷ t ∷ ss) = s ++ b'\n' ∷ join_lines (t ∷ ss)

abbrev first_text : Option Bytes → Option Bytes → Option Bytes
first_text none later = later
first_text (some s) later = some s

abbrev text_or_empty : Option Bytes → Bytes
text_or_empty none = []
text_or_empty (some s) = s

abbrev unless_empty : Bytes → List Bytes → List Bytes
unless_empty s rest = if is_empty s then rest else s ∷ rest

-- `texts_of` collects the texts of a list that are not empty; `text_under` is the text of an object
-- under a key, when a string or a list stands there.
unfoldable mutual
  pub content_text : Value → Bytes
  content_text null = []
  content_text (bool b) = []
  content_text (str s) = s
  content_text (float x) = []
  content_text (int n) = []
  content_text (arr vs) = join_lines (texts_of vs)
  content_text (obj fs) = text_or_empty (
      first_text (text_under (codes "text") fs)
        (first_text (text_under (codes "content") fs) (text_under (codes "thinking") fs)))

  pub texts_of : Items → List Bytes
  texts_of nil = []
  texts_of (cons v vs) = unless_empty (content_text v) (texts_of vs)

  pub text_under : Bytes → Fields → Option Bytes
  text_under key end = none
  text_under key (field k v fs) =
      let here = text_in v in
      let later = text_under key fs in if bytes_eq k key then here else later

  pub text_in : Value → Option Bytes
  text_in null = none
  text_in (bool b) = none
  text_in (str s) = some s
  text_in (float x) = none
  text_in (int n) = none
  text_in (arr vs) = some (join_lines (texts_of vs))
  text_in (obj fs) = none
