-- ===== src/Questions.antt =====
-- internal/app/brief.go: the messages that are a question of the user; and WrappedInTag of
-- internal/source/source_codex.go.
use agent_session_query.Prelude.{
  ℕ, suc, ◌-◌, Bool, false, not, ◌&&◌, ◌||◌, List, [], ◌∷◌, ◌++◌, Option, none, some, Bytes, codes,
  ◌==◌, ltb, leb, if◌then◌else◌, bytes_eq, has_prefix, has_suffix, drop, take, length, any, all,
}
use agent_session_query.Json.{
  Runtime, Value, str, arr, obj, Items, nil, cons, Fields, get, to_str, truthy,
}
use agent_session_query.Record.{is_empty}
use agent_session_query.Title.{strip_harness_blocks}
use agent_session_query.Clean.Secrets.{Texts}
use agent_session_query.Usage.{Floats}

-- A Go value's blocks, whether the transport kept their type or not.
objects : Items → List Fields
objects nil = []
objects (cons (obj m) vs) = m ∷ objects vs
objects (cons _ vs) = objects vs

-- contentBlocks
unfoldable pub content_blocks : Value → List Fields
unfolding objects
content_blocks (arr vs) = objects vs
content_blocks _ = []

abbrev round_plumbing_prefixes : List Bytes
round_plumbing_prefixes =
    codes "<command-name>"
    ∷ codes "<command-message>"
    ∷ codes "<command-args>"
    ∷ codes "<command-contents>"
    ∷ codes "<local-command-"
    ∷ codes "<caveat"
    ∷ codes "Caveat:"
    ∷ codes "<task-notification"
    ∷ codes "<system-reminder"
    ∷ []

-- What the functions of this file take from Go's libraries.
pub record Libraries : Type 0 where
  pub runtime : Runtime
  pub texts : Texts
  pub floats : Floats

module _ (w : Libraries) where
  abbrev pub text_at : Fields → Bytes → Bytes
  text_at m key = to_str w.runtime (get m key)

  unfoldable pub text_blocks : List Fields → Bytes
  text_blocks [] = []
  text_blocks (block ∷ blocks) =
      (if bytes_eq (text_at block (codes "type")) (codes "text")
        then text_at block (codes "content")
        else [])
      ++ text_blocks blocks

  -- messageText
  unfoldable pub message_text : Value → Bytes
  message_text (str s) = s
  message_text v = text_blocks (content_blocks v)

  abbrev is_word : Bytes → Bool
  is_word r =
      w.texts.is_letter r
      || (w.texts.is_digit r || (bytes_eq r (codes "_") || bytes_eq r (codes "-")))

  abbrev ends_name : ℕ → Bool
  ends_name c = c == b' ' || (c == b'>' || (c == b'\n' || c == b'\t'))

  -- strings.IndexAny(t, " >\n\t")
  index_name_end : Bytes → Option ℕ
  index_name_end [] = none
  index_name_end (c ∷ t) =
      let rest : Option ℕ = elim (index_name_end t) [ none ↦ none | some i ↦ some (suc i) ] in
      if ends_name c then some 0 else rest

  abbrev wrapped_by : Bytes → ℕ → Bool
  wrapped_by t end' =
      let name = take (end' - 1) (drop 1 t) in
      leb 2 end'
      && (all is_word (w.texts.runes name) && has_suffix t (codes "</" ++ (name ++ codes ">")))

  -- WrappedInTag
  unfoldable pub wrapped_in_tag : Bytes → Bool
  unfolding index_name_end
  wrapped_in_tag t =
      if ltb (length t) 5 || (not (has_prefix t (codes "<")) || not (has_suffix t (codes ">")))
      then false
      else elim (index_name_end t) [ none ↦ false | some end' ↦ wrapped_by t end' ]

  -- The words of a message, without what a harness put behind them.
  abbrev pub asked_of : Fields → Bytes
  asked_of m = w.runtime.trim_space (strip_harness_blocks (message_text (get m (codes "content"))))

  -- isRoundStart
  unfoldable pub is_round_start : Fields → Bool
  is_round_start m =
      if not (bytes_eq (text_at m (codes "role")) (codes "user"))
        || (truthy (get m (codes "injected")) || truthy (get m (codes "queued")))
      then false
      else if is_empty (asked_of m)
      then false
      else if any (has_prefix (asked_of m)) round_plumbing_prefixes
      then false
      else not (wrapped_in_tag (asked_of m))
