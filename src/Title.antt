-- ===== src/Title.antt =====
-- internal/source/title.go: the blocks that a harness puts behind a user's words.
pub mod Strip
use agent_session_query.Prelude.{
  ℕ, zero, suc, ◌+◌, ◌-◌, Bool, true, false, not, ◌&&◌, ◌||◌, List, [], ◌∷◌, ◌++◌, Option, none,
  some, Bytes, codes, ◌==◌, if◌then◌else◌, has_prefix, has_suffix, contains, index, take, drop,
  length,
}
use agent_session_query.Record.{is_empty}

abbrev pub harness_blocks : List Bytes
harness_blocks = codes "runtime_info" ∷ codes "pull_request_linking" ∷ []

abbrev pub opening : Bytes → Bytes
opening tag = b'<' ∷ (tag ++ codes ">")

abbrev pub closing : Bytes → Bytes
closing tag = codes "</" ++ (tag ++ codes ">")

abbrev pub is_blank : ℕ → Bool
is_blank c = c == b' ' || (c == b'\t' || (c == b'\r' || c == b'\n'))

-- strings.TrimRight(text, " \t\r\n")
unfoldable pub trim_right : Bytes → Bytes
trim_right [] = []
trim_right (c ∷ s) = let rest = trim_right s in if is_blank c && is_empty rest then [] else c ∷ rest

-- strings.LastIndex, for a needle that is not empty
unfoldable pub last_index : Bytes → Bytes → Option ℕ
last_index [] needle = none
last_index (c ∷ s) needle =
    let later = last_index s needle in
    elim later [ some i ↦ some (suc i) | none ↦ if has_prefix (c ∷ s) needle then some 0 else none ]

abbrev pub cut_before : Bytes → Option ℕ → Bytes × Bool
cut_before t none = (t, false)
cut_before t (some open') = (trim_right (take open' t), true)

-- One tag of a round: what is left, and whether a block was dropped.
unfoldable pub strip_tag : Bytes → Bytes → Bytes × Bool
strip_tag t tag =
    if not (has_suffix t (closing tag))
    then (t, false)
    else cut_before t (last_index t (opening tag))

unfoldable pub strip_round : Bytes → List Bytes → Bytes × Bool
strip_round t [] = (t, false)
strip_round t (tag ∷ tags) =
    let (t₁, stripped) = strip_tag t tag in
    let (t₂, again) = strip_round t₁ tags in (t₂, stripped || again)

-- The rounds, on fuel.
unfoldable pub strip_rounds : ℕ → Bytes → Bytes
strip_rounds zero t = t
strip_rounds (suc f) t =
    let later = strip_rounds f (strip_round t harness_blocks).0 in
    if not (strip_round t harness_blocks).1 then t else later

-- A round that drops a block drops a byte.
unfoldable pub strip_harness_blocks : Bytes → Bytes
strip_harness_blocks text = strip_rounds (length text + 1) (trim_right text)

abbrev pub cut_open : Bytes → Bytes → Option ℕ → Bytes
cut_open tag title none = title
cut_open tag title (some open') =
    if not (contains (drop open' title) (closing tag)) then take open' title else title

unfoldable pub cut_open_tags : List Bytes → Bytes → Bytes
cut_open_tags [] title = title
cut_open_tags (tag ∷ tags) title =
    cut_open_tags tags (cut_open tag title (index title (opening tag)))

unfoldable pub cut_open_harness_block : Bytes → Bytes
cut_open_harness_block title = cut_open_tags harness_blocks title
