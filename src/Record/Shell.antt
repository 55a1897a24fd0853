-- ===== src/Record/Shell.antt =====
-- What a POSIX shell reads out of `ShellArg` and out of a resume command.
use mathlib.Core.Path.{subst}
use agent_session_query.Prelude.{
  ℕ, Bool, true, false, not, ◌&&◌, List, [], ◌∷◌, ◌++◌, append_assoc, append-nil, Option, none,
  some, ◌≡◌, refl, ◌∙◌, inl, inr, arith, Bytes, codes, ◌||◌, ◌==◌, ==_iff, if◌then◌else◌,
  Bool-cases, replace_byte, all, All, bytes_eq,
}
use agent_session_query.Prelude.Assoc.{Assoc, lookup}
use agent_session_query.Record.{
  in_range, Record, is_shell_safe, shell_arg, resume_command, resume_commands, base_mode,
  is_subagent, is_empty,
}

abbrev push : Option Bytes → ℕ → Option Bytes
push none c = some (c ∷ [])
push (some w) c = some (w ++ c ∷ [])

abbrev started : Option Bytes → Option Bytes
started none = some []
started (some w) = some w

abbrev emit : Option Bytes → Option (List Bytes) → Option (List Bytes)
emit w none = none
emit none (some ws) = some ws
emit (some w) (some ws) = some (w ∷ ws)

-- A byte with a meaning of its own to a shell: ! " # $ % & ' ( ) * and ; < and > ? and [ \ ] ^ and
-- ` and { | } ~
abbrev pub is_special : ℕ → Bool
is_special c =
    in_range b'!' b'*' c
    || in_range b';' b'<' c
    || in_range b'>' b'?' c
    || in_range b'[' b'^' c
    || c == b'`'
    || in_range b'{' b'~' c

-- A printable ASCII byte that a shell reads literally in an argument without quotes.
abbrev pub is_literal : ℕ → Bool
is_literal c = in_range b'!' b'~' c && not (is_special c)

pub data Mode : Type 0 where
  bare quoted escaped : Mode

-- The shell's word splitting, with single quotes and backslashes; `w` is the word begun, if any. A
-- byte that is not literal is refused outside quotes.
unfoldable pub split_words : Mode → Option Bytes → Bytes → Option (List Bytes)
split_words bare w [] = emit w (some [])
split_words quoted w [] = none
split_words escaped w [] = none
split_words escaped w (c ∷ s) = split_words bare (push w c) s
split_words quoted w (c ∷ s) =
    let close = split_words bare w s in
    let inside = split_words quoted (push w c) s in if c == b'\'' then close else inside
split_words bare w (c ∷ s) =
    let space = emit w (split_words bare none s) in
    let quote = split_words quoted (started w) s in
    let escape = split_words escaped w s in
    let plain = split_words bare (push w c) s in
    if c == b' '
    then space
    else if c == b'\''
    then quote
    else if c == b'\\'
    then escape
    else if is_literal c
    then plain
    else none

abbrev pub shell_words : Bytes → Option (List Bytes)
shell_words s = split_words bare none s

-- Inside quotes, up to the closing one, every byte stands for itself, an escaped quote for a quote.
quoted_run :
    (s w rest : Bytes)
    → split_words quoted (some w) (replace_byte b'\'' (codes "'\\''") s ++ b'\'' ∷ rest)
      ≡ split_words bare (some (w ++ s)) rest
unfolding split_words replace_byte
quoted_run [] w rest = rw append-nil
quoted_run (c ∷ s) w rest =
    let e = ==_iff c b'\'' in
    ground (arith, quoted_run s (w ++ c ∷ []) rest, append_assoc w (c ∷ []) s, e)

-- Every byte that ShellArg leaves bare is literal.
safe-is_literal : (c : ℕ) → is_shell_safe c ≡ true → is_literal c ≡ true
unfolding is_shell_safe
safe-is_literal c h = ground arith

safe_step :
    (c : ℕ) (w : Option Bytes) (s : Bytes)
    → is_shell_safe c ≡ true
    → split_words bare w (c ∷ s) ≡ split_words bare (push w c) s
unfolding split_words is_shell_safe
safe_step c w s h = let literal = safe-is_literal c h in ground arith

-- A run of safe bytes at the end is the rest of the word.
safe_run :
    (s w : Bytes) → all is_shell_safe s ≡ true → split_words bare (some w) s ≡ some ((w ++ s) ∷ [])
safe_run [] w h = unfold split_words in rw append-nil
safe_run (c ∷ s) w h =
    ground (arith, safe_step c (some w) s, safe_run s (w ++ c ∷ []), append_assoc w (c ∷ []) s)

safe_word :
    (s : Bytes) → all is_shell_safe s && not (is_empty s) ≡ true → shell_words s ≡ some (s ∷ [])
unfolding bytes_eq
safe_word [] h = cc
safe_word (c ∷ s) h = ground (arith, safe_step c none s, safe_run s (c ∷ []))

quoted_word :
    (s : Bytes)
    → shell_words (b'\'' ∷ (replace_byte b'\'' (codes "'\\''") s ++ b'\'' ∷ [])) ≡ some (s ∷ [])
unfolding split_words
quoted_word s = quoted_run s [] []

-- A shell, which reads literally only the printable bytes without a meaning of their own to it,
-- reads a quoted argument back as one word, whatever bytes the text holds.
pub shell_words-shell_arg : (s : Bytes) → shell_words (shell_arg s) ≡ some (s ∷ [])
unfolding shell_arg
shell_words-shell_arg s = elim (Bool-cases (all is_shell_safe s && not (is_empty s))) [
  | inl safe ↦ rw safe (safe_word s safe)
  | inr other ↦ rw other (quoted_word s)
]

-- A command of the table is two words, and a blank and an argument make a third.
record Opens (command : Bytes) : Type 0 where
  program : Bytes
  flag : Bytes
  words : shell_words command ≡ some (program ∷ flag ∷ [])
  before :
      (rest : Bytes)
      → shell_words (command ++ b' ' ∷ rest)
        ≡ emit (some program) (emit (some flag) (shell_words rest))

commands-Opens : All (λ p. Opens (p.1)) resume_commands
unfolding split_words is_shell_safe
commands-Opens = (
  record { program = codes "claude"; flag = codes "--resume"; words = refl; before = λ rest. refl },
  (
    record { program = codes "codex"; flag = codes "resume"; words = refl; before = λ rest. refl },
    (
      record { program = codes "grok"; flag = codes "-r"; words = refl; before = λ rest. refl },
      (
        record {
          program = codes "hermes";
          flag = codes "--resume";
          words = refl;
          before = λ rest. refl;
        },
        (
          record {
            program = codes "opencode";
            flag = codes "--session";
            words = refl;
            before = λ rest. refl;
          },
          (
            record {
              program = codes "pi";
              flag = codes "--session";
              words = refl;
              before = λ rest. refl;
            },
            (
              record {
                program = codes "agy";
                flag = codes "--conversation";
                words = refl;
                before = λ rest. refl;
              },
              tt,
            ),
          ),
        ),
      ),
    ),
  ),
)

lookup-All :
    (P : Bytes → Type 0) (k : Bytes) (m : Assoc Bytes) (v : Bytes)
    → All (λ p. P (p.1)) m
    → lookup k m ≡ some v
    → P v
unfolding lookup
lookup-All P k [] v h e = cc
lookup-All P k ((j, w) ∷ m) v (p, h) e = elim (Bool-cases (bytes_eq j k)) [
  | inl q ↦ let same : w ≡ v = ground arith in subst P same p
  | inr n ↦ lookup-All P k m v h (rw n at e)
]

-- The command that resumes a session with an id, of a CLI of the table, is read by a shell as the
-- two words of the CLI's own command and the id.
pub resume_command-words :
    (r : Record) (command : Bytes)
    → is_subagent r ≡ false
    → is_empty r.session_id ≡ false
    → lookup (base_mode r.source) resume_commands ≡ some command
    → (program : Bytes) × (flag : Bytes) × (shell_words command ≡ some (program ∷ flag ∷ []))
      × (shell_words (resume_command r) ≡ some (program ∷ flag ∷ r.session_id ∷ []))
unfolding resume_command
resume_command-words r command top id found =
    let o = lookup-All Opens (base_mode r.source) resume_commands command commands-Opens found in
    (
      o.program,
      o.flag,
      o.words,
      rw (top, found, id) (o.before (shell_arg r.session_id) ∙ rw shell_words-shell_arg),
    )
