-- ===== src/Clean/Secrets.antt =====
-- internal/source/cleantext.go: the secrets that are blotted out of text that is shown.
use agent_session_query.Prelude.{
  ℕ, Bool, true, ◌&&◌, ◌||◌, ◌==◌, List, [], ◌∷◌, Bytes, codes, if◌then◌else◌, any,
}
use agent_session_query.Record.{in_range, is_empty}

abbrev secret_patterns : List Bytes
secret_patterns =
    codes "\\b[sprk]k-[A-Za-z0-9_-]{16,}"
    ∷ codes "\\bgh[pousr]_[A-Za-z0-9]{20,}"
    ∷ codes "\\bgithub_pat_[A-Za-z0-9_]{20,}"
    ∷ codes "\\bxox[abprs]-[A-Za-z0-9-]{10,}"
    ∷ codes "\\bAIza[A-Za-z0-9_-]{30,}"
    ∷ codes "\\b(?:AKIA|ASIA)[0-9A-Z]{16}\\b"
    ∷ codes "\\beyJ[A-Za-z0-9_-]{8,}\\.[A-Za-z0-9_-]{8,}\\.[A-Za-z0-9_-]{8,}"
    ∷ codes "-----BEGIN [A-Z ]*PRIVATE KEY-----"
    ∷ []

-- Parts of Go's standard library that rest on the Unicode tables or on regular expressions.
pub record Texts : Type 0 where
  -- The characters of a text, each as the bytes that Go writes for it
  pub runes : Bytes → List Bytes
  -- The size that utf8.DecodeRuneInString returns
  pub rune_len : Bytes → ℕ
  -- unicode.IsLower, IsUpper, IsLetter and IsDigit
  pub is_lower : Bytes → Bool
  pub is_upper : Bytes → Bool
  pub is_letter : Bytes → Bool
  pub is_digit : Bytes → Bool
  -- regexp.MustCompile(pattern).ReplaceAllStringFunc
  pub replace_all_func : Bytes → (Bytes → Bytes) → Bytes → Bytes

-- secretLike
unfoldable pub secret_like : Bytes → Bool
secret_like (a ∷ b ∷ c ∷ s) =
    if b == b'k' && c == b'-' && (a == b's' || a == b'p' || a == b'r' || a == b'k')
    then any (in_range b'0' b'9') s && any (in_range b'A' b'Z') s
    else true
secret_like s = true

abbrev blotted : Bytes → Bytes
blotted found = if secret_like found then codes "[redacted]" else found

redact_all : Texts → List Bytes → Bytes → Bytes
redact_all tx [] s = s
redact_all tx (p ∷ ps) s = redact_all tx ps (tx.replace_all_func p blotted s)

-- RedactSecrets
unfoldable pub redact_secrets : Texts → Bytes → Bytes
unfolding redact_all
redact_secrets tx s = if is_empty s then s else redact_all tx secret_patterns s
