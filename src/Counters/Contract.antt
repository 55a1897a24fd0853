-- ===== src/Counters/Contract.antt =====
-- What codexCountMessages counts from the start and from where a line starts, and what is banked of it.
use mathlib.Core.Path.{subst}
use agent_session_query.Prelude.{
  ℕ, zero, suc, ◌+◌, ◌-◌, ◌≤◌, ◌<◌, Bool, true, false, List, [], ◌∷◌, ◌++◌, Option, some, Bytes,
  if◌then◌else◌, bytes_eq, length, take, drop, get_elem?, ◌==◌, ==_iff, ◌≡◌, refl, ap, ◌∙◌, inl,
  inr, Bool-cases, Option-cases, All, arith,
}
use agent_session_query.Lines.{Ending}
use agent_session_query.Lines.Split.{lines_of, cons_first}
use agent_session_query.Lines.Gather.{IsFileRead}
use agent_session_query.Lines.Scan.{hand_out, IsCapped, each_line_from-lines_of}
use agent_session_query.Cache.Resume.{
  File, IsCounter, newline_before, Sightings, IsHonest, IsOfPrefix, IsBanked, count_stable,
  count_stable_lem,
}
use agent_session_query.Cache.Count.{CountEntry}
use agent_session_query.Counters.{
  CounterLib, count_lines, to_the_end, count_scan, is_zst, codex_line, codex_count_messages,
}

-- The number of lines, trimmed and not blank, that count.
unfoldable pub count_nonblank : (Bytes → Bytes) → (Bytes → Bool) → List Bytes → ℕ
count_nonblank trim counts [] = 0
count_nonblank trim counts (line ∷ lines) =
    let rest = count_nonblank trim counts lines in
    if bytes_eq (trim line) [] then rest else if counts (trim line) then suc rest else rest

module _ (trim : Bytes → Bytes) (counts : Bytes → Bool) where
  count_lines-hand_out :
      (lines : List Bytes)
      → count_lines counts (hand_out trim to_the_end lines).0 ≡ count_nonblank trim counts lines
  unfolding count_nonblank
  count_lines-hand_out [] = refl
  count_lines-hand_out (line ∷ lines) = elim (Bool-cases (bytes_eq (trim line) [])) [
    | inl blank ↦ rw blank (count_lines-hand_out lines)
    | inr some_text ↦
        rw some_text
          (ap (λ n. if counts (trim line) then suc n else n) (count_lines-hand_out lines))
  ]

  count_nonblank-append :
      (a b : List Bytes)
      → count_nonblank trim counts (a ++ b)
        ≡ count_nonblank trim counts a + count_nonblank trim counts b
  unfolding count_nonblank
  count_nonblank-append [] b = omega arith
  count_nonblank-append (line ∷ a) b = ground (arith, count_nonblank-append a b)

cons_first-append :
    (c : ℕ) (a b : List Bytes) → 0 < length a → cons_first c (a ++ b) ≡ cons_first c a ++ b
cons_first-append c [] b some_line = absurd (omega (arith, some_line))
cons_first-append c (l ∷ a) b some_line = refl

cons_first-length : (c : ℕ) (ls : List Bytes) → 0 < length (cons_first c ls)
cons_first-length c [] = omega arith
cons_first-length c (l ∷ ls) = omega arith

length-lines_of : (c : ℕ) (s : Bytes) → 0 < length (lines_of (c ∷ s))
unfolding lines_of
length-lines_of c s = elim (Bool-cases (c == b'\n')) [
  | inl newline ↦ rw newline (omega arith)
  | inr other ↦ rw other (cons_first-length c (lines_of s))
]

-- Behind a newline the lines of a text are those before and those behind.
lines_of-take :
    (k : ℕ) (s : Bytes)
    → get_elem? s k ≡ some b'\n'
    → (lines_of s ≡ lines_of (take (suc k) s) ++ lines_of (drop (suc k) s))
      × (0 < length (lines_of (take (suc k) s)))
unfolding lines_of
lines_of-take k [] h = absurd (cc h)
lines_of-take zero (c ∷ s) h =
    let newline : (c == b'\n') ≡ true = ground (arith, h) in rw newline (refl, omega arith)
lines_of-take (suc k) (c ∷ s) h =
    let (split, some_line) = lines_of-take k s h in
    elim (Bool-cases (c == b'\n')) [
      | inl newline ↦ rw newline (ap (λ ls. [] ∷ ls) split, omega arith)
      | inr other ↦
          rw other
            (ap (cons_first c) split ∙ cons_first-append c _ _ some_line, cons_first-length c _)
    ]

newline_at :
    (f : File) (k : ℕ) → newline_before (some f) (suc k) ≡ true → get_elem? f.bytes k ≡ some b'\n'
unfolding newline_before
newline_at f k h =
    let e : suc k - 1 ≡ k = omega arith in
    elim (Option-cases (get_elem? f.bytes k)) [
      | inl gone ↦ absurd (ground (arith, h, e, gone))
      | inr (b, at) ↦ at ∙ ap some ((==_iff b b'\n').0 (ground (arith, h, e, at)))
    ]

get_elem?-lt : (k : ℕ) (s : Bytes) (b : ℕ) → get_elem? s k ≡ some b → k < length s
get_elem?-lt k [] b h = absurd (cc h)
get_elem?-lt zero (c ∷ s) b h = omega arith
get_elem?-lt (suc k) (c ∷ s) b h = omega (arith, get_elem?-lt k s b h)

-- At the start of a line a text and its lines split.
split_at :
    (f : File) (from : ℕ)
    → newline_before (some f) from ≡ true
    → (lines_of f.bytes ≡ lines_of (take from f.bytes) ++ lines_of (drop from f.bytes))
      × (from ≤ length f.bytes)
unfolding lines_of
split_at f zero h = (refl, omega arith)
split_at f (suc k) h =
    let at = newline_at f k h in
    ((lines_of-take k f.bytes at).0, omega (arith, get_elem?-lt k f.bytes b'\n' at))

All-behind : (P : Bytes → Type 0) (a b : List Bytes) → All P (a ++ b) → All P b
All-behind P [] b h = h
All-behind P (x ∷ a) b (hx, h) = All-behind P a b h

module _ (lib : CounterLib) where
  -- The messages of a rollout: the lines that count.
  unfoldable pub codex_messages : Bytes → Bytes → ℕ
  codex_messages path content =
      if is_zst lib path
      then count_lines (codex_line lib) (lib.zst_lines content)
      else count_nonblank lib.trim_line (codex_line lib) (lines_of content)

  module _ (trim_nil : lib.trim_line [] ≡ [])
      (read : (content : Bytes) → IsFileRead content (lib.read_count content)) where
    count_scan-lines :
        (counts : Bytes → Bool) (f : File) (from : ℕ)
        → from ≤ length f.bytes
        → All IsCapped (lines_of (drop from f.bytes))
        → count_scan lib counts false (some f) from
          ≡ count_nonblank lib.trim_line counts (lines_of (drop from f.bytes))
    unfolding count_scan
    count_scan-lines counts f from within capped =
        ap (λ (out : List Bytes × Ending). count_lines counts out.0)
          (each_line_from-lines_of (lib.read_count f.bytes) lib.trim_line to_the_end trim_nil
            f.bytes from (read f.bytes) within capped)
        ∙ count_lines-hand_out lib.trim_line counts (lines_of (drop from f.bytes))

    plain-IsCounter :
        (path : Bytes) (f : File)
        → is_zst lib path ≡ false
        → All IsCapped (lines_of f.bytes)
        → IsCounter (codex_messages path) (codex_count_messages lib path) f
    unfolding codex_messages codex_count_messages
    plain-IsCounter path f plain capped = record {
      whole = rw plain (count_scan-lines (codex_line lib) f 0 (omega arith) capped);
      resumed = λ from line t.
          let (split, within) = split_at f from line in
          let behind =
            All-behind IsCapped (lines_of (take from f.bytes)) _
              (subst (All IsCapped) split capped) in
          let scan = count_scan-lines (codex_line lib) f from within behind in
          let whole =
            ap (count_nonblank lib.trim_line (codex_line lib)) split
            ∙ count_nonblank-append lib.trim_line (codex_line lib) (lines_of (take from f.bytes))
                (lines_of (drop from f.bytes)) in
          rw plain (omega (arith, scan, whole));
      refused = λ from r. absurd (ground (arith, r, plain));
    }

    zst-IsCounter :
        (path : Bytes) (f : File)
        → is_zst lib path ≡ true
        → IsCounter (codex_messages path) (codex_count_messages lib path) f
    unfolding codex_messages codex_count_messages count_scan
    zst-IsCounter path f zst = record {
      whole = rw zst refl;
      resumed = λ from line t. absurd (ground (arith, t, zst));
      refused = λ from r. rw zst refl;
    }

    codex-IsCounter :
        (path : Bytes) (f : File)
        → All IsCapped (lines_of f.bytes)
        → IsCounter (codex_messages path) (codex_count_messages lib path) f
    codex-IsCounter path f capped = elim (Bool-cases (is_zst lib path)) [
      | inl zst ↦ zst-IsCounter path f zst
      | inr plain ↦ plain-IsCounter path f plain capped
    ]

    -- When a rollout that has the same stamp before and after a count did not change between, its
    -- reads do not fail, none of its lines is longer than the cap, an empty line trims to itself,
    -- and the old count is of the bytes before the old end whenever the fingerprints there agree,
    -- the entry that is banked for it, resumed or not, has the number of the messages of the whole
    -- rollout, the stamp and the fingerprint of its end; and nothing is banked only when the
    -- rollout is missing before or after, or its stamp differs.
    pub count_stable-codex_count_messages :
        (hash : Bytes → Bytes) (path : Bytes) (d : Sightings) (prev : Option CountEntry)
        → IsHonest d
        → ((f : File)
            → d.pre ≡ some f
            → All IsCapped (lines_of f.bytes)
              × IsOfPrefix hash (codex_messages path) (codex_count_messages lib path) f prev)
        → IsBanked hash
            (codex_messages path)
            (codex_count_messages lib path)
            d
            (count_stable hash (codex_count_messages lib path) d prev)
    count_stable-codex_count_messages hash path d prev honest file =
        count_stable_lem hash (codex_messages path) (codex_count_messages lib path) d prev honest
          (λ f at. (codex-IsCounter path f (file f at).0, (file f at).1))
