-- ===== src/Record/Match.antt =====
-- Which sessions a pattern names.
use agent_session_query.Prelude.{
  ℕ, ◌-◌, true, false, not, ◌&&◌, ◌||◌, [], ◌∷◌, ◌++◌, none, ◌≡◌, ◌≢◌, ◌↔◌, ◌⊎◌, inl, inr, refl,
  sym, ap, ◌∙◌, arith, Bytes, Bool-cases, length, drop, take, append_assoc, append-nil, bytes_eq,
  bytes_eq_iff, eq_of_bytes_eq, bytes_eq_refl, has_prefix, has_suffix, contains, take-append-drop,
}
use agent_session_query.Record.{match_rank, is_empty}

-- The pattern stands somewhere in the text.
pub record Occurs (p s : Bytes) : Type 0 where
  pub pre : Bytes
  pub post : Bytes
  pub spells : s ≡ pre ++ (p ++ post)

has_prefix-append : (p t : Bytes) → has_prefix (p ++ t) p ≡ true
unfolding has_prefix
has_prefix-append [] t = refl
has_prefix-append (c ∷ p) t = ground (arith, has_prefix-append p t)

has_prefix_sound : (s p : Bytes) → has_prefix s p ≡ true → (t : Bytes) × (s ≡ p ++ t)
unfolding has_prefix
has_prefix_sound s [] h = (s, refl)
has_prefix_sound [] (c ∷ p) h = cc
has_prefix_sound (b ∷ s) (c ∷ p) h =
    let (t, e) = has_prefix_sound s p (ground arith) in (t, ground (arith, e))

contains_cons : (c : ℕ) (s p : Bytes) → contains (c ∷ s) p ≡ has_prefix (c ∷ s) p || contains s p
unfolding contains
contains_cons c s p = ground arith

contains_nil : (p : Bytes) → contains [] p ≡ has_prefix [] p
unfolding contains
contains_nil p = ground arith

contains_prefix : (s p : Bytes) → has_prefix s p ≡ true → contains s p ≡ true
contains_prefix [] p h = rw contains_nil h
contains_prefix (c ∷ s) p h = rw (contains_cons, h)

contains_complete : (pre p post : Bytes) → contains (pre ++ (p ++ post)) p ≡ true
contains_complete [] p post = contains_prefix (p ++ post) p (has_prefix-append p post)
contains_complete (c ∷ pre) p post =
    ground (arith, contains_cons c (pre ++ (p ++ post)) p, contains_complete pre p post)

contains_sound : (s p : Bytes) → contains s p ≡ true → Occurs p s
contains_sound [] p h =
    let (t, e) = has_prefix_sound [] p (rw contains_nil at h) in
    record { pre = []; post = t; spells = e }
contains_sound (c ∷ s) p h = elim (Bool-cases (has_prefix (c ∷ s) p)) [
  | inl here ↦
      let (t, e) = has_prefix_sound (c ∷ s) p here in record { pre = []; post = t; spells = e }
  | inr later ↦
      let o = contains_sound s p (ground (arith, contains_cons c s p)) in
      record { pre = c ∷ o.pre; post = o.post; spells = ap (λ t. c ∷ t) o.spells }
]

-- `strings.Contains` decides whether the pattern occurs.
pub contains_iff : (s p : Bytes) → (contains s p ≡ true) ↔ Occurs p s
contains_iff s p = (contains_sound s p, λ o. rw (o.spells) (contains_complete o.pre p o.post))

has_suffix-Occurs : (b : ℕ) (s p : Bytes) → has_suffix s (b ∷ p) ≡ true → Occurs p s
unfolding has_suffix
has_suffix-Occurs b s p h =
    let n = length s - length (b ∷ p) in
    let tail : drop n s ≡ b ∷ p = eq_of_bytes_eq (drop n s) (b ∷ p) (ground arith) in
    record {
      pre = take n s ++ b ∷ [];
      post = [];
      spells =
          sym (take-append-drop n s) ∙ rw (append_assoc, append-nil) (ap (λ t. take n s ++ t) tail);
    }

Occurs-self : (s : Bytes) → Occurs s s
Occurs-self s = record { pre = []; post = []; spells = sym (append-nil s) }

eq_contains : (s p : Bytes) → bytes_eq s p ≡ true → contains s p ≡ true
eq_contains s p h = let e = eq_of_bytes_eq s p h in (contains_iff s p).1 (rw e (Occurs-self p))

suffix_contains : (b : ℕ) (s p : Bytes) → has_suffix s (b ∷ p) ≡ true → contains s p ≡ true
suffix_contains b s p h = (contains_iff s p).1 (has_suffix-Occurs b s p h)

bytes_eq_comm : (s t : Bytes) → bytes_eq s t ≡ true → bytes_eq t s ≡ true
bytes_eq_comm s t h = let e = eq_of_bytes_eq s t h in rw e (bytes_eq_refl t)

module _ (p sid key : Bytes) where
  unnamed :
      contains key p ≡ false
      → not (is_empty sid) && contains sid p ≡ false
      → match_rank p sid key ≡ none
  unfolding match_rank
  unnamed k i = ground (
    arith,
    eq_contains key p,
    suffix_contains b':' key p,
    suffix_contains b'/' key p,
    eq_contains sid p,
    bytes_eq_comm p sid,
  )

  named :
      contains key p || (not (is_empty sid) && contains sid p) ≡ true → match_rank p sid key ≢ none
  unfolding match_rank
  named h e = ground arith

  nonempty : not (is_empty sid) ≡ true → sid ≢ []
  nonempty h e = ground (arith, bytes_eq_iff sid [])

  names_what : match_rank p sid key ≢ none → Occurs p key ⊎ (sid ≢ []) × Occurs p sid
  names_what n = elim (Bool-cases (contains key p)) [
    | inl k ↦ inl (contains_sound key p k)
    | inr k ↦ elim (Bool-cases (not (is_empty sid) && contains sid p)) [
      | inl i ↦ inr (nonempty (ground arith), contains_sound sid p (ground arith))
      | inr i ↦ absurd (n (unnamed k i))
    ]
  ]

  names_when : Occurs p key ⊎ (sid ≢ []) × Occurs p sid → match_rank p sid key ≢ none
  names_when (inl o) = named (rw ((contains_iff key p).1 o))
  names_when (inr (n, o)) =
      named (ground (arith, (contains_iff sid p).1 o, eq_of_bytes_eq sid [], n))

  -- A pattern ranks a session exactly when it occurs in its key, or in its id where it has one.
  pub match_rank_iff : (match_rank p sid key ≢ none) ↔ (Occurs p key ⊎ (sid ≢ []) × Occurs p sid)
  match_rank_iff = (names_what, names_when)
