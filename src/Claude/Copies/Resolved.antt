-- ===== src/Claude/Copies/Resolved.antt =====
-- Every chain of copies ends, at a transcript that no other stands for or on a cycle.
use agent_session_query.Prelude.{
  ℕ, suc, zero, ◌+◌, ◌≤◌, ◌<◌, true, false, ◌||◌, List, [], ◌∷◌, ◌++◌, some, Bytes, length,
  bytes_eq, eq_of_bytes_eq, ◌≡◌, refl, sym, ap, ◌∙◌, ◌⊎◌, inl, inr, Bool-cases, All, All-append,
  length-append, arith,
}
use agent_session_query.Prelude.Assoc.{Assoc, lookup}
use agent_session_query.Record.{is_empty, bytes_lt}
use agent_session_query.Sorting.{sort_stable, insert}
use agent_session_query.Tools.{contains_string}
use agent_session_query.Tools.Names.{IsWithin, IsDistinct, IsDistinct-snoc, length-within}
use agent_session_query.Claude.Copies.{
  next_of, from_path, first_or, least_of, resolve_loop, resolve_claude_copy,
}

insert-All :
    (P : Bytes → Type 0) (x : Bytes) (ys : List Bytes)
    → P x
    → All P ys
    → All P (insert bytes_lt x ys)
unfolding insert
insert-All P x [] p h = (p, tt)
insert-All P x (y ∷ ys) p (q, h) = elim (Bool-cases (bytes_lt y x)) [
  | inl before ↦ rw before (q, insert-All P x ys p h)
  | inr behind ↦ rw behind (p, (q, h))
]

sort-All : (P : Bytes → Type 0) (xs : List Bytes) → All P xs → All P (sort_stable bytes_lt xs)
unfolding sort_stable
sort-All P [] h = tt
sort-All P (x ∷ xs) (p, h) = insert-All P x (sort_stable bytes_lt xs) p (sort-All P xs h)

length-insert : (x : Bytes) (ys : List Bytes) → 0 < length (insert bytes_lt x ys)
unfolding insert
length-insert x [] = omega arith
length-insert x (y ∷ ys) = ground arith

first_or-All :
    (P : Bytes → Type 0) (path : Bytes) (xs : List Bytes)
    → 0 < length xs
    → All P xs
    → P (first_or path xs)
first_or-All P path [] some_path h = absurd (omega (arith, some_path))
first_or-All P path (x ∷ xs) some_path h = h.0

-- The least of a cycle is on the cycle.
least_of-All :
    (P : Bytes → Type 0) (path p : Bytes) (ps : List Bytes)
    → All P (p ∷ ps)
    → P (least_of path (p ∷ ps))
unfolding least_of sort_stable
least_of-All P path p ps h =
    first_or-All P path (insert bytes_lt p (sort_stable bytes_lt ps))
      (length-insert p (sort_stable bytes_lt ps)) (sort-All P (p ∷ ps) h)

abbrev keys : Assoc Bytes → List Bytes
keys [] = []
keys ((k, v) ∷ m) = k ∷ keys m

length-keys : (m : Assoc Bytes) → length (keys m) ≡ length m
length-keys [] = refl
length-keys ((k, v) ∷ m) = ap (λ n. suc n) (length-keys m)

module _ (copies : Assoc Bytes) where
  -- `n` links on from a path.
  abbrev pub follow : ℕ → Bytes → Bytes
  follow zero path = path
  follow (suc n) path = follow n (next_of copies path)

  follow_next :
      (n : ℕ) (path : Bytes) → follow n (next_of copies path) ≡ next_of copies (follow n path)
  follow_next zero path = refl
  follow_next (suc n) path = follow_next n (next_of copies path)

  -- The chain's links lead from each of its paths to the next one, and from its last to `path`.
  abbrev head_or : List Bytes → Bytes → Bytes
  head_or [] path = path
  head_or (p ∷ ps) path = p

  abbrev IsChain : List Bytes → Bytes → Type 0
  IsChain [] path = Unit
  IsChain (p ∷ ps) path = (next_of copies p ≡ head_or ps path) × IsChain ps path

  IsChain-snoc :
      (chain : List Bytes) (path : Bytes)
      → IsChain chain path
      → IsChain (chain ++ path ∷ []) (next_of copies path)
  IsChain-snoc [] path h = (refl, tt)
  IsChain-snoc (p ∷ []) path (e, h) = (e, (refl, tt))
  IsChain-snoc (p ∷ q ∷ ps) path (e, h) = (e, IsChain-snoc (q ∷ ps) path h)

  -- A path that is met from `start`, and from which `path` is met again.
  abbrev IsOn : Bytes → Bytes → Bytes → Type 0
  IsOn start path q = ((n : ℕ) × (follow n start ≡ q)) × ((k : ℕ) × (follow (suc k) q ≡ path))

  reaches_path :
      (p : Bytes) (ps : List Bytes) (path : Bytes)
      → IsChain (p ∷ ps) path
      → (k : ℕ) × (follow (suc k) p ≡ path)
  reaches_path p [] path (e, h) = (0, e)
  reaches_path p (q ∷ ps) path (e, h) =
      let (k, more) = reaches_path q ps path h in (suc k, ap (λ x. follow (suc k) x) e ∙ more)

  chain-IsOn :
      (start : Bytes) (n : ℕ) (p : Bytes) (ps : List Bytes) (path : Bytes)
      → follow n start ≡ p
      → IsChain (p ∷ ps) path
      → All (IsOn start path) (p ∷ ps)
  chain-IsOn start n p [] path e h = (((n, e), reaches_path p [] path h), tt)
  chain-IsOn start n p (q ∷ ps) path e (e', h) = (
    ((n, e), reaches_path p (q ∷ ps) path (e', h)),
    chain-IsOn start (suc n) q ps path (follow_next n start ∙ (ap (λ x. next_of copies x) e ∙ e'))
        h,
  )

  -- What is left of the chain from the path on is the cycle.
  abbrev OnCycle : Bytes → List Bytes → Type 0
  OnCycle path [] = ⊥
  OnCycle path (p ∷ ps) = All (IsOn path path) (p ∷ ps)

  from_path-OnCycle :
      (path : Bytes) (chain : List Bytes)
      → IsChain chain path
      → contains_string chain path ≡ true
      → OnCycle path (from_path path chain)
  unfolding from_path contains_string
  from_path-OnCycle path [] h e = absurd cc
  from_path-OnCycle path (p ∷ chain) h e = elim (Bool-cases (bytes_eq p path)) [
    | inl here ↦ rw here (chain-IsOn path 0 p chain path (sym (eq_of_bytes_eq p path here)) h)
    | inr later ↦ rw later (from_path-OnCycle path chain h.1 (ground (arith, e, later)))
  ]

  -- Where the resolution of a path ends.
  abbrev pub IsEnd : Bytes → Bytes → Type 0
  IsEnd start c =
      ((n : ℕ) × (follow n start ≡ c))
      × ((next_of copies c ≡ []) ⊎ ((k : ℕ) × (follow (suc k) c ≡ c)))

  follow-add : (a b : ℕ) (p : Bytes) → follow (a + b) p ≡ follow b (follow a p)
  follow-add zero b p = ap (λ n. follow n p) {x = zero + b} {y = b} (omega arith)
  follow-add (suc a) b p =
      ap (λ n. follow n p) {x = suc a + b} {y = suc (a + b)} (omega arith)
      ∙ follow-add a b (next_of copies p)

  IsOn-IsEnd :
      (start path c : Bytes) (n : ℕ) → follow n start ≡ path → IsOn path path c → IsEnd start c
  IsOn-IsEnd start path c n e ((m, to_c), (k, back)) = (
    (n + m, follow-add n m start ∙ (ap (λ x. follow m x) e ∙ to_c)),
    inr (
      k + m,
      ap (λ j. follow j c) {x = suc (k + m)} {y = suc k + m} (omega arith)
          ∙ (follow-add (suc k) m c ∙ (ap (λ x. follow m x) back ∙ to_c)),
    ),
  )

  cycle-IsEnd :
      (start path : Bytes) (n : ℕ) (cycle : List Bytes)
      → follow n start ≡ path
      → OnCycle path cycle
      → IsEnd start (least_of path cycle)
  cycle-IsEnd start path n [] e h = absurd h
  cycle-IsEnd start path n (p ∷ ps) e h =
      IsOn-IsEnd start path (least_of path (p ∷ ps)) n e (least_of-All (IsOn path path) path p ps h)

  resolve_step :
      (f : ℕ) (path : Bytes) (chain : List Bytes)
      → contains_string chain path ≡ false
      → is_empty (next_of copies path) ≡ false
      → resolve_loop copies (suc f) path chain
        ≡ resolve_loop copies f (next_of copies path) (chain ++ path ∷ [])
  unfolding resolve_loop
  resolve_step f path chain new linked = rw (new, linked) refl

key_or_empty :
    (p : Bytes) (m : Assoc Bytes) → (contains_string (keys m) p || is_empty (next_of m p)) ≡ true
unfolding next_of lookup contains_string bytes_eq
key_or_empty p [] = refl
key_or_empty p ((k, v) ∷ m) = elim (Bool-cases (bytes_eq k p)) [
  | inl same ↦ rw same refl
  | inr differ ↦ rw differ (key_or_empty p m)
]

key_of :
    (p : Bytes) (m : Assoc Bytes)
    → is_empty (next_of m p) ≡ false
    → contains_string (keys m) p ≡ true
key_of p m e = ground (arith, e, key_or_empty p m)

module _ (copies : Assoc Bytes) (start : Bytes) where
  resolve_loop_ends :
      (f : ℕ) (path : Bytes) (chain : List Bytes) (n : ℕ)
      → follow copies n start ≡ path
      → IsChain copies chain path
      → IsDistinct chain
      → IsWithin (keys copies) chain
      → length copies + 2 ≤ f + length chain
      → (c : Bytes) × (resolve_loop copies f path chain ≡ some c) × IsEnd copies start c
  unfolding resolve_loop
  resolve_loop_ends zero path chain n e h once within enough =
      absurd
        (omega (arith, enough, length-within (keys copies) chain once within, length-keys copies))
  resolve_loop_ends (suc f) path chain n e h once within enough =
      elim (Bool-cases (contains_string chain path)) [
        | inl seen ↦ (
          least_of path (from_path path chain),
          rw seen refl,
          cycle-IsEnd copies start path n (from_path path chain) e
              (from_path-OnCycle copies path chain h seen),
        )
        | inr new ↦ elim (Bool-cases (is_empty (next_of copies path))) [
          | inl last ↦ (path, rw (new, last) refl, ((n, e), inl (eq_of_bytes_eq _ [] last)))
          | inr linked ↦
              let key = key_of path copies linked in
              let (c, ends, right) =
                resolve_loop_ends f (next_of copies path) (chain ++ path ∷ []) (suc n)
                  (follow_next copies n start ∙ ap (λ x. next_of copies x) e)
                  (IsChain-snoc copies chain path h) (IsDistinct-snoc chain path once new)
                  (All-append (λ s. contains_string (keys copies) s ≡ true) chain (path ∷ []) within
                    (key, tt))
                  (omega (arith, enough, length-append chain (path ∷ []))) in
              (c, resolve_step copies f path chain new linked ∙ ends, right)
        ]
      ]

  -- Following the copies from any path ends, within two rounds more than there are copies. The
  -- result is met from the path, and it is a copy of nothing or it is met again from itself.
  pub resolve_claude_copy_ends :
      (c : Bytes) × (resolve_claude_copy copies start ≡ some c) × IsEnd copies start c
  unfolding resolve_claude_copy
  resolve_claude_copy_ends =
      resolve_loop_ends (length copies + 2) start [] 0 refl tt tt tt (omega arith)
