-- ===== src/Prelude/Assoc.antt =====
-- Go maps with string keys, as association lists with the entries in some order.
use mathlib.Core.Path.{◌≡◌, refl, subst}
use mathlib.Core.Logic.{inl, inr}
use mathlib.Core.List.{List, [], ◌∷◌}
use mathlib.Core.Option.{Option, none, some}
use native.Mathlib.Omega.{arith}
use agent_session_query.Prelude.Tests.{if◌then◌else◌, Bool-cases}
use agent_session_query.Prelude.Text.{Bytes, bytes_eq, bytes_eq_iff, eq_of_bytes_eq}

abbrev pub Assoc {ℓ} : Type ℓ → Type ℓ
Assoc V = List (Bytes × V)

module _ {ℓ} {V : Type ℓ} where
  -- v, ok := m[k]
  unfoldable pub lookup : Bytes → Assoc V → Option V
  lookup k [] = none
  lookup k ((j, v) ∷ m) = if bytes_eq j k then some v else lookup k m

  -- m[k] = v
  unfoldable pub insert : Bytes → V → Assoc V → Assoc V
  insert k v [] = (k, v) ∷ []
  insert k v ((j, w) ∷ m) = if bytes_eq j k then (k, v) ∷ m else (j, w) ∷ insert k v m

  -- delete(m, k)
  unfoldable pub erase : Bytes → Assoc V → Assoc V
  erase k [] = []
  erase k ((j, v) ∷ m) = let rest = erase k m in if bytes_eq j k then rest else (j, v) ∷ rest

  pub lookup-insert :
      (k j : Bytes) (v : V) (m : Assoc V)
      → lookup j (insert k v m) ≡ (if bytes_eq k j then some v else lookup j m)
  unfolding lookup insert
  lookup-insert k j v [] = refl
  lookup-insert k j v ((i, w) ∷ m) =
      ground (arith, bytes_eq_iff k j, bytes_eq_iff i k, bytes_eq_iff i j, lookup-insert k j v m)

  pub lookup-erase :
      (k j : Bytes) (m : Assoc V)
      → lookup j (erase k m) ≡ (if bytes_eq k j then none else lookup j m)
  unfolding lookup erase
  lookup-erase k j [] = ground arith
  lookup-erase k j ((i, w) ∷ m) =
      ground (arith, bytes_eq_iff k j, bytes_eq_iff i k, bytes_eq_iff i j, lookup-erase k j m)

-- `P` holds of every entry.
module _ {ℓ κ} {V : Type ℓ} (P : Bytes → V → Type κ) where
  abbrev pub Entries : Assoc V → Type κ
  Entries [] = Unit
  Entries ((k, v) ∷ m) = P k v × Entries m

  -- `P` holds of what is there under the key.
  abbrev pub OnFound : Bytes → Option V → Type κ
  OnFound k none = Unit
  OnFound k (some v) = P k v

  pub Entries-insert :
      (k : Bytes) (v : V) (m : Assoc V) → P k v → Entries m → Entries (insert k v m)
  unfolding insert
  Entries-insert k v [] p h = (p, tt)
  Entries-insert k v ((j, w) ∷ m) p (q, h) = elim (Bool-cases (bytes_eq j k)) [
    | inl same ↦ rw same (p, h)
    | inr differ ↦ rw differ (q, Entries-insert k v m p h)
  ]

  pub Entries-erase : (k : Bytes) (m : Assoc V) → Entries m → Entries (erase k m)
  unfolding erase
  Entries-erase k [] h = tt
  Entries-erase k ((j, w) ∷ m) (q, h) = elim (Bool-cases (bytes_eq j k)) [
    | inl same ↦ rw same (Entries-erase k m h)
    | inr differ ↦ rw differ (q, Entries-erase k m h)
  ]

  pub Entries-lookup : (k : Bytes) (m : Assoc V) → Entries m → OnFound k (lookup k m)
  unfolding lookup
  Entries-lookup k [] h = tt
  Entries-lookup k ((j, w) ∷ m) (q, h) = elim (Bool-cases (bytes_eq j k)) [
    | inl same ↦ rw same (subst (λ i. P i w) (eq_of_bytes_eq j k same) q)
    | inr differ ↦ rw differ (Entries-lookup k m h)
  ]

pub ruleset assoc_laws = (lookup-insert, lookup-erase)
