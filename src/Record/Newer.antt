-- ===== src/Record/Newer.antt =====
-- The order of the list: what Go's stable sort needs of its comparison.
use agent_session_query.Prelude.{Bool, true, false, ◌||◌, [], ◌∷◌, ◌≡◌, refl, arith, Bytes}
use agent_session_query.Record.{bytes_lt, newer_than}

pub bytes_lt_irrefl : (s : Bytes) → bytes_lt s s ≡ false
unfolding bytes_lt
bytes_lt_irrefl [] = refl
bytes_lt_irrefl (a ∷ s) = ground (arith, bytes_lt_irrefl s)

pub bytes_lt_trans :
    (s t u : Bytes) → bytes_lt s t ≡ true → bytes_lt t u ≡ true → bytes_lt s u ≡ true
unfolding bytes_lt
bytes_lt_trans s t [] h k = cc
bytes_lt_trans [] t (c ∷ u) h k = refl
bytes_lt_trans (a ∷ s) [] (c ∷ u) h k = cc
bytes_lt_trans (a ∷ s) (b ∷ t) (c ∷ u) h k = ground (arith, bytes_lt_trans s t u)

-- What lies between two texts is on one side of any third.
pub bytes_lt_split : (s t u : Bytes) → bytes_lt s u ≡ true → bytes_lt s t || bytes_lt t u ≡ true
unfolding bytes_lt
bytes_lt_split s t [] h = cc
bytes_lt_split [] [] (c ∷ u) h = refl
bytes_lt_split [] (b ∷ t) (c ∷ u) h = ground arith
bytes_lt_split (a ∷ s) [] (c ∷ u) h = ground arith
bytes_lt_split (a ∷ s) (b ∷ t) (c ∷ u) h = ground (arith, bytes_lt_split s t u)

-- A comparison under which a stable sort is determined by its input.
pub record IsStrictWeakOrder {A : Type 0} (lt : A → A → Bool) : Type 0 where
  pub irreflexive : (a : A) → lt a a ≡ false
  pub transitive : (a b c : A) → lt a b ≡ true → lt b c ≡ true → lt a c ≡ true
  pub splits : (a b c : A) → lt a c ≡ true → lt a b || lt b c ≡ true

-- The order of the list is a strict weak order, on records with and without a readable time alike.
pub newer_than-IsStrictWeakOrder : IsStrictWeakOrder newer_than
unfolding newer_than
newer_than-IsStrictWeakOrder = record {
  irreflexive = λ a. ground (arith, bytes_lt_irrefl a.sort_key);
  transitive = λ a b c h k. ground (arith, bytes_lt_trans c.sort_key b.sort_key a.sort_key);
  splits = λ a b c h. ground (arith, bytes_lt_split c.sort_key b.sort_key a.sort_key);
}
