-- ===== src/Clean/Fold.antt =====
-- The search that folds case finds what a search of the lowered text finds.
use agent_session_query.Prelude.{
  ap, ◌==◌, ◌&&◌, if◌then◌else◌, [], ◌∷◌, map, none, some, ◌≡◌, refl, Bytes, index, has_prefix,
}
use agent_session_query.Clean.{lower, starts_fold, index_fold}

starts_fold-map : (s needle : Bytes) → starts_fold s needle ≡ has_prefix (map lower s) needle
unfolding starts_fold has_prefix
starts_fold-map s [] = refl
starts_fold-map [] (c ∷ needle) = refl
starts_fold-map (b ∷ s) (c ∷ needle) = ap (λ t. lower b == c && t) (starts_fold-map s needle)

-- The search returns what strings.Index returns for the text with its ASCII capitals lowered.
pub index_fold-index : (s needle : Bytes) → index_fold s needle ≡ index (map lower s) needle
unfolding index_fold index
index_fold-index [] needle = ap (λ t. if t then some 0 else none) (starts_fold-map [] needle)
index_fold-index (b ∷ s) needle =
    rw (starts_fold-map (b ∷ s) needle, index_fold-index s needle) refl
