-- ===== src/Claude/Agents/Linked.antt =====
-- Every session knows how many subagents ran in it, and every subagent's depth is bounded.
use agent_session_query.Prelude.{
  ℕ, suc, zero, ◌+◌, ◌≤◌, Bool, true, false, ◌&&◌, List, [], ◌∷◌, some, Bytes, if◌then◌else◌,
  bytes_eq, eq_of_bytes_eq, length, keep, ◌≡◌, refl, ap, ◌∙◌, ◌⊎◌, inl, inr, Bool-cases,
  Option-cases, arith,
}
use agent_session_query.Prelude.Int.{pos}
use agent_session_query.Prelude.Assoc.{Assoc, lookup, insert, lookup-insert}
use agent_session_query.Record.{Record, is_empty, is_subagent}
use agent_session_query.Claude.Agents.{
  or_no_count, children_at, children_from, parent_at, depth_of, link_record, link_each, agents_from,
  claude_link_subagents,
}

abbrev pub is_child : Bytes → Record → Bool
is_child parent r = is_subagent r && bytes_eq r.parent_session_id parent

children_at-insert :
    (k p : Bytes) (n : ℕ) (children : Assoc ℕ)
    → children_at p (insert k n children) ≡ (if bytes_eq k p then n else children_at p children)
unfolding children_at
children_at-insert k p n children =
    ap or_no_count (lookup-insert k p n children) ∙ either (bytes_eq k p)
  where
    either :
        (b : Bool)
        → or_no_count (if b then some n else lookup p children)
          ≡ (if b then n else or_no_count (lookup p children))
    either true = refl
    either false = refl

children_from-count :
    (p : Bytes) (rs : List Record) (children : Assoc ℕ)
    → children_at p (children_from rs children)
      ≡ children_at p children + length (keep (is_child p) rs)
unfolding children_from
children_from-count p [] children = omega arith
children_from-count p (r ∷ rs) children = elim (Bool-cases (is_subagent r)) [
  | inr main ↦ rw main (children_from-count p rs children)
  | inl sub ↦
      let k = r.parent_session_id in
      let more = children_from-count p rs (insert k (suc (children_at k children)) children) in
      let here = children_at-insert k p (suc (children_at k children)) children in
      elim (Bool-cases (bytes_eq k p)) [
        | inl same ↦
            let held : children_at k children ≡ children_at p children =
              ap (λ x. children_at x children) (eq_of_bytes_eq k p same) in
            let now : children_at p (insert k (suc (children_at k children)) children)
                ≡ suc (children_at k children) =
              here ∙ rw same refl in
            rw (sub, same) (more ∙ omega (arith, held, now))
        | inr differ ↦
            let now : children_at p (insert k (suc (children_at k children)) children)
                ≡ children_at p children =
              here ∙ rw differ refl in
            rw (sub, differ) (more ∙ omega (arith, now))
      ]
]

depth_of-bounds :
    (records : List Record) (agents : Assoc ℕ) (hops depth : ℕ) (at : Record)
    → (depth ≤ depth_of records agents hops depth at)
      × (depth_of records agents hops depth at ≤ depth + hops)
unfolding depth_of
depth_of-bounds records agents zero depth at = (omega arith, omega arith)
depth_of-bounds records agents (suc hops) depth at =
    elim (Bool-cases (is_empty at.parent_agent_id)) [
      | inl top ↦ rw top (omega arith, omega arith)
      | inr nested ↦ elim (Option-cases (parent_at records agents at)) [
        | inl missing ↦ rw (nested, missing) (omega arith, omega arith)
        | inr (parent, found) ↦
            let (low, high) = depth_of-bounds records agents hops (suc depth) parent in
            rw (nested, found) (omega (arith, low), omega (arith, high))
      ]
    ]

-- What a row becomes in a list of transcripts.
abbrev pub IsLinked : List Record → Record → Record → Type 0
IsLinked records r linked =
    ((is_subagent r ≡ false)
      × (linked ≡ record r { subagents = length (keep (is_child r.session_id) records) }))
    ⊎ ((is_subagent r ≡ true)
        × ((d : ℕ) × (linked ≡ record r { agent_depth = pos d })
            × (1 ≤ d)
            × (d ≤ 1 + length records)))

abbrev pub AreLinked : List Record → List Record → List Record → Type 0
AreLinked records [] [] = Unit
AreLinked records (r ∷ rs) (linked ∷ more) = IsLinked records r linked × AreLinked records rs more
AreLinked records _ _ = ⊥

module _ (records : List Record) where
  count :
      (p : Bytes) → children_at p (children_from records []) ≡ length (keep (is_child p) records)
  unfolding children_at lookup
  count p = children_from-count p records [] ∙ omega arith

  link_record-IsLinked :
      (agents : Assoc ℕ) (r : Record)
      → IsLinked records r (link_record records agents (children_from records []) r)
  unfolding link_record
  link_record-IsLinked agents r = elim (Bool-cases (is_subagent r)) [
    | inl sub ↦ rw sub (
        inr (
          refl,
          (
            depth_of records agents (length records) 1 r,
            refl,
            (depth_of-bounds records agents (length records) 1 r).0,
            (depth_of-bounds records agents (length records) 1 r).1,
          ),
        ))
    | inr main ↦ rw main (inl (refl, ap (λ n. record r { subagents = n }) (count r.session_id)))
  ]

  link_each-AreLinked :
      (agents : Assoc ℕ) (rs : List Record)
      → AreLinked records rs (link_each records agents (children_from records []) rs)
  unfolding link_each
  link_each-AreLinked agents [] = tt
  link_each-AreLinked agents (r ∷ rs) =
      (link_record-IsLinked agents r, link_each-AreLinked agents rs)

-- Linking a list of transcripts changes two fields of its rows at most: a session's count of
-- subagents becomes the number of subagents in the list whose parent it is, and a subagent's depth
-- is from one to one more than the list has rows.
pub claude_link_subagents-AreLinked :
    (records : List Record) → AreLinked records records (claude_link_subagents records)
unfolding claude_link_subagents
claude_link_subagents-AreLinked records =
    link_each-AreLinked records (agents_from 0 records []) records
