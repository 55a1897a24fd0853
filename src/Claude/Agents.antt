-- ===== src/Claude/Agents.antt =====
-- The subagents of a session: what a list of transcripts says about them together.
pub mod Linked
use agent_session_query.Prelude.{
  ℕ, suc, zero, ◌+◌, Bool, true, false, not, ◌&&◌, List, [], ◌∷◌, ◌++◌, Option, none, some, Bytes,
  codes, if◌then◌else◌, bytes_eq, has_prefix, contains, length, get_elem?,
}
use agent_session_query.Prelude.Int.{pos}
use agent_session_query.Prelude.Assoc.{Assoc, lookup, insert}
use agent_session_query.Record.{Record, is_empty, is_subagent}

-- parent + "\x00" + agent
abbrev pub agent_key : Bytes → Bytes → Bytes
agent_key parent agent = parent ++ 0 ∷ agent

-- parent session + agent id → index
unfoldable pub agents_from : ℕ → List Record → Assoc ℕ → Assoc ℕ
agents_from i [] agents = agents
agents_from i (r ∷ rs) agents =
    agents_from (suc i) rs (
      if is_subagent r
      then insert (agent_key r.parent_session_id r.session_id) i agents
      else agents)

abbrev pub or_no_count : Option ℕ → ℕ
or_no_count none = 0
or_no_count (some n) = n

-- children[parent]
unfoldable pub children_at : Bytes → Assoc ℕ → ℕ
children_at parent children = or_no_count (lookup parent children)

-- parent session → subagents
unfoldable pub children_from : List Record → Assoc ℕ → Assoc ℕ
children_from [] children = children
children_from (r ∷ rs) children = children_from rs (
    if is_subagent r
    then insert r.parent_session_id (suc (children_at r.parent_session_id children)) children
    else children)

-- agents[at.ParentSessionID+"\x00"+at.ParentAgentID], and the record there
abbrev pub parent_at : List Record → Assoc ℕ → Record → Option Record
parent_at records agents at =
    elim (lookup (agent_key at.parent_session_id at.parent_agent_id) agents) [
      | none ↦ none
      | some j ↦ get_elem? records j
    ]

-- The loop over the parents: `hops` are the rounds that are left.
unfoldable pub depth_of : List Record → Assoc ℕ → ℕ → ℕ → Record → ℕ
depth_of records agents zero depth at = depth
depth_of records agents (suc hops) depth at =
    if is_empty at.parent_agent_id then depth else elim (parent_at records agents at) [
      | none ↦ depth
      | some parent ↦ depth_of records agents hops (suc depth) parent
    ]

unfoldable pub link_record : List Record → Assoc ℕ → Assoc ℕ → Record → Record
link_record records agents children r =
    if not (is_subagent r)
    then record r { subagents = children_at r.session_id children }
    else record r { agent_depth = pos (depth_of records agents (length records) 1 r) }

unfoldable pub link_each : List Record → Assoc ℕ → Assoc ℕ → List Record → List Record
link_each records agents children [] = []
link_each records agents children (r ∷ rs) =
    link_record records agents children r ∷ link_each records agents children rs

-- claudeLinkSubagents
unfoldable pub claude_link_subagents : List Record → List Record
claude_link_subagents records =
    link_each records (agents_from 0 records []) (children_from records []) records

-- claudeSubagentPath; `base` and `to_slash` are filepath.Base and filepath.ToSlash
unfoldable pub claude_subagent_path : (Bytes → Bytes) → (Bytes → Bytes) → Bytes → Bool
claude_subagent_path base to_slash path =
    has_prefix (base path) (codes "agent-") && contains (to_slash path) (codes "/subagents/")
