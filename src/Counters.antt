-- ===== src/Counters.antt =====
-- internal/source/msgcount.go: the counters of messages that the file cache is given.
pub mod Contract
use agent_session_query.Prelude.{
  ℕ, suc, Bool, true, false, not, ◌&&◌, ◌||◌, List, [], ◌∷◌, Option, none, some, Bytes, codes,
  if◌then◌else◌, bytes_eq, contains, has_suffix,
}
use agent_session_query.Json.{Runtime, Value}
use agent_session_query.Lines.{each_line_from}
use agent_session_query.Cache.Resume.{File}
use agent_session_query.Claude.Rows.{ClaudeProbe, probe_counts}
use agent_session_query.Codex.Counts.{CodexProbe, codex_counts}

-- What the counters take from the libraries: a read of a file, the trimming of a line, json.Unmarshal
-- into the probes and of a list of items, and the lines of a compressed file.
pub record CounterLib : Type 0 where
  pub runtime : Runtime
  pub read_count : Bytes → ℕ → ℕ → Option ℕ
  pub trim_line : Bytes → Bytes
  pub claude_probe : Bytes → Option ClaudeProbe
  pub pi_type : Bytes → Option Bytes
  pub codex_probe : Bytes → Option CodexProbe
  pub codex_items : Value → Option (List Bytes)
  pub zst_lines : Bytes → List Bytes

abbrev pub count_lines : (Bytes → Bool) → List Bytes → ℕ
count_lines counts [] = 0
count_lines counts (line ∷ lines) =
    let rest = count_lines counts lines in if counts line then suc rest else rest

-- return true
abbrev pub to_the_end : Bytes → Bool
to_the_end line = true

module _ (lib : CounterLib) where
  -- eachJSONLLineFrom with a callback that counts and goes on.
  unfoldable pub count_scan : (Bytes → Bool) → Bool → Option File → ℕ → ℕ
  count_scan counts zst none from = 0
  count_scan counts true (some f) from = count_lines counts (lib.zst_lines f.bytes)
  count_scan counts false (some f) from =
      count_lines counts
        (each_line_from (lib.read_count f.bytes) lib.trim_line to_the_end f.bytes from).0

  abbrev pub is_zst : Bytes → Bool
  is_zst path = has_suffix path (codes ".jsonl.zst")

  abbrev claude_probe_counts : Bool → Option ClaudeProbe → Bool
  claude_probe_counts subagent none = false
  claude_probe_counts subagent (some p) = probe_counts lib.runtime p subagent

  unfoldable pub claude_line : Bool → Bytes → Bool
  claude_line subagent line =
      contains line (codes "\"type\"")
      && ((contains line (codes "\"message\"")
            || contains line (codes "\"subtype\"")
            || contains line (codes "\"queued_command\""))
          && claude_probe_counts subagent (lib.claude_probe line))

  -- claudeCountMessages; `subagent` is claudeSubagentPath of the path.
  unfoldable pub claude_count_messages : Bool → Bytes → Option File → ℕ → ℕ × Bool
  claude_count_messages subagent path file from =
      (count_scan (claude_line subagent) (is_zst path) file from, true)

  abbrev is_message : Option Bytes → Bool
  is_message none = false
  is_message (some type) = bytes_eq type (codes "message")

  unfoldable pub pi_line : Bytes → Bool
  pi_line line =
      contains line (codes "\"type\"")
      && (contains line (codes "message") && is_message (lib.pi_type line))

  -- piCountMessages
  unfoldable pub pi_count_messages : Bytes → Option File → ℕ → ℕ × Bool
  pi_count_messages path file from = (count_scan pi_line (is_zst path) file from, true)

  abbrev codex_probe_counts : Option CodexProbe → Bool
  codex_probe_counts none = false
  codex_probe_counts (some p) = codex_counts lib.runtime lib.codex_items p

  unfoldable pub codex_line : Bytes → Bool
  codex_line line =
      (contains line (codes "\"response_item\"") || contains line (codes "\"turn_aborted\""))
      && codex_probe_counts (lib.codex_probe line)

  -- codexCountMessages
  unfoldable pub codex_count_messages : Bytes → Option File → ℕ → ℕ × Bool
  codex_count_messages path file from =
      (count_scan codex_line (is_zst path) file from, not (is_zst path))
