-- ===== src/Tests/Claude.antt =====
-- Transcripts of Claude Code at concrete inputs.
use agent_session_query.Prelude.{
  ◌+◌, true, false, List, [], ◌∷◌, Option, none, some, Bytes, codes, ◌≡◌, ◌⊎◌, refl, length, map,
  bytes_eq, All, if◌then◌else◌,
}
use agent_session_query.Prelude.Int.{pos}
use agent_session_query.Prelude.Assoc.{Assoc, Entries}
use agent_session_query.Json.{Fields, end, field, get, get_map, str, obj, arr, nil, cons, get_slice}
use agent_session_query.Claude.Copies.{Identity, find_claude_session_copies, resolve_claude_copy}
use agent_session_query.Claude.Copies.Owned.{IsCopy, find_claude_session_copies-Entries}
use agent_session_query.Claude.Copies.Resolved.{IsEnd, resolve_claude_copy_ends}
use agent_session_query.Claude.Content.{texts_of}
use agent_session_query.Claude.Saved.{SavedParts, Disk, claude_persisted_path}
use mathlib.Core.Path.{subst}
use agent_session_query.Claude.Saved.Inside.{IsInside, IsSlashless, claude_persisted_path-Inside}
use agent_session_query.Claude.Rows.{ClaudeProbe, row_messages, count_rows}
use agent_session_query.Claude.Parts.{Reader, ClaudeRow, claude_parts}
use agent_session_query.Claude.Parts.Blocks.{IsBlock, claude_parts-AreBlocks}
use agent_session_query.Claude.Rows.Counted.{IsProbed, probe_of, length-row_messages}
use agent_session_query.Claude.Agents.{claude_link_subagents}
use agent_session_query.Claude.Agents.Linked.{AreLinked, claude_link_subagents-AreLinked}
use agent_session_query.Tests.Samples.{runtime, session, agent}

-- A copy that ends on message 1, and the transcript that goes on to message 2.
abbrev identity_of : Bytes → Identity
identity_of file =
    if bytes_eq file (codes "copy")
    then record { mod_time = 5; size = 10; first_uuid = codes "0"; last_uuid = codes "1" }
    else record { mod_time = 6; size = 20; first_uuid = codes "0"; last_uuid = codes "2" }

abbrev uuids_of : Bytes → List Bytes
uuids_of file =
    if bytes_eq file (codes "copy")
    then codes "0" ∷ codes "1" ∷ []
    else codes "0" ∷ codes "1" ∷ codes "2" ∷ []

find_claude_session_copies-Entries_example :
    Entries
      (IsCopy identity_of uuids_of)
      (find_claude_session_copies identity_of uuids_of (codes "copy" ∷ codes "main" ∷ []))
find_claude_session_copies-Entries_example =
    find_claude_session_copies-Entries identity_of uuids_of (codes "copy" ∷ codes "main" ∷ [])

-- A chain that runs into a cycle.
abbrev links : Assoc Bytes
links = (codes "a", codes "b") ∷ (codes "b", codes "c") ∷ (codes "c", codes "b") ∷ []

resolve_claude_copy_ends_example :
    (c : Bytes) × (resolve_claude_copy links (codes "a") ≡ some c) × IsEnd links (codes "a") c
resolve_claude_copy_ends_example = resolve_claude_copy_ends links (codes "a")

abbrev disk : Disk
disk = record {
  saved_output =
      λ s. some (record { project = codes "p"; session = codes "s"; file = codes "x.txt" });
  join = λ root p. root;
  is_regular = λ path. true;
}

abbrev ascii : Bytes → List Bytes
ascii [] = []
ascii (c ∷ s) = (c ∷ []) ∷ ascii s

abbrev reader : Reader
reader = record {
  runtime = runtime;
  floats = record { add = λ x y. x + y; of_int = λ n. 0; to_int = λ x. pos x };
  runes = ascii;
  disk = disk;
}

abbrev row_reader : ClaudeRow
row_reader = record {
  names = some [];
  full = true;
  root = codes "/home/u/.claude/projects";
  read_persisted = λ path. none;
}

abbrev answer : Fields
answer = field (codes "type") (str (codes "assistant")) (
    field (codes "message")
      (obj (
        field (codes "content")
          (arr (
            cons
              (obj (
                field (codes "type") (str (codes "tool_use")) (
                  field (codes "id") (str (codes "t1"))
                    (field (codes "name") (str (codes "Bash")) end))))
              (cons
                (obj (
                  field (codes "type") (str (codes "tool_result")) (
                    field (codes "tool_use_id") (str (codes "t1"))
                      (field (codes "content") (str (codes "done")) end))))
                nil)))
          end))
      end)

abbrev hook : Fields
hook = field (codes "type") (str (codes "system")) (
    field (codes "subtype") (str (codes "stop_hook_summary"))
      (field (codes "hookErrors") (arr (cons (str (codes "failed")) nil)) end))

abbrev title_row : Fields
title_row = field (codes "type") (str (codes "ai-title")) end

abbrev decode : Fields → Option ClaudeProbe
decode row = some (probe_of row)

abbrev OnGroups : Option SavedParts → Type 0
OnGroups none = Unit
OnGroups (some m) = IsSlashless m

stub_inside : (t : Bytes) (m : SavedParts) → disk.saved_output t ≡ some m → IsSlashless m
stub_inside t m e = subst OnGroups e (refl, refl, refl)

claude_persisted_path-Inside_example :
    (claude_persisted_path runtime disk (codes "/r") end (codes "Error: result (9) saved to /p/s/x")
      ≡ [])
    ⊎ ((p : SavedParts) × (claude_persisted_path runtime disk
            (codes "/r")
            end
            (codes "Error: result (9) saved to /p/s/x")
          ≡ disk.join (codes "/r") p)
        × IsInside p)
claude_persisted_path-Inside_example =
    claude_persisted_path-Inside runtime disk (codes "/r") end
      (codes "Error: result (9) saved to /p/s/x") stub_inside

claude_parts-AreBlocks_example :
    All
      (IsBlock reader row_reader.full row_reader.read_persisted answer
        (get (get_map answer (codes "message")) (codes "content")))
      (claude_parts reader row_reader answer).0
claude_parts-AreBlocks_example = claude_parts-AreBlocks reader row_reader answer

answer-IsProbed : IsProbed decode answer
unfolding get_slice get bytes_eq texts_of
answer-IsProbed = (refl, refl)

hook-IsProbed : IsProbed decode hook
unfolding get_slice get bytes_eq texts_of
hook-IsProbed = (refl, refl)

title_row-IsProbed : IsProbed decode title_row
unfolding get_slice get bytes_eq texts_of
title_row-IsProbed = (refl, refl)

length-row_messages_example :
    length (row_messages reader false row_reader (answer ∷ hook ∷ title_row ∷ []))
    ≡ count_rows runtime false (map decode (answer ∷ hook ∷ title_row ∷ []))
length-row_messages_example =
    length-row_messages reader false decode row_reader (answer ∷ hook ∷ title_row ∷ [])
      (answer-IsProbed, (hook-IsProbed, (title_row-IsProbed, tt)))

claude_link_subagents-AreLinked_example :
    AreLinked
      (session ∷ agent ∷ [])
      (session ∷ agent ∷ [])
      (claude_link_subagents (session ∷ agent ∷ []))
claude_link_subagents-AreLinked_example = claude_link_subagents-AreLinked (session ∷ agent ∷ [])
