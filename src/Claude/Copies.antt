-- ===== src/Claude/Copies.antt =====
-- Transcripts that are copies of another one, and the transcript that stands for them.
pub mod Owned
pub mod Resolved
use agent_session_query.Prelude.{
  ℕ, suc, zero, ◌+◌, ◌-◌, Bool, true, false, not, ◌&&◌, ◌||◌, List, [], ◌∷◌, ◌++◌, Option, none,
  some, Bytes, codes, Time, before, ◌==◌, ltb, if◌then◌else◌, bytes_eq, length, keep, drop,
}
use agent_session_query.Prelude.Assoc.{Assoc, lookup, insert}
use agent_session_query.Record.{is_empty, bytes_lt}
use agent_session_query.Tools.{contains_string}
use agent_session_query.Sorting.{sort_stable}

-- claudeUUIDIdentity
pub record Identity : Type 0 where
  pub mod_time : Time
  pub size : ℕ
  pub first_uuid : Bytes
  pub last_uuid : Bytes

-- The row that claudeMessageUUID decodes
pub record UuidRow : Type 0 where
  pub type : Bytes
  pub uuid : Bytes
  pub is_sidechain : Bool

-- claudeMessageUUID, of a line that json.Unmarshal decodes or not; `matches` is the regular
-- expression claudeRandomUUID
unfoldable pub claude_message_uuid : (Bytes → Bool) → Option UuidRow → Bool → Bytes
claude_message_uuid matches none sidechain = []
claude_message_uuid matches (some row) sidechain =
    if not (bytes_eq row.type (codes "user")) && not (bytes_eq row.type (codes "assistant"))
      || not sidechain && row.is_sidechain
    then []
    else if not (matches row.uuid)
    then []
    else row.uuid

-- The files under a name, none when there is no entry.
abbrev pub or_none : Option (List Bytes) → List Bytes
or_none none = []
or_none (some files) = files

-- m[key] = append(m[key], file)
unfoldable pub append_at : Bytes → Bytes → Assoc (List Bytes) → Assoc (List Bytes)
append_at key file m = insert key (or_none (lookup key m) ++ file ∷ []) m

-- claudeCopyTarget: a larger transcript is better, then an older one, then the lesser path.
module _ (identities : Bytes → Identity) where
  unfoldable pub is_better : Bytes → Bytes → Bool
  is_better path best =
      let a = identities path in
      let b = identities best in
      ltb b.size a.size
      || ((a.size == b.size && before a.mod_time b.mod_time)
          || (a.size == b.size && (a.mod_time == b.mod_time && bytes_lt path best)))

  unfoldable pub best_of : Bytes → List Bytes → Bytes
  best_of best [] = best
  best_of best (path ∷ paths) = best_of (if is_better path best then path else best) paths

  unfoldable pub claude_copy_target : List Bytes → Bytes
  claude_copy_target [] = []
  claude_copy_target (path ∷ paths) = best_of path paths

-- findClaudeSessionCopies: `files` are the group's, `uuids` the messages that a file's lines name.
module _ (identities : Bytes → Identity) (uuids : Bytes → List Bytes) where
  -- Final message uuid → transcript paths ending on it
  unfoldable pub owners_of : List Bytes → Assoc (List Bytes) → Assoc (List Bytes)
  owners_of [] owners = owners
  owners_of (file ∷ files) owners =
      let last = (identities file).last_uuid in
      owners_of files (if is_empty last then owners else append_at last file owners)

  -- One file's lines: each final uuid that it names, once.
  unfoldable pub contained_in :
      Assoc (List Bytes) → Bytes → List Bytes → List Bytes → Assoc (List Bytes) → Assoc (List Bytes)
  contained_in owners file [] seen contained = contained
  contained_in owners file (uuid ∷ rest) seen contained =
      let skipped = contained_in owners file rest seen contained in
      let noted = contained_in owners file rest (uuid ∷ seen) (append_at uuid file contained) in
      if is_empty uuid || (length (or_none (lookup uuid owners)) == 0 || contains_string seen uuid)
      then skipped
      else noted

  -- Final message uuid → transcripts containing it
  unfoldable pub contained_by :
      Assoc (List Bytes) → List Bytes → Assoc (List Bytes) → Assoc (List Bytes)
  contained_by owners [] contained = contained
  contained_by owners (file ∷ files) contained =
      contained_by owners files (contained_in owners file (uuids file) [] contained)

  abbrev pub is_other : Bytes → Bytes → Bool
  is_other file path = not (bytes_eq path file)

  abbrev pub goes_beyond : Bytes → Bytes → Bool
  goes_beyond last path = not (bytes_eq (identities path).last_uuid last)

  abbrev pub targets_of : List Bytes → List Bytes → List Bytes
  targets_of [] owners = owners
  targets_of (path ∷ paths) owners = path ∷ paths

  abbrev pub note_copy : Bytes → Bytes → Assoc Bytes → Assoc Bytes
  note_copy file target copies =
      if not (is_empty target) && not (bytes_eq target file)
      then insert file target copies
      else copies

  -- One file of the group.
  unfoldable pub find_copy :
      Assoc (List Bytes) → Assoc (List Bytes) → Bytes → Assoc Bytes → Assoc Bytes
  find_copy owners contained file copies =
      let last = (identities file).last_uuid in
      let containing = keep (is_other file) (or_none (lookup last contained)) in
      if is_empty last || length containing == 0
      then copies
      else note_copy file
          (claude_copy_target identities
            (targets_of (keep (goes_beyond last) containing) (or_none (lookup last owners))))
          copies

  unfoldable pub find_copies :
      Assoc (List Bytes) → Assoc (List Bytes) → List Bytes → Assoc Bytes → Assoc Bytes
  find_copies owners contained [] copies = copies
  find_copies owners contained (file ∷ files) copies =
      find_copies owners contained files (find_copy owners contained file copies)

  unfoldable pub find_claude_session_copies : List Bytes → Assoc Bytes
  find_claude_session_copies files =
      let owners = owners_of files [] in
      if length owners == 0 then [] else find_copies owners (contained_by owners files []) files []

-- copies[path], which is empty when there is none
abbrev pub or_empty : Option Bytes → Bytes
or_empty none = []
or_empty (some target) = target

unfoldable pub next_of : Assoc Bytes → Bytes → Bytes
next_of copies path = or_empty (lookup path copies)

-- The chain from the first occurrence of a path on.
unfoldable pub from_path : Bytes → List Bytes → List Bytes
from_path path [] = []
from_path path (p ∷ chain) =
    let rest = from_path path chain in if bytes_eq p path then p ∷ chain else rest

-- sort.Strings(cycle); cycle[0]
abbrev pub first_or : Bytes → List Bytes → Bytes
first_or path [] = path
first_or path (p ∷ ps) = p

unfoldable pub least_of : Bytes → List Bytes → Bytes
least_of path cycle = first_or path (sort_stable bytes_lt cycle)

-- The loop of resolveClaudeCopy, on fuel; `chain` are the paths that were seen, in order.
unfoldable pub resolve_loop : Assoc Bytes → ℕ → Bytes → List Bytes → Option Bytes
resolve_loop copies zero path chain = none
resolve_loop copies (suc f) path chain =
    let further = resolve_loop copies f (next_of copies path) (chain ++ path ∷ []) in
    if contains_string chain path
    then some (least_of path (from_path path chain))
    else if is_empty (next_of copies path)
    then some path
    else further

-- resolveClaudeCopy: each round but the last two sees another key of the map.
unfoldable pub resolve_claude_copy : Assoc Bytes → Bytes → Option Bytes
resolve_claude_copy copies path = resolve_loop copies (length copies + 2) path []

-- resolveClaudeSessionID, on fuel
unfoldable pub resolve_id : Assoc Bytes → ℕ → Bytes → List Bytes → Option Bytes
resolve_id aliases zero id seen = none
resolve_id aliases (suc f) id seen =
    let further = resolve_id aliases f (next_of aliases id) (id ∷ seen) in
    if not (is_empty (next_of aliases id)) && not (contains_string seen id)
    then further
    else some id

unfoldable pub resolve_claude_session_id : Assoc Bytes → Bytes → Option Bytes
resolve_claude_session_id aliases id = resolve_id aliases (length aliases + 2) id []
