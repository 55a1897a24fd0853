-- ===== src/Rounds/Tallied.antt =====
-- A round that agrees with itself still does behind any block of a message.
use agent_session_query.Prelude.{
  ℕ, suc, ◌+◌, codes, Bool, true, false, List, [], ◌∷◌, Option, none, some, Bytes, length, bytes_eq,
  ◌≡◌, refl, ap, ◌∙◌, inl, inr, Bool-cases, length-append, ◌==◌, arith,
}
use agent_session_query.Prelude.Assoc.{
  Assoc, lookup, Entries, OnFound, Entries-insert, Entries-erase, Entries-lookup,
}
use agent_session_query.Json.{Fields, Value}
use agent_session_query.Tools.{command_text, append_all_unique, tool_call_files}
use agent_session_query.Tools.Kinds.{
  Kind, tool_kind_of, kind_name, write, exec, read, search, net, agent, other,
}
use agent_session_query.Tools.Names.{
  IsWithin, IsDistinct, IsWithin-grow, IsWithin-self, IsWithin-all, IsWithin-append_all,
  IsDistinct-append_all,
}
use agent_session_query.Blocks.{is_failed_result}
use agent_session_query.Json.{get}
use agent_session_query.Rounds.{
  interrupted_event, settled_files, called, note_failure, Round, count_up, note_write, settle_write,
  of_kind, take_call, take_result, take_event, take_block, take_blocks,
}
use agent_session_query.Questions.{text_at, Libraries}

abbrev pub sum_counts : Assoc ℕ → ℕ
sum_counts [] = 0
sum_counts ((k, n) ∷ counts) = n + sum_counts counts

sum_counts-count_up : (k : Bytes) (m : Assoc ℕ) → sum_counts (count_up k m) ≡ suc (sum_counts m)
unfolding count_up
sum_counts-count_up k [] = refl
sum_counts-count_up k ((j, n) ∷ m) = ground (arith, sum_counts-count_up k m)

-- Every file of a call that waits for its result stands in `files`.
abbrev IsAwaited : List Bytes → Assoc (List Bytes) → Type 0
IsAwaited files pending = Entries (λ id fs. IsWithin files fs) pending

IsAwaited-grow :
    (files more : List Bytes) (pending : Assoc (List Bytes))
    → IsAwaited files pending
    → IsAwaited (append_all_unique files more) pending
IsAwaited-grow files more [] h = tt
IsAwaited-grow files more ((k, fs) ∷ pending) (hf, h) =
    (IsWithin-grow files more fs hf, IsAwaited-grow files more pending h)

-- The changed files and those of the writes that wait are among the files, no file stands twice, one
-- failure is listed for each that is counted, the calls by kind sum up to the calls, and the round
-- has the number `n` and `k` messages.
abbrev pub IsTallied : ℕ → ℕ → Round → Type 0
IsTallied n k r =
    IsWithin r.files r.changed
    × IsAwaited r.files r.pending
    × IsDistinct r.files
    × IsDistinct r.changed
    × (length r.failed ≡ r.failures)
    × (sum_counts r.kinds ≡ r.tool_calls)
    × (r.index ≡ n)
    × (r.messages ≡ k)

module _ (w : Libraries) (n k : ℕ) where
  abbrev named : Value → List Bytes
  named arguments = tool_call_files w.runtime arguments

  note_write-IsTallied :
      (id : Bytes) (arguments : Value) (r : Round)
      → IsTallied n k r
      → IsWithin r.files (named arguments)
      → IsTallied n k (note_write w id arguments r)
  unfolding note_write
  note_write-IsTallied id arguments r h within =
      let (in_changed, awaited, files_once, changed_once, failures, kinds, number, size) = h in
      elim (Bool-cases (length (named arguments) == 0)) [
        | inl nothing ↦ rw nothing h
        | inr some_file ↦ elim (Bool-cases (bytes_eq id [])) [
          | inl no_id ↦
              rw (some_file, no_id)
                (
                  IsWithin-append_all r.files r.changed (named arguments) in_changed within,
                  awaited,
                  files_once,
                  IsDistinct-append_all r.changed (named arguments) changed_once,
                  failures,
                  kinds,
                  number,
                  size,
                )
          | inr with_id ↦
              rw (some_file, with_id)
                (
                  in_changed,
                  Entries-insert _ id (named arguments) r.pending within awaited,
                  files_once,
                  changed_once,
                  failures,
                  kinds,
                  number,
                  size,
                )
        ]
      ]

  settled_files-IsTallied :
      (call_id : Bytes) (failed : Bool) (files : Option (List Bytes)) (r : Round)
      → IsTallied n k r
      → OnFound (λ id fs. IsWithin r.files fs) call_id files
      → IsTallied n k (settled_files w call_id failed files r)
  settled_files-IsTallied call_id failed none r h within = h
  settled_files-IsTallied call_id true (some files) r h within =
      let (in_changed, awaited, files_once, changed_once, failures, kinds, number, size) = h in
      (
        in_changed,
        Entries-erase _ call_id r.pending awaited,
        files_once,
        changed_once,
        failures,
        kinds,
        number,
        size,
      )
  settled_files-IsTallied call_id false (some files) r h within =
      let (in_changed, awaited, files_once, changed_once, failures, kinds, number, size) = h in
      (
        IsWithin-append_all r.files r.changed files in_changed within,
        Entries-erase _ call_id r.pending awaited,
        files_once,
        IsDistinct-append_all r.changed files changed_once,
        failures,
        kinds,
        number,
        size,
      )

  settle_write-IsTallied :
      (call_id : Bytes) (failed : Bool) (r : Round)
      → IsTallied n k r
      → IsTallied n k (settle_write w call_id failed r)
  unfolding settle_write
  settle_write-IsTallied call_id failed r h =
      settled_files-IsTallied call_id failed (lookup call_id r.pending) r h
        (Entries-lookup _ call_id r.pending h.1)

  called-IsTallied :
      (id name : Bytes) (arguments : Value) (r : Round)
      → IsTallied n k r
      → IsTallied n k (called w id name arguments r)
  called-IsTallied id name arguments r h =
      let (in_changed, awaited, files_once, changed_once, failures, kinds, number, size) = h in
      (
        IsWithin-grow r.files (named arguments) r.changed in_changed,
        IsAwaited-grow r.files (named arguments) r.pending awaited,
        IsDistinct-append_all r.files (named arguments) files_once,
        changed_once,
        failures,
        sum_counts-count_up (kind_name (tool_kind_of w.runtime w.texts name)) r.kinds
            ∙ ap (λ m. suc m) kinds,
        number,
        size,
      )

  of_kind-IsTallied :
      (kind : Kind) (id : Bytes) (arguments : Value) (r : Round)
      → IsTallied n k r
      → IsWithin r.files (named arguments)
      → IsTallied n k (of_kind w kind id arguments r)
  unfolding of_kind
  of_kind-IsTallied write id arguments r h within = note_write-IsTallied id arguments r h within
  of_kind-IsTallied exec id arguments r h within =
      elim (Bool-cases (bytes_eq (command_text w.runtime arguments) [])) [
        | inl nothing ↦ rw nothing h
        | inr command ↦ rw command h
      ]
  of_kind-IsTallied read id arguments r h within = h
  of_kind-IsTallied search id arguments r h within = h
  of_kind-IsTallied net id arguments r h within = h
  of_kind-IsTallied agent id arguments r h within = h
  of_kind-IsTallied other id arguments r h within = h

  take_call-IsTallied :
      (block : Fields) (r : Round) → IsTallied n k r → IsTallied n k (take_call w block r)
  unfolding take_call
  take_call-IsTallied block r h =
      let id = text_at w block (codes "id") in
      let name = text_at w block (codes "name") in
      let arguments = get block (codes "arguments") in
      of_kind-IsTallied (tool_kind_of w.runtime w.texts name) id arguments
        (called w id name arguments r) (called-IsTallied id name arguments r h)
        (IsWithin-all r.files (named arguments) (named arguments) (IsWithin-self (named arguments)))

  note_failure-IsTallied :
      (at : Bytes) (block : Fields) (r : Round)
      → IsTallied n k r
      → IsTallied n k (note_failure w at block r)
  note_failure-IsTallied at block r h =
      let (in_changed, awaited, files_once, changed_once, failures, kinds, number, size) = h in
      (
        in_changed,
        awaited,
        files_once,
        changed_once,
        length-append r.failed (_ ∷ []) ∙ omega (arith, failures),
        kinds,
        number,
        size,
      )

  take_result-IsTallied :
      (at : Bytes) (block : Fields) (r : Round)
      → IsTallied n k r
      → IsTallied n k (take_result w at block r)
  unfolding take_result
  take_result-IsTallied at block r h = elim (Bool-cases (is_failed_result w.runtime block)) [
    | inl failed ↦ rw failed (settle_write-IsTallied _ true _ (note_failure-IsTallied at block r h))
    | inr passed ↦ rw passed (settle_write-IsTallied _ false r h)
  ]

  take_event-IsTallied :
      (block : Fields) (r : Round) → IsTallied n k r → IsTallied n k (take_event w block r)
  unfolding take_event
  take_event-IsTallied block r h =
      elim (Bool-cases (bytes_eq (text_at w block (codes "kind")) interrupted_event)) [
        | inl stop ↦ rw stop h
        | inr another ↦ rw another h
      ]

  take_block-IsTallied :
      (at : Bytes) (block : Fields) (s : Round × Bool)
      → IsTallied n k s.0
      → IsTallied n k (take_block w at block s).0
  unfolding take_block
  take_block-IsTallied at block (r, work) h =
      elim (Bool-cases (bytes_eq (text_at w block (codes "type")) (codes "toolCall"))) [
        | inl call ↦ rw call (take_call-IsTallied block r h)
        | inr no_call ↦
            elim (Bool-cases (bytes_eq (text_at w block (codes "type")) (codes "toolResult"))) [
              | inl result ↦ rw (no_call, result) (take_result-IsTallied at block r h)
              | inr no_result ↦
                  elim (Bool-cases (bytes_eq (text_at w block (codes "type")) (codes "event"))) [
                    | inl happened ↦
                        rw (no_call, no_result, happened) (take_event-IsTallied block r h)
                    | inr text ↦ rw (no_call, no_result, text) h
                  ]
            ]
      ]

  pub take_blocks-IsTallied :
      (at : Bytes) (blocks : List Fields) (s : Round × Bool)
      → IsTallied n k s.0
      → IsTallied n k (take_blocks w at blocks s).0
  unfolding take_blocks
  take_blocks-IsTallied at [] s h = h
  take_blocks-IsTallied at (block ∷ blocks) s h =
      take_blocks-IsTallied at blocks (take_block w at block s) (take_block-IsTallied at block s h)
