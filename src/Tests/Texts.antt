-- ===== src/Tests/Texts.antt =====
-- Text cleaning, the --path flag and the connection limit at concrete inputs.
use agent_session_query.Prelude.{
  ◌++◌, ℕ, true, false, [], ◌∷◌, ◌≡◌, refl, map, Bytes, bytes_eq, codes, arith, any,
}
use agent_session_query.Prelude.Int.{pos}
use agent_session_query.Clean.{
  is_terminal_control, escape_sequence_len, csi_len, next_piece, strip_loop,
  strip_terminal_controls,
}
use agent_session_query.Clean.Strip.{IsRuneLen, strip_terminal_controls_clean}
use agent_session_query.Sources.{
  SourcePath, accepted, no_equals_sign, empty_directory, bad_label, unknown_source, not_relocatable,
  set_path, print_path, is_relocatable, reserved, valid_mode, valid_source_label, cut_at,
  check_parts,
}
use agent_session_query.Sources.Flag.{movable, set_path-print_path}
use agent_session_query.Limit.{
  new_limit_listener, admit_now, enqueue_conn, close, accept_queue_depth, admitted, enqueued, shut,
  Moves, still, moved,
}
use agent_session_query.Limit.Bounds.{IsWithin, new_limit_listener-reach}

abbrev one_byte : Bytes → ℕ
one_byte s = 1

one_byte-IsRuneLen : IsRuneLen one_byte
one_byte-IsRuneLen = record { positive = λ c s. omega arith; high = λ c s. tt }

-- A colour before a word and a return behind it.
abbrev coloured : Bytes
coloured = 27 ∷ codes "[31mred" ++ 13 ∷ []

coloured_run : strip_terminal_controls one_byte coloured ≡ codes "red"
unfolding strip_terminal_controls strip_loop next_piece escape_sequence_len csi_len
coloured_run = refl

strip_terminal_controls_clean_example :
    (any is_terminal_control (strip_terminal_controls one_byte coloured) ≡ false)
    × (strip_terminal_controls one_byte (strip_terminal_controls one_byte coloured)
        ≡ strip_terminal_controls one_byte coloured)
strip_terminal_controls_clean_example =
    strip_terminal_controls_clean one_byte one_byte-IsRuneLen coloured

abbrev moved_claude : SourcePath
moved_claude = record { mode = codes "claude"; label = codes "box-2"; dir = codes "/mnt/a=b:c" }

moved_claude-movable : movable moved_claude ≡ true
unfolding movable is_relocatable valid_source_label bytes_eq
moved_claude-movable = refl

set_path-print_path_example : set_path (print_path moved_claude) ≡ accepted moved_claude
set_path-print_path_example = set_path-print_path moved_claude moved_claude-movable

bad_flags :
    map set_path
      (codes "claude" ∷ codes "claude:=/a" ∷ codes "hermes=/a" ∷ codes "all=/a" ∷ codes "pi=" ∷ [])
    ≡ no_equals_sign ∷ bad_label ∷ not_relocatable ∷ unknown_source ∷ empty_directory ∷ []
unfolding set_path cut_at check_parts is_relocatable reserved valid_mode valid_source_label bytes_eq
bad_flags = refl

-- One connection is open, a second one queues, and the first one closes.
three-Moves :
    Moves
      (new_limit_listener 1 (pos 1))
      (close 1 (enqueue_conn 2 (admit_now 1 (new_limit_listener 1 (pos 1)))))
unfolding new_limit_listener admit_now enqueue_conn accept_queue_depth
three-Moves =
    let start = new_limit_listener 1 (pos 1) in
    let one = admit_now 1 start in
    let two = enqueue_conn 2 one in
    moved start one (close 1 two) (admitted start 1 (omega arith)) (
      moved one two (close 1 two) (enqueued one 2 (omega arith))
        (moved two (close 1 two) (close 1 two) (shut two 1) (still (close 1 two))))

new_limit_listener-reach_example :
    IsWithin (close 1 (enqueue_conn 2 (admit_now 1 (new_limit_listener 1 (pos 1)))))
new_limit_listener-reach_example =
    new_limit_listener-reach 1 (pos 1)
      (close 1 (enqueue_conn 2 (admit_now 1 (new_limit_listener 1 (pos 1))))) three-Moves
