-- ===== src/Tests/Title.antt =====
-- The harness blocks of a prompt at a concrete input.
use agent_session_query.Prelude.{◌≡◌, refl, Bytes, codes, bytes_eq, has_prefix, has_suffix}
use agent_session_query.Record.{is_empty}
use agent_session_query.Title.{
  strip_harness_blocks, strip_rounds, strip_round, strip_tag, trim_right, last_index,
}
use agent_session_query.Title.Strip.{Starts, IsStripped, strip_harness_blocks_lem}

abbrev prompt : Bytes
prompt = codes "fix it<runtime_info>T3</runtime_info>\n"

prompt_stripped : strip_harness_blocks prompt ≡ codes "fix it"
unfolding strip_harness_blocks strip_rounds strip_round strip_tag trim_right last_index has_prefix
    has_suffix is_empty bytes_eq
prompt_stripped = refl

strip_harness_blocks_lem_example :
    Starts (strip_harness_blocks prompt) prompt
    × IsStripped (strip_harness_blocks prompt)
    × (strip_harness_blocks (strip_harness_blocks prompt) ≡ strip_harness_blocks prompt)
strip_harness_blocks_lem_example = strip_harness_blocks_lem prompt
