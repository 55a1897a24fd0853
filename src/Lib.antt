-- ===== src/Lib.antt =====
-- A model of agent-session-query, the service that reads the session histories of coding CLIs,
-- with the theorems that make its core correct.
--
-- The program. Sources (internal/source) each read one CLI's files or database into records, one
-- per session, and into messages. internal/app selects sessions from all of them, finds the one
-- that a pattern names, reads and pages its messages, and searches every transcript; HTTP and MCP
-- serve those answers. Caches keyed by file fingerprints stand between the two.
--
-- Where each part is modelled:
--   Prelude    shared types and lemmas: tests, lists, bytes, instants, integers, string maps
--   Json       dynamically typed values and their conversions: internal/source/record.go
--   Sink       MessageQuery and messageSink, the window a source cuts: internal/source/source.go
--              (add splits into other_role, outside_anchor, add_oldest and add_newest); `collect` is
--              a source's scan, which calls add until it says stop
--   Paging     get_messages and list_sessions: runTool and pageMessages of internal/app/mcp.go, with
--              the arguments of a call (Args)
--   Record     Record, Public, NewerThan, MatchRank, ResumeCommand, ShellArg:
--              internal/source/record.go
--   Sorting    sort.SliceStable, as the stable sort it is documented to be
--   Api        the selection of sessions, the projects (Projects) and the timed answers (Timed):
--              internal/app/api.go
--   Search     the search over all sessions: internal/app/search.go
--   Clean      IndexFold, StripTerminalControls and RedactSecrets (Secrets): internal/source/cleantext.go
--   Sources    the --path flag and labeled sources, and the resolver (Resolver):
--              internal/source/source.go
--   Lines      lineReader and eachJSONLLineFrom: internal/source/record.go
--   Http       the guards and routes of internal/app/http.go, the parameters of a request (Query) and
--              the statuses of the answers about one session (Respond)
--   Title      StripHarnessBlocks and cutOpenHarnessBlock: internal/source/title.go
--   Blocks     the blocks of internal/source/blocks.go, and Truncate of record.go
--   Limit      limitListener: internal/app/http.go
--   Cache      internal/source/sqlitecache.go (Snapshot), finalcache.go (Final) and filecache.go
--              (Count: the background counting; Resume: countStable; Records: the list)
--   Questions  the messages that start a round: internal/app/brief.go, and WrappedInTag of
--              internal/source/source_codex.go
--   Tools      what a tool call names and is for (Kinds): internal/app/brief.go
--   Rounds     splitRounds and the whole of a round: internal/app/brief.go
--   Brief      the rounds that a brief selects and sums up: internal/app/brief.go
--   Usage      the shared counters: internal/source/usage.go
--   Claude     internal/source/source_claude.go: the blocks of a row (Parts) and its message (Rows),
--              the copies of a transcript (Copies), the subagents (Agents) and the outputs kept
--              beside a transcript (Saved); and ContentText of record.go (Content)
--   Codex      internal/source/source_codex.go: the output of a tool and its header (Output), the
--              message of a row and its speaker (Rows), the rows that count (Counts)
--   Counters   the counters of the file cache: internal/source/msgcount.go
--   Tests      the theorems at concrete inputs
--
-- Conventions. A string is the list of its bytes, a Go map an association list, a float64 its bit
-- pattern, an instant a natural number of nanoseconds. What rests on float64 arithmetic, on the
-- calendar, on Unicode tables or on the file system is a parameter: the record Json.Runtime, and
-- os.Stat, the hash and a source's counter in Cache, the size of a rune in Clean, os.File.Read in
-- Lines, which sources exist at a call in Sources.Resolver, net, strconv and time in Http, how a
-- text splits into characters in Blocks, the Unicode tables and regular expressions in
-- Clean.Secrets, float64 arithmetic in Usage, in Claude the rows that a file decodes to, its
-- message uuids and its probes, and in Codex and Counters what json.Unmarshal, strconv and the
-- decoder of compressed rollouts read. `range` meets the entries of a map in the order in which
-- they stand. Integers that the code clamps to be non-negative are natural numbers; an offset or a
-- count stays far below the machine's range (offsets are refused past 20000).
--
-- Fuel. `walk` and `walk_sessions` follow cursors on fuel, and their theorems say how much is
-- enough: one call more than there are items left. `descends` has the hops that descendsFrom
-- allows, the number of agents and one more. `strip_loop` has a round for every byte, and
-- `start_workers` one for every worker that may run. The digits of a number have one round of
-- fuel for each of its values and one more. The scan of a file and `strip_rounds` have a round
-- for every byte and one more, `resolve_loop` and `resolve_id` two rounds more than the map has
-- entries, and a call of `next` a read for every byte and one for the end.
--
-- The workers of a search run concurrently. Jobs are handed out in order and each writes in a
-- place of its own, so what a search leaves is determined by how many jobs were handed out: the
-- model takes that number, and a theorem says that the page does not depend on it.
--
-- Not modelled: the parsers of the other CLIs' formats, the scan of a Codex rollout with its token
-- records, the text of a brief, what the HTTP handlers write, reports, exports, telemetry and the
-- daemon, which are I/O for the most part. Locks are not modelled as such: the operations of a
-- cache are its critical sections, and Cache.Count interleaves them as the steps of a machine.
pub mod Prelude
pub mod Json
pub mod Sink
pub mod Paging
pub mod Record
pub mod Sorting
mod Tests
pub mod Api
pub mod Search
pub mod Clean
pub mod Sources
pub mod Lines
pub mod Limit
pub mod Cache
pub mod Http
pub mod Title
pub mod Blocks
pub mod Tools
pub mod Usage
pub mod Questions
pub mod Rounds
pub mod Brief
pub mod Claude
pub mod Codex
pub mod Counters
