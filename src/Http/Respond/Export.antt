-- ===== src/Http/Respond/Export.antt =====
-- What an export reads.
use agent_session_query.Prelude.{ℕ, ◌≤◌, true, List, Option, none, some, ◌≡◌, refl, codes, Bytes}
use agent_session_query.Prelude.Int.{pos}
use agent_session_query.Prelude.Assoc.{lookup}
use agent_session_query.Sink.{MessageQuery}
use agent_session_query.Http.Query.{Lib, Values, Read, ok, fault, parse_message_query}
use agent_session_query.Http.Query.Limits.{Asks, parse_message_query_lem}
use agent_session_query.Http.Respond.{export_query, export_max_messages, whole_unless_given}

-- What an export's parameters come to: the most messages unless a limit is given, never more, and with
-- their outputs whole.
abbrev pub Exports : Lib → Values → Option (List Bytes) → Read MessageQuery → Type 0
Exports lib values none (ok q) = (q.limit ≡ pos export_max_messages) × (q.full ≡ true)
Exports lib values (some vs) (ok q) =
    ((n : ℕ) × (q.limit ≡ pos n) × (n ≤ export_max_messages)) × (q.full ≡ true)
Exports lib values given (fault e) = Asks lib values export_max_messages (fault e)

from_read :
    (lib : Lib) (values : Values) (given : Option (List Bytes)) (r : Read MessageQuery)
    → Asks lib values export_max_messages r
    → Exports lib values given
        (elim r [ ok q ↦ ok (whole_unless_given given q) | fault e ↦ fault e ])
from_read lib values none (ok q) a = (refl, refl)
from_read lib values (some vs) (ok q) a = (a.0, refl)
from_read lib values none (fault e) a = a
from_read lib values (some vs) (fault e) a = a

-- An export reads what its parameters come to, or is refused for the reason that they give.
pub export_query_lem :
    (lib : Lib) (values : Values)
    → Exports lib values (lookup (codes "limit") values) (export_query lib values)
unfolding export_query
export_query_lem lib values =
    from_read lib values (lookup (codes "limit") values)
      (parse_message_query lib values export_max_messages)
      (parse_message_query_lem lib values export_max_messages)
