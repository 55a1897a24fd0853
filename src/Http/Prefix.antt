-- ===== src/Http/Prefix.antt =====
-- The /api prefix.
use agent_session_query.Prelude.{◌≡◌, ◌++◌, Bytes, codes, none, false, bytes_eq, has_prefix, refl}
use agent_session_query.Record.{is_empty}
use agent_session_query.Http.{Net, Server, Request, check_auth, public_route, route}

abbrev pub at_path : Request → Bytes → Request
at_path r path = record r { path = path }

prefix_is_private :
    (s : Server) (r : Request) (q : Bytes) → public_route s (at_path r (codes "/api/" ++ q)) ≡ none
unfolding public_route bytes_eq is_empty has_prefix
prefix_is_private s r q = refl

-- A path behind /api/ is answered as the path behind /, when that is not a public route and has no
-- /api/ prefix itself.
pub route_api :
    (net : Net) (s : Server) (r : Request) (q : Bytes)
    → public_route s (at_path r (codes "/" ++ q)) ≡ none
    → has_prefix (codes "/" ++ q) (codes "/api/") ≡ false
    → route net s (at_path r (codes "/api/" ++ q)) ≡ route net s (at_path r (codes "/" ++ q))
unfolding route check_auth has_prefix
route_api net s r q behind plain = rw (prefix_is_private s r q, behind, plain) refl
