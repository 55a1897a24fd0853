-- ===== src/Tests/Http.antt =====
-- Requests and their parameters at concrete inputs.
use agent_session_query.Prelude.{
  ◌≤◌, ◌<◌, ◌*◌, ◌-◌, true, [], ◌∷◌, ◌++◌, Option, none, some, ◌≡◌, ◌⊎◌, refl, arith, Bytes,
  bytes_eq, codes, Time, has_prefix, has_suffix,
}
use agent_session_query.Prelude.Int.{ℤ, pos}
use agent_session_query.Record.{is_empty}
use agent_session_query.Http.{
  Net, Server, Request, serve, route, public_route, private_route, session_route, check_auth,
  origin_allowed, host_allowed, host_is_loopback, unescape_pattern, messages, host_refused,
}
use agent_session_query.Http.Guards.{IsAuthorized, IsFromHere, serve_guarded}
use agent_session_query.Http.Query.{Lib, Values, day, ok, parse_since}
use agent_session_query.Http.Query.Since.{most_days, parse_since_days}
use agent_session_query.Http.Query.Searching.{Searches, parse_search_query, parse_search_query_lem}

abbrev net : Net
net = record {
  split_host_port = λ s. none;
  equal_fold = bytes_eq;
  parse_ip = λ s. none;
  path_unescape = λ s. some s;
}

abbrev guarded : Server
guarded = record { token = codes "secret"; cors_origin = []; loopback_only = true }

abbrev no_token : Server
no_token = record { token = []; cors_origin = []; loopback_only = true }

abbrev ask : Bytes → Bytes → Request
ask host path = record {
  method = codes "GET";
  path = path;
  host = host;
  origin = [];
  authorization = codes "Bearer secret";
  accept = [];
}

abbrev a_session : Request
a_session = ask (codes "localhost") (codes "/sessions/a/messages")

with_token : serve net guarded a_session ≡ messages (codes "a")
unfolding serve route public_route private_route session_route check_auth origin_allowed
    host_allowed unescape_pattern bytes_eq is_empty has_prefix
with_token = refl

rebound : serve net no_token (ask (codes "attacker.example") (codes "/sessions")) ≡ host_refused
unfolding serve route public_route private_route session_route check_auth origin_allowed
    host_allowed host_is_loopback unescape_pattern bytes_eq is_empty has_prefix has_suffix
rebound = refl

serve_guarded_example :
    IsAuthorized guarded a_session
    × IsFromHere guarded a_session
    × (host_allowed net guarded a_session ≡ true)
unfolding serve route public_route private_route session_route check_auth origin_allowed
    host_allowed unescape_pattern bytes_eq is_empty has_prefix
serve_guarded_example = serve_guarded net guarded a_session refl

-- A library that reads one-digit numbers.
abbrev digit : Bytes → Option ℤ
digit [] = none
digit (c ∷ s) = some (pos (c - 48))

abbrev lib : Lib
lib = record {
  trim_space = λ s. s;
  to_lower = λ s. s;
  equal_fold = bytes_eq;
  atoi = digit;
  parse_duration = λ s. none;
  parse_layout = λ layout s. none;
  parse_epoch = λ s. none;
}

abbrev values : Values
values =
    (codes "q", codes "panic" ∷ [])
    ∷ (codes "limit", codes "7" ∷ [])
    ∷ (codes "offset", codes "3" ∷ [])
    ∷ []

parse_search_query_lem_example :
    Searches lib 100 0 [] values (parse_search_query lib 100 0 [] values)
parse_search_query_lem_example = parse_search_query_lem lib 100 0 [] values

parse_since_days_example :
    ((3 ≤ most_days)
      × (parse_since lib (9 * day) (codes "3" ++ codes "d") ≡ ok (9 * day - 3 * day)))
    ⊎ ((most_days < 3)
        × ((t : Time) × (parse_since lib (9 * day) (codes "3" ++ codes "d") ≡ ok t)
            × (9 * day < t)))
parse_since_days_example =
    parse_since_days lib (9 * day) (codes "3") 3 (omega arith) refl (omega arith)
