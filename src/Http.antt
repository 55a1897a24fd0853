-- ===== src/Http.antt =====
-- internal/app/http.go: the guards in front of every route, and which handler answers a request.
pub mod Guards
pub mod Prefix
pub mod Query
pub mod Respond
use agent_session_query.Prelude.{
  ℕ, ◌-◌, Bool, true, false, not, ◌&&◌, ◌||◌, List, [], ◌∷◌, ◌++◌, Option, none, some, Bytes, codes,
  ◌==◌, if◌then◌else◌, bytes_eq, has_prefix, has_suffix, contains, take, drop, length,
}
use agent_session_query.Record.{is_empty}

-- What the handlers use of Go's net and strings packages.
pub record Net : Type 0 where
  -- the host of net.SplitHostPort
  pub split_host_port : Bytes → Option Bytes
  -- strings.EqualFold
  pub equal_fold : Bytes → Bytes → Bool
  -- net.ParseIP, and whether the address is a loopback one
  pub parse_ip : Bytes → Option Bool
  -- url.PathUnescape
  pub path_unescape : Bytes → Option Bytes

-- The fields of apiServer that the guards read.
pub record Server : Type 0 where
  pub token : Bytes
  pub cors_origin : Bytes
  pub loopback_only : Bool

-- `path` is URL.EscapedPath(). A header that is missing is empty.
pub record Request : Type 0 where
  pub method : Bytes
  pub path : Bytes
  pub host : Bytes
  pub origin : Bytes
  pub authorization : Bytes
  pub accept : Bytes

abbrev pub bearer : Bytes
bearer = codes "Bearer "

-- subtle.ConstantTimeCompare returns 1 where the slices are equal.
unfoldable pub check_auth : Server → Request → Bool
check_auth s r =
    if is_empty s.token
    then true
    else if not (has_prefix r.authorization bearer)
    then false
    else bytes_eq (drop (length bearer) r.authorization) s.token

unfoldable pub origin_allowed : Server → Request → Bool
origin_allowed s r =
    if is_empty r.origin
    then true
    else bytes_eq s.cors_origin (codes "*")
      || (not (is_empty s.cors_origin) && bytes_eq s.cors_origin r.origin)

abbrev pub is_bracket : ℕ → Bool
is_bracket c = c == b'[' || c == b']'

trim_left : Bytes → Bytes
trim_left [] = []
trim_left (c ∷ s) = if is_bracket c then trim_left s else c ∷ s

trim_right : Bytes → Bytes
trim_right [] = []
trim_right (c ∷ s) =
    let rest = trim_right s in if is_bracket c && is_empty rest then [] else c ∷ rest

-- strings.TrimSuffix(host, ".")
trim_dot : Bytes → Bytes
trim_dot s = if has_suffix s (codes ".") then take (length s - 1) s else s

abbrev pub is_loopback : Option Bool → Bool
is_loopback none = false
is_loopback (some b) = b

abbrev pub host_part : Bytes → Option Bytes → Bytes
host_part host none = host
host_part host (some h) = h

unfoldable pub host_is_loopback : Net → Bytes → Bool
host_is_loopback net host =
    if net.equal_fold host (codes "localhost") then true else is_loopback (net.parse_ip host)

unfoldable pub host_allowed : Net → Server → Request → Bool
unfolding trim_left trim_right trim_dot
host_allowed net s r =
    if not s.loopback_only || not (is_empty s.token)
    then true
    else if is_empty r.host
    then false
    else host_is_loopback net
        (trim_dot (trim_right (trim_left (host_part r.host (net.split_host_port r.host)))))

-- Which handler answers. A handler of one session gets the pattern.
pub data Answer : Type 0 where
  preflight : Answer
  origin_refused : Answer
  host_refused : Answer
  unsupported_method : Answer
  unauthorized : Answer
  mcp_call : Answer
  health : Bool → Answer
  redirect_to_ui : Answer
  index_page : Answer
  stats_page : Answer
  mcp_post_only : Answer
  favicon : Answer
  ui_asset : Bytes → Answer
  usage : Answer
  failures : Answer
  digest : Answer
  export_pack : Answer
  session_list : Answer
  projects : Answer
  search_page : Answer
  one_session : Bytes → Answer
  messages : Bytes → Answer
  subagents : Bytes → Answer
  rounds : Bytes → Answer
  brief : Bytes → Answer
  export_session : Bytes → Answer
  final_result : Bytes → Answer
  not_found : Answer

-- strings.Split(s, "/")
abbrev add_first : ℕ → List Bytes → List Bytes
add_first c [] = (c ∷ []) ∷ []
add_first c (p ∷ ps) = (c ∷ p) ∷ ps

split_slash : Bytes → List Bytes
split_slash [] = [] ∷ []
split_slash (c ∷ s) = let rest = split_slash s in if c == b'/' then [] ∷ rest else add_first c rest

abbrev pub or_segment : Bytes → Option Bytes → Bytes
or_segment segment none = segment
or_segment segment (some pattern) = pattern

unfoldable pub unescape_pattern : Net → Bytes → Bytes
unescape_pattern net segment = or_segment segment (net.path_unescape segment)

-- The handlers of /sessions/<pattern>/<what>.
abbrev pub of_session : Bytes → Bytes → Answer
of_session pattern what =
    if bytes_eq what (codes "messages")
    then messages pattern
    else if bytes_eq what (codes "subagents")
    then subagents pattern
    else if bytes_eq what (codes "rounds")
    then rounds pattern
    else if bytes_eq what (codes "brief")
    then brief pattern
    else if bytes_eq what (codes "export")
    then export_session pattern
    else if bytes_eq what (codes "final")
    then final_result pattern
    else not_found

unfoldable pub session_route : Net → List Bytes → Answer
session_route net [] = not_found
session_route net (first ∷ []) =
    if is_empty first then not_found else one_session (unescape_pattern net first)
session_route net (first ∷ what ∷ []) =
    if is_empty first then not_found else of_session (unescape_pattern net first) what
session_route net (first ∷ what ∷ more ∷ parts) = not_found

-- The routes behind the check of the token.
unfoldable pub private_route : Net → Bytes → Answer
unfolding split_slash
private_route net path =
    if bytes_eq path (codes "/usage")
    then usage
    else if bytes_eq path (codes "/failures")
    then failures
    else if bytes_eq path (codes "/digest")
    then digest
    else if bytes_eq path (codes "/export")
    then export_pack
    else if bytes_eq path (codes "/sessions")
    then session_list
    else if bytes_eq path (codes "/projects")
    then projects
    else if bytes_eq path (codes "/search")
    then search_page
    else if has_prefix path (codes "/sessions/")
    then session_route net (split_slash (drop (length (codes "/sessions/")) path))
    else not_found

abbrev pub is_ui_path : Bytes → Bool
is_ui_path path = bytes_eq path (codes "/ui") || has_prefix path (codes "/ui/")

-- The routes in front of the check.
unfoldable pub public_route : Server → Request → Option Answer
public_route s r =
    if bytes_eq r.path (codes "/health")
    then some (health (is_empty s.token || check_auth s r))
    else if bytes_eq r.path (codes "/") || is_empty r.path
    then some (if contains r.accept (codes "text/html") then redirect_to_ui else index_page)
    else if bytes_eq r.path (codes "/stats")
    then some stats_page
    else if bytes_eq r.path (codes "/mcp")
    then some mcp_post_only
    else if bytes_eq r.path (codes "/favicon.ico")
    then some favicon
    else if is_ui_path r.path
    then some (ui_asset r.path)
    else none

abbrev pub strip_api : Bytes → Bytes
strip_api path = if has_prefix path (codes "/api/") then drop (length (codes "/api")) path else path

abbrev pub behind_auth : Net → Server → Request → Option Answer → Answer
behind_auth net s r (some answer) = answer
behind_auth net s r none =
    if not (check_auth s r) then unauthorized else private_route net (strip_api r.path)

unfoldable pub route : Net → Server → Request → Answer
route net s r = behind_auth net s r (public_route s r)

-- handleMCPPost, up to the check
unfoldable pub mcp_post : Server → Request → Answer
mcp_post s r = if not (check_auth s r) then unauthorized else mcp_call

-- ServeHTTP
unfoldable pub serve : Net → Server → Request → Answer
serve net s r =
    if bytes_eq r.method (codes "OPTIONS")
    then preflight
    else if not (origin_allowed s r)
    then origin_refused
    else if not (host_allowed net s r)
    then host_refused
    else if bytes_eq r.method (codes "GET") || bytes_eq r.method (codes "HEAD")
    then route net s r
    else if bytes_eq r.method (codes "POST")
    then (if bytes_eq r.path (codes "/mcp") then mcp_post s r else unsupported_method)
    else unsupported_method
