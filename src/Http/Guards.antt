-- ===== src/Http/Guards.antt =====
-- What stands between a request and the data.
use agent_session_query.Prelude.{
  Bool, true, false, not, ◌||◌, [], ◌∷◌, ◌++◌, Option, none, some, Bytes, codes, ==_iff, bytes_eq,
  eq_of_bytes_eq, has_prefix, drop, length, ◌≡◌, ◌⊎◌, inl, inr, refl, ap, ◌∙◌, arith, Bool-cases,
  Option-cases,
}
use agent_session_query.Record.{is_empty}
use agent_session_query.Http.{
  Net, Server, Request, bearer, check_auth, origin_allowed, host_allowed, Answer, preflight,
  origin_refused, host_refused, unsupported_method, unauthorized, health, redirect_to_ui,
  index_page, stats_page, mcp_post_only, favicon, ui_asset, not_found, public_route, route,
  mcp_post, serve,
}

-- The answers that tell nothing of the sessions, of their files or of the program's state.
abbrev pub is_open : Answer → Bool
is_open preflight = true
is_open origin_refused = true
is_open host_refused = true
is_open unsupported_method = true
is_open unauthorized = true
is_open (health warnings) = not warnings
is_open redirect_to_ui = true
is_open index_page = true
is_open stats_page = true
is_open mcp_post_only = true
is_open favicon = true
is_open (ui_asset path) = true
is_open not_found = true
is_open other = false

abbrev pub IsAuthorized : Server → Request → Type 0
IsAuthorized s r = (s.token ≡ []) ⊎ (r.authorization ≡ bearer ++ s.token)

abbrev pub IsFromHere : Server → Request → Type 0
IsFromHere s r = (r.origin ≡ []) ⊎ ((s.cors_origin ≡ codes "*") ⊎ (s.cors_origin ≡ r.origin))

nil_of_empty : (s : Bytes) → is_empty s ≡ true → s ≡ []
unfolding is_empty bytes_eq
nil_of_empty [] h = refl
nil_of_empty (c ∷ s) h = absurd (ground (arith, h))

prefix_splits : (s p : Bytes) → has_prefix s p ≡ true → s ≡ p ++ drop (length p) s
unfolding has_prefix
prefix_splits s [] h = refl
prefix_splits [] (c ∷ p) h = absurd (cc h)
prefix_splits (d ∷ s) (c ∷ p) h = ground (arith, h, prefix_splits s p, ==_iff d c)

pub check_auth-IsAuthorized : (s : Server) (r : Request) → check_auth s r ≡ true → IsAuthorized s r
unfolding check_auth
check_auth-IsAuthorized s r h = elim (Bool-cases (is_empty s.token)) [
  | inl no_token ↦ inl (nil_of_empty s.token no_token)
  | inr token ↦ elim (Bool-cases (has_prefix r.authorization bearer)) [
    | inr missing ↦ absurd (ground (arith, h, token, missing))
    | inl there ↦
        let same : bytes_eq (drop (length bearer) r.authorization) s.token ≡ true =
          ground (arith, h, token, there) in
        inr (
          prefix_splits r.authorization bearer there
          ∙ ap (λ t. bearer ++ t)
              (eq_of_bytes_eq (drop (length bearer) r.authorization) s.token same))
  ]
]

pub origin_allowed-IsFromHere :
    (s : Server) (r : Request) → origin_allowed s r ≡ true → IsFromHere s r
unfolding origin_allowed
origin_allowed-IsFromHere s r h = elim (Bool-cases (is_empty r.origin)) [
  | inl native ↦ inl (nil_of_empty r.origin native)
  | inr browser ↦ elim (Bool-cases (bytes_eq s.cors_origin (codes "*"))) [
    | inl every ↦ inr (inl (eq_of_bytes_eq s.cors_origin (codes "*") every))
    | inr named ↦
        inr (inr (eq_of_bytes_eq s.cors_origin r.origin (ground (arith, h, browser, named))))
  ]
]

-- Nothing is told where no public route answers.
abbrev tells : Option Answer → Bool
tells none = false
tells (some answer) = not (is_open answer)

health_auth :
    (s : Server) (r : Request) → (is_empty s.token || check_auth s r) ≡ true → check_auth s r ≡ true
unfolding check_auth
health_auth s r h = ground arith

public_open : (s : Server) (r : Request) → tells (public_route s r) ≡ true → check_auth s r ≡ true
unfolding public_route
public_open s r h = ground (arith, h, health_auth s r)

route_guarded :
    (net : Net) (s : Server) (r : Request) → is_open (route net s r) ≡ false → check_auth s r ≡ true
unfolding route
route_guarded net s r h = elim (Option-cases (public_route s r)) [
  | inl past ↦ ground (arith, h, past)
  | inr (answer, at) ↦ public_open s r (ground (arith, h, at))
]

post_guarded : (s : Server) (r : Request) → is_open (mcp_post s r) ≡ false → check_auth s r ≡ true
unfolding mcp_post
post_guarded s r h = ground (arith, h)

-- A request whose answer is not an open one (a preflight, a refusal, not found, a redirect, the
-- index, the statistics, the page's assets and icon, a GET of the MCP path, the health check
-- without warnings) carries the token in its Authorization header or the server has none, has no
-- Origin or the one that is allowed, and names a host that is allowed.
pub serve_guarded :
    (net : Net) (s : Server) (r : Request)
    → is_open (serve net s r) ≡ false
    → IsAuthorized s r × IsFromHere s r × (host_allowed net s r ≡ true)
unfolding serve
serve_guarded net s r h =
    let passed : (check_auth s r ≡ true)
        × (origin_allowed s r ≡ true)
        × (host_allowed net s r ≡ true) =
      ground (arith, h, route_guarded net s r, post_guarded s r) in
    (check_auth-IsAuthorized s r passed.0, origin_allowed-IsFromHere s r passed.1, passed.2)
