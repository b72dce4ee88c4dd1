-- ===== src/Server/Answer.antt =====
-- The headers of an answer: `securityHeaders` and the wrapping of routes in server/main.go, and in
-- server/api_admin.go the cookies of `handleLogin` and `handleLogout`, `isHTTPS`, `Retry-After`, and the
-- headers of `writeJSON`.
pub mod Cookies
use stem_computing_desktop_p.Prelude.{
  ℕ, suc, ◌/◌, ◌+◌, Bool, true, false, not, ◌&&◌, ◌||◌, Option, none, some, List, [], ◌∷◌, ◌++◌,
  if◌then◌else◌, ltb,
}
use stem_computing_desktop_p.Text.{Text, codes, equal_fold}
use stem_computing_desktop_p.Platform.{Platform}
use stem_computing_desktop_p.Model.{Time, second}
use stem_computing_desktop_p.Auth.Sessions.{session_lifetime}
use stem_computing_desktop_p.Auth.Throttle.{Throttle, blocked}
use stem_computing_desktop_p.App.{App, World, Config, Response, refused, reply}
use stem_computing_desktop_p.Server.Bootstrap.{Details}
use stem_computing_desktop_p.Server.Routes.{
  Endpoint, poll, login, logout, health, guarded, patterns, route,
}
use stem_computing_desktop_p.Server.Serve.{
  Json, Call, Reply, signed_in, Outcome, answer, waiting, file, moved, is_api, endpoint,
}

-- What `isHTTPS` reads of a request.
pub record Connection : Type 0 where
  pub tls : Bool
  pub forwarded_proto : Text

-- isHTTPS
unfoldable pub is_https : Platform → Config → Connection → Bool
unfolding equal_fold
is_https e cfg n =
    n.tls || cfg.trust_proxy_headers && equal_fold e.unicode n.forwarded_proto (codes "https")

-- The session cookie; `expires` stands for a negative MaxAge, by which a browser drops the cookie at once.
pub record Cookie : Type 0 where
  pub value : Text
  pub path : Text
  pub max_age : ℕ
  pub expires : Bool
  pub secure : Bool
  pub http_only : Bool
  pub same_site_strict : Bool

abbrev pub session_cookie : Bool → Text → Cookie
session_cookie https sid = record {
  value = sid;
  path = codes "/";
  max_age = session_lifetime / second;
  expires = false;
  secure = https;
  http_only = true;
  same_site_strict = true;
}

abbrev pub cleared_cookie : Cookie
cleared_cookie = record {
  value = [];
  path = codes "/";
  max_age = 0;
  expires = true;
  secure = false;
  http_only = true;
  same_site_strict = false;
}

-- The cookie that an endpoint sets with its answer.
abbrev pub cookie_for : Platform → Config → Connection → Endpoint → Outcome → Option Cookie
cookie_for e cfg n login (answer (reply status (signed_in v sid))) =
    some (session_cookie (is_https e cfg n) sid)
cookie_for e cfg n logout x = some cleared_cookie
cookie_for e cfg n t x = none

-- The cookie of the answer to a request.
unfoldable pub cookie_of : Json → Platform → World → Call → Connection → App → Option Cookie
unfolding is_https route endpoint
cookie_of j e w c n a = elim (route patterns c.request.method c.path) [
  | none ↦ none
  | some (target, v) ↦ cookie_for e a.cfg n target (endpoint j e w c v target a).1
]

-- Retry-After of `handleLogin`, in seconds, for the first of the keys that is locked
unfoldable pub retry_after : List Text → Time → Throttle → Option ℕ
unfolding blocked
retry_after [] now t = none
retry_after (key ∷ keys) now t =
    let d = blocked key now t in
    let rest = retry_after keys now t in if ltb 0 d then some (d / second + 1) else rest

-- securityHeaders, before the answer's own
abbrev pub security_headers : Bool → List (Text × Text)
security_headers api =
    (codes "X-Content-Type-Options", codes "nosniff")
    ∷ (codes "X-Frame-Options", codes "DENY")
    ∷ (codes "Referrer-Policy", codes "no-referrer")
    ∷ (
      codes "Content-Security-Policy",
      codes
          "default-src 'self'; img-src 'self' data:; object-src 'none'; base-uri 'none'; frame-ancestors 'none'; form-action 'self'",
    )
    ∷ (if api then [] else (codes "Cache-Control", codes "no-cache") ∷ [])

-- the headers of writeJSON
abbrev pub json_headers : List (Text × Text)
json_headers =
    (codes "Content-Type", codes "application/json; charset=utf-8")
    ∷ (codes "Cache-Control", codes "no-store")
    ∷ []

-- The headers in the order in which they are set; a later one of a name takes an earlier one's place.
abbrev pub headers : List Text → Outcome → List (Text × Text)
headers path (answer r) = security_headers (is_api path) ++ json_headers
headers path (waiting k) = security_headers (is_api path)
headers path file = security_headers (is_api path)
headers path moved = security_headers (is_api path)

-- FIRST-RUN.txt after `handleChangeOwnPassword`, which removes it once the password is changed
abbrev pub first_run_file : Response Bool → Option Details → Option Details
first_run_file (refused status code) details = details
first_run_file (reply status ok) details = none
