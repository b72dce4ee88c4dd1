-- ===== src/Server/Answer/Cookies.antt =====
-- Who gets a session cookie, and how long Retry-After asks for.
use stem_computing_desktop_p.Prelude.{
  ℕ, ◌+◌, ◌*◌, ◌/◌, ◌-◌, ◌∙◌, ◌<◌, ◌≡◌, refl, ◌⊎◌, inl, inr, Option, none, some, List, [], ◌∷◌,
  arith, true, false, ltb, is_some, ap, ◌++◌, ◌≤◌, Option-cases, Bool-cases,
}
use stem_computing_desktop_p.Text.{Text, codes, equal_fold}
use stem_computing_desktop_p.Platform.{Platform}
use stem_computing_desktop_p.Model.{Time, User, second}
use stem_computing_desktop_p.Dict
use stem_computing_desktop_p.Auth.Sessions
use stem_computing_desktop_p.Auth.Throttle.{Throttle, blocked}
use stem_computing_desktop_p.App.{App, World, Response, refused, reply}
use stem_computing_desktop_p.Console.Login.{LoginRequest, is_locked, handle_login}
use stem_computing_desktop_p.Console.Login.Signin.{MaySignIn, handle_login_cases, handle_login_may}
use stem_computing_desktop_p.Console.Users.{UserView}
use stem_computing_desktop_p.Server.Routes.{
  Endpoint, poll, login, logout, health, guarded, patterns, route,
}
use stem_computing_desktop_p.Server.Serve.{
  Json, Call, signed_in, Outcome, answer, as_answer, answer_with, endpoint, serve,
}
use stem_computing_desktop_p.Server.Answer.{
  Connection, is_https, Cookie, session_cookie, cleared_cookie, cookie_for, cookie_of, retry_after,
}

-- The cookie of somebody who has signed in by this request: it is out of reach of scripts and of other
-- sites, and goes over an encrypted connection only, if this request came by one.
pub record SignedIn (j : Json) (e : Platform) (w : World) (c : Call) (n : Connection) (a b : App)
    (k : Cookie) : Type 0 where
  pub req : LoginRequest
  pub user : User
  pub body : j.login c.body ≡ some req
  pub may : MaySignIn e w c.request req a user
  pub value : k.value ≡ w.secret
  pub path : k.path ≡ codes "/"
  pub kept : k.expires ≡ false
  pub no_scripts : k.http_only ≡ true
  pub no_other_sites : k.same_site_strict ≡ true
  pub over_tls : n.tls ≡ true → k.secure ≡ true
  pub behind_proxy :
      a.cfg.trust_proxy_headers ≡ true
      → equal_fold e.unicode n.forwarded_proto (codes "https") ≡ true
      → k.secure ≡ true
  pub session : (Sessions.lookup w.secret w.now b.sessions).1 ≡ some user.id

-- The cookie takes the place of the session's and is dropped at once.
pub record IsCleared (k : Cookie) : Type 0 where
  pub value : k.value ≡ []
  pub path : k.path ≡ codes "/"
  pub dropped : k.expires ≡ true

as_signed_in : App × Response (UserView × Text) → App × Outcome
as_signed_in x = as_answer (answer_with (λ p. signed_in p.0 p.1) x)

as_signed_in-state : (x : App × Response (UserView × Text)) → (as_signed_in x).0 ≡ x.0
unfolding as_signed_in
as_signed_in-state (b, refused status code) = refl
as_signed_in-state (b, reply status v) = refl

as_signed_in-refused :
    (x : App × Response (UserView × Text)) (status : ℕ) (code : Text)
    → x.1 ≡ refused status code
    → (as_signed_in x).1 ≡ answer (refused status code)
unfolding as_signed_in
as_signed_in-refused (b, r) status code h = rw h refl

as_signed_in-reply :
    (x : App × Response (UserView × Text)) (status : ℕ) (v : UserView × Text)
    → x.1 ≡ reply status v
    → (as_signed_in x).1 ≡ answer (reply status (signed_in v.0 v.1))
unfolding as_signed_in
as_signed_in-reply (b, r) status v h = rw h refl

-- The cookie of an answer to a sign-in.
login-cookie :
    (j : Json) (e : Platform) (w : World) (c : Call) (n : Connection) (a : App) (k : Cookie)
    (body : Option LoginRequest)
    → j.login c.body ≡ body
    → cookie_for e a.cfg n login (as_signed_in (handle_login e w c.request body a)).1 ≡ some k
    → SignedIn j e w c n a (as_signed_in (handle_login e w c.request body a)).0 k
unfolding handle_login as_signed_in is_https
login-cookie j e w c n a k none b h = absurd (cc h)
login-cookie j e w c n a k (some req) b h =
    let x = handle_login e w c.request (some req) a in
    elim (handle_login_cases e w c.request req a) [
      | inl (status, code, r, _) ↦ absurd (cc (rw (as_signed_in-refused x status code r) at h))
      | inr (u, m, s) ↦
          let given : k ≡ session_cookie (is_https e a.cfg n) w.secret =
            cc (rw (as_signed_in-reply x 200 _ (handle_login_may e w c.request req a u m)) at h) in
          record {
            req = req;
            user = u;
            body = b;
            may = m;
            value = rw given refl;
            path = rw given refl;
            kept = rw given refl;
            no_scripts = rw given refl;
            no_other_sites = rw given refl;
            over_tls = λ t. rw given (ground (arith, t));
            behind_proxy = λ t p. rw given (ground (arith, t, p));
            session = rw (as_signed_in-state x) s;
          }
    ]

endpoint-cookie :
    (j : Json) (e : Platform) (w : World) (c : Call) (n : Connection) (v : Text) (t : Endpoint)
    (a : App) (k : Cookie)
    → cookie_for e a.cfg n t (endpoint j e w c v t a).1 ≡ some k
    → IsCleared k ⊎ SignedIn j e w c n a (endpoint j e w c v t a).0 k
unfolding endpoint as_signed_in
endpoint-cookie j e w c n v poll a k h = absurd (cc h)
endpoint-cookie j e w c n v login a k h = inr (login-cookie j e w c n a k (j.login c.body) refl h)
endpoint-cookie j e w c n v logout a k h =
    let given : k ≡ cleared_cookie = cc h in
    inl (record { value = rw given refl; path = rw given refl; dropped = rw given refl })
endpoint-cookie j e w c n v health a k h = absurd (cc h)
endpoint-cookie j e w c n v (guarded role g) a k h = absurd (cc h)

-- An answer that carries a cookie carries an empty one that is dropped at once, or answers a sign-in from the
-- console by an enabled account on record, with its right password, that was not locked: then the cookie's
-- value opens a session of that account, and the cookie is HttpOnly and SameSite=Strict, for the path `/`,
-- and Secure if the request came over TLS or, where the proxy's headers are trusted, says it did.
pub cookie_of-SignedIn :
    (j : Json) (e : Platform) (w : World) (c : Call) (n : Connection) (a : App) (k : Cookie)
    → cookie_of j e w c n a ≡ some k
    → IsCleared k ⊎ SignedIn j e w c n a (serve j e w c a).0 k
unfolding cookie_of serve
cookie_of-SignedIn j e w c n a k h = elim (Option-cases (route patterns c.request.method c.path)) [
  | inl f ↦ absurd (cc (rw (f, cookie_of) at h))
  | inr ((t, v), f) ↦ rw (f, serve) (endpoint-cookie j e w c n v t a k (rw (f, cookie_of) at h))
]

blocked-later :
    (key : Text) (now d : Time) (t : Throttle) → blocked key (now + d) t ≡ blocked key now t - d
unfolding blocked
blocked-later key now d t = elim (Option-cases (Dict.lookup key t)) [
  | inl n ↦ rw (n, blocked) (omega arith)
  | inr (x, f) ↦ rw (f, blocked) (omega arith)
]

whole_seconds : (d : ℕ) → d - (d / second + 1) * second ≡ 0
whole_seconds d = omega arith

-- The key that Retry-After goes by, among those before and after it.
pub record Waits (keys : List Text) (now : Time) (t : Throttle) (n : ℕ) : Type 0 where
  pub free : List Text
  pub key : Text
  pub rest : List Text
  pub keys_are : keys ≡ free ++ key ∷ rest
  pub first : is_locked free now t ≡ false
  pub locked : 0 < blocked key now t
  pub enough : blocked key (now + n * second) t ≡ 0
  pub not_longer : n * second ≤ blocked key now t + second

retry_after-Waits :
    (keys : List Text) (now : Time) (t : Throttle) (n : ℕ)
    → retry_after keys now t ≡ some n
    → Waits keys now t n
unfolding retry_after is_locked
retry_after-Waits [] now t n h = absurd (cc h)
retry_after-Waits (key ∷ keys) now t n h = elim (Bool-cases (ltb 0 (blocked key now t))) [
  | inl y ↦
      let d = blocked key now t in
      let same : n ≡ d / second + 1 = ground (arith, y) in
      record {
        free = [];
        key = key;
        rest = keys;
        keys_are = refl;
        first = refl;
        locked = ground (arith, y);
        enough = rw same (blocked-later key now ((d / second + 1) * second) t ∙ whole_seconds d);
        not_longer = rw same (omega arith);
      }
  | inr m ↦
      let later = retry_after-Waits keys now t n (ground (arith, m)) in
      record {
        free = key ∷ later.free;
        key = later.key;
        rest = later.rest;
        keys_are = ap (λ ks. key ∷ ks) later.keys_are;
        first = ground (arith, m, later.first);
        locked = later.locked;
        enough = later.enough;
        not_longer = later.not_longer;
      }
]

retry_after-is_locked :
    (keys : List Text) (now : Time) (t : Throttle)
    → is_some (retry_after keys now t) ≡ is_locked keys now t
unfolding retry_after is_locked
retry_after-is_locked [] now t = refl
retry_after-is_locked (key ∷ keys) now t = ground (arith, retry_after-is_locked keys now t)

-- Where `handleLogin` turns a caller away as locked, Retry-After is set, by the first of the caller's keys that
-- is locked: whoever waits for so many seconds finds that key unlocked, and has waited at most a second
-- longer than it was locked.
pub is_locked-Waits :
    (keys : List Text) (now : Time) (t : Throttle)
    → is_locked keys now t ≡ true
    → (n : ℕ) × (retry_after keys now t ≡ some n) × Waits keys now t n
is_locked-Waits keys now t h = elim (Option-cases (retry_after keys now t)) [
  | inl unset ↦ absurd (cc (retry_after-is_locked keys now t, unset, h))
  | inr (n, f) ↦ (n, f, retry_after-Waits keys now t n f)
]
