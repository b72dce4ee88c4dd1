-- ===== src/Console/Login.antt =====
-- Signing in and out: `handleLogin`, `handleLogout`, `handleMe` and `handleChangeOwnPassword`. The
-- cookies and headers of an answer stand in Server/Answer; here an answer has the new session's id.
pub mod Signin
pub mod Locks
pub mod Lockout
use stem_computing_desktop_p.Prelude.{
  ℕ, Bool, true, false, not, ◌&&◌, ◌||◌, Option, none, some, List, [], ◌∷◌, ◌++◌, ltb,
  if◌then◌else◌, is_empty, any, modify_first,
}
use stem_computing_desktop_p.Text.{Text, codes, text_eq, to_lower, trim_space, len}
use stem_computing_desktop_p.Platform.{Platform}
use stem_computing_desktop_p.Model.{Time, User, State}
use stem_computing_desktop_p.Store.{user_by_name, user_by_id}
use stem_computing_desktop_p.Auth.Sessions.{create, drop}
use stem_computing_desktop_p.Auth.Throttle.{Throttle, blocked, fail, reset}
use stem_computing_desktop_p.Auth.Password.{hash_password, verify_password}
use stem_computing_desktop_p.App.{
  App, World, Request, Identity, Response, refused, reply, save, with_state,
}
use stem_computing_desktop_p.Poll.{remote_ip}
use stem_computing_desktop_p.Console.Users.{UserView, view_user, with_users}

abbrev pub min_password_len : ℕ
min_password_len = 10

pub record LoginRequest : Type 0 where
  pub username : Text
  pub password : Text

-- `keys` of `handleLogin`
abbrev pub login_keys : Platform → Text → Text → List Text
login_keys e ip name = (codes "ip:" ++ ip) ∷ (codes "user:" ++ to_lower e.unicode name) ∷ []

-- whether the first loop of `handleLogin` turns the caller away
unfoldable pub is_locked : List Text → Time → Throttle → Bool
unfolding blocked
is_locked keys now t = any (λ key. ltb 0 (blocked key now t)) keys

unfoldable pub fail_keys : List Text → Time → Throttle → Throttle
unfolding fail
fail_keys [] now t = t
fail_keys (key ∷ keys) now t = fail_keys keys now (fail key now t)

unfoldable pub reset_keys : List Text → Throttle → Throttle
unfolding reset
reset_keys [] t = t
reset_keys (key ∷ keys) t = reset_keys keys (reset key t)

-- The account that signs in. Without one, `handleLogin` checks the password against a hash of its
-- own and drops the result, so that both take the same time.
unfoldable pub admitted : Platform → Text → Option User → Option User
unfolding verify_password
admitted e password none = none
admitted e password (some u) =
    if verify_password e u.pass_hash password && not u.disabled then some u else none

-- a write through a pointer to an account
abbrev pub modify_user : (User → User) → Text → State → State
modify_user f uid st = with_users (modify_first (λ (x : User). text_eq x.id uid) f st.users) st

-- handleLogin: the account and the new session's id
unfoldable pub handle_login :
    Platform → World → Request → Option LoginRequest → App → App × Response (UserView × Text)
unfolding is_locked fail_keys reset_keys admitted user_by_name create view_user remote_ip trim_space
handle_login e w r none a = (a, refused 400 (codes "bad_json"))
handle_login e w r (some req) a =
    let keys = login_keys e (remote_ip e a.cfg r) req.username in
    let st = a.store.state in
    if is_empty r.x_foghorn
    then (a, refused 403 (codes "csrf"))
    else if is_locked keys w.now a.throttle
    then (a, refused 429 (codes "locked"))
    else elim (admitted e req.password
        (user_by_name e.unicode st.users (trim_space req.username))) [
          | none ↦ (
            record a { throttle = fail_keys keys w.now a.throttle },
            refused 401 (codes "bad_login"),
          )
          | some u ↦ (
            record (with_state a (modify_user (λ u. record u { last_login = w.now }) u.id st)) {
              throttle = reset_keys keys a.throttle;
              sessions = create w.secret u.id w.now a.sessions;
            },
            reply 200 (view_user (record u { last_login = w.now }), w.secret),
          )
        ]

-- handleLogout
unfoldable pub handle_logout : Request → App → App × Response Bool
unfolding drop
handle_logout r a = elim r.cookie [
  | none ↦ (a, reply 200 true)
  | some sid ↦ (record a { sessions = drop sid a.sessions }, reply 200 true)
]

-- handleMe: the account and the organisation's name
unfoldable pub handle_me : Identity → App → App × Response (UserView × Text)
unfolding view_user
handle_me id a = (a, reply 200 (view_user id.user, a.store.state.settings.org_name))

pub record PasswordRequest : Type 0 where
  pub current : Text
  pub new : Text

-- the account with a password of its own choice
abbrev pub with_password : Text → User → User
with_password hash u = record u { pass_hash = hash; must_change = false }

-- handleChangeOwnPassword; for the first-run file see Server/Answer
unfoldable pub handle_change_own_password :
    Platform → World → Option PasswordRequest → Identity → App → App × Response Bool
unfolding len verify_password hash_password user_by_id save
handle_change_own_password e w none id a =
    (a, refused 400 (if id.via_token then codes "bad_request" else codes "bad_json"))
handle_change_own_password e w (some req) id a =
    let hash = hash_password e w.salt req.new in
    let st = a.store.state in
    if id.via_token
    then (a, refused 400 (codes "bad_request"))
    else if ltb (len req.new) min_password_len
    then (a, refused 400 (codes "weak_password"))
    else if not (verify_password e id.user.pass_hash req.current)
    then (a, refused 403 (codes "bad_password"))
    else elim (user_by_id st.users id.user.id) [
      | none ↦ (save w a, reply 200 true)
      | some _ ↦
          (save w (with_state a (modify_user (with_password hash) id.user.id st)), reply 200 true)
    ]
