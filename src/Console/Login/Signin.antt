-- ===== src/Console/Login/Signin.antt =====
-- Who gets a session from `handleLogin`.
use stem_computing_desktop_p.Prelude.{
  ℕ, ◌≡◌, ◌⊎◌, inl, inr, true, false, Option, none, some, arith, is_empty, Bool-cases, Option-cases,
}
use stem_computing_desktop_p.Text.{Text, codes, trim_space}
use stem_computing_desktop_p.Platform.{Platform}
use stem_computing_desktop_p.Model.{User}
use stem_computing_desktop_p.Store.{user_by_name}
use stem_computing_desktop_p.Auth.Password.{verify_password}
use stem_computing_desktop_p.Auth.Sessions.{session_lifetime}
use stem_computing_desktop_p.Auth.Sessions
use stem_computing_desktop_p.Auth.Sessions.Laws.{lookup-create}
use stem_computing_desktop_p.App.{App, World, Request, refused, reply}
use stem_computing_desktop_p.Poll.{remote_ip}
use stem_computing_desktop_p.Console.Users.{view_user}
use stem_computing_desktop_p.Console.Login.{
  LoginRequest, login_keys, is_locked, admitted, handle_login,
}

-- The request comes from the console, neither its address nor its name is locked, and it shows the
-- password of an account that is not disabled.
pub record MaySignIn (e : Platform) (w : World) (r : Request) (req : LoginRequest) (a : App)
    (u : User) : Type 0 where
  pub from_console : is_empty r.x_foghorn ≡ false
  pub unlocked :
      is_locked (login_keys e (remote_ip e a.cfg r) req.username) w.now a.throttle ≡ false
  pub on_record : user_by_name e.unicode a.store.state.users (trim_space req.username) ≡ some u
  pub right : verify_password e u.pass_hash req.password ≡ true
  pub enabled : u.disabled ≡ false

admitted-inv :
    (e : Platform) (password : Text) (o : Option User) (u : User)
    → admitted e password o ≡ some u
    → (o ≡ some u) × (verify_password e u.pass_hash password ≡ true) × (u.disabled ≡ false)
unfolding admitted
admitted-inv e password none u h = cc
admitted-inv e password (some v) u h = (ground arith, ground arith, ground arith)

admitted-some :
    (e : Platform) (password : Text) (u : User)
    → verify_password e u.pass_hash password ≡ true
    → u.disabled ≡ false
    → admitted e password (some u) ≡ some u
unfolding admitted
admitted-some e password u h k = rw (h, k)

-- `handleLogin` gives a session, which then names the account, exactly to those who may sign in;
-- everybody else gets an error, and no session is made or changed.
pub handle_login_cases :
    (e : Platform) (w : World) (r : Request) (req : LoginRequest) (a : App)
    → let (b, answer) = handle_login e w r (some req) a in
      ((status : ℕ) × (code : Text) × (answer ≡ refused status code) × (b.sessions ≡ a.sessions))
      ⊎ ((u : User) × MaySignIn e w r req a u
          × ((Sessions.lookup w.secret w.now b.sessions).1 ≡ some u.id))
unfolding handle_login
handle_login_cases e w r req a =
    let keys = login_keys e (remote_ip e a.cfg r) req.username in
    let found = user_by_name e.unicode a.store.state.users (trim_space req.username) in
    elim (Bool-cases (is_empty r.x_foghorn)) [
      | inl x ↦ inl (403, codes "csrf", ground (arith, x), ground (arith, x))
      | inr x ↦ elim (Bool-cases (is_locked keys w.now a.throttle)) [
        | inl l ↦ inl (429, codes "locked", ground (arith, x, l), ground (arith, x, l))
        | inr l ↦ elim (Option-cases (admitted e req.password found)) [
          | inl n ↦ inl (401, codes "bad_login", ground (arith, x, l, n), ground (arith, x, l, n))
          | inr (u, k) ↦
              let (f, v, d) = admitted-inv e req.password found u k in
              inr (
                u,
                record { from_console = x; unlocked = l; on_record = f; right = v; enabled = d },
                ground (arith, x, l, k, lookup-create w.secret u.id w.now w.now a.sessions),
              )
        ]
      ]
    ]

-- Whoever may sign in is answered with their own account and the new session's id.
pub handle_login_may :
    (e : Platform) (w : World) (r : Request) (req : LoginRequest) (a : App) (u : User)
    → MaySignIn e w r req a u
    → (handle_login e w r (some req) a).1
      ≡ reply 200 (view_user (record u { last_login = w.now }), w.secret)
unfolding handle_login
handle_login_may e w r req a u m = ground (
  arith,
  m.from_console,
  m.unlocked,
  m.on_record,
  admitted-some e req.password u m.right m.enabled,
)

-- They are given a session, which is the account's.
pub handle_login_opens :
    (e : Platform) (w : World) (r : Request) (req : LoginRequest) (a : App) (u : User)
    → MaySignIn e w r req a u
    → let (b, answer) = handle_login e w r (some req) a in
      (answer ≡ reply 200 (view_user (record u { last_login = w.now }), w.secret))
      × ((Sessions.lookup w.secret w.now b.sessions).1 ≡ some u.id)
handle_login_opens e w r req a u m =
    let answered = handle_login_may e w r req a u m in
    (
      answered,
      elim (handle_login_cases e w r req a) [
        | inl (status, code, f, _) ↦ absurd (cc (answered, f))
        | inr (u', m', s) ↦ ground (arith, m.on_record, m'.on_record, s)
      ],
    )
