-- ===== src/Server/Serve/Accounts.antt =====
-- The accounts over any sequence of requests that are served.
use stem_computing_desktop_p.Prelude.{
  ◌≡◌, refl, false, true, inl, inr, none, some, List, ◌∷◌, arith, Option-cases, ◌++◌, is_empty,
}
use mathlib.Core.Path.{subst}
use stem_computing_desktop_p.Text.{Text, trim_space}
use stem_computing_desktop_p.Platform.{Platform}
use stem_computing_desktop_p.Model.{User}
use stem_computing_desktop_p.Store.{user_by_id, user_by_name}
use stem_computing_desktop_p.App.{App, World, Request, Response, reply}
use stem_computing_desktop_p.Auth.Guard.{Role, authenticate, guard}
use stem_computing_desktop_p.Auth.Guard.Laws.{guard_admits}
use stem_computing_desktop_p.Console.Users.Names.{user_by_name-middle}
use stem_computing_desktop_p.Console.Users.Names.Lists.{names, Unique}
use stem_computing_desktop_p.Server.Routes.{
  Guarded, Endpoint, poll, login, logout, health, guarded, patterns, route,
}
use stem_computing_desktop_p.Server.Serve.{
  Json, Call, Reply, done, signed_in, answer_with, as_answer, as_poll, handle, endpoint, serve,
}
use stem_computing_desktop_p.Server.Serve.Rights.{authenticate-rights, start_poll-state}
use stem_computing_desktop_p.Server.Serve.Rights.AdminOnly.{handle_login-KeepsRights}
use stem_computing_desktop_p.Poll.{remote_ip, Started, turned_away, held, start_poll}
use stem_computing_desktop_p.Auth.Password.{verify_password}
use stem_computing_desktop_p.Auth.Sessions
use stem_computing_desktop_p.Console.Login.{
  LoginRequest, login_keys, is_locked, handle_login, handle_logout,
}
use stem_computing_desktop_p.Console.Login.Signin.{MaySignIn, handle_login_opens}
use stem_computing_desktop_p.Console.Users.{UserView, view_user}
use stem_computing_desktop_p.Server.Serve.People.{people-unused}
use stem_computing_desktop_p.Server.Serve.Keepers.{
  Ordered, same_users, same_rights, rights-Ordered, answer_with-Ordered, handle-Ordered,
}

guard-Ordered :
    (j : Json) (e : Platform) (w : World) (c : Call) (v : Text) (role : Role) (h : Guarded)
    (a : App)
    → user_by_id a.store.state.users w.new_id ≡ none
    → Ordered e a
    → Ordered e (guard e w.now role (handle j e w c v h) c.request a).0
guard-Ordered j e w c v role h a new k =
    let b = (authenticate e w.now c.request a).0 in
    let same = authenticate-rights none e w.now c.request a in
    let before = rights-Ordered none e a b same k in
    elim (guard_admits e w.now role (handle j e w c v h) c.request a) [
      | inl (status, code, g) ↦ rw g before
      | inr (who, _, _, g) ↦ rw g (
          handle-Ordered j e w c v h who b
            (people-unused a.store.state.users b.store.state.users w.new_id
              (same_rights none a b same) new)
            before)
    ]

as_answer-state : (x : App × Response Reply) → (as_answer x).0 ≡ x.0
as_answer-state (b, r) = refl

as_poll-state : (x : App × Started) → (as_poll x).0 ≡ x.0
as_poll-state (b, turned_away status code) = refl
as_poll-state (b, held k) = refl

endpoint-Ordered :
    (j : Json) (e : Platform) (w : World) (c : Call) (v : Text) (t : Endpoint) (a : App)
    → user_by_id a.store.state.users w.new_id ≡ none
    → Ordered e a
    → Ordered e (endpoint j e w c v t a).0
unfolding endpoint handle_logout
endpoint-Ordered j e w c v poll a new k =
    rw
      (
        as_poll-state (start_poll e w c.request (j.poll c.body) a),
        start_poll-state e w c.request (j.poll c.body) a,
      )
      k
endpoint-Ordered j e w c v login a new k =
    let x = handle_login e w c.request (j.login c.body) a in
    rw (as_answer-state (answer_with (λ p. signed_in p.0 p.1) x)) (
      answer_with-Ordered e (λ p. signed_in p.0 p.1) x
        (rights-Ordered none e a x.0
          (handle_login-KeepsRights none e w c.request (j.login c.body) a) k))
endpoint-Ordered j e w c v logout a new k =
    let x = handle_logout c.request a in
    rw (as_answer-state (answer_with (λ _. done) x))
      (answer_with-Ordered e (λ _. done) x (same_users e a x.0 (ground arith) k))
endpoint-Ordered j e w c v health a new k = k
endpoint-Ordered j e w c v (guarded role h) a new k =
    rw (as_answer-state (guard e w.now role (handle j e w c v h) c.request a))
      (guard-Ordered j e w c v role h a new k)

serve-Ordered :
    (j : Json) (e : Platform) (w : World) (c : Call) (a : App)
    → user_by_id a.store.state.users w.new_id ≡ none
    → Ordered e a
    → Ordered e (serve j e w c a).0
unfolding serve
serve-Ordered j e w c a new k = elim (Option-cases (route patterns c.request.method c.path)) [
  | inl n ↦ rw (n, serve) k
  | inr ((t, v), f) ↦ rw (f, serve) (endpoint-Ordered j e w c v t a new k)
]

-- Requests that are served, each with an id that is on nobody's account yet, and whatever else leaves the
-- accounts as they are.
pub data Served (j : Json) (e : Platform) (a : App) : App → Type 0 where
  here : Served j e a a
  request :
      (w : World) (c : Call) {b : App}
      → user_by_id b.store.state.users w.new_id ≡ none
      → Served j e a b
      → Served j e a (serve j e w c b).0
  meanwhile :
      {b : App} (d : App)
      → d.store.state.users ≡ b.store.state.users
      → Served j e a b
      → Served j e a d

-- Whatever requests anybody sends, by whatever routes, the accounts stay in order: no two have the same id
-- or, case aside, the same name, and an administrator who is not disabled remains, if that is so at the
-- start and no request draws the id of an account.
pub Served-Ordered :
    (j : Json) (e : Platform) (a b : App) → Ordered e a → Served j e a b → Ordered e b
Served-Ordered j e a b h here = h
Served-Ordered j e a b h (request w c {b = d} new r) =
    serve-Ordered j e w c d new (Served-Ordered j e a d h r)
Served-Ordered j e a b h (meanwhile {b = d} x same r) =
    same_users e d x same (Served-Ordered j e a d h r)

-- Where the accounts are in order at the start and no request draws the id of an account, then after any
-- requests each account signs in by its own name: if that has no spaces around it, the account is not
-- disabled, the password is right, and neither the name nor the address is locked, a sign-in from the
-- console is answered with that account, and the new session is the account's.
pub Served-sign_in :
    (j : Json) (e : Platform) (a b : App) (xs : List User) (u : User) (ys : List User)
    → Ordered e a
    → Served j e a b
    → b.store.state.users ≡ xs ++ u ∷ ys
    → trim_space u.username ≡ u.username
    → u.disabled ≡ false
    → (w : World) (r : Request) (password : Text) → verify_password e u.pass_hash password ≡ true
    → is_empty r.x_foghorn ≡ false
    → is_locked (login_keys e (remote_ip e b.cfg r) u.username) w.now b.throttle ≡ false
    → let (c, answer) =
        handle_login e w r (some (record { username = u.username; password = password })) b in
      (v : UserView) × (answer ≡ reply 200 (v, w.secret))
      × (v.id ≡ u.id)
      × (v.role ≡ u.role)
      × ((Sessions.lookup w.secret w.now c.sessions).1 ≡ some u.id)
unfolding view_user
Served-sign_in j e a b xs u ys h served same trim on w r password right x free =
    let found : user_by_name e.unicode b.store.state.users u.username ≡ some u = rw same (
      user_by_name-middle e.unicode xs u ys
        (subst (λ us. Unique e.unicode (names us)) same (Served-Ordered j e a b h served).names)) in
    let req : LoginRequest = record { username = u.username; password = password } in
    let may : MaySignIn e w r req b u = record {
      from_console = x;
      unlocked = free;
      on_record = rw trim found;
      right = right;
      enabled = on;
    } in
    let (answered, session) = handle_login_opens e w r req b u may in
    (view_user (record u { last_login = w.now }), answered, refl, refl, session)
