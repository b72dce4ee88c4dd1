-- ===== src/Server/Serve/Rights/AdminOnly.antt =====
-- Whoever is no administrator changes nobody's rights, and no password but their own, by any request.
use stem_computing_desktop_p.Console.Login.{
  LoginRequest, login_keys, admitted, is_locked, handle_login, handle_logout,
}
use stem_computing_desktop_p.Prelude.{
  ◌≡◌, refl, ◌∙◌, ap, ◌⊎◌, inl, inr, true, false, Option, none, some, List, arith, Option-cases,
  Bool-cases, is_empty, if_cases,
}
use stem_computing_desktop_p.Text.{Text, codes, text_eq, trim_space}
use stem_computing_desktop_p.Platform.{Platform}
use stem_computing_desktop_p.Model.{Time, User}
use stem_computing_desktop_p.Auth.Guard.{Role, self, any, admin, authenticate, guard}
use stem_computing_desktop_p.Auth.Guard.Laws.{HoldsToken, HoldsSession, guard_admin, guard_admits}
use stem_computing_desktop_p.App.{App, World, Request, Identity, Response}
use stem_computing_desktop_p.Poll.{Started, turned_away, held, remote_ip}
use stem_computing_desktop_p.Store.{user_by_name}
use stem_computing_desktop_p.Server.Routes.{
  Guarded, Endpoint, poll, login, logout, health, guarded, patterns, route,
}
use stem_computing_desktop_p.Server.Serve.{
  Json, Call, Reply, done, signed_in, as_answer, as_poll, answer_with, handle, endpoint, serve,
}
use stem_computing_desktop_p.Server.Serve.Rights.{
  Account, rights, authenticate-rights, start_poll-state, modify_first-accounts, is_open,
  is_guarded, route-all,
}
use stem_computing_desktop_p.Server.Serve.Rights.Handlers.{
  KeepsRights, answer_with-KeepsRights, handle-KeepsRights,
}

pub handle_login-KeepsRights :
    (own : Option Text) (e : Platform) (w : World) (r : Request) (body : Option LoginRequest)
    (a : App)
    → KeepsRights own a (handle_login e w r body a)
unfolding handle_login
handle_login-KeepsRights own e w r none a = refl
handle_login-KeepsRights own e w r (some req) a =
    let found = user_by_name e.unicode a.store.state.users (trim_space req.username) in
    elim (Option-cases (admitted e req.password found)) [
      | inl n ↦
          rw (n, handle_login)
            (if_cases (KeepsRights own a) (is_empty r.x_foghorn) _ _ (λ _. refl)
              (λ _.
                if_cases (KeepsRights own a)
                  (is_locked (login_keys e (remote_ip e a.cfg r) req.username) w.now a.throttle) _ _
                  (λ _. refl) (λ _. refl)))
      | inr (u, k) ↦
          rw (k, handle_login)
            (if_cases (KeepsRights own a) (is_empty r.x_foghorn) _ _ (λ _. refl)
              (λ _.
                if_cases (KeepsRights own a)
                  (is_locked (login_keys e (remote_ip e a.cfg r) req.username) w.now a.throttle) _ _
                  (λ _. refl)
                  (λ _.
                    ap (λ (us : List Account). record (rights own a.store.state) { accounts = us })
                      (modify_first-accounts own (λ (x : User). text_eq x.id u.id)
                        (λ u. record u { last_login = w.now }) a.store.state.users (λ u _. refl)))))
    ]

-- An enabled administrator is signed in, who does not have to change the password first.
abbrev pub ByAdmin : Time → Request → App → Type 0
ByAdmin now r a =
    (who : Identity) × HoldsSession now r a who
    × (who.user.role ≡ codes "admin")
    × (who.user.must_change ≡ false)

-- One request and what it leaves of the rights.
abbrev pub Permitted : Time → Request → App → App → Type 0
Permitted now r a b =
    (rights none b.store.state ≡ rights none a.store.state)
    ⊎ ((who : Identity) × HoldsSession now r a who
        × (rights (some who.user.id) b.store.state ≡ rights (some who.user.id) a.store.state))
    ⊎ ByAdmin now r a

HoldsToken-via_token :
    (e : Platform) (r : Request) (a : App) (who : Identity)
    → HoldsToken e r a who
    → who.via_token ≡ true
HoldsToken-via_token e r a who (t, _, _, same) = rw same refl

guarded-rights :
    (j : Json) (e : Platform) (w : World) (c : Call) (v : Text) (role : Role) (h : Guarded)
    (a : App)
    → is_guarded (guarded role h) ≡ true
    → Permitted w.now c.request a (guard e w.now role (handle j e w c v h) c.request a).0
guarded-rights j e w c v role h a o =
    elim (guard_admits e w.now role (handle j e w c v h) c.request a) [
      | inl (status, code, g) ↦ inl (rw g (authenticate-rights none e w.now c.request a))
      | inr (who, shown, _, g) ↦ elim (Bool-cases (is_open h)) [
        | inl y ↦ rw g (by_identity who shown y)
        | inr n ↦ by_role role o n
      ]
    ]
  where
    b : App
    b = (authenticate e w.now c.request a).0

    by_identity :
        (who : Identity)
        → HoldsToken e c.request a who ⊎ HoldsSession w.now c.request a who
        → is_open h ≡ true
        → Permitted w.now c.request a (handle j e w c v h who b).0
    by_identity who (inl token) y = inl (
        handle-KeepsRights none j e w c v h who b y
          (inl (HoldsToken-via_token e c.request a who token))
        ∙ authenticate-rights none e w.now c.request a)
    by_identity who (inr s) y =
        let own = some who.user.id in
        inr (
          inl (
            who,
            s,
            handle-KeepsRights own j e w c v h who b y (inr refl)
                ∙ authenticate-rights own e w.now c.request a,
          ))

    by_role :
        (role : Role)
        → is_guarded (guarded role h) ≡ true
        → is_open h ≡ false
        → Permitted w.now c.request a (guard e w.now role (handle j e w c v h) c.request a).0
    by_role self o n = absurd (cc (o, n))
    by_role any o n = absurd (cc (o, n))
    by_role admin o n = elim (guard_admin e w.now (handle j e w c v h) c.request a) [
      | inl (status, code, g) ↦ inl (rw g (authenticate-rights none e w.now c.request a))
      | inr (who, s, r, m, g) ↦ inr (inr (who, s, r, m))
    ]

as_answer-keeps :
    (now : Time) (r : Request) (a : App) (x : App × Response Reply)
    → Permitted now r a x.0
    → Permitted now r a (as_answer x).0
as_answer-keeps now r a (b, y) h = h

as_poll-keeps :
    (a : App) (x : App × Started)
    → rights none x.0.store.state ≡ rights none a.store.state
    → rights none (as_poll x).0.store.state ≡ rights none a.store.state
as_poll-keeps a (b, turned_away status code) h = h
as_poll-keeps a (b, held k) h = h

endpoint-rights :
    (j : Json) (e : Platform) (w : World) (c : Call) (v : Text) (t : Endpoint) (a : App)
    → is_guarded t ≡ true
    → Permitted w.now c.request a (endpoint j e w c v t a).0
unfolding endpoint handle_logout
endpoint-rights j e w c v poll a o =
    inl (as_poll-keeps a _ (ap (rights none) (start_poll-state e w c.request (j.poll c.body) a)))
endpoint-rights j e w c v login a o =
    let x = handle_login e w c.request (j.login c.body) a in
    as_answer-keeps w.now c.request a (answer_with (λ p. signed_in p.0 p.1) x) (
      inl (
        answer_with-KeepsRights none (λ p. signed_in p.0 p.1) a x
          (handle_login-KeepsRights none e w c.request (j.login c.body) a)))
endpoint-rights j e w c v logout a o =
    let x = handle_logout c.request a in
    as_answer-keeps w.now c.request a (answer_with (λ _. done) x)
      (inl (answer_with-KeepsRights none (λ _. done) a x (ground arith)))
endpoint-rights j e w c v health a o = inl refl
endpoint-rights j e w c v (guarded role h) a o =
    as_answer-keeps w.now c.request a (guard e w.now role (handle j e w c v h) c.request a)
      (guarded-rights j e w c v role h a o)

-- Whatever request comes in, by whatever route, the settings, the client key, the saved groups, the API
-- tokens but for when each was last used, and the accounts but for when each last signed in - their names,
-- roles and restrictions and their passwords - stay as they are, with two exceptions: a request with the
-- live session of an account that is not disabled may change that account's own password, and a request
-- with that of an enabled administrator who does not have to change the password first may change any of it.
pub serve-rights :
    (j : Json) (e : Platform) (w : World) (c : Call) (a : App)
    → Permitted w.now c.request a (serve j e w c a).0
unfolding serve
serve-rights j e w c a = elim (Option-cases (route patterns c.request.method c.path)) [
  | inl n ↦ inl (rw (n, serve) refl)
  | inr ((t, v), f) ↦
      rw (f, serve)
        (endpoint-rights j e w c v t a
          (route-all is_guarded patterns c.request.method c.path t v refl f))
]
