-- ===== src/Server/Traffic/Serving.antt =====
-- Every request that is served, as steps.
use stem_computing_desktop_p.Prelude.{
  refl, inl, inr, Option, none, some, arith, is_empty, Option-cases, if_cases, if◌then◌else◌,
}
use stem_computing_desktop_p.Text.{Text, codes, trim_space}
use stem_computing_desktop_p.Platform.{Platform}
use stem_computing_desktop_p.Model.{Time}
use stem_computing_desktop_p.Store.{user_by_name}
use stem_computing_desktop_p.Auth.Guard.{Role, authenticate, refusal, guard}
use stem_computing_desktop_p.App.{App, World, Request, Identity, Response, refused, save}
use stem_computing_desktop_p.Poll.{Held, Started, turned_away, held, remote_ip, look, finish_poll}
use stem_computing_desktop_p.Console.Login.{
  LoginRequest, login_keys, admitted, is_locked, handle_login, handle_logout,
}
use stem_computing_desktop_p.Console.Users.{UserView}
use stem_computing_desktop_p.Server.Routes.{
  Endpoint, poll, login, logout, health, guarded, patterns, route,
}
use stem_computing_desktop_p.Server.Run.{begin_stop}
use stem_computing_desktop_p.Server.Serve.{
  Json, Call, Reply, done, signed_in, as_answer, as_poll, answer_with, handle, endpoint, serve,
}
use stem_computing_desktop_p.Server.Traffic.{
  polled, looked, finished, saves, notes, Reach, here, next,
}
use stem_computing_desktop_p.Server.Traffic.Plain.{Leads, answer_with-Leads}
use stem_computing_desktop_p.Server.Traffic.Handlers.{handle-Leads}
use stem_computing_desktop_p.Server.Traffic.Sessions.{authenticate-Noted}

-- The server's life between its start and its end: requests are served, held polls look and end, the
-- ticker saves, and the context is cancelled.
pub data Life (j : Json) (e : Platform) (Fresh : World → Type 0) (a : App) : App → Type 0 where
  started : Life j e Fresh a a
  served :
      (w : World) (c : Call) {b : App}
      → Fresh w
      → Life j e Fresh a b
      → Life j e Fresh a (serve j e w c b).0
  looks :
      (now : Time) (k : Held) {b : App} → Life j e Fresh a b → Life j e Fresh a (look e now k b).0
  ends :
      (now : Time) (k : Held) {b : App}
      → Life j e Fresh a b
      → Life j e Fresh a (finish_poll now k b)
  closes : {b : App} → Life j e Fresh a b → Life j e Fresh a (begin_stop b)
  ticks : (w : World) {b : App} → Fresh w → Life j e Fresh a b → Life j e Fresh a (save w b)

module _ (e : Platform) (Fresh : World → Type 0) where
  pub append : {a b c : App} → Reach e Fresh a b → Reach e Fresh b c → Reach e Fresh a c
  append r here = r
  append r (next s st) = next (append r s) st

  guard-Leads :
      {A : Type 0} (now : Time) (role : Role) (h : Identity → App → App × Response A) (r : Request)
      (a : App)
      → ((who : Identity) (b : App) → Leads e Fresh b (h who b))
      → Leads e Fresh a (guard e now role h r a)
  unfolding guard
  guard-Leads now role h r a k =
      let b = (authenticate e now r a).0 in
      let before : Reach e Fresh a b = next here (notes (authenticate-Noted e now r a)) in
      elim (Option-cases (authenticate e now r a).1) [
        | inl n ↦ rw (n, guard) before
        | inr (who, f) ↦ elim (Option-cases (refusal role r who)) [
          | inl n ↦ rw (f, n, guard) (append before (k who b))
          | inr (x, y) ↦ rw (f, y, guard) before
        ]
      ]

  handle_login-Leads :
      (w : World) (r : Request) (body : Option LoginRequest) (a : App)
      → Leads e Fresh a (handle_login e w r body a)
  unfolding handle_login
  handle_login-Leads w r none a = here
  handle_login-Leads w r (some req) a =
      let keys = login_keys e (remote_ip e a.cfg r) req.username in
      let checks : (x : App × Response (UserView × Text))
          → Leads e Fresh a x
          → Leads e Fresh a (
              if is_empty r.x_foghorn
              then (a, refused 403 (codes "csrf"))
              else if is_locked keys w.now a.throttle
              then (a, refused 429 (codes "locked"))
              else x) =
        λ x h.
          if_cases (Leads e Fresh a) (is_empty r.x_foghorn) _ _ (λ _. here)
            (λ _.
              if_cases (Leads e Fresh a) (is_locked keys w.now a.throttle) _ _ (λ _. here)
                (λ _. h)) in
      elim (Option-cases (
        admitted e req.password
          (user_by_name e.unicode a.store.state.users (trim_space req.username)))) [
            | inl n ↦
                rw (n, handle_login)
                  (checks _ (
                    next here (
                      notes (record {
                        alerts = refl;
                        clients = refl;
                        heap = refl;
                        dirty_alerts = refl;
                        disk = refl;
                        wakes = omega arith;
                        state = inr (refl, refl);
                      }))))
            | inr (u, k) ↦
                rw (k, handle_login)
                  (checks _ (
                    next here (
                      notes (record {
                        alerts = refl;
                        clients = refl;
                        heap = refl;
                        dirty_alerts = refl;
                        disk = refl;
                        wakes = omega arith;
                        state = inl refl;
                      }))))
          ]

  as_answer-Leads :
      (a : App) (x : App × Response Reply) → Leads e Fresh a x → Reach e Fresh a (as_answer x).0
  as_answer-Leads a (b, r) h = h

  as_poll-Leads :
      (a : App) (x : App × Started) → Reach e Fresh a x.0 → Reach e Fresh a (as_poll x).0
  as_poll-Leads a (b, turned_away status code) h = h
  as_poll-Leads a (b, held k) h = h

  handle_logout-Leads : (r : Request) (a : App) → Leads e Fresh a (handle_logout r a)
  unfolding handle_logout
  handle_logout-Leads r a = elim (Option-cases r.cookie) [
    | inl n ↦ rw (n, handle_logout) here
    | inr (sid, f) ↦
        rw (f, handle_logout)
          (next here (
            notes (record {
              alerts = refl;
              clients = refl;
              heap = refl;
              dirty_alerts = refl;
              disk = refl;
              wakes = omega arith;
              state = inr (refl, refl);
            })))
  ]

  endpoint-Leads :
      (j : Json) (w : World) (c : Call) (v : Text) (t : Endpoint) (a : App)
      → Fresh w
      → Reach e Fresh a (endpoint j e w c v t a).0
  unfolding endpoint
  endpoint-Leads j w c v poll a f =
      as_poll-Leads a _ (next here (polled w c.request (j.poll c.body) a))
  endpoint-Leads j w c v login a f =
      let x = handle_login e w c.request (j.login c.body) a in
      as_answer-Leads a (answer_with (λ p. signed_in p.0 p.1) x) (
        answer_with-Leads e Fresh (λ p. signed_in p.0 p.1) a x
          (handle_login-Leads w c.request (j.login c.body) a))
  endpoint-Leads j w c v logout a f =
      let x = handle_logout c.request a in
      as_answer-Leads a (answer_with (λ _. done) x)
        (answer_with-Leads e Fresh (λ _. done) a x (handle_logout-Leads c.request a))
  endpoint-Leads j w c v health a f = here
  endpoint-Leads j w c v (guarded role h) a f =
      as_answer-Leads a (guard e w.now role (handle j e w c v h) c.request a) (
        guard-Leads w.now role (handle j e w c v h) c.request a
          (λ who b. handle-Leads e Fresh j w c v h who b f))

  -- Every request, by whatever route, takes such steps.
  pub serve-Reach :
      (j : Json) (w : World) (c : Call) (a : App) → Fresh w → Reach e Fresh a (serve j e w c a).0
  unfolding serve
  serve-Reach j w c a f = elim (Option-cases (route patterns c.request.method c.path)) [
    | inl n ↦ rw (n, serve) here
    | inr ((t, v), k) ↦ rw (k, serve) (endpoint-Leads j w c v t a f)
  ]

  pub Life-Reach : {j : Json} {a b : App} → Life j e Fresh a b → Reach e Fresh a b
  Life-Reach started = here
  Life-Reach {j = j} (served w c {b} f l) = append (Life-Reach l) (serve-Reach j w c b f)
  Life-Reach (looks now k {b} l) = next (Life-Reach l) (looked now k b)
  Life-Reach (ends now k {b} l) = next (Life-Reach l) (finished now k b)
  Life-Reach (closes l) = next (Life-Reach l) (
      notes (record {
        alerts = refl;
        clients = refl;
        heap = refl;
        dirty_alerts = refl;
        disk = refl;
        wakes = omega arith;
        state = inr (refl, refl);
      }))
  Life-Reach (ticks w {b} f l) = next (Life-Reach l) (saves w b f)
