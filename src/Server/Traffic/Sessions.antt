-- ===== src/Server/Traffic/Sessions.antt =====
-- What the guard leaves behind when it finds out who calls.
use stem_computing_desktop_p.Prelude.{
  ◌≡◌, refl, ap, inl, inr, false, Option, none, some, List, [], ◌∷◌, arith, Bool-cases, if_cases,
  drop,
}
use stem_computing_desktop_p.Text.{Text, trim_space, starts_with}
use stem_computing_desktop_p.Platform.{Platform}
use stem_computing_desktop_p.Model.{Time, Token}
use stem_computing_desktop_p.Auth.Guard.{
  bearer, hash_token, use_token, by_token, by_session, authenticate,
}
use stem_computing_desktop_p.App.{App, Request, Identity}
use stem_computing_desktop_p.Server.Traffic.{Noted}

-- Unless a token's time of use is brought up, the tokens stay as they are.
use_token-same :
    (sum : Text) (now : Time) (ts : List Token)
    → (use_token sum now ts).2 ≡ false
    → (use_token sum now ts).1 ≡ ts
unfolding use_token
use_token-same sum now [] h = refl
use_token-same sum now (t ∷ ts) h = ground (arith, use_token-same sum now ts)

by_token-Noted :
    (e : Platform) (now : Time) (header : Text) (a : App) → Noted a (by_token e now header a).0
unfolding by_token
by_token-Noted e now header a =
    let u = use_token (hash_token e (trim_space (drop 7 header))) now a.store.state.tokens in
    record {
      alerts = refl;
      clients = refl;
      heap = refl;
      dirty_alerts = refl;
      disk = refl;
      wakes = omega arith;
      state = elim (Bool-cases u.2) [
        | inl y ↦ inl (ground (arith, y))
        | inr n ↦ inr (
          ground (arith, n),
          ap (λ (ts : List Token). record a.store.state { tokens = ts })
              (use_token-same (hash_token e (trim_space (drop 7 header))) now a.store.state.tokens
                n),
        )
      ];
    }

pub Noted-refl : (a : App) → Noted a a
Noted-refl a = record {
  alerts = refl;
  clients = refl;
  heap = refl;
  dirty_alerts = refl;
  disk = refl;
  wakes = omega arith;
  state = inr (refl, refl);
}

pub authenticate-Noted :
    (e : Platform) (now : Time) (r : Request) (a : App) → Noted a (authenticate e now r a).0
unfolding authenticate by_session
authenticate-Noted e now r a =
    if_cases (λ (x : App × Option Identity). Noted a x.0) (starts_with bearer r.authorization) _ _
      (λ _. by_token-Noted e now r.authorization a) (λ _. by_cookie r.cookie)
  where
    by_cookie :
        (o : Option Text)
        → Noted a
            (elim o as (λ _. App × Option Identity) [
              | none ↦ (a, none)
              | some sid ↦ by_session now sid a
            ]).0
    by_cookie none = Noted-refl a
    by_cookie (some sid) = record {
      alerts = refl;
      clients = refl;
      heap = refl;
      dirty_alerts = refl;
      disk = refl;
      wakes = omega arith;
      state = inr (refl, refl);
    }
