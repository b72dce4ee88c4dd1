-- ===== src/Server/Traffic/Plain.antt =====
-- Where a handler leaves the server, and the handlers that change one thing or none.
use stem_computing_desktop_p.Prelude.{
  arith, refl, inl, inr, Bool, true, not, ltb, Option, none, some, Option-cases, if_cases,
}
use stem_computing_desktop_p.Text.{Text, len}
use stem_computing_desktop_p.Platform.{Platform}
use stem_computing_desktop_p.Model.{Target, State, User}
use stem_computing_desktop_p.Store.{alert_by_id, user_by_id}
use stem_computing_desktop_p.Auth.Password.{hash_password, verify_password}
use stem_computing_desktop_p.App.{App, World, Identity, Response, refused, reply, save, with_state}
use stem_computing_desktop_p.Console.Alerts.{handle_get_alert}
use stem_computing_desktop_p.Console.Alerts.Probe.{handle_reach}
use stem_computing_desktop_p.Console.Login.{
  PasswordRequest, min_password_len, modify_user, with_password, handle_change_own_password,
}
use stem_computing_desktop_p.Server.Serve.{Reply, answer_with}
use stem_computing_desktop_p.Server.Traffic.{Noted, saves, notes, Reach, here, next}

-- What is written to the settings, accounts, tokens, groups and templates is marked.
pub with_state-Noted : (a : App) (st : State) → Noted a (with_state a st)
with_state-Noted a st = record {
  alerts = refl;
  clients = refl;
  heap = refl;
  dirty_alerts = refl;
  disk = refl;
  wakes = omega arith;
  state = inl refl;
}

module _ (e : Platform) (Fresh : World → Type 0) where
  -- Where a handler leaves the server.
  abbrev pub Leads : {A : Type 0} → App → App × Response A → Type 0
  Leads a x = Reach e Fresh a x.0

  pub answer_with-Leads :
      {A : Type 0} (f : A → Reply) (a : App) (x : App × Response A)
      → Leads a x
      → Leads a (answer_with f x)
  answer_with-Leads f a (b, refused status code) h = h
  answer_with-Leads f a (b, reply status v) h = h

  pub saved : (w : World) (a b : App) → Fresh w → Noted a b → Reach e Fresh a (save w b)
  saved w a b f n = next (next here (notes n)) (saves w b f)

  pub saved_state :
      (w : World) (a : App) (st : State) → Fresh w → Reach e Fresh a (save w (with_state a st))
  saved_state w a st f = saved w a (with_state a st) f (with_state-Noted a st)

  pub handle_change_own_password-Leads :
      (w : World) (body : Option PasswordRequest) (who : Identity) (a : App)
      → Fresh w
      → Leads a (handle_change_own_password e w body who a)
  unfolding handle_change_own_password
  handle_change_own_password-Leads w none who a f = here
  handle_change_own_password-Leads w (some req) who a f =
      if_cases (Leads a) who.via_token _ _ (λ _. here)
        (λ _.
          if_cases (Leads a) (ltb (len req.new) min_password_len) _ _ (λ _. here)
            (λ _.
              if_cases (Leads a) (not (verify_password e who.user.pass_hash req.current)) _ _
                (λ _. here) (λ _. by_account (user_by_id a.store.state.users who.user.id))))
    where
      by_account :
          (o : Option User)
          → Leads a (elim o as (λ _. App × Response Bool) [
            | none ↦ (save w a, reply 200 true)
            | some _ ↦ (
              save w (
                  with_state a (
                    modify_user
                      (with_password (hash_password e w.salt req.new))
                      who.user.id
                      a.store.state)),
              reply 200 true,
            )
          ])
      by_account none = next here (saves w a f)
      by_account (some _) = saved_state w a _ f

  pub handle_get_alert-Leads :
      (w : World) (aid : Text) (a : App) → Leads a (handle_get_alert e w aid a)
  unfolding handle_get_alert
  handle_get_alert-Leads w aid a = elim (Option-cases (alert_by_id a.store.alerts aid)) [
    | inl n ↦ rw (n, handle_get_alert) here
    | inr (al, k) ↦ rw (k, handle_get_alert) here
  ]

  pub handle_reach-Leads :
      (w : World) (body : Option Target) (a : App) → Leads a (handle_reach e w body a)
  unfolding handle_reach
  handle_reach-Leads w none a = here
  handle_reach-Leads w (some t) a = here
