-- ===== src/Server/Serve/Rights/Handlers.antt =====
-- The handlers that change nobody's rights.
use stem_computing_desktop_p.Prelude.{
  ◌≡◌, ◌⊎◌, refl, ◌∙◌, ap, inl, inr, true, not, ◌&&◌, Option, none, some, arith, Option-cases,
  if_cases, filter,
}
use stem_computing_desktop_p.Text.{Text, codes, text_eq}
use stem_computing_desktop_p.Platform.{Platform}
use stem_computing_desktop_p.Model.{User}
use stem_computing_desktop_p.App.{App, World, Identity, Response, refused, reply, save}
use stem_computing_desktop_p.Console.Users.Admins.{save-state}
use stem_computing_desktop_p.Model.{Target, AlertSpec, Template}
use stem_computing_desktop_p.Store.{alert_by_id}
use stem_computing_desktop_p.Auth.Password.{hash_password}
use stem_computing_desktop_p.App.{with_state, with_store, wake}
use stem_computing_desktop_p.Console.Alerts.{
  check_send, new_alert, add_alert, recall_in, handle_send_alert, handle_recall_alert,
  handle_get_alert, handle_list_alerts,
}
use stem_computing_desktop_p.Console.Alerts.Probe.{handle_reach}
use stem_computing_desktop_p.Console.Login.{
  PasswordRequest, modify_user, with_password, handle_me, handle_change_own_password,
}
use stem_computing_desktop_p.Console.Groups.{handle_list_groups}
use stem_computing_desktop_p.Console.Computers.{handle_list_clients}
use stem_computing_desktop_p.Console.Templates.{
  check_template, template_for, put_template, with_templates, handle_list_templates,
  handle_save_template, handle_delete_template,
}
use stem_computing_desktop_p.Server.Routes.{
  Guarded, me, change_own_password, list_alerts, send_alert, get_alert, recall_alert, ask_reach,
  list_clients, list_groups, list_templates, save_template, delete_template,
}
use stem_computing_desktop_p.Server.Serve.{
  Json, Call, Reply, sent, alert, reach, template, done, answer_with, handle,
}
use stem_computing_desktop_p.Server.Serve.Rights.{
  account_of, rights, modify_first-accounts, is_open,
}

-- A handler keeps the rights that it finds, but for one account's password.
abbrev pub KeepsRights : {A : Type 0} → Option Text → App → App × Response A → Type 0
KeepsRights own a x = rights own x.0.store.state ≡ rights own a.store.state

pub answer_with-KeepsRights :
    {A : Type 0} (own : Option Text) (f : A → Reply) (a : App) (x : App × Response A)
    → KeepsRights own a x
    → KeepsRights own a (answer_with f x)
answer_with-KeepsRights own f a (b, refused status code) h = h
answer_with-KeepsRights own f a (b, reply status v) h = h

-- Saving after a change to the store that leaves the rights alone.
save-rights :
    (own : Option Text) (w : World) (a b : App)
    → rights own b.store.state ≡ rights own a.store.state
    → rights own (save w b).store.state ≡ rights own a.store.state
save-rights own w a b h = ap (rights own) (save-state w b) ∙ h

-- The one account is that of whoever is signed in, unless that is by a token.
abbrev pub ChangesOwn : Option Text → Identity → Type 0
ChangesOwn own who = (who.via_token ≡ true) ⊎ (own ≡ some who.user.id)

with_password-account :
    (own hash : Text) (u : User)
    → text_eq u.id own ≡ true
    → account_of (some own) (with_password hash u) ≡ account_of (some own) u
with_password-account own hash u h = ground (arith, h)

handle_change_own_password-KeepsRights :
    (own : Option Text) (e : Platform) (w : World) (body : Option PasswordRequest) (who : Identity)
    (a : App)
    → ChangesOwn own who
    → KeepsRights own a (handle_change_own_password e w body who a)
unfolding handle_change_own_password
handle_change_own_password-KeepsRights own e w none who a may = refl
handle_change_own_password-KeepsRights own e w (some req) who a (inl token) = ground (arith, token)
handle_change_own_password-KeepsRights own e w (some req) who a (inr mine) =
    let hash = hash_password e w.salt req.new in
    let st = a.store.state in
    let changed = with_state a (modify_user (with_password hash) who.user.id st) in
    let kept =
      modify_first-accounts (some who.user.id) (λ (x : User). text_eq x.id who.user.id)
        (with_password hash) st.users (with_password-account who.user.id hash) in
    rw mine (ground (arith, kept, save-state w a, save-state w changed))

handle_send_alert-KeepsRights :
    (own : Option Text) (e : Platform) (w : World) (body : Option AlertSpec) (who : Identity)
    (a : App)
    → KeepsRights own a (handle_send_alert e w body who a)
unfolding handle_send_alert
handle_send_alert-KeepsRights own e w body who a = by_check (check_send e who body a.store) refl
  where
    by_check :
        (r : Response AlertSpec)
        → check_send e who body a.store ≡ r
        → KeepsRights own a (handle_send_alert e w body who a)
    by_check (refused status code) k = rw (k, handle_send_alert) refl
    by_check (reply status spec) k =
        let al = new_alert w who.user a.store.state.groups spec in
        rw (k, handle_send_alert)
          (save-rights own w a (wake (with_store a (add_alert al a.store))) refl)

handle_recall_alert-KeepsRights :
    (own : Option Text) (e : Platform) (w : World) (aid : Text) (who : Identity) (a : App)
    → KeepsRights own a (handle_recall_alert e w aid who a)
unfolding handle_recall_alert
handle_recall_alert-KeepsRights own e w aid who a =
    elim (Option-cases (alert_by_id a.store.alerts aid)) [
      | inl n ↦ rw (n, handle_recall_alert) refl
      | inr (al, k) ↦
          rw (k, handle_recall_alert)
            (if_cases (KeepsRights own a)
              (not (text_eq who.user.role (codes "admin"))
                && not (text_eq al.sender who.user.username))
              _ _ (λ _. refl)
              (λ _.
                save-rights own w a
                  (wake (with_store a (recall_in w.now who.user.username aid al a.store))) refl))
    ]

handle_get_alert-KeepsRights :
    (own : Option Text) (e : Platform) (w : World) (aid : Text) (a : App)
    → KeepsRights own a (handle_get_alert e w aid a)
unfolding handle_get_alert
handle_get_alert-KeepsRights own e w aid a = ground arith

handle_reach-KeepsRights :
    (own : Option Text) (e : Platform) (w : World) (body : Option Target) (a : App)
    → KeepsRights own a (handle_reach e w body a)
unfolding handle_reach
handle_reach-KeepsRights own e w none a = refl
handle_reach-KeepsRights own e w (some t) a = refl

handle_save_template-KeepsRights :
    (own : Option Text) (e : Platform) (w : World) (body : Option Template) (a : App)
    → KeepsRights own a (handle_save_template e w body a)
unfolding handle_save_template
handle_save_template-KeepsRights own e w none a = refl
handle_save_template-KeepsRights own e w (some req) a = by_check (check_template e req) refl
  where
    by_check :
        (r : Response (Text × AlertSpec))
        → check_template e req ≡ r
        → KeepsRights own a (handle_save_template e w (some req) a)
    by_check (refused status code) k = rw (k, handle_save_template) refl
    by_check (reply status (name, spec)) k =
        let st = a.store.state in
        let t = record (template_for e w.new_id name st.templates) { name = name; spec = spec } in
        rw (k, handle_save_template)
          (save-rights own w a (with_state a (with_templates (put_template e t st.templates) st))
            refl)

pub handle-KeepsRights :
    (own : Option Text) (j : Json) (e : Platform) (w : World) (c : Call) (v : Text) (h : Guarded)
    (who : Identity) (a : App)
    → is_open h ≡ true
    → ChangesOwn own who
    → KeepsRights own a (handle j e w c v h who a)
unfolding handle handle_me handle_list_alerts handle_list_clients handle_list_groups
    handle_list_templates handle_delete_template
handle-KeepsRights own j e w c v me who a o may = refl
handle-KeepsRights own j e w c v change_own_password who a o may =
    answer_with-KeepsRights own (λ _. done) a _
      (handle_change_own_password-KeepsRights own e w (j.password c.body) who a may)
handle-KeepsRights own j e w c v list_alerts who a o may = refl
handle-KeepsRights own j e w c v send_alert who a o may =
    answer_with-KeepsRights own (λ p. sent p.0 p.1) a _
      (handle_send_alert-KeepsRights own e w (j.alert c.body) who a)
handle-KeepsRights own j e w c v get_alert who a o may =
    answer_with-KeepsRights own alert a _ (handle_get_alert-KeepsRights own e w v a)
handle-KeepsRights own j e w c v recall_alert who a o may =
    answer_with-KeepsRights own alert a _ (handle_recall_alert-KeepsRights own e w v who a)
handle-KeepsRights own j e w c v ask_reach who a o may =
    answer_with-KeepsRights own reach a _ (handle_reach-KeepsRights own e w (j.target c.body) a)
handle-KeepsRights own j e w c v list_clients who a o may = refl
handle-KeepsRights own j e w c v list_groups who a o may = refl
handle-KeepsRights own j e w c v list_templates who a o may = refl
handle-KeepsRights own j e w c v save_template who a o may =
    answer_with-KeepsRights own template a _
      (handle_save_template-KeepsRights own e w (j.template c.body) a)
handle-KeepsRights own j e w c v delete_template who a o may =
    let st = a.store.state in
    save-rights own w a
      (with_state a
        (with_templates (filter (λ (t : Template). not (text_eq t.id v)) st.templates) st))
      refl
handle-KeepsRights own j e w c v _ who a o may = cc
