-- ===== src/Server/Traffic/Handlers.antt =====
-- The handlers behind `guard`, as steps.
use stem_computing_desktop_p.Prelude.{
  ◌≡◌, arith, refl, inl, Bool, ◌&&◌, ◌||◌, leb, Option, none, some, is_empty, if_cases,
}
use stem_computing_desktop_p.Text.{Text, text_eq, clean_text}
use stem_computing_desktop_p.Platform.{Platform}
use stem_computing_desktop_p.Model.{AlertSpec, Group, Template, State, User}
use stem_computing_desktop_p.Store.{user_by_id, admin_count}
use stem_computing_desktop_p.Auth.Sessions.{drop_user}
use stem_computing_desktop_p.App.{App, World, Identity, Response, refused, reply, with_state}
use stem_computing_desktop_p.Console.Alerts.{
  handle_list_alerts, handle_send_alert, handle_recall_alert,
}
use stem_computing_desktop_p.Console.Login.{handle_me}
use stem_computing_desktop_p.Console.Groups.{
  check_group, handle_list_groups, handle_save_group, handle_delete_group,
}
use stem_computing_desktop_p.Console.Templates.{
  check_template, handle_list_templates, handle_save_template, handle_delete_template,
}
use stem_computing_desktop_p.Console.Users.{
  UserRequest, check_user, filled_in, put_user, resets, sign_out, without_user, is_admin_account,
  with_users, handle_list_users, handle_save_user, handle_delete_user,
}
use stem_computing_desktop_p.Console.Settings.{
  handle_get_settings, handle_save_settings, handle_rotate_key, handle_create_token,
  handle_delete_token,
}
use stem_computing_desktop_p.Console.Computers.{handle_list_clients, handle_forget_client}
use stem_computing_desktop_p.Server.Serve.{Json, Call, handle}
use stem_computing_desktop_p.Server.Routes.{
  Guarded, me, change_own_password, list_alerts, send_alert, get_alert, recall_alert, ask_reach,
  list_clients, list_groups, list_templates, save_template, delete_template, forget_client,
  save_group, delete_group, list_users, save_user, delete_user, get_settings, save_settings,
  rotate_key, create_token, delete_token,
}
use stem_computing_desktop_p.Server.Traffic.{Noted, sends, recalls, forgets, here, next}
use stem_computing_desktop_p.Server.Traffic.Plain.{
  Leads, answer_with-Leads, saved, saved_state, handle_change_own_password-Leads,
  handle_get_alert-Leads, handle_reach-Leads,
}

module _ (e : Platform) (Fresh : World → Type 0) where
  handle_save_template-Leads :
      (w : World) (body : Option Template) (a : App)
      → Fresh w
      → Leads e Fresh a (handle_save_template e w body a)
  unfolding handle_save_template
  handle_save_template-Leads w none a f = here
  handle_save_template-Leads w (some req) a f = by_check (check_template e req) refl
    where
      by_check :
          (r : Response (Text × AlertSpec))
          → check_template e req ≡ r
          → Leads e Fresh a (handle_save_template e w (some req) a)
      by_check (refused status code) k = rw (k, handle_save_template) here
      by_check (reply status (name, spec)) k =
          rw (k, handle_save_template) (saved_state e Fresh w a _ f)

  handle_save_group-Leads :
      (w : World) (gid : Text) (body : Option Group) (a : App)
      → Fresh w
      → Leads e Fresh a (handle_save_group e w gid body a)
  unfolding handle_save_group
  handle_save_group-Leads w gid none a f = here
  handle_save_group-Leads w gid (some req) a f =
      by_check (check_group e w gid req a.store.state.groups) refl
    where
      by_check :
          (r : Response Group)
          → check_group e w gid req a.store.state.groups ≡ r
          → Leads e Fresh a (handle_save_group e w gid (some req) a)
      by_check (refused status code) k = rw (k, handle_save_group) here
      by_check (reply status g) k = rw (k, handle_save_group) (saved_state e Fresh w a _ f)

  sign_out-Noted :
      (a : App) (st : State) (b : Bool) (uid : Text) → Noted a (sign_out b uid (with_state a st))
  unfolding sign_out
  sign_out-Noted a st b uid = record {
    alerts = refl;
    clients = refl;
    heap = refl;
    dirty_alerts = refl;
    disk = refl;
    wakes = omega arith;
    state = inl refl;
  }

  handle_save_user-Leads :
      (w : World) (uid : Text) (body : Option UserRequest) (a : App)
      → Fresh w
      → Leads e Fresh a (handle_save_user e w uid body a)
  unfolding handle_save_user
  handle_save_user-Leads w uid none a f = here
  handle_save_user-Leads w uid (some req) a f =
      by_check (check_user e w uid req a.store.state.users) refl
    where
      by_check :
          (r : Response User)
          → check_user e w uid req a.store.state.users ≡ r
          → Leads e Fresh a (handle_save_user e w uid (some req) a)
      by_check (refused status code) k = rw (k, handle_save_user) here
      by_check (reply status u) k =
          let st = a.store.state in
          let u' = filled_in e w uid req st.groups u in
          rw (k, handle_save_user)
            (saved e Fresh w a _ f (
              sign_out-Noted a (with_users (put_user uid u' st.users) st)
                (resets uid req || u'.disabled) u'.id))

  handle_delete_user-Leads :
      (w : World) (uid : Text) (who : Identity) (a : App)
      → Fresh w
      → Leads e Fresh a (handle_delete_user w uid who a)
  unfolding handle_delete_user
  handle_delete_user-Leads w uid who a f =
      let st = a.store.state in
      if_cases (Leads e Fresh a) (text_eq uid who.user.id) _ _ (λ _. here)
        (λ _.
          if_cases (Leads e Fresh a)
            (is_admin_account (user_by_id st.users uid) && leb (admin_count st.users) 1) _ _
            (λ _. here)
            (λ _.
              saved e Fresh w a
                (record (with_state a (with_users (without_user uid st.users) st)) {
                  sessions = drop_user uid a.sessions;
                })
                f
                (record {
                  alerts = refl;
                  clients = refl;
                  heap = refl;
                  dirty_alerts = refl;
                  disk = refl;
                  wakes = omega arith;
                  state = inl refl;
                })))

  handle_save_settings-Leads :
      (w : World) (body : Option Text) (a : App)
      → Fresh w
      → Leads e Fresh a (handle_save_settings w body a)
  unfolding handle_save_settings
  handle_save_settings-Leads w none a f = here
  handle_save_settings-Leads w (some name) a f = saved_state e Fresh w a _ f

  handle_create_token-Leads :
      (w : World) (body : Option Text) (who : Identity) (a : App)
      → Fresh w
      → Leads e Fresh a (handle_create_token e w body who a)
  unfolding handle_create_token
  handle_create_token-Leads w none who a f = here
  handle_create_token-Leads w (some name) who a f =
      if_cases (Leads e Fresh a) (is_empty (clean_text name 60)) _ _ (λ _. here)
        (λ _. saved_state e Fresh w a _ f)

  -- Every handler behind `guard` takes such steps.
  pub handle-Leads :
      (j : Json) (w : World) (c : Call) (v : Text) (h : Guarded) (who : Identity) (a : App)
      → Fresh w
      → Leads e Fresh a (handle j e w c v h who a)
  unfolding handle handle_me handle_list_alerts handle_list_clients handle_list_groups
      handle_list_templates handle_delete_template handle_list_users handle_get_settings
      handle_rotate_key handle_delete_token handle_delete_group
  handle-Leads j w c v me who a f = here
  handle-Leads j w c v change_own_password who a f =
      answer_with-Leads e Fresh _ a _
        (handle_change_own_password-Leads e Fresh w (j.password c.body) who a f)
  handle-Leads j w c v list_alerts who a f = here
  handle-Leads j w c v send_alert who a f =
      answer_with-Leads e Fresh _ a (handle_send_alert e w (j.alert c.body) who a)
        (next here (sends w (j.alert c.body) who a f))
  handle-Leads j w c v get_alert who a f =
      answer_with-Leads e Fresh _ a _ (handle_get_alert-Leads e Fresh w v a)
  handle-Leads j w c v recall_alert who a f =
      answer_with-Leads e Fresh _ a (handle_recall_alert e w v who a)
        (next here (recalls w v who a f))
  handle-Leads j w c v ask_reach who a f =
      answer_with-Leads e Fresh _ a _ (handle_reach-Leads e Fresh w (j.target c.body) a)
  handle-Leads j w c v list_clients who a f = here
  handle-Leads j w c v list_groups who a f = here
  handle-Leads j w c v list_templates who a f = here
  handle-Leads j w c v save_template who a f =
      answer_with-Leads e Fresh _ a _ (handle_save_template-Leads w (j.template c.body) a f)
  handle-Leads j w c v delete_template who a f = saved_state e Fresh w a _ f
  handle-Leads j w c v forget_client who a f =
      answer_with-Leads e Fresh _ a (handle_forget_client w v a) (next here (forgets w v a f))
  handle-Leads j w c v save_group who a f =
      answer_with-Leads e Fresh _ a _ (handle_save_group-Leads w v (j.group c.body) a f)
  handle-Leads j w c v delete_group who a f = saved_state e Fresh w a _ f
  handle-Leads j w c v list_users who a f = here
  handle-Leads j w c v save_user who a f =
      answer_with-Leads e Fresh _ a _ (handle_save_user-Leads w v (j.user c.body) a f)
  handle-Leads j w c v delete_user who a f =
      answer_with-Leads e Fresh _ a _ (handle_delete_user-Leads w v who a f)
  handle-Leads j w c v get_settings who a f = here
  handle-Leads j w c v save_settings who a f =
      answer_with-Leads e Fresh _ a _ (handle_save_settings-Leads w (j.org_name c.body) a f)
  handle-Leads j w c v rotate_key who a f = saved_state e Fresh w a _ f
  handle-Leads j w c v create_token who a f =
      answer_with-Leads e Fresh _ a _ (handle_create_token-Leads w (j.token_name c.body) who a f)
  handle-Leads j w c v delete_token who a f = saved_state e Fresh w a _ f
