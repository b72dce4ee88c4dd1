-- ===== src/Server/Serve/Keepers.antt =====
-- What each handler keeps of the accounts.
use stem_computing_desktop_p.Prelude.{
  ◌≡◌, refl, sym, ap, inl, inr, true, false, Option, none, some, List, [], ◌∷◌, map, not, filter,
  is_empty, Bool-cases, ◌++◌, if_cases,
}
use stem_computing_desktop_p.Text.{Text, text_eq, clean_text}
use stem_computing_desktop_p.Dict.{delete}
use stem_computing_desktop_p.Platform.{Platform}
use stem_computing_desktop_p.Model.{User, Group, Token}
use stem_computing_desktop_p.Store.{user_by_id}
use stem_computing_desktop_p.Store.Flush.{sort}
use stem_computing_desktop_p.App.{
  App, World, Identity, Response, refused, reply, save, with_state, with_store,
}
use stem_computing_desktop_p.Console.Groups.{
  check_group, put_group, with_groups, by_name, drop_allowed, handle_save_group,
  handle_delete_group,
}
use stem_computing_desktop_p.Console.Settings.{
  with_settings, with_tokens, new_token, handle_save_settings, handle_create_token,
  handle_rotate_key, handle_delete_token, handle_get_settings,
}
use stem_computing_desktop_p.Console.Computers.{handle_forget_client}
use stem_computing_desktop_p.Console.Users.{
  UserRequest, handle_save_user, handle_delete_user, handle_list_users,
}
use stem_computing_desktop_p.Console.Users.Admins.{save-state}
use stem_computing_desktop_p.Console.Users.Remain
use stem_computing_desktop_p.Console.Users.Remain.{Reach-admins}
use stem_computing_desktop_p.Console.Users.Names
use stem_computing_desktop_p.Console.Users.Names.{Reach-Unique, user_by_name-middle}
use stem_computing_desktop_p.Server.Routes.{
  Guarded, me, change_own_password, list_alerts, send_alert, get_alert, recall_alert, ask_reach,
  list_clients, list_groups, list_templates, save_template, delete_template, forget_client,
  save_group, delete_group, list_users, save_user, delete_user, get_settings, save_settings,
  rotate_key, create_token, delete_token,
}
use stem_computing_desktop_p.Server.Serve.{Json, Call, Reply, answer_with, handle}
use stem_computing_desktop_p.Server.Serve.Rights.{rights, Rights, is_open}
use stem_computing_desktop_p.Server.Serve.Rights.Handlers.{handle-KeepsRights}
use stem_computing_desktop_p.Server.Serve.People.{
  people, person_of, accounts-people, InOrder, people-InOrder,
}

-- The accounts of the server are in order.
abbrev pub Ordered : Platform → App → Type 0
Ordered e a = InOrder e.unicode a.store.state.users

pub same_users :
    (e : Platform) (a b : App)
    → b.store.state.users ≡ a.store.state.users
    → Ordered e a
    → Ordered e b
same_users e a b k h = rw k h

pub same_rights :
    (own : Option Text) (a b : App)
    → rights own b.store.state ≡ rights own a.store.state
    → people a.store.state.users ≡ people b.store.state.users
same_rights own a b k =
    accounts-people own a.store.state.users b.store.state.users
      (sym (ap (λ (r : Rights). r.accounts) k))

pub rights-Ordered :
    (own : Option Text) (e : Platform) (a b : App)
    → rights own b.store.state ≡ rights own a.store.state
    → Ordered e a
    → Ordered e b
rights-Ordered own e a b k h =
    people-InOrder e.unicode a.store.state.users b.store.state.users (same_rights own a b k) h

pub answer_with-Ordered :
    {A : Type 0} (e : Platform) (f : A → Reply) (x : App × Response A)
    → Ordered e x.0
    → Ordered e (answer_with f x).0
answer_with-Ordered e f (b, refused status code) h = h
answer_with-Ordered e f (b, reply status v) h = h

-- A save after a change that leaves the accounts alone.
saved_same :
    (e : Platform) (w : World) (a b : App)
    → b.store.state.users ≡ a.store.state.users
    → Ordered e a
    → Ordered e (save w b)
saved_same e w a b k h = rw (save-state w b, k) h

handle_save_group-Ordered :
    (e : Platform) (w : World) (gid : Text) (body : Option Group) (a : App)
    → Ordered e a
    → Ordered e (handle_save_group e w gid body a).0
unfolding handle_save_group
handle_save_group-Ordered e w gid none a h = h
handle_save_group-Ordered e w gid (some req) a h =
    by_check (check_group e w gid req a.store.state.groups) refl
  where
    by_check :
        (r : Response Group)
        → check_group e w gid req a.store.state.groups ≡ r
        → Ordered e (handle_save_group e w gid (some req) a).0
    by_check (refused status code) k = rw (k, handle_save_group) h
    by_check (reply status g) k =
        let st = a.store.state in
        rw (k, handle_save_group)
          (saved_same e w a
            (with_state a (with_groups (sort (by_name e) (put_group gid g st.groups)) st)) refl h)

people-drop_allowed : (gid : Text) (us : List User) → people us ≡ people (map (drop_allowed gid) us)
people-drop_allowed gid [] = refl
people-drop_allowed gid (u ∷ us) = ap (λ ps. person_of u ∷ ps) (people-drop_allowed gid us)

handle_delete_group-Ordered :
    (e : Platform) (w : World) (gid : Text) (a : App)
    → Ordered e a
    → Ordered e (handle_delete_group w gid a).0
unfolding handle_delete_group
handle_delete_group-Ordered e w gid a h =
    let st = a.store.state in
    rw
      (save-state w (
        with_state a (record st {
          groups = filter (λ (g : Group). not (text_eq g.id gid)) st.groups;
          users = map (drop_allowed gid) st.users;
        })))
      (people-InOrder e.unicode a.store.state.users _ (people-drop_allowed gid a.store.state.users)
        h)

handle_save_user-Ordered :
    (e : Platform) (w : World) (uid : Text) (body : Option UserRequest) (a : App)
    → user_by_id a.store.state.users w.new_id ≡ none
    → Ordered e a
    → Ordered e (handle_save_user e w uid body a).0
handle_save_user-Ordered e w uid body a new h =
    let b = (handle_save_user e w uid body a).0 in
    let (ids, admins) =
      Reach-admins e a b h.ids h.admins (Remain.next Remain.here (Remain.saved w uid body a new)) in
    record {
      ids = ids;
      admins = admins;
      names = Reach-Unique (Names.next Names.here (Names.saved w uid body a)) h.names;
    }

handle_delete_user-Ordered :
    (e : Platform) (w : World) (uid : Text) (who : Identity) (a : App)
    → Ordered e a
    → Ordered e (handle_delete_user w uid who a).0
handle_delete_user-Ordered e w uid who a h =
    let b = (handle_delete_user w uid who a).0 in
    let (ids, admins) =
      Reach-admins e a b h.ids h.admins (Remain.next Remain.here (Remain.deleted w uid who a)) in
    record {
      ids = ids;
      admins = admins;
      names = Reach-Unique {e = e} (Names.next Names.here (Names.deleted w uid who a)) h.names;
    }

handle_save_settings-Ordered :
    (e : Platform) (w : World) (body : Option Text) (a : App)
    → Ordered e a
    → Ordered e (handle_save_settings w body a).0
unfolding handle_save_settings
handle_save_settings-Ordered e w none a h = h
handle_save_settings-Ordered e w (some name) a h =
    let st = a.store.state in
    saved_same e w a
      (with_state a (with_settings (record (st.settings) { org_name = clean_text name 80 }) st))
      refl h

handle_create_token-Ordered :
    (e : Platform) (w : World) (body : Option Text) (who : Identity) (a : App)
    → Ordered e a
    → Ordered e (handle_create_token e w body who a).0
unfolding handle_create_token
handle_create_token-Ordered e w none who a h = h
handle_create_token-Ordered e w (some name) who a h =
    let st = a.store.state in
    if_cases (λ (x : App × Response (Text × Text × Text)). Ordered e x.0)
      (is_empty (clean_text name 60)) _ _ (λ _. h)
      (λ _.
        saved_same e w a
          (with_state a (with_tokens (st.tokens ++ new_token e w who (clean_text name 60) ∷ []) st))
          refl h)

-- The handlers that are the administrators' own.
closed-Ordered :
    (j : Json) (e : Platform) (w : World) (c : Call) (v : Text) (h : Guarded) (who : Identity)
    (a : App)
    → is_open h ≡ false
    → user_by_id a.store.state.users w.new_id ≡ none
    → Ordered e a
    → Ordered e (handle j e w c v h who a).0
unfolding handle handle_forget_client handle_save_settings handle_create_token handle_rotate_key
    handle_delete_token handle_list_users handle_get_settings
closed-Ordered j e w c v me who a o new k = absurd (cc o)
closed-Ordered j e w c v change_own_password who a o new k = absurd (cc o)
closed-Ordered j e w c v list_alerts who a o new k = absurd (cc o)
closed-Ordered j e w c v send_alert who a o new k = absurd (cc o)
closed-Ordered j e w c v get_alert who a o new k = absurd (cc o)
closed-Ordered j e w c v recall_alert who a o new k = absurd (cc o)
closed-Ordered j e w c v ask_reach who a o new k = absurd (cc o)
closed-Ordered j e w c v list_clients who a o new k = absurd (cc o)
closed-Ordered j e w c v list_groups who a o new k = absurd (cc o)
closed-Ordered j e w c v list_templates who a o new k = absurd (cc o)
closed-Ordered j e w c v save_template who a o new k = absurd (cc o)
closed-Ordered j e w c v delete_template who a o new k = absurd (cc o)
closed-Ordered j e w c v forget_client who a o new k =
    saved_same e w a
      (with_store a (record a.store { clients = delete v a.store.clients; dirty_clients = true }))
      refl k
closed-Ordered j e w c v save_group who a o new k =
    answer_with-Ordered e _ _ (handle_save_group-Ordered e w v (j.group c.body) a k)
closed-Ordered j e w c v delete_group who a o new k =
    answer_with-Ordered e _ _ (handle_delete_group-Ordered e w v a k)
closed-Ordered j e w c v list_users who a o new k = k
closed-Ordered j e w c v save_user who a o new k =
    answer_with-Ordered e _ _ (handle_save_user-Ordered e w v (j.user c.body) a new k)
closed-Ordered j e w c v delete_user who a o new k =
    answer_with-Ordered e _ _ (handle_delete_user-Ordered e w v who a k)
closed-Ordered j e w c v get_settings who a o new k = k
closed-Ordered j e w c v save_settings who a o new k =
    answer_with-Ordered e _ _ (handle_save_settings-Ordered e w (j.org_name c.body) a k)
closed-Ordered j e w c v rotate_key who a o new k =
    let st = a.store.state in
    saved_same e w a
      (with_state a (with_settings (record (st.settings) { client_key = w.secret }) st)) refl k
closed-Ordered j e w c v create_token who a o new k =
    answer_with-Ordered e _ _ (handle_create_token-Ordered e w (j.token_name c.body) who a k)
closed-Ordered j e w c v delete_token who a o new k =
    let st = a.store.state in
    saved_same e w a
      (with_state a (with_tokens (filter (λ (t : Token). not (text_eq t.id v)) st.tokens) st)) refl
      k

pub handle-Ordered :
    (j : Json) (e : Platform) (w : World) (c : Call) (v : Text) (h : Guarded) (who : Identity)
    (a : App)
    → user_by_id a.store.state.users w.new_id ≡ none
    → Ordered e a
    → Ordered e (handle j e w c v h who a).0
handle-Ordered j e w c v h who a new k = elim (Bool-cases (is_open h)) [
  | inl o ↦
      let own = some who.user.id in
      rights-Ordered own e a (handle j e w c v h who a).0
        (handle-KeepsRights own j e w c v h who a o (inr refl)) k
  | inr o ↦ closed-Ordered j e w c v h who a o new k
]
