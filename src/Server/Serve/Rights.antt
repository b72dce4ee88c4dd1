-- ===== src/Server/Serve/Rights.antt =====
-- What only an administrator can change, and what leaves it as it is.
pub mod Handlers
pub mod AdminOnly
use stem_computing_desktop_p.Prelude.{
  ℕ, ◌≡◌, refl, ◌∙◌, ap, ◌⊎◌, inl, inr, Bool, true, false, not, ◌&&◌, ◌||◌, Option, none, some,
  List, [], ◌∷◌, arith, map, all, if◌then◌else◌, modify_first, Option-cases, Bool-cases, get_or,
  drop, if_cases, filter,
}
use stem_computing_desktop_p.Text.{Text, codes, text_eq, starts_with, trim_space}
use stem_computing_desktop_p.Platform.{Platform}
use stem_computing_desktop_p.Model.{Time, User, Token, Group, Settings, State, ClientInfo, Store}
use stem_computing_desktop_p.Delivery.{ClientHello, ClientEvent, touch_client}
use stem_computing_desktop_p.Delivery.Report.{apply_events}
use stem_computing_desktop_p.Auth.Sessions
use stem_computing_desktop_p.Auth.Guard.{
  Role, self, any, admin, bearer, hash_token, use_token, by_token, by_session, authenticate, guard,
}
use stem_computing_desktop_p.Auth.Guard.Laws.{HoldsSession, guard_admin, guard_admits}
use stem_computing_desktop_p.App.{App, World, Request, Identity, Response, refused, reply, save}
use stem_computing_desktop_p.Poll.{
  PollRequest, tidy_hello, remote_ip, begin_hold, id_at, modify_client, open_poll, start_poll,
}
use stem_computing_desktop_p.Console.Users.Admins.{save-state}
use stem_computing_desktop_p.Model.{Target, AlertSpec, Template}
use stem_computing_desktop_p.Store.{alert_by_id}
use stem_computing_desktop_p.Auth.Password.{hash_password}
use stem_computing_desktop_p.App.{with_state, with_store, wake}
use stem_computing_desktop_p.Console.Alerts.{
  check_send, new_alert, add_alert, recall_in, handle_send_alert, handle_recall_alert,
  handle_get_alert, handle_list_alerts,
}
use stem_computing_desktop_p.Console.Alerts.Probe.{handle_reach}
use stem_computing_desktop_p.Console.Login.{
  PasswordRequest, modify_user, with_password, handle_me, handle_change_own_password,
}
use stem_computing_desktop_p.Console.Groups.{handle_list_groups}
use stem_computing_desktop_p.Console.Computers.{handle_list_clients}
use stem_computing_desktop_p.Console.Templates.{
  check_template, template_for, put_template, with_templates, handle_list_templates,
  handle_save_template, handle_delete_template,
}
use stem_computing_desktop_p.Server.Routes.{
  Guarded, me, change_own_password, list_alerts, send_alert, get_alert, recall_alert, ask_reach,
  list_clients, list_groups, list_templates, save_template, delete_template, forget_client,
  save_group, delete_group, list_users, save_user, delete_user, get_settings, save_settings,
  rotate_key, create_token, delete_token, Endpoint, poll, login, logout, health, guarded, Pattern,
  patterns, path_value, route,
}
use stem_computing_desktop_p.Server.Serve.{
  Json, Call, Reply, sent, alert, reach, template, done, answer_with, handle, endpoint, serve,
}

-- One account may be left out.
abbrev pub is_own : Option Text → Text → Bool
is_own none id = false
is_own (some own) id = text_eq id own

-- The hash of a password and whether it has to be changed.
abbrev pub secret_of : Option Text → User → Option (Text × Bool)
secret_of own u = if is_own own u.id then none else some (u.pass_hash, u.must_change)

-- Who an account is, what it may do, and how it signs in.
pub record Account : Type 0 where
  pub id : Text
  pub username : Text
  pub role : Text
  pub disabled : Bool
  pub allowed_group_ids : List Text
  pub display_name : Text
  pub created_at : Time
  pub secret : Option (Text × Bool)

abbrev pub account_of : Option Text → User → Account
account_of own u = record {
  id = u.id;
  username = u.username;
  role = u.role;
  disabled = u.disabled;
  allowed_group_ids = u.allowed_group_ids;
  display_name = u.display_name;
  created_at = u.created_at;
  secret = secret_of own u;
}

-- Which secret opens the API, and under which name.
pub record Grant : Type 0 where
  pub id : Text
  pub name : Text
  pub hash : Text
  pub created_by : Text
  pub created_at : Time

abbrev pub grant_of : Token → Grant
grant_of t = record {
  id = t.id;
  name = t.name;
  hash = t.hash;
  created_by = t.created_by;
  created_at = t.created_at;
}

-- The settings, the groups, and who may do what, but for the password of one account.
pub record Rights : Type 0 where
  pub settings : Settings
  pub groups : List Group
  pub accounts : List Account
  pub grants : List Grant

abbrev pub rights : Option Text → State → Rights
rights own st = record {
  settings = st.settings;
  groups = st.groups;
  accounts = map (account_of own) st.users;
  grants = map grant_of st.tokens;
}

use_token-grants :
    (sum : Text) (now : Time) (ts : List Token)
    → map grant_of (use_token sum now ts).1 ≡ map grant_of ts
unfolding use_token
use_token-grants sum now [] = refl
use_token-grants sum now (t ∷ ts) = ground (arith, use_token-grants sum now ts)

by_token-rights :
    (own : Option Text) (e : Platform) (now : Time) (header : Text) (a : App)
    → rights own (by_token e now header a).0.store.state ≡ rights own a.store.state
unfolding by_token
by_token-rights own e now header a =
    ap (λ (gs : List Grant). record (rights own a.store.state) { grants = gs })
      (use_token-grants (hash_token e (trim_space (drop 7 header))) now a.store.state.tokens)

by_session-rights :
    (own : Option Text) (now : Time) (sid : Text) (a : App)
    → rights own (by_session now sid a).0.store.state ≡ rights own a.store.state
unfolding by_session
by_session-rights own now sid a = refl

pub authenticate-rights :
    (own : Option Text) (e : Platform) (now : Time) (r : Request) (a : App)
    → rights own (authenticate e now r a).0.store.state ≡ rights own a.store.state
unfolding authenticate
authenticate-rights own e now r a =
    if_cases (λ (x : App × Option Identity). rights own x.0.store.state ≡ rights own a.store.state)
      (starts_with bearer r.authorization) _ _ (λ _. by_token-rights own e now r.authorization a)
      (λ _. by_cookie r.cookie)
  where
    by_cookie :
        (o : Option Text)
        → rights own
            (elim o as (λ _. App × Option Identity) [
              | none ↦ (a, none)
              | some sid ↦ by_session now sid a
            ]).0.store.state
          ≡ rights own a.store.state
    by_cookie none = refl
    by_cookie (some sid) = by_session-rights own now sid a

pub modify_first-accounts :
    (own : Option Text) (p : User → Bool) (f : User → User) (us : List User)
    → ((u : User) → p u ≡ true → account_of own (f u) ≡ account_of own u)
    → map (account_of own) (modify_first p f us) ≡ map (account_of own) us
modify_first-accounts own p f [] h = refl
modify_first-accounts own p f (u ∷ us) h = elim (Bool-cases (p u)) [
  | inl y ↦ rw (y, modify_first) (ap (λ x. x ∷ map (account_of own) us) (h u y))
  | inr n ↦
      rw (n, modify_first) (ap (λ xs. account_of own u ∷ xs) (modify_first-accounts own p f us h))
]

touch_client-state :
    (e : Platform) (h : ClientHello) (ip : Text) (now : Time) (s : Store)
    → (touch_client e h ip now s).0.state ≡ s.state
unfolding touch_client
touch_client-state e h ip now s = ground arith

modify_client-state :
    (f : ClientInfo → ClientInfo) (p : ℕ) (s : Store) → (modify_client f p s).state ≡ s.state
unfolding modify_client
modify_client-state f p s = ground arith

apply_events-state :
    (cid : Text) (events : List ClientEvent) (now : Time) (s : Store)
    → (apply_events cid events now s).0.state ≡ s.state
unfolding apply_events
apply_events-state cid events now s = refl

pub start_poll-state :
    (e : Platform) (w : World) (r : Request) (body : Option PollRequest) (a : App)
    → (start_poll e w r body a).0.store.state ≡ a.store.state
unfolding start_poll open_poll
start_poll-state e w r none a = refl
start_poll-state e w r (some req) a =
    let hello = tidy_hello req.client in
    let (s, p) = touch_client e hello (remote_ip e a.cfg r) w.now a.store in
    let s' = modify_client begin_hold p s in
    ground (
      arith,
      touch_client-state e hello (remote_ip e a.cfg r) w.now a.store,
      modify_client-state begin_hold p s,
      apply_events-state (id_at p s') req.events w.now s',
    )

-- The handlers that a sender or a token may call, and those of one's own account.
abbrev pub is_open : Guarded → Bool
is_open me = true
is_open change_own_password = true
is_open list_alerts = true
is_open send_alert = true
is_open get_alert = true
is_open recall_alert = true
is_open ask_reach = true
is_open list_clients = true
is_open list_groups = true
is_open list_templates = true
is_open save_template = true
is_open delete_template = true
is_open _ = false

abbrev pub is_guarded : Endpoint → Bool
is_guarded (guarded admin h) = true
is_guarded (guarded role h) = is_open h
is_guarded _ = true

pub route-all :
    (q : Endpoint → Bool) (ps : List Pattern) (method : Text) (path : List Text) (t : Endpoint)
    (v : Text)
    → all (λ (p : Pattern). q p.endpoint) ps ≡ true
    → route ps method path ≡ some (t, v)
    → q t ≡ true
unfolding route
route-all q [] method path t v h f = cc
route-all q (p ∷ ps) method path t v h f = ground (arith, route-all q ps method path t v)
