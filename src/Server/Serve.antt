-- ===== src/Server/Serve.antt =====
-- `routes` of server/main.go, from a request to its answer. What no pattern matches is an unknown
-- endpoint below /api/, and a file of the console elsewhere. readJSON hands a handler the body decoded
-- for its type, or none. The headers and cookies of an answer stand in Server/Answer.
pub mod Rights
pub mod People
pub mod Keepers
pub mod Accounts
use stem_computing_desktop_p.Prelude.{
  ℕ, Bool, true, false, ◌&&◌, ◌||◌, Option, none, some, List, [], ◌∷◌, if◌then◌else◌, get_or,
}
use stem_computing_desktop_p.Prelude.Int.{pos}
use stem_computing_desktop_p.Text.{Text, codes, text_eq}
use stem_computing_desktop_p.Platform.{Platform, Bytes}
use stem_computing_desktop_p.Model.{Target, AlertSpec, Group, Template}
use stem_computing_desktop_p.Auth.Password.{atoi}
use stem_computing_desktop_p.Auth.Guard.{guard}
use stem_computing_desktop_p.App.{App, World, Request, Identity, Response, refused, reply}
use stem_computing_desktop_p.Poll.{PollRequest, Held, Started, turned_away, held, start_poll}
use stem_computing_desktop_p.Console.Alerts.{
  AlertView, handle_send_alert, handle_recall_alert, handle_get_alert, handle_list_alerts,
}
use stem_computing_desktop_p.Console.Alerts.Probe.{Reach, handle_reach}
use stem_computing_desktop_p.Console.Login.{
  LoginRequest, PasswordRequest, handle_login, handle_logout, handle_me, handle_change_own_password,
}
use stem_computing_desktop_p.Console.Users.{
  UserView, UserRequest, handle_list_users, handle_save_user, handle_delete_user,
}
use stem_computing_desktop_p.Console.Groups.{
  GroupView, handle_list_groups, handle_save_group, handle_delete_group,
}
use stem_computing_desktop_p.Console.Templates.{
  handle_list_templates, handle_save_template, handle_delete_template,
}
use stem_computing_desktop_p.Console.Settings.{
  SettingsView, handle_get_settings, handle_save_settings, handle_rotate_key, handle_create_token,
  handle_delete_token,
}
use stem_computing_desktop_p.Console.Computers.{
  ClientView, handle_list_clients, handle_forget_client,
}
use stem_computing_desktop_p.Server.Routes.{
  Guarded, me, change_own_password, list_alerts, send_alert, get_alert, recall_alert, ask_reach,
  list_clients, list_groups, list_templates, save_template, delete_template, forget_client,
  save_group, delete_group, list_users, save_user, delete_user, get_settings, save_settings,
  rotate_key, create_token, delete_token, Endpoint, poll, login, logout, health, guarded, patterns,
  route,
}

-- encoding/json on the body's type; a body that is empty decodes to the type's zero value
pub record Json : Type 0 where
  pub poll : Bytes → Option PollRequest
  pub login : Bytes → Option LoginRequest
  pub password : Bytes → Option PasswordRequest
  pub alert : Bytes → Option AlertSpec
  pub target : Bytes → Option Target
  pub group : Bytes → Option Group
  pub template : Bytes → Option Template
  pub user : Bytes → Option UserRequest
  pub org_name : Bytes → Option Text
  pub token_name : Bytes → Option Text

-- The rest of a request: its path's segments, its query's `limit`, its body.
pub record Call : Type 0 where
  pub request : Request
  pub path : List Text
  pub limit : Text
  pub body : Bytes

-- What an answer without an error carries.
pub data Reply : Type 0 where
  account : UserView → Reply
  signed_in : UserView → Text → Reply
  profile : UserView → Text → Reply
  alerts : List AlertView → Reply
  alert : AlertView → Reply
  sent : AlertView → ℕ → Reply
  reach : Reach → Reply
  clients : List ClientView → Reply
  groups : List GroupView → Reply
  group : Group → Reply
  templates : List Template → Reply
  template : Template → Reply
  users : List UserView → Reply
  saved : UserView → Text → Reply
  settings : SettingsView → Reply
  key : Text → Reply
  token : Text → Text → Text → Reply
  done : Reply

pub data Outcome : Type 0 where
  answer : Response Reply → Outcome
  -- a poll that is held, to be looked after
  waiting : Held → Outcome
  -- a file of the console, or none of that name
  file : Outcome
  -- a redirect to the same path with a slash at its end
  moved : Outcome

abbrev pub answer_with : {A : Type 0} → (A → Reply) → App × Response A → App × Response Reply
answer_with f (a, refused status code) = (a, refused status code)
answer_with f (a, reply status x) = (a, reply status (f x))

-- The handlers behind `guard`, on what they read of the request.
unfoldable pub handle :
    Json → Platform → World → Call → Text → Guarded → Identity → App → App × Response Reply
handle j e w c v me who a = answer_with (λ p. profile p.0 p.1) (handle_me who a)
handle j e w c v change_own_password who a =
    answer_with (λ _. done) (handle_change_own_password e w (j.password c.body) who a)
handle j e w c v list_alerts who a =
    answer_with alerts (handle_list_alerts e w (get_or (atoi c.limit) (pos 0)) a)
handle j e w c v send_alert who a =
    answer_with (λ p. sent p.0 p.1) (handle_send_alert e w (j.alert c.body) who a)
handle j e w c v get_alert who a = answer_with alert (handle_get_alert e w v a)
handle j e w c v recall_alert who a = answer_with alert (handle_recall_alert e w v who a)
handle j e w c v ask_reach who a = answer_with reach (handle_reach e w (j.target c.body) a)
handle j e w c v list_clients who a = answer_with clients (handle_list_clients e w a)
handle j e w c v list_groups who a = answer_with groups (handle_list_groups e w a)
handle j e w c v list_templates who a = answer_with templates (handle_list_templates a)
handle j e w c v save_template who a =
    answer_with template (handle_save_template e w (j.template c.body) a)
handle j e w c v delete_template who a = answer_with (λ _. done) (handle_delete_template w v a)
handle j e w c v forget_client who a = answer_with (λ _. done) (handle_forget_client w v a)
handle j e w c v save_group who a = answer_with group (handle_save_group e w v (j.group c.body) a)
handle j e w c v delete_group who a = answer_with (λ _. done) (handle_delete_group w v a)
handle j e w c v list_users who a = answer_with users (handle_list_users a)
handle j e w c v save_user who a =
    answer_with (λ p. saved p.0 p.1) (handle_save_user e w v (j.user c.body) a)
handle j e w c v delete_user who a = answer_with (λ _. done) (handle_delete_user w v who a)
handle j e w c v get_settings who a = answer_with settings (handle_get_settings a)
handle j e w c v save_settings who a =
    answer_with (λ _. done) (handle_save_settings w (j.org_name c.body) a)
handle j e w c v rotate_key who a = answer_with key (handle_rotate_key w a)
handle j e w c v create_token who a =
    answer_with (λ p. token p.0 p.1 p.2) (handle_create_token e w (j.token_name c.body) who a)
handle j e w c v delete_token who a = answer_with (λ _. done) (handle_delete_token w v a)

abbrev pub as_answer : App × Response Reply → App × Outcome
as_answer (a, r) = (a, answer r)

abbrev pub as_poll : App × Started → App × Outcome
as_poll (a, turned_away status code) = (a, answer (refused status code))
as_poll (a, held k) = (a, waiting k)

-- The handler of an endpoint.
unfoldable pub endpoint : Json → Platform → World → Call → Text → Endpoint → App → App × Outcome
unfolding handle guard
endpoint j e w c v poll a = as_poll (start_poll e w c.request (j.poll c.body) a)
endpoint j e w c v login a =
    as_answer (answer_with (λ p. signed_in p.0 p.1) (handle_login e w c.request (j.login c.body) a))
endpoint j e w c v logout a = as_answer (answer_with (λ _. done) (handle_logout c.request a))
endpoint j e w c v health a = (a, answer (reply 200 done))
endpoint j e w c v (guarded role h) a =
    as_answer (guard e w.now role (handle j e w c v h) c.request a)

-- the pattern "/api/", whose slash ends in one more segment, if an empty one
abbrev pub is_api : List Text → Bool
is_api (s ∷ _ ∷ path) = text_eq s (codes "api")
is_api _ = false

-- What the multiplexer makes of a path that no handler's pattern fits: it sends "/api" on to "/api/".
abbrev pub unrouted : List Text → Outcome
unrouted [] = file
unrouted (s ∷ []) = if text_eq s (codes "api") then moved else file
unrouted path = if is_api path then answer (refused 404 (codes "not_found")) else file

-- routes: the server's answer to one request
unfoldable pub serve : Json → Platform → World → Call → App → App × Outcome
unfolding route endpoint
serve j e w c a = elim (route patterns c.request.method c.path) [
  | some (target, v) ↦ endpoint j e w c v target a
  | none ↦ (a, unrouted c.path)
]
