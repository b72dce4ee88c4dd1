-- ===== src/Tests/Accounts.antt =====
-- Requests that touch the accounts, at concrete inputs.
use stem_computing_desktop_p.Prelude.{
  ℕ, ◌+◌, ◌≡◌, ◌⊎◌, refl, true, false, none, some, [], ◌∷◌, arith,
}
use stem_computing_desktop_p.Text.{
  codes, text_eq, equal_fold, trim_space, trim_left, trim_right, is_space,
}
use stem_computing_desktop_p.Dict
use stem_computing_desktop_p.Store.{user_by_name, user_by_id, admin_count}
use stem_computing_desktop_p.App.{App, reply}
use stem_computing_desktop_p.Console.Users.{UserRequest, UserView, handle_save_user}
use stem_computing_desktop_p.Server.Serve.{Json, Call, serve}
use stem_computing_desktop_p.Server.Serve.Keepers.{Ordered}
use stem_computing_desktop_p.Server.Serve.Accounts.{
  Served, here, request, Served-Ordered, Served-sign_in,
}
use stem_computing_desktop_p.Tests.Data.{
  shifting, shifting-Base64Laws, length-digest, platform, root, reception, server_with, world, post,
  clock,
}
use stem_computing_desktop_p.Store.{open_store}
use stem_computing_desktop_p.Store.{compact}
use stem_computing_desktop_p.Store.Flush.{flush}
use stem_computing_desktop_p.Server.Bootstrap.{first_admin, bootstrap}
use stem_computing_desktop_p.Model.{User}
use stem_computing_desktop_p.Auth.Password.{verify_password}
use stem_computing_desktop_p.Auth.Password.Stored.{verify_password-hash_password}
use stem_computing_desktop_p.Auth.Sessions
use stem_computing_desktop_p.Auth.Throttle.{Throttle, blocked}
use stem_computing_desktop_p.Console.Login.{is_locked, handle_login}
use stem_computing_desktop_p.Console.Login.Signin.{MaySignIn, handle_login_may}
use stem_computing_desktop_p.Server.Answer.{
  Connection, is_https, session_cookie, cookie_of, retry_after,
}
use stem_computing_desktop_p.Server.Answer.Cookies.{
  SignedIn, IsCleared, cookie_of-SignedIn, Waits, is_locked-Waits,
}
use stem_computing_desktop_p.Tests.Server.{json, ask_token, first_run, installed}

abbrev demotion : UserRequest
demotion = record {
  username = codes "root";
  display_name = codes "Root";
  role = codes "sender";
  disabled = false;
  allowed_group_ids = [];
  reset_password = false;
}

abbrev account_json : Json
account_json = record json { user = λ b. some demotion }

-- root gives up the role, which is refused, and deletes the other account
abbrev demote : Call
demote = record {
  request = record post { method = codes "PUT" };
  path = codes "api" ∷ codes "users" ∷ codes "u1" ∷ [];
  limit = [];
  body = [];
}

abbrev remove : Call
remove = record {
  request = record post { method = codes "DELETE" };
  path = codes "api" ∷ codes "users" ∷ codes "u2" ∷ [];
  limit = [];
  body = [];
}

abbrev demoted : App
demoted = (serve account_json platform world demote (server_with [])).0

abbrev removed : App
removed = (serve account_json platform world remove demoted).0

start-Ordered : Ordered platform (server_with [])
unfolding admin_count text_eq user_by_id equal_fold
start-Ordered = record {
  ids = (refl, (refl, tt));
  admins = omega arith;
  names = (refl, (refl, tt));
}

unused_first : user_by_id (server_with []).store.state.users world.new_id ≡ none
unfolding user_by_id text_eq
unused_first = refl

users_after-demotion : demoted.store.state.users ≡ root ∷ reception ∷ []
unfolding serve text_eq Dict.lookup handle_save_user
users_after-demotion = refl

unused_second : user_by_id demoted.store.state.users world.new_id ≡ none
unfolding user_by_id text_eq
unused_second = rw users_after-demotion refl

demotion-Served : Served account_json platform (server_with []) demoted
demotion-Served = request world demote unused_first here

Served-Ordered_example : Ordered platform removed
Served-Ordered_example =
    Served-Ordered account_json platform (server_with []) removed start-Ordered
      (request world remove unused_second demotion-Served)

-- a new install, and a request that it refuses
abbrev first_account : User
first_account = first_admin shifting first_run

abbrev asked : App
asked = (serve json shifting world ask_token installed).0

installed-Ordered : Ordered shifting installed
unfolding admin_count text_eq user_by_id equal_fold open_store bootstrap flush compact
installed-Ordered = record { ids = (refl, tt); admins = omega arith; names = (refl, tt) }

installed-unused : user_by_id installed.store.state.users world.new_id ≡ none
unfolding user_by_id text_eq open_store bootstrap flush compact
installed-unused = refl

asked-users : asked.store.state.users ≡ first_account ∷ []
unfolding serve text_eq Dict.lookup open_store bootstrap flush compact
asked-users = refl

account_password : verify_password shifting first_account.pass_hash first_run.password ≡ true
account_password =
    verify_password-hash_password shifting first_run.salt first_run.password shifting-Base64Laws
      length-digest

Served-sign_in_example :
    let (c, answer) =
      handle_login shifting world post
        (some (record { username = codes "admin"; password = first_run.password }))
        asked in
    (v : UserView) × (answer ≡ reply 200 (v, codes "secret"))
    × (v.id ≡ codes "u1")
    × (v.role ≡ codes "admin")
    × ((Sessions.lookup (codes "secret") clock c.sessions).1 ≡ some (codes "u1"))
unfolding trim_space trim_left trim_right is_space is_locked blocked Dict.lookup serve text_eq
    open_store bootstrap
Served-sign_in_example =
    Served-sign_in json shifting installed asked [] first_account [] installed-Ordered
      (request world ask_token installed-unused here) asked-users refl refl world post
      first_run.password account_password refl refl

-- the first administrator signs in over plain HTTP
abbrev first_sign_in : Json
first_sign_in = record json {
  login = λ b. some (record { username = codes "admin"; password = first_run.password });
}

abbrev sign_in : Call
sign_in = record { request = post; path = codes "api" ∷ codes "login" ∷ []; limit = []; body = [] }

account-MaySignIn :
    MaySignIn shifting world post
      (record { username = codes "admin"; password = first_run.password })
      installed
      first_account
unfolding trim_space trim_left trim_right is_space is_locked blocked Dict.lookup text_eq open_store
    bootstrap user_by_name equal_fold
account-MaySignIn = record {
  from_console = refl;
  unlocked = refl;
  on_record = refl;
  right = account_password;
  enabled = refl;
}

abbrev plain : Connection
plain = record { tls = false; forwarded_proto = codes "https" }

installed-cfg : installed.cfg.trust_proxy_headers ≡ false
unfolding bootstrap open_store
installed-cfg = refl

sign_in-cookie :
    cookie_of first_sign_in shifting world sign_in plain installed
    ≡ some (session_cookie false (codes "secret"))
unfolding cookie_of serve text_eq is_https
sign_in-cookie =
    rw
      (
        handle_login_may shifting world post
            (record { username = codes "admin"; password = first_run.password }) installed
            first_account account-MaySignIn,
        installed-cfg,
      )
      refl

cookie_of-SignedIn_example :
    IsCleared (session_cookie false (codes "secret"))
    ⊎ SignedIn first_sign_in shifting world sign_in plain installed
        (serve first_sign_in shifting world sign_in installed).0
        (session_cookie false (codes "secret"))
cookie_of-SignedIn_example =
    cookie_of-SignedIn first_sign_in shifting world sign_in plain installed
      (session_cookie false (codes "secret")) sign_in-cookie

-- an address that is locked for two and a half seconds
abbrev locks : Throttle
locks =
    (codes "ip:10.0.0.9", record { fails = 0; first = 0; locked_until = clock + 2500000000 }) ∷ []

is_locked-Waits_example :
    (n : ℕ) × (retry_after (codes "user:ann" ∷ codes "ip:10.0.0.9" ∷ []) clock locks ≡ some n)
    × Waits (codes "user:ann" ∷ codes "ip:10.0.0.9" ∷ []) clock locks n
unfolding is_locked blocked Dict.lookup text_eq
is_locked-Waits_example =
    is_locked-Waits (codes "user:ann" ∷ codes "ip:10.0.0.9" ∷ []) clock locks refl
