-- ===== src/Tests/Console.antt =====
-- The console's handlers at concrete inputs.
use stem_computing_desktop_p.Prelude.{
  ◌+◌, ◌*◌, ◌≡◌, ◌≢◌, refl, true, none, some, [], ◌∷◌, ◌++◌, arith,
}
use stem_computing_desktop_p.Text.{
  codes, text_eq, trim_space, trim_left, trim_right, is_space, clean_text, starts_with, equal_fold,
}
use stem_computing_desktop_p.Dict
use stem_computing_desktop_p.Model.{User, Token, minute}
use stem_computing_desktop_p.Delivery.{hex}
use stem_computing_desktop_p.Poll.{remote_ip}
use stem_computing_desktop_p.Store.Flush.{flush, collect, write_files}
use stem_computing_desktop_p.Store.{user_by_id, user_by_name}
use stem_computing_desktop_p.Auth.Guard.{authenticate, by_token, token_user, use_token, hash_token}
use stem_computing_desktop_p.Auth.Password.{hash_password}
use stem_computing_desktop_p.Auth.Password.Stored.{verify_password-hash_password}
use stem_computing_desktop_p.Auth.Throttle.{blocked}
use stem_computing_desktop_p.App.{save, App, Request, Identity, refused, reply}
use stem_computing_desktop_p.Console.Alerts.{check_allowed}
use stem_computing_desktop_p.Console.Groups.{handle_delete_group}
use stem_computing_desktop_p.Console.Groups.Orphans.{handle_delete_group-check_allowed}
use stem_computing_desktop_p.Console.Login.{LoginRequest, is_locked, handle_login}
use stem_computing_desktop_p.Console.Login.Signin.{MaySignIn}
use stem_computing_desktop_p.Console.Login.Locks.{handle_login_past_lock}
use stem_computing_desktop_p.Console.Settings.{new_token, handle_create_token, handle_delete_token}
use stem_computing_desktop_p.Console.Settings.Tokens.{
  authenticate-handle_create_token, authenticate-handle_delete_token,
}
use stem_computing_desktop_p.Console.Users.{view_user}
use stem_computing_desktop_p.Tests.Data.{
  platform, shifting, length-digest, shifting-Base64Laws, clock, everybody, root, reception, state,
  server_with, world, post, as_root,
}

handle_delete_group-check_allowed_example :
    let b = (handle_delete_group world (codes "g1") (server_with [])).0 in
    (u' : User) × (user_by_id b.store.state.users (codes "u2") ≡ some u')
    × (check_allowed u' everybody ≡ none)
unfolding user_by_id text_eq
handle_delete_group-check_allowed_example =
    handle_delete_group-check_allowed world (codes "g1") (codes "u2") (server_with []) reception
      everybody refl refl

-- root with a password, on a server where the name is locked
abbrev root_with_password : User
root_with_password = record root {
  pass_hash = hash_password shifting (codes "salt") (codes "open sesame");
}

abbrev locked_server : App
locked_server = record (server_with []) {
  store = record ((server_with []).store) {
    state = record state { users = root_with_password ∷ [] };
  };
  throttle =
      (codes "user:root", record { fails = 0; first = clock; locked_until = clock + 5 * minute })
      ∷ [];
}

abbrev with_space : LoginRequest
with_space = record { username = codes "root "; password = codes "open sesame" }

root-MaySignIn : MaySignIn shifting world post with_space locked_server root_with_password
unfolding is_locked blocked Dict.lookup text_eq user_by_name equal_fold trim_space trim_left
    trim_right is_space remote_ip
root-MaySignIn = record {
  from_console = refl;
  unlocked = refl;
  on_record = refl;
  right =
      verify_password-hash_password shifting (codes "salt") (codes "open sesame")
        shifting-Base64Laws length-digest;
  enabled = refl;
}

handle_login_past_lock_example :
    ((handle_login shifting world post
        (some (record { username = codes "root"; password = codes "open sesame" }))
        locked_server).1
      ≡ refused 429 (codes "locked"))
    × ((handle_login shifting world post
          (some (record { username = codes "root "; password = codes "open sesame" }))
          locked_server).1
        ≡ reply 200 (view_user (record root_with_password { last_login = clock }), codes "secret"))
unfolding is_locked blocked Dict.lookup text_eq user_by_name equal_fold trim_space trim_left
    trim_right is_space remote_ip
handle_login_past_lock_example =
    handle_login_past_lock shifting world post (codes "root") (codes "open sesame") locked_server
      root_with_password refl (omega arith) refl refl
      (verify_password-hash_password shifting (codes "salt") (codes "open sesame")
        shifting-Base64Laws length-digest)
      refl

-- a script with the token that root has made
abbrev script : Request
script = record post { authorization = codes "Bearer fh_secret" }

authenticate-handle_create_token_example :
    (authenticate platform clock script
      (handle_create_token platform world (some (codes "Alarm")) as_root (server_with [])).0).1
    ≡ some (record {
      user = token_user (new_token platform world as_root (clean_text (codes "Alarm") 60));
      via_token = true;
      session = [];
    })
unfolding clean_text use_token starts_with trim_space trim_left trim_right is_space
authenticate-handle_create_token_example =
    authenticate-handle_create_token platform world clock (codes "Alarm") as_root script
      (server_with []) refl refl refl refl

-- a server with that token and another one
abbrev alarm : Token
alarm = new_token platform world as_root (codes "Alarm")

abbrev two_tokens : App
two_tokens = record (server_with []) {
  store = record ((server_with []).store) {
    state = record state {
      tokens = alarm ∷ record alarm { id = codes "a3"; hash = codes "x" } ∷ [];
    };
  };
}

abbrev as_alarm : Identity
as_alarm = record { user = token_user alarm; via_token = true; session = [] }

authenticate-handle_delete_token_example : as_alarm.user.id ≢ codes "token:" ++ codes "a3"
unfolding handle_delete_token save flush collect write_files authenticate by_token hash_token hex
    use_token text_eq starts_with trim_space trim_left trim_right is_space
authenticate-handle_delete_token_example =
    authenticate-handle_delete_token platform world clock (codes "a3") script two_tokens as_alarm
      refl refl
