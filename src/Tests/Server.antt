-- ===== src/Tests/Server.antt =====
-- The server's start, its requests and its end at concrete inputs.
use stem_computing_desktop_p.Prelude.{
  arith, take, ◌++◌, replicate, length-take, length-append, ◌≡◌, refl, true, false, none, some, [],
  ◌∷◌, ◌*◌,
}
use stem_computing_desktop_p.Text.{
  codes, text_eq, equal_fold, trim_space, trim_left, trim_right, is_space,
}
use stem_computing_desktop_p.Model.{State, User, Store}
use stem_computing_desktop_p.Store.{compact, open_store, user_by_name}
use stem_computing_desktop_p.Store.Flush.{Disk, collect, flush}
use stem_computing_desktop_p.Store.Flush.Lost.{no_failure}
use stem_computing_desktop_p.Store.Flush.Overlap.{appended, overlapped, flush_overlap}
use stem_computing_desktop_p.App.{App, reply}
use stem_computing_desktop_p.Console.Login.{handle_login}
use stem_computing_desktop_p.Console.Users.{UserView, view_user}
use stem_computing_desktop_p.Server.Serve.{Json, Call, serve}
use stem_computing_desktop_p.Server.Serve.Rights.AdminOnly.{Permitted, serve-rights}
use stem_computing_desktop_p.Server.Config.{default_config, missing}
use stem_computing_desktop_p.Server.Bootstrap.{FirstRun, Details, bootstrap}
use stem_computing_desktop_p.Server.Bootstrap.Ready.{IsReady, bootstrap_twice}
use stem_computing_desktop_p.Server.Run.{Host, new_app, start, reset_account, reset_password}
use stem_computing_desktop_p.Server.Run.Signin.{start_config, start-sign_in, reset_password-sign_in}
use stem_computing_desktop_p.Poll.{PollRequest}
use stem_computing_desktop_p.Platform.{Platform}
use stem_computing_desktop_p.Server.Run.Storing.Keys.{Sha1Law}
use stem_computing_desktop_p.Tests.Data.{
  platform, shifting, length-digest, shifting-Base64Laws, clock, fire_drill, root, reception, state,
  store_with, disk_with, server_with, world, post,
}

-- a body with the name of a token
abbrev pub json : Json
json = record {
  poll = λ b. none;
  login = λ b. none;
  password = λ b. none;
  alert = λ b. none;
  target = λ b. none;
  group = λ b. none;
  template = λ b. none;
  user = λ b. none;
  org_name = λ b. none;
  token_name = λ b. some (codes "Alarm");
}

-- root's browser asks for a token
abbrev pub ask_token : Call
ask_token = record {
  request = post;
  path = codes "api" ∷ codes "tokens" ∷ [];
  limit = [];
  body = [];
}

serve-rights_example :
    Permitted clock post (server_with []) (serve json platform world ask_token (server_with [])).0
serve-rights_example = serve-rights json platform world ask_token (server_with [])

abbrev pub first_run : FirstRun
first_run = record {
  now = clock;
  client_key = codes "key";
  password = codes "abcd-efgh-jkmn-pqrs";
  salt = codes "salt";
  user_id = codes "u1";
  template_ids = (codes "t1", codes "t2", codes "t3", codes "t4");
  fails = λ f. false;
  writes_details = true;
}

abbrev empty_state : State
empty_state = record {
  settings = record { org_name = []; client_key = [] };
  users = [];
  tokens = [];
  groups = [];
  templates = [];
}

-- a folder without files
abbrev pub new_disk : Disk
new_disk = record { state = empty_state; alerts = []; clients = [] }

abbrev pub host : Host
host = record {
  makes_folder = true;
  reading = missing;
  unmarshal = λ t cfg. none;
  writes_config = true;
  reads_data = true;
  first_run = first_run;
  listens = λ l. true;
  loads_certificate = λ c k. false;
}

-- the server after its first start
abbrev pub installed : App
installed = (bootstrap shifting first_run (new_app default_config new_disk)).0

bootstrap_twice_example :
    IsReady installed.store.state
    × ((bootstrap shifting first_run installed).0.store.state ≡ installed.store.state)
bootstrap_twice_example =
    bootstrap_twice shifting first_run first_run (new_app default_config new_disk) installed
      (λ e. absurd (cc)) refl

start-sign_in_example :
    (d : Details) × (v : UserView) × ((bootstrap shifting first_run
        (new_app (start_config host []) new_disk)).1
      ≡ some d)
    × ((handle_login shifting world post
          (some (record { username = d.username; password = d.password }))
          installed).1
        ≡ reply 200 (v, codes "secret"))
    × (v.role ≡ codes "admin")
    × (v.must_change ≡ true)
unfolding start open_store
start-sign_in_example =
    start-sign_in shifting host [] new_disk world post installed shifting-Base64Laws length-digest
      refl refl refl

-- reception's account is disabled, and its password lost
abbrev lost : User
lost = record reception { disabled = true }

abbrev lost_disk : Disk
lost_disk = record { state = record state { users = root ∷ lost ∷ [] }; alerts = []; clients = [] }

-- what `resetPassword` leaves on the disk
abbrev reset_disk : Disk
reset_disk = (reset_password shifting host (codes "reception") lost_disk).0

abbrev reopened : App
reopened = (bootstrap shifting first_run (new_app default_config reset_disk)).0

reset_password-sign_in_example :
    (handle_login shifting world post
      (some (record { username = codes "reception"; password = first_run.password }))
      reopened).1
    ≡ reply 200 (
      view_user (record (reset_account shifting first_run lost) { last_login = clock }),
      codes "secret",
    )
unfolding start open_store reset_password user_by_name equal_fold text_eq trim_space trim_left
    trim_right is_space
reset_password-sign_in_example =
    reset_password-sign_in shifting host host [] (codes "reception") first_run.password lost_disk
      reset_disk lost world post reopened shifting-Base64Laws length-digest refl refl refl refl refl

-- an alert is sent between two calls of `flush`
abbrev unsaved : Store
unsaved = record (store_with []) { dirty_alerts = true }

flush_overlap_example :
    let (s', disk') = overlapped clock (fire_drill []) unsaved (disk_with []) in
    let (s'', disk'', done) = flush no_failure (2 * clock) s' disk' in
    (done ≡ true)
    × (disk''.alerts ≡ [])
    × (s''.alerts ≡ (compact clock (appended (fire_drill []) (collect clock unsaved).0)).alerts)
unfolding compact
flush_overlap_example = flush_overlap clock (2 * clock) (fire_drill []) unsaved (disk_with []) refl

-- SHA-1 as 20 runes of the text
abbrev pub twenty : Platform
twenty = record platform { sha1 = λ s. take 20 (s ++ replicate 20 0) }

pub twenty-Sha1Law : Sha1Law twenty
twenty-Sha1Law s =
    omega (arith, length-take 20 (s ++ replicate 20 0), length-append s (replicate 20 0))

-- a computer says hello
abbrev pub hello : PollRequest
hello = record {
  client = record {
    hostname = codes "LAB-07";
    user = codes "bob";
    domain = [];
    ou = [];
    groups = [];
    version = [];
    os = [];
    sid = codes "s1";
  };
  events = [];
  wait = true;
}
