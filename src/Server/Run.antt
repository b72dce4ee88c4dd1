-- ===== src/Server/Run.antt =====
-- `runServer` of server/main.go: what happens before the first request and after the last one; and
-- `resetPassword`. Log lines and what is printed are left out.
pub mod Signin
pub mod Restart
pub mod Storing
use stem_computing_desktop_p.Prelude.{
  Bool, true, false, not, ◌&&◌, ◌||◌, Option, none, some, List, [], if◌then◌else◌, is_empty,
  is_none, modify_first,
}
use stem_computing_desktop_p.Text.{Text, equal_fold}
use stem_computing_desktop_p.Platform.{Platform}
use stem_computing_desktop_p.Model.{Time, User, State, Store}
use stem_computing_desktop_p.Store.{user_by_name, open_store}
use stem_computing_desktop_p.Store.Flush.{Disk, File, flush}
use stem_computing_desktop_p.Auth.Password.{hash_password}
use stem_computing_desktop_p.App.{App, Config, wake, with_store}
use stem_computing_desktop_p.Console.Users.{with_users}
use stem_computing_desktop_p.Server.Config.{Reading, ConfigError, load_config}
use stem_computing_desktop_p.Server.Bootstrap.{FirstRun, bootstrap}

-- The computer that the server starts on. `reads_data` says whether loadJSON can read the three files.
pub record Host : Type 0 where
  pub makes_folder : Bool
  pub reading : Reading
  pub unmarshal : Text → Config → Option Config
  pub writes_config : Bool
  pub reads_data : Bool
  pub first_run : FirstRun
  pub listens : Text → Bool
  pub loads_certificate : Text → Text → Bool

pub data StartError : Type 0 where
  no_folder no_data not_set_up port_taken bad_certificate : StartError
  bad_config : ConfigError → StartError

-- An error with the files as they are then, or a server that takes requests.
pub data Start : Type 0 where
  failed : StartError → Disk → Start
  serving : App → Start

-- openStore, on the files
abbrev pub opened : Disk → Store
opened disk = open_store disk.state disk.alerts disk.clients

-- the new App
abbrev pub new_app : Config → Disk → App
new_app cfg disk = record {
  cfg = cfg;
  store = opened disk;
  disk = disk;
  sessions = [];
  throttle = [];
  wakes = 0;
  closing = false;
}

abbrev pub with_override : Text → Config → Config
with_override listen cfg = if is_empty listen then cfg else record cfg { listen = listen }

-- `runServer` from the listener on
unfoldable pub listen_on : Host → App → Start
listen_on h a =
    if not (h.listens a.cfg.listen)
    then failed port_taken a.disk
    else if not (is_empty a.cfg.tls_cert) && not (h.loads_certificate a.cfg.tls_cert a.cfg.tls_key)
    then failed bad_certificate a.disk
    else serving a

-- `runServer` from the opened data to the listener
unfoldable pub set_up : Platform → Host → Config → Disk → Start
unfolding bootstrap listen_on
set_up e h cfg disk =
    let (a, _, done) = bootstrap e h.first_run (new_app cfg disk) in
    if done then listen_on h a else failed not_set_up a.disk

-- `runServer` up to its first request
unfoldable pub start : Platform → Host → Text → Disk → Start
unfolding load_config set_up
start e h listen disk =
    let (cfg, err) = load_config h.unmarshal h.writes_config h.reading in
    if not h.makes_folder then failed no_folder disk else elim err [
      | some x ↦ failed (bad_config x) disk
      | none ↦
          if not h.reads_data
          then failed no_data disk
          else set_up e h (with_override listen cfg) disk
    ]

-- `runServer` when its context is cancelled
abbrev pub begin_stop : App → App
begin_stop a = wake (record a { closing = true })

-- and when the requests that were open then have ended, or their time is over
unfoldable pub end_stop : (File → Bool) → Time → App → App × Bool
unfolding flush
end_stop fails now a =
    let (s, disk, done) = flush fails now (record a.store { dirty_clients = true }) a.disk in
    (record a { store = s; disk = disk }, done)

pub data Reset : Type 0 where
  running unreadable no_account not_saved : Reset
  -- the temporary password
  reset_to : Text → Reset

-- the account with a temporary password
abbrev pub reset_account : Platform → FirstRun → User → User
reset_account e f u = record u {
  pass_hash = hash_password e f.salt f.password;
  must_change = true;
  disabled = false;
}

-- the write of `resetPassword` through the pointer to the account of this name
abbrev pub with_reset : Platform → FirstRun → Text → Store → Store
with_reset e f name s = record s {
  state =
      with_users
        (modify_first (λ (u : User). equal_fold e.unicode u.username name) (reset_account e f)
          s.state.users)
        s.state;
  dirty_state = true;
}

-- whether the port is in use, as far as the configuration can be read
abbrev pub looks_running : Host → Bool
looks_running h =
    let (cfg, err) = load_config h.unmarshal h.writes_config h.reading in
    is_none err && not (h.listens cfg.listen)

-- resetPassword
unfoldable pub reset_password : Platform → Host → Text → Disk → Disk × Reset
unfolding user_by_name hash_password flush
reset_password e h name disk =
    let f = h.first_run in
    if looks_running h
    then (disk, running)
    else if not h.reads_data
    then (disk, unreadable)
    else elim (user_by_name e.unicode disk.state.users name) [
      | none ↦ (disk, no_account)
      | some _ ↦
          let (_, disk', done) = flush f.fails f.now (with_reset e f name (opened disk)) disk in
          (disk', if done then reset_to f.password else not_saved)
    ]
