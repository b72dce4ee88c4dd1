-- ===== src/Server/Bootstrap.antt =====
-- `bootstrap` and `starterTemplates` of server/main.go: the first administrator and the client key of
-- a new install.
pub mod Ready
use stem_computing_desktop_p.Prelude.{
  ℕ, Bool, true, false, not, ◌&&◌, Option, none, some, List, [], ◌∷◌, ◌++◌, if◌then◌else◌, is_empty,
  String,
}
use stem_computing_desktop_p.Prelude.Int.{pos}
use stem_computing_desktop_p.Text.{Text, codes}
use stem_computing_desktop_p.Platform.{Platform}
use stem_computing_desktop_p.Model.{Time, User, Target, Template, State, Store}
use stem_computing_desktop_p.Store.Flush.{File, flush}
use stem_computing_desktop_p.Auth.Password.{hash_password}
use stem_computing_desktop_p.App.{App, with_store}

-- What a start brings from outside: the clock, what the random source gives, and which files can be
-- written.
pub record FirstRun : Type 0 where
  pub now : Time
  pub client_key : Text
  pub password : Text
  pub salt : List ℕ
  pub user_id : Text
  pub template_ids : Text × Text × Text × Text
  pub fails : File → Bool
  -- whether FIRST-RUN.txt can be written
  pub writes_details : Bool

abbrev no_audience : Target
no_audience = record { all = false; group_ids = []; rules = [] }

-- `mk` of `starterTemplates`
abbrev pub make_template :
    Text → String → String → String → String → String → Bool → Bool → ℕ → Template
make_template id name title message level display ack sound secs = record {
  id = id;
  name = codes name;
  spec = record {
    title = codes title;
    message = codes message;
    level = codes level;
    display = codes display;
    require_ack = ack;
    display_seconds = pos secs;
    sound = sound;
    link = [];
    expires_minutes = pos 10;
    target = no_audience;
  };
}

-- starterTemplates
unfoldable pub starter_templates : Text × Text × Text × Text → List Template
starter_templates (a, b, c, d) =
    make_template a "Save your work" "Save your work"
      "This session ends in 5 minutes. Save your work and log off when you are done." "info"
      "corner" false false 60
    ∷ make_template b "Eyes to the front" "Eyes to the front, please"
        "Stop what you are doing and look at the front of the room." "warning" "center" false true 0
    ∷ make_template c "Planned restart" "This computer will restart soon"
        "IT are restarting computers in this room in 10 minutes to install updates. Save your work now."
        "warning" "center" true true 0
    ∷ make_template d "Evacuate" "Leave the building now"
        "Leave by the nearest exit and go to your assembly point. Do not stop to collect belongings."
        "critical" "fullscreen" true true 0
    ∷ []

-- the first administrator
abbrev pub first_admin : Platform → FirstRun → User
first_admin e f = record {
  id = f.user_id;
  username = codes "admin";
  display_name = codes "Administrator";
  role = codes "admin";
  pass_hash = hash_password e f.salt f.password;
  must_change = true;
  disabled = false;
  allowed_group_ids = [];
  created_at = f.now;
  last_login = 0;
}

-- the first locked part of `bootstrap`
abbrev pub with_key : FirstRun → Store → Store
with_key f s =
    if is_empty s.state.settings.client_key
    then record s {
      state = record (s.state) {
        settings = record (s.state.settings) { client_key = f.client_key };
      };
      dirty_state = true;
    }
    else s

-- the second locked part of `bootstrap`
unfoldable pub with_admin : Platform → FirstRun → Store → Store
unfolding hash_password starter_templates
with_admin e f s = record s {
  state = record (s.state) {
    users = s.state.users ++ first_admin e f ∷ [];
    templates =
        if is_empty s.state.templates then starter_templates f.template_ids else s.state.templates;
  };
  dirty_state = true;
}

-- What FIRST-RUN.txt tells of.
pub record Details : Type 0 where
  pub username : Text
  pub password : Text
  pub client_key : Text

abbrev pub details : FirstRun → Store → Details
details f s = record {
  username = codes "admin";
  password = f.password;
  client_key = s.state.settings.client_key;
}

abbrev pub flushed : FirstRun → App → App × Bool
flushed f a =
    let (s, disk, done) = flush f.fails f.now a.store a.disk in
    (record a { store = s; disk = disk }, done)

-- bootstrap: the details that are written, if any, and whether it returns nil
unfoldable pub bootstrap : Platform → FirstRun → App → App × Option Details × Bool
unfolding with_admin flush
bootstrap e f a =
    let s = with_key f a.store in
    let (b, done) = flushed f (with_store a s) in
    let s' = with_admin e f s in
    let (b', done') = flushed f (with_store a s') in
    if not (is_empty a.store.state.users)
    then (b, none, done)
    else if f.writes_details
    then (b', some (details f s'), done')
    else (with_store a s', none, false)
