-- ===== src/Server/Run/Signin.antt =====
-- Who can sign in once the server has started: the first administrator, and whoever had their
-- password reset.
use stem_computing_desktop_p.Prelude.{
  ◌≡◌, refl, ◌∙◌, ap, Bool, true, false, some, List, [], ◌∷◌, arith, is_empty, length, modify_first,
  map_some, Bool-cases, inl, inr,
}
use stem_computing_desktop_p.Text.{
  Text, codes, equal_fold, trim_space, trim_left, trim_right, is_space,
}
use stem_computing_desktop_p.Text.Equality.{equal_fold_refl}
use stem_computing_desktop_p.Dict
use stem_computing_desktop_p.Platform.{Platform, Bytes}
use stem_computing_desktop_p.Model.{Time, User, Store}
use stem_computing_desktop_p.Store.{user_by_name, open_store}
use stem_computing_desktop_p.Store.Flush.{Disk, File, flush, collect, write_files}
use stem_computing_desktop_p.Auth.Password.{verify_password, hash_len}
use stem_computing_desktop_p.Auth.Password.Stored.{Base64Laws, verify_password-hash_password}
use stem_computing_desktop_p.Auth.Throttle.{blocked}
use stem_computing_desktop_p.App.{App, World, Request, Config, reply}
use stem_computing_desktop_p.Console.Login.{LoginRequest, is_locked, handle_login}
use stem_computing_desktop_p.Console.Login.Signin.{MaySignIn, handle_login_may}
use stem_computing_desktop_p.Console.Users.{UserView, view_user}
use stem_computing_desktop_p.Server.Config.{load_config}
use stem_computing_desktop_p.Server.Bootstrap.{
  FirstRun, Details, details, first_admin, with_key, with_admin, bootstrap,
}
use stem_computing_desktop_p.Server.Bootstrap.Ready.{ready_state, bootstrap-state}
use stem_computing_desktop_p.Server.Run.{
  Host, serving, opened, new_app, listen_on, set_up, start, reset_to, reset_account, with_reset,
  with_override, looks_running, reset_password,
}

bootstrap-throttle :
    (e : Platform) (f : FirstRun) (a : App) → (bootstrap e f a).0.throttle ≡ a.throttle
unfolding bootstrap
bootstrap-throttle e f a = ground arith

-- the configuration that it starts with
abbrev pub start_config : Host → Text → Config
start_config h listen = with_override listen (load_config h.unmarshal h.writes_config h.reading).0

-- The server that takes requests, and the account that its state begins with.
record Started (e : Platform) (h : Host) (disk : Disk) (a : App) : Type 0 where
  state : a.store.state ≡ ready_state e h.first_run (opened disk)
  throttle : a.throttle ≡ []

listen_on-serving : (h : Host) (a b : App) → listen_on h a ≡ serving b → b ≡ a
unfolding listen_on
listen_on-serving h a b k = ground arith

set_up-Started :
    (e : Platform) (h : Host) (cfg : Config) (disk : Disk) (a : App)
    → set_up e h cfg disk ≡ serving a
    → Started e h disk a
unfolding set_up
set_up-Started e h cfg disk a k = elim (Bool-cases (bootstrap e h.first_run (new_app cfg disk)).2) [
  | inl y ↦
      let b = (bootstrap e h.first_run (new_app cfg disk)).0 in
      let same = listen_on-serving h b a (ground (arith, y)) in
      record {
        state = rw same (bootstrap-state e h.first_run (new_app cfg disk));
        throttle = rw same (bootstrap-throttle e h.first_run (new_app cfg disk));
      }
  | inr n ↦ absurd (ground (arith, n))
]

start-Started :
    (e : Platform) (h : Host) (listen : Text) (disk : Disk) (a : App)
    → start e h listen disk ≡ serving a
    → Started e h disk a
unfolding start
start-Started e h listen disk a k =
    let cfg = (load_config h.unmarshal h.writes_config h.reading).0 in
    set_up-Started e h (with_override listen cfg) disk a (ground arith)

-- From the console, an account on record that is not disabled signs in with the right password.
may_sign_in :
    (e : Platform) (h : Host) (disk : Disk) (w : World) (r : Request) (req : LoginRequest) (a : App)
    (u : User)
    → Started e h disk a
    → is_empty r.x_foghorn ≡ false
    → user_by_name e.unicode
        (ready_state e h.first_run (opened disk)).users
        (trim_space req.username)
      ≡ some u
    → verify_password e u.pass_hash req.password ≡ true
    → u.disabled ≡ false
    → MaySignIn e w r req a u
unfolding is_locked blocked Dict.lookup
may_sign_in e h disk w r req a u s x f v d = record {
  from_console = x;
  unlocked = rw s.throttle refl;
  on_record = rw s.state f;
  right = v;
  enabled = d;
}

first_admin-found :
    (e : Platform) (f : FirstRun) (s : Store)
    → s.state.users ≡ []
    → user_by_name e.unicode (ready_state e f s).users (codes "admin") ≡ some (first_admin e f)
unfolding with_admin user_by_name
first_admin-found e f s h = ground (arith, h, equal_fold_refl e.unicode (codes "admin"))

-- A server that takes requests on a new install has written its first-run details.
start-details :
    (e : Platform) (h : Host) (listen : Text) (disk : Disk) (a : App)
    → disk.state.users ≡ []
    → start e h listen disk ≡ serving a
    → (bootstrap e h.first_run (new_app (start_config h listen) disk)).1
      ≡ some (details h.first_run (with_admin e h.first_run (with_key h.first_run (opened disk))))
unfolding start set_up bootstrap open_store
start-details e h listen disk a new k = ground (arith, new)

-- On a new install, once the server takes requests, `bootstrap` has written the first-run details, and
-- their name and password sign an administrator in from the console, where base64 can be read back and
-- the HMAC gives 32 bytes; the answer says that the password has to be changed.
pub start-sign_in :
    (e : Platform) (h : Host) (listen : Text) (disk : Disk) (w : World) (r : Request) (a : App)
    → Base64Laws e
    → ((m : Bytes) → length (e.hmac_sha256 (e.utf8 h.first_run.password) m) ≡ hash_len)
    → disk.state.users ≡ []
    → start e h listen disk ≡ serving a
    → is_empty r.x_foghorn ≡ false
    → (d : Details) × (v : UserView) × ((bootstrap e h.first_run
          (new_app (start_config h listen) disk)).1
        ≡ some d)
      × ((handle_login e w r (some (record { username = d.username; password = d.password })) a).1
          ≡ reply 200 (v, w.secret))
      × (v.role ≡ codes "admin")
      × (v.must_change ≡ true)
unfolding trim_space trim_left trim_right is_space open_store view_user
start-sign_in e h listen disk w r a b hm new k x =
    let f = h.first_run in
    let req : LoginRequest = record { username = codes "admin"; password = f.password } in
    (
      details f (with_admin e f (with_key f (opened disk))),
      view_user (record (first_admin e f) { last_login = w.now }),
      start-details e h listen disk a new k,
      handle_login_may e w r req a (first_admin e f) (
          may_sign_in e h disk w r req a (first_admin e f) (start-Started e h listen disk a k) x
            (first_admin-found e f (opened disk) new)
            (verify_password-hash_password e f.salt f.password b hm) refl),
      refl,
      refl,
    )

user_by_name-modify :
    (e : Platform) (f : FirstRun) (name : Text) (us : List User)
    → user_by_name e.unicode
        (modify_first (λ (u : User). equal_fold e.unicode u.username name) (reset_account e f) us)
        name
      ≡ map_some (reset_account e f) (user_by_name e.unicode us name)
unfolding user_by_name
user_by_name-modify e f name [] = refl
user_by_name-modify e f name (u ∷ us) = ground (arith, user_by_name-modify e f name us)

flush-state :
    (fails : File → Bool) (now : Time) (s : Store) (disk : Disk)
    → s.dirty_state ≡ true
    → (flush fails now s disk).2 ≡ true
    → (flush fails now s disk).1.state ≡ s.state
unfolding flush collect write_files
flush-state fails now s disk d k = ground (arith, d, k)

ready_state-users :
    (e : Platform) (f : FirstRun) (s : Store)
    → is_empty s.state.users ≡ false
    → (ready_state e f s).users ≡ s.state.users
ready_state-users e f s h = ground (arith, h)

reset_password-state :
    (e : Platform) (h : Host) (name : Text) (disk disk' : Disk) (pw : Text) (u : User)
    → user_by_name e.unicode disk.state.users name ≡ some u
    → reset_password e h name disk ≡ (disk', reset_to pw)
    → (disk'.state ≡ (with_reset e h.first_run name (opened disk)).state)
      × (pw ≡ h.first_run.password)
unfolding reset_password
reset_password-state e h name disk disk' pw u f k =
    let g = h.first_run in
    let s = with_reset e g name (opened disk) in
    elim (Bool-cases (looks_running h)) [
      | inl y ↦ absurd (ground (arith, y))
      | inr n ↦ elim (Bool-cases h.reads_data) [
        | inr m ↦ absurd (ground (arith, n, m))
        | inl y ↦ elim (Bool-cases (flush g.fails g.now s disk).2) [
          | inr m ↦ absurd (ground (arith, n, y, f, m))
          | inl done ↦
              let saved = flush-state g.fails g.now s disk refl done in
              (ground (arith, n, y, f, done, saved), ground (arith, n, y, f, done))
        ]
      ]
    ]

is_empty-users :
    (e : Platform) (us : List User) (name : Text) (u : User)
    → user_by_name e.unicode us name ≡ some u
    → is_empty us ≡ false
unfolding user_by_name
is_empty-users e [] name u h = cc
is_empty-users e (x ∷ us) name u h = refl

-- Once `resetPassword` has printed a temporary password for a name without spaces around it, and the
-- server has been started on the files that it left, that password signs the account in from the
-- console, though it was disabled before, where base64 can be read back and the HMAC gives 32 bytes.
pub reset_password-sign_in :
    (e : Platform) (h g : Host) (listen name pw : Text) (disk disk' : Disk) (u : User) (w : World)
    (r : Request) (a : App)
    → Base64Laws e
    → ((m : Bytes) → length (e.hmac_sha256 (e.utf8 h.first_run.password) m) ≡ hash_len)
    → trim_space name ≡ name
    → user_by_name e.unicode disk.state.users name ≡ some u
    → reset_password e h name disk ≡ (disk', reset_to pw)
    → start e g listen disk' ≡ serving a
    → is_empty r.x_foghorn ≡ false
    → (handle_login e w r (some (record { username = name; password = pw })) a).1
      ≡ reply 200
          (view_user (record (reset_account e h.first_run u) { last_login = w.now }), w.secret)
unfolding open_store
reset_password-sign_in e h g listen name pw disk disk' u w r a b hm t f reset k x =
    let req : LoginRequest = record { username = name; password = pw } in
    let (left, same) = reset_password-state e h name disk disk' pw u f reset in
    let found : user_by_name e.unicode disk'.state.users name
        ≡ some (reset_account e h.first_run u) =
      rw left (
        user_by_name-modify e h.first_run name disk.state.users
        ∙ ap (map_some (reset_account e h.first_run)) f) in
    handle_login_may e w r req a (reset_account e h.first_run u) (
      may_sign_in e g disk' w r req a (reset_account e h.first_run u)
        (start-Started e g listen disk' a k) x
        (rw t (
          rw
            (ready_state-users e g.first_run (opened disk')
              (is_empty-users e disk'.state.users name (reset_account e h.first_run u) found))
            found))
        (rw same (verify_password-hash_password e h.first_run.salt h.first_run.password b hm)) refl)
