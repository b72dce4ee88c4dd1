-- ===== src/Server/Traffic/Starting.antt =====
-- A start of the server, as steps from the store that it has read.
use stem_computing_desktop_p.Prelude.{
  ◌≡◌, refl, sym, ◌⊎◌, inl, inr, Bool, not, Option, arith, is_empty, Bool-cases, Option-cases,
  if_cases,
}
use stem_computing_desktop_p.Text.{Text}
use stem_computing_desktop_p.Platform.{Platform}
use stem_computing_desktop_p.Model.{Alert, Store}
use stem_computing_desktop_p.Store.{open_store}
use stem_computing_desktop_p.Store.Flush.{Disk}
use stem_computing_desktop_p.Store.Reopen.{AllWhole, restore_alerts-whole}
use stem_computing_desktop_p.App.{App, Config, World, save, with_store}
use stem_computing_desktop_p.Server.Config.{load_config}
use stem_computing_desktop_p.Server.Bootstrap.{
  FirstRun, Details, with_key, with_admin, flushed, bootstrap,
}
use stem_computing_desktop_p.Server.Run.{
  Host, StartError, failed, serving, opened, new_app, listen_on, set_up, start, with_override,
}
use stem_computing_desktop_p.History.{All}
use stem_computing_desktop_p.Server.Traffic.{Noted, saves, notes, Reach, here, next}
use stem_computing_desktop_p.Server.Traffic.Synced.{InStep}

-- What a request has of the clock and the failures of a start.
pub record AtStart (f : FirstRun) (w : World) : Type 0 where
  pub now : w.now ≡ f.now
  pub fails : w.fails ≡ f.fails

flushed-save : (f : FirstRun) (w : World) (a : App) → AtStart f w → save w a ≡ (flushed f a).0
unfolding save
flushed-save f w a h = rw (h.now, h.fails) refl

with_key-Noted : (f : FirstRun) (a : App) → Noted a (with_store a (with_key f a.store))
with_key-Noted f a =
    if_cases (λ (s : Store). Noted a (with_store a s)) (is_empty a.store.state.settings.client_key)
      _ _
      (λ _. record {
        alerts = refl;
        clients = refl;
        heap = refl;
        dirty_alerts = refl;
        disk = refl;
        wakes = omega arith;
        state = inl refl;
      })
      (λ _. record {
        alerts = refl;
        clients = refl;
        heap = refl;
        dirty_alerts = refl;
        disk = refl;
        wakes = omega arith;
        state = inr (refl, refl);
      })

with_admin-Noted :
    (e : Platform) (f : FirstRun) (a : App) (s : Store)
    → Noted (with_store a s) (with_store a (with_admin e f s))
unfolding with_admin
with_admin-Noted e f a s = record {
  alerts = refl;
  clients = refl;
  heap = refl;
  dirty_alerts = refl;
  disk = refl;
  wakes = omega arith;
  state = inl refl;
}

bootstrap-Reach :
    (e : Platform) (Fresh : World → Type 0) (f : FirstRun) (w : World) (a : App)
    → AtStart f w
    → Fresh w
    → Reach e Fresh a (bootstrap e f a).0
unfolding bootstrap
bootstrap-Reach e Fresh f w a h k =
    let s = with_key f a.store in
    let s' = with_admin e f s in
    let keyed : Reach e Fresh a (with_store a s) = next here (notes (with_key-Noted f a)) in
    let ready : Reach e Fresh a (with_store a s') = next keyed (notes (with_admin-Noted e f a s)) in
    let written : (b : App) → Reach e Fresh a b → Reach e Fresh a (flushed f b).0 =
      λ b r. rw (flushed-save f w b h) at (next r (saves w b k)) in
    if_cases (λ (x : App × Option Details × Bool). Reach e Fresh a x.0)
      (not (is_empty a.store.state.users)) _ _ (λ _. written (with_store a s) keyed)
      (λ _.
        if_cases (λ (x : App × Option Details × Bool). Reach e Fresh a x.0) f.writes_details _ _
          (λ _. written (with_store a s') ready) (λ _. ready))

listen_on-disk : (h : Host) (a b : App) → listen_on h a ≡ serving b → b ≡ a
unfolding listen_on
listen_on-disk h a b k = ground arith

listen_on-failed :
    (h : Host) (a : App) (x : StartError) (d : Disk) → listen_on h a ≡ failed x d → d ≡ a.disk
unfolding listen_on
listen_on-failed h a x d k = ground arith

set_up-serving :
    (e : Platform) (h : Host) (cfg : Config) (disk : Disk) (a : App)
    → set_up e h cfg disk ≡ serving a
    → a ≡ (bootstrap e h.first_run (new_app cfg disk)).0
unfolding set_up
set_up-serving e h cfg disk a k =
    let r = bootstrap e h.first_run (new_app cfg disk) in
    elim (Bool-cases r.2) [
      | inl y ↦ listen_on-disk h r.0 a (ground (arith, y))
      | inr n ↦ absurd (ground (arith, n))
    ]

set_up-failed :
    (e : Platform) (h : Host) (cfg : Config) (disk : Disk) (x : StartError) (d : Disk)
    → set_up e h cfg disk ≡ failed x d
    → d ≡ (bootstrap e h.first_run (new_app cfg disk)).0.disk
unfolding set_up
set_up-failed e h cfg disk x d k =
    let r = bootstrap e h.first_run (new_app cfg disk) in
    elim (Bool-cases r.2) [
      | inl y ↦ listen_on-failed h r.0 x d (ground (arith, y))
      | inr n ↦ ground (arith, n)
    ]

-- the configuration that the server starts with
abbrev pub start_config : Host → Text → Config
start_config h listen = with_override listen (load_config h.unmarshal h.writes_config h.reading).0

start-serving :
    (e : Platform) (h : Host) (listen : Text) (disk : Disk) (a : App)
    → start e h listen disk ≡ serving a
    → a ≡ (bootstrap e h.first_run (new_app (start_config h listen) disk)).0
unfolding start
start-serving e h listen disk a k = set_up-serving e h (start_config h listen) disk a (ground arith)

start-failed :
    (e : Platform) (h : Host) (listen : Text) (disk : Disk) (x : StartError) (d : Disk)
    → start e h listen disk ≡ failed x d
    → (d ≡ disk) ⊎ (d ≡ (bootstrap e h.first_run (new_app (start_config h listen) disk)).0.disk)
unfolding start
start-failed e h listen disk x d k = elim (Bool-cases h.makes_folder) [
  | inr n ↦ inl (ground (arith, n))
  | inl y ↦ elim (Option-cases (load_config h.unmarshal h.writes_config h.reading).1) [
    | inr (z, f) ↦ inl (ground (arith, y, f))
    | inl g ↦ elim (Bool-cases h.reads_data) [
      | inr n ↦ inl (ground (arith, y, g, n))
      | inl r ↦ inr (set_up-failed e h (start_config h listen) disk x d (ground (arith, y, g, r)))
    ]
  ]
]

module _ (e : Platform) (Fresh : World → Type 0) (h : Host) (listen : Text) (disk : Disk)
    (w : World) (at : AtStart h.first_run w) (f : Fresh w) where
  pub start-Reach :
      (a : App)
      → start e h listen disk ≡ serving a
      → Reach e Fresh (new_app (start_config h listen) disk) a
  start-Reach a k =
      rw (start-serving e h listen disk a k)
        (bootstrap-Reach e Fresh h.first_run w (new_app (start_config h listen) disk) at f)

  -- A start that fails leaves the files as they were, or as some steps have left them.
  pub start-files :
      (x : StartError) (d : Disk)
      → start e h listen disk ≡ failed x d
      → (d ≡ disk)
        ⊎ ((b : App) × Reach e Fresh (new_app (start_config h listen) disk) b × (d ≡ b.disk))
  start-files x d k = elim (start-failed e h listen disk x d k) [
    | inl same ↦ inl same
    | inr left ↦
        inr (
          _,
          bootstrap-Reach e Fresh h.first_run w (new_app (start_config h listen) disk) at f,
          left,
        )
  ]

-- Alerts that are whole are read as they are.
pub opened-alerts : (disk : Disk) → AllWhole disk.alerts → (opened disk).alerts ≡ disk.alerts
unfolding open_store
opened-alerts disk h = restore_alerts-whole disk.alerts h

pub new_app-InStep : (cfg : Config) (disk : Disk) → AllWhole disk.alerts → InStep (new_app cfg disk)
unfolding open_store
new_app-InStep cfg disk h = record { state = λ _. refl; alerts = λ _. sym (opened-alerts disk h) }

pub opened-All :
    (P : Alert → Type 0) (disk : Disk)
    → AllWhole disk.alerts
    → All P disk.alerts
    → All P (opened disk).alerts
opened-All P disk h k = rw (opened-alerts disk h) k
