-- ===== src/Server/Traffic/Lifetime.antt =====
-- The server from one start to the next: what holds of its answers and its files however often it is
-- started, stopped and killed.
use stem_computing_desktop_p.Prelude.{
  ◌≡◌, refl, inl, inr, Bool, true, false, not, List, Option-cases, if_cases, [], ◌∷◌, arith,
}
use stem_computing_desktop_p.Text.{Text}
use stem_computing_desktop_p.Platform.{Platform}
use stem_computing_desktop_p.Model.{Time, Alert, Store}
use stem_computing_desktop_p.Store.{user_by_name, open_store}
use stem_computing_desktop_p.Store.Flush.{Disk, File, flush, collect, write_files}
use stem_computing_desktop_p.App.{App, World, Config, save, with_store}
use stem_computing_desktop_p.Server.Run.{
  Host, StartError, failed, serving, opened, new_app, start, end_stop, Reset, with_reset,
  looks_running, reset_password,
}
use stem_computing_desktop_p.Server.Run.Storing.{Whole}
use stem_computing_desktop_p.Server.Run.Storing.Always.{All-AllWhole}
use stem_computing_desktop_p.Server.Serve.{Json}
use stem_computing_desktop_p.History.{All, Stable}
use stem_computing_desktop_p.Server.Traffic.{Reach, here, next, notes, saves}
use stem_computing_desktop_p.Server.Traffic.Serving.{Life, Life-Reach, append}
use stem_computing_desktop_p.Server.Traffic.Kept.{Everywhere, Made, Reach-Everywhere}
use stem_computing_desktop_p.Server.Traffic.Starting.{
  start_config, start-Reach, start-files, opened-All,
}

-- The files that a series of runs leaves: starts that fail, runs that are killed, runs that are stopped
-- with whatever files can be written then, and passwords that are reset in between.
pub data Left (j : Json) (e : Platform) (Fresh : World → Type 0) (disk : Disk) : Disk → Type 0 where
  untouched : Left j e Fresh disk disk
  not_started :
      (h : Host) (listen : Text) (x : StartError) {d d' : Disk}
      → Left j e Fresh disk d
      → start e h listen d ≡ failed x d'
      → Left j e Fresh disk d'
  killed :
      (h : Host) (listen : Text) {d : Disk} {a b : App}
      → Left j e Fresh disk d
      → start e h listen d ≡ serving a
      → Life j e Fresh a b
      → Left j e Fresh disk b.disk
  stopped :
      (h : Host) (listen : Text) (fails : File → Bool) (now : Time) {d : Disk} {a b : App}
      → Left j e Fresh disk d
      → start e h listen d ≡ serving a
      → Life j e Fresh a b
      → Left j e Fresh disk (end_stop fails now b).0.disk
  password_reset :
      (h : Host) (name : Text) {d : Disk}
      → Left j e Fresh disk d
      → Left j e Fresh disk (reset_password e h name d).0

clean-flush :
    (fails : File → Bool) (now : Time) (s : Store) (disk : Disk)
    → s.dirty_alerts ≡ false
    → (flush fails now s disk).1.alerts ≡ disk.alerts
unfolding flush collect write_files
clean-flush fails now s disk d = ground (arith, d)

reset_password-alerts :
    (e : Platform) (h : Host) (name : Text) (disk : Disk)
    → (reset_password e h name disk).0.alerts ≡ disk.alerts
unfolding reset_password open_store
reset_password-alerts e h name disk =
    let f = h.first_run in
    let same = clean-flush f.fails f.now (with_reset e f name (opened disk)) disk refl in
    if_cases (λ (x : Disk × Reset). x.0.alerts ≡ disk.alerts) (looks_running h) _ _ (λ _. refl)
      (λ _.
        if_cases (λ (x : Disk × Reset). x.0.alerts ≡ disk.alerts) (not h.reads_data) _ _ (λ _. refl)
          (λ _. elim (Option-cases (user_by_name e.unicode disk.state.users name)) [
            | inl n ↦ rw (n) refl
            | inr (u, k) ↦ rw (k) same
          ]))

pub All-map :
    (P Q : Alert → Type 0)
    → ((a : Alert) → P a → Q a)
    → (alerts : List Alert) → All P alerts
    → All Q alerts
All-map P Q f [] h = tt
All-map P Q f (a ∷ alerts) h = (f a h.0, All-map P Q f alerts h.1)

-- A world with this clock, these failures and this id.
abbrev pub world_with : Time → (File → Bool) → Text → World
world_with now fails id = record { now = now; new_id = id; secret = []; salt = []; fails = fails }

module _ {e : Platform} {Fresh : World → Type 0} (spare : Text)
    (free : (w : World) → w.new_id ≡ spare → Fresh w) where
  -- A run of the server, from the files that it reads.
  run-Reach :
      {j : Json} (h : Host) (listen : Text) (disk : Disk) {a b : App}
      → start e h listen disk ≡ serving a
      → Life j e Fresh a b
      → Reach e Fresh (new_app (start_config h listen) disk) b
  run-Reach h listen disk {a = a} k l =
      let f = h.first_run in
      let w = world_with f.now f.fails spare in
      append e Fresh
        (start-Reach e Fresh h listen disk w (record { now = refl; fails = refl }) (free w refl) a
          k)
        (Life-Reach e Fresh l)

  end_stop-Reach :
      (fails : File → Bool) (now : Time) (a : App) → Reach e Fresh a (end_stop fails now a).0
  unfolding end_stop save
  end_stop-Reach fails now a =
      let w = world_with now fails spare in
      let b = with_store a (record a.store { dirty_clients = true }) in
      next
        (next here (
          notes {b = b} (record {
            alerts = refl;
            clients = refl;
            heap = refl;
            dirty_alerts = refl;
            disk = refl;
            wakes = omega arith;
            state = inr (refl, refl);
          })))
        (saves w b (free w refl))

  module _ (P : Alert → Type 0) (stable : Stable P) (made : Made P Fresh)
      (whole : (a : Alert) → P a → Whole a) where
    -- What every run keeps of each alert, in memory and on the disk.
    pub run-Everywhere :
        (cfg : Config) (disk : Disk) {b : App}
        → Reach e Fresh (new_app cfg disk) b
        → All P disk.alerts
        → Everywhere P b
    run-Everywhere cfg disk r h =
        let k = All-AllWhole disk.alerts (All-map P Whole whole disk.alerts h) in
        Reach-Everywhere P stable made r (opened-All P disk k h, h)

    pub Left-All :
        {j : Json} {disk d : Disk} → Left j e Fresh disk d → All P disk.alerts → All P d.alerts
    Left-All untouched h = h
    Left-All (not_started o listen x {d} l k) h =
        let f = o.first_run in
        let w = world_with f.now f.fails spare in
        elim (start-files e Fresh o listen d w (record { now = refl; fails = refl }) (free w refl) x
          _ k) [
            | inl same ↦ rw same (Left-All l h)
            | inr (b, r, same) ↦
                rw same (run-Everywhere (start_config o listen) d r (Left-All l h)).1
          ]
    Left-All (killed o listen {d} l k life) h =
        (run-Everywhere (start_config o listen) d (run-Reach o listen d k life) (Left-All l h)).1
    Left-All (stopped o listen fails now {d} {b = b} l k life) h =
        (run-Everywhere (start_config o listen) d
          (append e Fresh (run-Reach o listen d k life) (end_stop-Reach fails now b))
          (Left-All l h)).1
    Left-All (password_reset o name {d} l) h = rw (reset_password-alerts e o name d) (Left-All l h)

    -- And through any number of runs before it.
    pub Life-All :
        {j : Json} {disk d : Disk} {a b : App} (h : Host) (listen : Text)
        → Left j e Fresh disk d
        → start e h listen d ≡ serving a
        → Life j e Fresh a b
        → All P disk.alerts
        → All P b.store.alerts
    Life-All {d = d} h listen l k life p =
        (run-Everywhere (start_config h listen) d (run-Reach h listen d k life) (Left-All l p)).0
