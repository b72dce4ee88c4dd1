-- ===== src/Server/Traffic/Durable.antt =====
-- What outlasts the end of the server, in whatever way it ends.
use stem_computing_desktop_p.Prelude.{◌≡◌, refl, true, List, [], ◌∷◌, arith, all, map_some}
use stem_computing_desktop_p.Text.{Text}
use stem_computing_desktop_p.Platform.{Platform}
use stem_computing_desktop_p.Model.{Time, Alert, AlertSpec, User, Group}
use stem_computing_desktop_p.Store.{totals}
use stem_computing_desktop_p.Store.Flush.{Disk}
use stem_computing_desktop_p.Store.Flush.Lost.{no_failure}
use stem_computing_desktop_p.Store.Reopen.Clients.{client_at, offline}
use stem_computing_desktop_p.Delivery.Coherent.{AlertCoherent, TotalsOrdered}
use stem_computing_desktop_p.App.{App, World}
use stem_computing_desktop_p.Console.Alerts.{new_alert}
use stem_computing_desktop_p.History.{All, Stable}
use stem_computing_desktop_p.History.Answered.{Answered}
use stem_computing_desktop_p.History.Ordered.{coherent_stable, new_alert-AlertCoherent, All-totals}
use stem_computing_desktop_p.Server.Serve.{Json}
use stem_computing_desktop_p.Server.Run.{Host, serving, opened, start, end_stop}
use stem_computing_desktop_p.Server.Run.Restart.{Storable, end_stop-opened}
use stem_computing_desktop_p.Server.Run.Storing.{Whole, Whole-Stable}
use stem_computing_desktop_p.Server.Run.Storing.Keys.{Sha1Law}
use stem_computing_desktop_p.Server.Run.Storing.Always.{is_readable, All-AllWhole, Reach-Storable}
use stem_computing_desktop_p.Server.Traffic.{Reach, here, next}
use stem_computing_desktop_p.Server.Traffic.Serving.{Life, Life-Reach, append}
use stem_computing_desktop_p.Server.Traffic.Kept.{Reach-Everywhere, Reach-Storing}
use stem_computing_desktop_p.Server.Traffic.Synced.{InStep, Step-InStep}
use stem_computing_desktop_p.Server.Traffic.Starting.{
  start_config, start-Reach, new_app-InStep, opened-All,
}
use stem_computing_desktop_p.Server.Traffic.Lifetime.{Left, All-map, world_with, Life-All, Left-All}

both-Stable : (P Q : Alert → Type 0) → Stable P → Stable Q → Stable (λ a. P a × Q a)
both-Stable P Q p q = record {
  lasting = record {
    reported = λ a cid ev now d e h.
        (p.lasting.reported a cid ev now d e h.0, q.lasting.reported a cid ev now d e h.1);
    sent = λ a c now h. (p.lasting.sent a c now h.0, q.lasting.sent a c now h.1);
    told = λ a cid d e h. (p.lasting.told a cid d e h.0, q.lasting.told a cid d e h.1);
    archived = λ a now h. (p.lasting.archived a now h.0, q.lasting.archived a now h.1);
  };
  marked = λ a by now h. (p.marked a by now h.0, q.marked a by now h.1);
}

new_alert-Whole :
    (w : World) (u : User) (groups : List Group) (spec : AlertSpec)
    → Whole (new_alert w u groups spec)
unfolding new_alert
new_alert-Whole w u groups spec = refl

-- Whole and coherent.
abbrev pub Sound : Alert → Type 0
Sound a = Whole a × AlertCoherent a

Sound-Stable : Stable Sound
Sound-Stable = both-Stable Whole AlertCoherent Whole-Stable coherent_stable

new_alert-Sound :
    (w : World) (u : User) (groups : List Group) (spec : AlertSpec)
    → Sound (new_alert w u groups spec)
new_alert-Sound w u groups spec =
    (new_alert-Whole w u groups spec, new_alert-AlertCoherent w u groups spec)

-- Nothing is known of a request's world.
abbrev pub Any : World → Type 0
Any w = Unit {0}

-- Every write succeeds.
abbrev pub Written : World → Type 0
Written w = w.fails ≡ no_failure

-- Through whatever runs of the server and whatever requests, no alert counts more people who confirmed it
-- than saw it, nor more who saw it than it was sent to, if in the files at the start every delivery that is
-- acknowledged counts as seen and as closed, the totals of an alert without deliveries are in that order,
-- and each alert has its deliveries or its totals, and not both.
pub Life-totals :
    (j : Json) (e : Platform) (h : Host) (listen : Text) (disk d : Disk) (a b : App)
    → All Sound disk.alerts
    → Left j e Any disk d
    → start e h listen d ≡ serving a
    → Life j e Any a b
    → All (λ x. TotalsOrdered (totals x)) b.store.alerts
Life-totals j e h listen disk d a b sound l k life = All-totals b.store.alerts (
    All-map Sound AlertCoherent (λ x p. p.1) b.store.alerts
      (Life-All [] (λ w _. tt) Sound Sound-Stable (λ w u g s _. new_alert-Sound w u g s)
        (λ x p. p.0) h listen l k life sound))

Whole-readable : (alerts : List Alert) → All Whole alerts → all is_readable alerts ≡ true
Whole-readable [] h = refl
Whole-readable (a ∷ alerts) h = ground (arith, h.0, Whole-readable alerts h.1)

Reach-InStep :
    {e : Platform} {a b : App}
    → Reach e Written a b
    → All Sound a.store.alerts
    → All Sound a.disk.alerts
    → InStep a
    → InStep b
Reach-InStep here s d h = h
Reach-InStep {e = e} {a = a} (next {b} r st) s d h =
    let sound =
      (Reach-Everywhere Sound Sound-Stable (λ w u g spec _. new_alert-Sound w u g spec) r
        (s, d)).0 in
    Step-InStep (λ w f. f) st (All-map Sound AlertCoherent (λ x p. p.1) b.store.alerts sound)
      (Reach-InStep r s d h)

-- What a run of the server leaves can be written and read back, and the files are in step with it.
pub run-Saved :
    (j : Json) (e : Platform) (h : Host) (listen : Text) (d : Disk) {a b : App}
    → Sha1Law e
    → All Sound d.alerts
    → h.first_run.fails ≡ no_failure
    → start e h listen d ≡ serving a
    → Life j e Written a b
    → InStep b × Storable b.store
run-Saved j e h listen d {a} law sound written k life =
    let whole = All-map Sound Whole (λ x p. p.0) d.alerts sound in
    let f = h.first_run in
    let w = world_with f.now f.fails [] in
    let cfg = start_config h listen in
    let r =
      append e Written
        (start-Reach e Written h listen d w (record { now = refl; fails = refl }) written a k)
        (Life-Reach e Written life) in
    (
      Reach-InStep r (opened-All Sound d (All-AllWhole d.alerts whole) sound) sound
          (new_app-InStep cfg d (All-AllWhole d.alerts whole)),
      Reach-Storable e cfg d _ law (Whole-readable d.alerts whole) (Reach-Storing r),
    )

-- Where the server is started on files that any earlier runs have left, serves whatever requests come in,
-- and is stopped, and in this run each file can be written, the next start reads from the files what is in
-- memory then: the settings, accounts, tokens, groups and templates, every alert with its deliveries, and
-- every computer under its id, with no poll open. The first of the files is to hold alerts with their
-- deliveries or their totals, not both, and in order; SHA-1 is to give 20 bytes.
pub Life-opened :
    (j : Json) (e : Platform) (h : Host) (listen : Text) (now : Time) (disk d : Disk) (a b : App)
    → Sha1Law e
    → All Sound disk.alerts
    → Left j e Any disk d
    → start e h listen d ≡ serving a
    → h.first_run.fails ≡ no_failure
    → Life j e Written a b
    → let (c, done) = end_stop no_failure now b in
      let s = opened c.disk in
      (done ≡ true)
      × (s.state ≡ b.store.state)
      × (s.alerts ≡ c.store.alerts)
      × ((id : Text)
          → client_at id s.clients s.heap
            ≡ map_some offline (client_at id c.store.clients c.store.heap))
Life-opened j e h listen now disk d a b law sound l k written life =
    let kept =
      Left-All [] (λ w _. tt) Sound Sound-Stable (λ w u g s _. new_alert-Sound w u g s) (λ x p. p.0)
        l sound in
    let (saved, storable) = run-Saved j e h listen d law kept written k life in
    end_stop-opened now b saved storable
