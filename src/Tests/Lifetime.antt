-- ===== src/Tests/Lifetime.antt =====
-- Runs of the server, one after the other, at concrete inputs.
use stem_computing_desktop_p.Prelude.{
  ◌≡◌, ◌<◌, ◌⊎◌, refl, true, some, [], ◌∷◌, arith, map, map_some,
}
use stem_computing_desktop_p.Text.{Text, codes}
use stem_computing_desktop_p.Dict.{lookup}
use stem_computing_desktop_p.Model.{Alert, Store}
use stem_computing_desktop_p.Store.{totals, open_store, live_clients}
use stem_computing_desktop_p.Store.Flush.{Disk, sort, insert_sorted}
use stem_computing_desktop_p.Store.Reopen.Clients.{client_at, offline}
use stem_computing_desktop_p.Store.Files.{Codec, read_files, written}
use stem_computing_desktop_p.Store.Files.Written.{written-opened}
use stem_computing_desktop_p.Delivery.Coherent.{TotalsOrdered}
use stem_computing_desktop_p.App.{App, World, save}
use stem_computing_desktop_p.Poll.{Held, look}
use stem_computing_desktop_p.Poll.Hub.{is_closed, hub_after}
use stem_computing_desktop_p.Console.Alerts.{handle_send_alert}
use stem_computing_desktop_p.History.{All}
use stem_computing_desktop_p.History.Answered.{Answered}
use stem_computing_desktop_p.Server.Config.{default_config}
use stem_computing_desktop_p.Server.Bootstrap.{bootstrap}
use stem_computing_desktop_p.Server.Serve.{serve}
use stem_computing_desktop_p.Server.Run
use stem_computing_desktop_p.Server.Run.{new_app, opened, start}
use stem_computing_desktop_p.Server.Run.Restart.{Storable}
use stem_computing_desktop_p.Server.Main.{request, tick, serving, returned, flushed, run}
use stem_computing_desktop_p.Server.Main.Reopened.{timeline, run-opened}
use stem_computing_desktop_p.Server.Traffic.{sends}
use stem_computing_desktop_p.Server.Traffic.Serving.{started, served, ticks}
use stem_computing_desktop_p.Server.Traffic.Lifetime.{Left, untouched, killed}
use stem_computing_desktop_p.Server.Traffic.Durable.{Any, Sound, Life-totals}
use stem_computing_desktop_p.Server.Traffic.Hold
use stem_computing_desktop_p.Server.Traffic.Hold.{Idle, Reach-waiting}
use stem_computing_desktop_p.Tests.Data.{
  platform, clock, front_desk, fire_drill, answered, disk_with, store_with, server_with, world,
  as_root, drill,
}
use stem_computing_desktop_p.Tests.Server.{json, ask_token, first_run, host, twenty, twenty-Sha1Law}

abbrev done : Alert
done = fire_drill ((codes "c1", answered) ∷ [])

abbrev full_disk : Disk
full_disk = disk_with (done ∷ [])

-- the first run: the ticker saves, and the server is killed
abbrev first_start : App
first_start = (bootstrap twenty first_run (new_app default_config full_disk)).0

abbrev killed_server : App
killed_server = save world first_start

-- the second run, in which somebody asks for a token
abbrev second_start : App
second_start = (bootstrap twenty first_run (new_app default_config killed_server.disk)).0

abbrev second_run : App
second_run = (serve json twenty world ask_token second_start).0

first_starts : start twenty host [] full_disk ≡ Run.serving first_start
unfolding start open_store
first_starts = refl

second_starts : start twenty host [] killed_server.disk ≡ Run.serving second_start
unfolding start open_store save
second_starts = refl

first_run-Left : {F : World → Type 0} → F world → Left json twenty F full_disk killed_server.disk
first_run-Left f = killed host [] untouched first_starts (ticks world f started)

done-Sound : All Sound (done ∷ [])
done-Sound = ((refl, record { deliveries = (refl, tt); archive = tt }), tt)

Life-totals_example : All (λ (x : Alert). TotalsOrdered (totals x)) second_run.store.alerts
Life-totals_example =
    Life-totals json twenty host [] full_disk killed_server.disk second_start second_run done-Sound
      (first_run-Left tt) second_starts (served world ask_token tt started)

run-opened_example :
    (b : App) × (run json twenty
        (timeline (request world ask_token ∷ []) (tick world ∷ []) clock [])
        (serving second_start)
      ≡ returned b (flushed true))
    × (let s = opened b.disk in
        (s.state ≡ b.store.state)
        × (s.alerts ≡ b.store.alerts)
        × ((id : Text)
            → client_at id s.clients s.heap
              ≡ map_some offline (client_at id b.store.clients b.store.heap)))
run-opened_example =
    run-opened json twenty host [] full_disk killed_server.disk second_start
      (request world ask_token ∷ []) (tick world ∷ []) clock [] twenty-Sha1Law done-Sound
      (first_run-Left tt) second_starts refl (refl, tt) (refl, tt)

-- the front desk's poll, which looks before an alert is sent
abbrev desk_poll : Held
desk_poll = record { pointer = 0; wait = true; seen = 0 }

abbrev idle_server : App
idle_server = (look platform clock desk_poll (server_with [])).0

abbrev alerted_server : App
alerted_server = (handle_send_alert platform world (some drill) as_root idle_server).0

abbrev at_rest : App → Hold.Server
at_rest a = record { app = a; owed = 0 }

Reach-waiting_example :
    (is_closed 0 (hub_after alerted_server.wakes) ≡ true)
    ⊎ (0 < 0)
    ⊎ Idle platform desk_poll (server_with []) clock alerted_server
unfolding look
Reach-waiting_example =
    Reach-waiting platform Any desk_poll desk_poll (at_rest (server_with []))
      (at_rest alerted_server) (server_with []) clock
      (Hold.next
        (Hold.next (Hold.next Hold.here (Hold.takes desk_poll (at_rest (server_with []))))
          (Hold.looks clock desk_poll (at_rest (server_with []))))
        (Hold.others (Hold.waiting desk_poll (server_with []) clock) 0
          (sends world (some drill) as_root idle_server tt)))

-- encoding/json on the files of one disk
abbrev codec : Codec
codec = record {
  state_in = λ b st. some full_disk.state;
  state_out = λ st. codes "{}";
  alerts_in = λ b alerts. some full_disk.alerts;
  alerts_out = λ alerts. codes "[]";
  clients_in = λ b clients. some (map offline full_disk.clients);
  clients_out = λ clients. codes "[]";
}

abbrev desk_store : Store
desk_store = store_with (done ∷ [])

desk_store-Storable : Storable desk_store
unfolding lookup
desk_store-Storable = record {
  alerts = (refl, tt);
  clients = ((front_desk, refl, refl), (λ e. absurd (ground (arith, e))), refl, tt);
}

written-opened_example :
    (d : Disk) × (read_files codec (written codec full_disk) ≡ some d)
    × ((opened d).state ≡ desk_store.state)
    × ((opened d).alerts ≡ desk_store.alerts)
    × ((id : Text)
        → client_at id (opened d).clients (opened d).heap
          ≡ map_some offline (client_at id desk_store.clients desk_store.heap))
unfolding sort insert_sorted live_clients
written-opened_example =
    written-opened codec desk_store full_disk desk_store-Storable refl refl refl (record {
      state_text = refl;
      alerts_text = refl;
      clients_text = refl;
      state = refl;
      alerts = refl;
      clients = refl;
    })
