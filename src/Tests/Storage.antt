-- ===== src/Tests/Storage.antt =====
-- Compaction and the files at concrete inputs.
use stem_computing_desktop_p.Prelude.{◌≡◌, refl, true, false, none, some, List, [], ◌∷◌, get_elem?}
use stem_computing_desktop_p.Text.{codes}
use stem_computing_desktop_p.Model.{Alert, Store}
use stem_computing_desktop_p.Store.{compact, status, live_clients}
use stem_computing_desktop_p.Store.Compact.{compact-active}
use stem_computing_desktop_p.Store.Flush.{sort, insert_sorted, flush}
use stem_computing_desktop_p.Store.Flush.Lost.{
  IsClean, InStep, no_failure, flush-InStep, flush-after_failure,
}
use stem_computing_desktop_p.Store.Flush.Atomic.{
  Files, at, opening, ended, opened, wrote_all, synced, closed, renamed, here, next, Reach, IsWhole,
  result, write_file_atomic-PowerCut, not_there, write_file_atomic-result,
}
use stem_computing_desktop_p.Tests.Data.{clock, fire_drill, store_with, disk_with}

abbrev two_alerts : List Alert
two_alerts = fire_drill [] ∷ fire_drill [] ∷ []

compact-active_example :
    get_elem? (compact clock (store_with two_alerts)).alerts 1 ≡ some (fire_drill [])
unfolding status
compact-active_example = compact-active clock (store_with two_alerts) 1 (fire_drill []) refl refl

abbrev changed : Store
changed = record (store_with two_alerts) { dirty_alerts = true }

changed-InStep : InStep changed (disk_with [])
unfolding sort insert_sorted live_clients
changed-InStep = record { state = λ _. refl; alerts = λ e. cc; clients = λ _. refl }

flush-InStep_example :
    let (s', disk', done) = flush no_failure clock changed (disk_with []) in
    (done ≡ true) × IsClean s' × InStep s' disk'
flush-InStep_example = flush-InStep clock changed (disk_with []) changed-InStep

flush-after_failure_example :
    let (s', disk', _) = flush (λ f. true) clock changed (disk_with []) in
    let (s'', disk'', done) = flush no_failure clock s' disk' in
    (done ≡ true) × (disk''.alerts ≡ []) × (s''.alerts ≡ (compact clock changed).alerts)
flush-after_failure_example =
    flush-after_failure (λ f. true) clock clock changed (disk_with []) refl refl

abbrev old_file : Files
old_file = record {
  target = some (codes "old");
  tmp = none;
  on_disk = true;
  tmp_on_disk = false;
  before = some (codes "old");
}

abbrev new_file : Files
new_file = record old_file { target = some (codes "new") }

abbrev half_way : Files
half_way = record old_file { tmp = some [] }

abbrev complete : Files
complete = record old_file { tmp = some (codes "new") }

abbrev ready : Files
ready = record complete { tmp_on_disk = true }

abbrev path : Reach (codes "new") (at opening old_file) (at (ended true) new_file)
path =
    next
      (next (next (next (next here (opened old_file)) (wrote_all half_way)) (synced complete))
        (closed ready))
      (renamed ready)

-- the power fails before the rename has got to the disk
write_file_atomic-PowerCut_example : IsWhole (some (codes "old")) (codes "new") (some (codes "old"))
write_file_atomic-PowerCut_example =
    write_file_atomic-PowerCut (codes "new") old_file (at (ended true) new_file)
      (some (codes "old")) refl refl path not_there

write_file_atomic-result_example : new_file.target ≡ result true (some (codes "old")) (codes "new")
write_file_atomic-result_example =
    write_file_atomic-result (codes "new") old_file new_file true path
