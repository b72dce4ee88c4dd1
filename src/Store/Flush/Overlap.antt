-- ===== src/Store/Flush/Overlap.antt =====
-- Two calls of `flush` at once: the lock is held while the data is taken, and not while it is written.
use stem_computing_desktop_p.Prelude.{◌≡◌, refl, true, [], ◌∷◌, ◌++◌, arith}
use stem_computing_desktop_p.Model.{Time, Alert, Store}
use stem_computing_desktop_p.Store.{compact}
use stem_computing_desktop_p.Store.Flush.{Disk, collect, write_files, flush}
use stem_computing_desktop_p.Store.Flush.Lost.{no_failure}

-- What an alert's sending does to the store.
abbrev pub appended : Alert → Store → Store
appended a s = record s { alerts = s.alerts ++ a ∷ []; dirty_alerts = true }

-- The server and the disk after this order of steps: a first call of `flush` takes its data, an alert
-- is sent, a second call takes its data and writes it, and the first call writes.
abbrev pub overlapped : Time → Alert → Store → Disk → Store × Disk
overlapped now a s disk =
    let (s1, w1) = collect now s in
    let (s2, w2) = collect now (appended a s1) in
    (s2, (write_files no_failure w1 (write_files no_failure w2 disk).0).0)

-- A call of `flush` that was overtaken puts old alerts over new ones: where the alerts had changed
-- before it, the disk ends without the alert that was sent in between, the memory has it, and the next
-- `flush` reports success and writes nothing.
pub flush_overlap :
    (now later : Time) (a : Alert) (s : Store) (disk : Disk)
    → s.dirty_alerts ≡ true
    → let (s', disk') = overlapped now a s disk in
      let (s'', disk'', done) = flush no_failure later s' disk' in
      (done ≡ true)
      × (disk''.alerts ≡ (compact now s).alerts)
      × (s''.alerts ≡ (compact now (appended a (collect now s).0)).alerts)
unfolding flush collect write_files
flush_overlap now later a s disk d = (refl, ground (arith, d), refl)
