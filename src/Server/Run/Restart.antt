-- ===== src/Server/Run/Restart.antt =====
-- Stopping the server and starting it again.
use stem_computing_desktop_p.Prelude.{
  false, ◌≡◌, ◌∙◌, true, arith, map_some, Bool-cases, inl, inr, length, ◌-◌,
}
use stem_computing_desktop_p.Text.{Text}
use stem_computing_desktop_p.Model.{Time, Store}
use stem_computing_desktop_p.Store.{
  compact, newest_alerts, open_store, max_alerts_kept, max_alerts_with_deliveries,
}
use stem_computing_desktop_p.Store.Flush.{Disk, flush, collect, by_id}
use stem_computing_desktop_p.Store.Flush.Lost.{no_failure, flush-InStep}
use stem_computing_desktop_p.Store.Reopen.{
  AllWhole, restore_alerts-whole, archive_first-AllWhole, drop-AllWhole,
}
use stem_computing_desktop_p.Store.Reopen.Clients.{
  client_at, Keyed, offline, restore_clients-sort, drop_stale-Keyed,
}
use stem_computing_desktop_p.App.{App}
use stem_computing_desktop_p.Server.Run.{opened, end_stop}

-- The disk holds the settings and the alerts that do not wait to be written. Of the computers it may
-- hold old ones, since a check-in without news does not mark them.
pub record Synced (s : Store) (disk : Disk) : Type 0 where
  pub state : s.dirty_state ≡ false → disk.state ≡ s.state
  pub alerts : s.dirty_alerts ≡ false → disk.alerts ≡ s.alerts

-- A store that can be written and read back.
pub record Storable (s : Store) : Type 0 where
  pub alerts : AllWhole s.alerts
  pub clients : Keyed s.clients s.heap

compact-Storable : (now : Time) (s : Store) → Storable s → Storable (compact now s)
unfolding compact
compact-Storable now s h = record {
  alerts =
      archive_first-AllWhole (length (newest_alerts s.alerts) - max_alerts_with_deliveries) now
        (newest_alerts s.alerts)
        (drop-AllWhole (length s.alerts - max_alerts_kept) s.alerts h.alerts);
  clients = drop_stale-Keyed now s.heap s.clients h.clients;
}

flush-Storable :
    (now : Time) (s : Store) (disk : Disk) → Storable s → Storable (flush no_failure now s disk).0
unfolding flush collect
flush-Storable now s disk h = elim (Bool-cases s.dirty_alerts) [
  | inl y ↦
      let c = compact-Storable now s h in
      rw (y, flush) (record { alerts = c.alerts; clients = c.clients })
  | inr n ↦ rw (n, flush) (record { alerts = h.alerts; clients = h.clients })
]

flush-keeps_state :
    (now : Time) (s : Store) (disk : Disk) → (flush no_failure now s disk).0.state ≡ s.state
unfolding flush collect compact
flush-keeps_state now s disk = ground arith

-- What is in memory when the server stops is what the next start reads from the files, if each file
-- can be written: the settings, accounts, tokens, groups and templates, every alert with its
-- deliveries, and every computer under its id, with no poll open.
pub end_stop-opened :
    (now : Time) (a : App)
    → Synced a.store a.disk
    → Storable a.store
    → let (b, done) = end_stop no_failure now a in
      let s = opened b.disk in
      (done ≡ true)
      × (s.state ≡ a.store.state)
      × (s.alerts ≡ b.store.alerts)
      × ((id : Text)
          → client_at id s.clients s.heap
            ≡ map_some offline (client_at id b.store.clients b.store.heap))
unfolding end_stop open_store
end_stop-opened now a synced whole =
    let s = record a.store { dirty_clients = true } in
    let (done, clean, saved) =
      flush-InStep now s a.disk
        (record { state = synced.state; alerts = synced.alerts; clients = λ e. cc }) in
    let t = (flush no_failure now s a.disk).0 in
    let kept =
      flush-Storable now s a.disk (record { alerts = whole.alerts; clients = whole.clients }) in
    (
      done,
      saved.state clean.0 ∙ flush-keeps_state now s a.disk,
      rw (saved.alerts clean.1) (restore_alerts-whole t.alerts kept.alerts),
      λ id.
          rw (saved.clients clean.2) (restore_clients-sort by_id t.clients t.heap id kept.clients),
    )
