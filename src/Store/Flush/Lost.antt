-- ===== src/Store/Flush/Lost.antt =====
-- `flush`: what reaches the disk, and what a failed write loses.
use stem_computing_desktop_p.Prelude.{
  ℕ, ◌≡◌, refl, List, [], ◌∷◌, Bool-cases, inl, inr, Bool, true, false, arith,
}
use stem_computing_desktop_p.Dict.{Dict}
use stem_computing_desktop_p.Model.{Time, ClientInfo, Store}
use stem_computing_desktop_p.Store.{compact, any_stale, drop_stale, live_clients}
use stem_computing_desktop_p.Store.Flush.{
  Disk, File, alerts_json, collect, flush, write_files, sort, by_id,
}

-- Nothing is left to be written.
abbrev pub IsClean : Store → Type 0
IsClean s = (s.dirty_state ≡ false) × (s.dirty_alerts ≡ false) × (s.dirty_clients ≡ false)

-- Where the disk and the memory hold the same, in each file whose flag is not set.
pub record InStep (s : Store) (disk : Disk) : Type 0 where
  pub state : s.dirty_state ≡ false → disk.state ≡ s.state
  pub alerts : s.dirty_alerts ≡ false → disk.alerts ≡ s.alerts
  pub clients : s.dirty_clients ≡ false → disk.clients ≡ sort by_id (live_clients s.clients s.heap)

abbrev pub no_failure : File → Bool
no_failure f = false

drop_stale-any_stale :
    (now : Time) (heap : List ClientInfo) (m : Dict ℕ)
    → any_stale now heap m ≡ false
    → drop_stale now heap m ≡ m
unfolding any_stale drop_stale
drop_stale-any_stale now heap [] h = refl
drop_stale-any_stale now heap ((id, p) ∷ m) h = ground (arith, drop_stale-any_stale now heap m)

-- When every file can be written, `flush` succeeds and leaves no flag set, and the disk holds what
-- the memory holds, if it did so before in the files that were not to be written.
pub flush-InStep :
    (now : Time) (s : Store) (disk : Disk)
    → InStep s disk
    → let (s', disk', done) = flush no_failure now s disk in
      (done ≡ true) × IsClean s' × InStep s' disk'
unfolding flush compact
flush-InStep now s disk h = elim (Bool-cases s.dirty_alerts) [
  | inl e ↦
      let n = drop_stale-any_stale now s.heap s.clients in
      (
        ground (arith, e),
        (refl, refl, refl),
        record {
          state = λ _. ground (arith, e, h.state);
          alerts = λ _. ground (arith, e);
          clients = λ _. ground (arith, e, n, h.clients);
        },
      )
  | inr e ↦ (
    ground (arith, e),
    (refl, refl, refl),
    record {
      state = λ _. ground (arith, e, h.state);
      alerts = λ _. ground (arith, e, h.alerts e);
      clients = λ _. ground (arith, e, h.clients);
    },
  )
]

-- A failed write is not tried again: where the alerts have changed and alerts.json cannot be
-- written, the next `flush` reports success, though every file can be written again, while the disk
-- still holds the old alerts and the memory the new ones.
pub flush-after_failure :
    (fails : File → Bool) (now later : Time) (s : Store) (disk : Disk)
    → s.dirty_alerts ≡ true
    → fails alerts_json ≡ true
    → let (s', disk', _) = flush fails now s disk in
      let (s'', disk'', done) = flush no_failure later s' disk' in
      (done ≡ true) × (disk''.alerts ≡ disk.alerts) × (s''.alerts ≡ (compact now s).alerts)
unfolding flush collect write_files
flush-after_failure fails now later s disk d f = (refl, ground (arith, d, f), ground (arith, d))
