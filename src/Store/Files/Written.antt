-- ===== src/Store/Files/Written.antt =====
-- What is written to the files is read from them again.
use stem_computing_desktop_p.Prelude.{
  ℕ, ◌≡◌, refl, ap, ◌∙◌, false, some, map_some, List, [], ◌∷◌, map, is_empty, arith,
}
use stem_computing_desktop_p.Text.{Text}
use stem_computing_desktop_p.Dict.{Dict}
use stem_computing_desktop_p.Model.{Alert, ClientInfo, Store}
use stem_computing_desktop_p.Store.{
  omit_empty, restore_alert, restore_clients, open_store, live_clients,
}
use stem_computing_desktop_p.Store.Flush.{Disk, sort, by_id}
use stem_computing_desktop_p.Store.Reopen.Clients.{client_at, offline, restore_clients-sort}
use stem_computing_desktop_p.Store.Reopen.{restore_alerts-whole}
use stem_computing_desktop_p.Server.Run.Restart.{Storable}
use stem_computing_desktop_p.Server.Run.{opened}
use stem_computing_desktop_p.Store.Files.{Codec, zero_state, read_files, written}

-- What encoding/json does with the values of one disk: no text is empty, and what is written is read back,
-- but for an empty map of deliveries, which `omitempty` leaves out, and for `polling`, which is no field of
-- the JSON.
pub record ReadBack (c : Codec) (disk : Disk) : Type 0 where
  pub state_text : is_empty (c.state_out disk.state) ≡ false
  pub alerts_text : is_empty (c.alerts_out disk.alerts) ≡ false
  pub clients_text : is_empty (c.clients_out disk.clients) ≡ false
  pub state : c.state_in (c.state_out disk.state) zero_state ≡ some disk.state
  pub alerts : c.alerts_in (c.alerts_out disk.alerts) [] ≡ some (map omit_empty disk.alerts)
  pub clients : c.clients_in (c.clients_out disk.clients) [] ≡ some (map offline disk.clients)

-- the disk without what JSON leaves out
abbrev through_json : Disk → Disk
through_json disk = record disk {
  alerts = map omit_empty disk.alerts;
  clients = map offline disk.clients;
}

read_files-written :
    (c : Codec) (disk : Disk)
    → ReadBack c disk
    → read_files c (written c disk) ≡ some (through_json disk)
unfolding read_files
read_files-written c disk law =
    rw (law.state_text, law.alerts_text, law.clients_text, law.state, law.alerts, law.clients) refl

omit_empty_twice : (a : Alert) → omit_empty (omit_empty a) ≡ omit_empty a
omit_empty_twice a = ground arith

restore_alerts_twice :
    (alerts : List Alert)
    → map (λ a. restore_alert (omit_empty a)) (map omit_empty alerts)
      ≡ map (λ a. restore_alert (omit_empty a)) alerts
restore_alerts_twice [] = refl
restore_alerts_twice (a ∷ alerts) = rw (omit_empty_twice a, restore_alerts_twice alerts) refl

restore_clients-polling :
    (cs heap : List ClientInfo) (m : Dict ℕ)
    → restore_clients (map offline cs) heap m ≡ restore_clients cs heap m
unfolding restore_clients
restore_clients-polling [] heap m = refl
restore_clients-polling (c ∷ cs) heap m = restore_clients-polling cs _ _

-- The store that `openStore` makes of the written files is the one it makes of what they hold.
written-opened_same :
    (c : Codec) (disk : Disk) → ReadBack c disk → opened (through_json disk) ≡ opened disk
unfolding open_store
written-opened_same c disk law =
    rw (restore_alerts_twice disk.alerts, restore_clients-polling disk.clients [] []) refl

-- Where the three files hold a store's settings, its alerts and its computers in the order of their ids, and
-- encoding/json reads back what it has written, `openStore` can read the files, and makes of them a store
-- with the same settings, accounts, tokens, groups and templates, the same alerts with their deliveries or
-- totals, and under every id the same computer, with no poll open. In the store that is written, every alert
-- is to have its deliveries or its totals, not both, and the computers stand under their own ids, which are
-- not empty.
pub written-opened :
    (c : Codec) (s : Store) (disk : Disk)
    → Storable s
    → disk.state ≡ s.state
    → disk.alerts ≡ s.alerts
    → disk.clients ≡ sort by_id (live_clients s.clients s.heap)
    → ReadBack c disk
    → (d : Disk) × (read_files c (written c disk) ≡ some d)
      × ((opened d).state ≡ s.state)
      × ((opened d).alerts ≡ s.alerts)
      × ((id : Text)
          → client_at id (opened d).clients (opened d).heap
            ≡ map_some offline (client_at id s.clients s.heap))
unfolding open_store
written-opened c s disk ok state alerts clients law = (
  through_json disk,
  read_files-written c disk law,
  state,
  ap (λ (t : Store). t.alerts) (written-opened_same c disk law)
      ∙ rw alerts (restore_alerts-whole s.alerts ok.alerts),
  λ id.
      ap (λ (t : Store). client_at id t.clients t.heap) (written-opened_same c disk law)
      ∙ rw clients (restore_clients-sort by_id s.clients s.heap id ok.clients),
)
