-- ===== src/Store.antt =====
-- server/store.go: totals, status and presence, the lookups, compaction, and what `openStore` does
-- with the files that it has read. Callers hold the lock, so each function is one step.
pub mod Lookup
pub mod Compact
pub mod Flush
pub mod Reopen
pub mod Files
use stem_computing_desktop_p.Prelude.{
  ℕ, zero, suc, ◌+◌, ◌-◌, Bool, true, false, not, ◌&&◌, ◌||◌, Option, none, some, List, [], ◌∷◌,
  ltb, ◌*◌, if◌then◌else◌, length, drop, is_some, is_none, is_empty, find?, count, get_elem?, ◌++◌,
  map, ◌==◌,
}
use stem_computing_desktop_p.Text.{Text, codes, text_eq, Unicode, equal_fold}
use stem_computing_desktop_p.Dict.{Dict, insert}
use stem_computing_desktop_p.Model.{
  Time, second, hour, elapsed, Delivery, Totals, Alert, User, ClientInfo, Store, State,
}

abbrev pub max_alerts_kept : ℕ
max_alerts_kept = 300

abbrev pub max_alerts_with_deliveries : ℕ
max_alerts_with_deliveries = 60

abbrev pub client_forget_after : ℕ
client_forget_after = 45 * 24 * hour

-- the loop of `totals`
unfoldable pub count_deliveries : (Delivery → Bool) → Dict Delivery → ℕ
count_deliveries p [] = 0
count_deliveries p ((_, d) ∷ ds) = (if p d then 1 else 0) + count_deliveries p ds

-- the entries of a map that may be nil
abbrev pub entries : Option (Dict Delivery) → Dict Delivery
entries none = []
entries (some ds) = ds

-- (*Alert).totals
unfoldable pub totals : Alert → Totals
unfolding count_deliveries
totals a = elim a.archived [
  | some t ↦ t
  | none ↦ record {
    sent = length (entries a.deliveries);
    displayed = count_deliveries (λ d. is_some d.displayed_at) (entries a.deliveries);
    acked = count_deliveries (λ d. is_some d.acked_at) (entries a.deliveries);
  }
]

pub data Status : Type 0 where
  recalled finished active : Status

-- (*Alert).status
unfoldable pub status : Alert → Time → Status
status a now =
    if is_some a.recalled_at then recalled else if ltb a.expires_at now then finished else active

abbrev pub is_active : Status → Bool
is_active active = true
is_active _ = false

-- (*ClientInfo).online
unfoldable pub online : ClientInfo → Time → Bool
online c now = ltb 0 c.polling || ltb (elapsed now c.last_seen) (45 * second)

-- The computers that the map holds, in its order.
unfoldable pub live_clients : Dict ℕ → List ClientInfo → List ClientInfo
live_clients [] heap = []
live_clients ((_, p) ∷ m) heap = elim (get_elem? heap p) [
  | none ↦ live_clients m heap
  | some c ↦ c ∷ live_clients m heap
]

-- userByName
unfoldable pub user_by_name : Unicode → List User → Text → Option User
user_by_name u us name = find? (λ x. equal_fold u x.username name) us

-- userByID
unfoldable pub user_by_id : List User → Text → Option User
user_by_id us id = find? (λ x. text_eq x.id id) us

-- alertByID goes from the newest alert, the last one.
unfoldable pub alert_by_id : List Alert → Text → Option Alert
alert_by_id [] id = none
alert_by_id (a ∷ alerts) id = elim (alert_by_id alerts id) [
  | some b ↦ some b
  | none ↦ if text_eq a.id id then some a else none
]

-- A write through the pointer that `alertByID` returns.
unfoldable pub modify_alert : (Alert → Alert) → List Alert → Text → List Alert
unfolding alert_by_id
modify_alert f [] id = []
modify_alert f (a ∷ alerts) id = elim (alert_by_id alerts id) [
  | some _ ↦ a ∷ modify_alert f alerts id
  | none ↦ if text_eq a.id id then f a ∷ alerts else a ∷ alerts
]

abbrev pub is_admin : User → Bool
is_admin u = text_eq u.role (codes "admin") && not u.disabled

-- adminCount
unfoldable pub admin_count : List User → ℕ
admin_count us = count is_admin us

-- What `compactLocked` does with an alert that is old enough to lose its deliveries.
unfoldable pub archive : Time → Alert → Alert
unfolding totals status
archive now a =
    if is_none a.archived && not (is_active (status a now))
    then record a { archived = some (totals a); deliveries = none }
    else a

-- the loop `for i, a := range s.Alerts` up to `cut`
unfoldable pub archive_first : ℕ → Time → List Alert → List Alert
unfolding archive
archive_first zero now alerts = alerts
archive_first (suc n) now [] = []
archive_first (suc n) now (a ∷ alerts) = archive now a ∷ archive_first n now alerts

-- A computer that is forgotten: it holds no poll and has not been seen for 45 days.
abbrev pub is_stale : Time → ClientInfo → Bool
is_stale now c = c.polling == 0 && ltb client_forget_after (elapsed now c.last_seen)

unfoldable pub drop_stale : Time → List ClientInfo → Dict ℕ → Dict ℕ
drop_stale now heap [] = []
drop_stale now heap ((id, p) ∷ m) =
    let rest = drop_stale now heap m in
    elim (get_elem? heap p) [
      | none ↦ (id, p) ∷ rest
      | some c ↦ if is_stale now c then rest else (id, p) ∷ rest
    ]

-- whether the loop over the computers deletes one
unfoldable pub any_stale : Time → List ClientInfo → Dict ℕ → Bool
any_stale now heap [] = false
any_stale now heap ((_, p) ∷ m) =
    elim (get_elem? heap p) [ none ↦ false | some c ↦ is_stale now c ] || any_stale now heap m

-- s.Alerts[n-maxAlertsKept:], where there are more
abbrev pub newest_alerts : List Alert → List Alert
newest_alerts alerts = drop (length alerts - max_alerts_kept) alerts

-- compactLocked
unfoldable pub compact : Time → Store → Store
unfolding archive_first drop_stale any_stale
compact now s =
    let kept = newest_alerts s.alerts in
    let clients' = drop_stale now s.heap s.clients in
    record s {
      alerts = archive_first (length kept - max_alerts_with_deliveries) now kept;
      clients = clients';
      dirty_clients = s.dirty_clients || any_stale now s.heap s.clients;
    }

-- what encoding/json keeps of an alert: an empty map is left out of the file
abbrev pub omit_empty : Alert → Alert
omit_empty a =
    if is_none a.deliveries || is_empty (entries a.deliveries)
    then record a { deliveries = none }
    else a

-- what `openStore` does with an alert read from alerts.json
unfoldable pub restore_alert : Alert → Alert
restore_alert a =
    if is_none a.deliveries && is_none a.archived then record a { deliveries = some [] } else a

-- what `openStore` does with the computers read from clients.json, which has no count of polls: the
-- map and the heap
unfoldable pub restore_clients :
    List ClientInfo → List ClientInfo → Dict ℕ → Dict ℕ × List ClientInfo
restore_clients [] heap m = (m, heap)
restore_clients (c ∷ cs) heap m =
    restore_clients cs (heap ++ record c { polling = 0 } ∷ [])
      (if is_empty c.id then m else insert c.id (length heap) m)

-- openStore, after the three files have been read
unfoldable pub open_store : State → List Alert → List ClientInfo → Store
unfolding restore_alert restore_clients
open_store st alerts cs =
    let (m, heap) = restore_clients cs [] [] in
    record {
      state = st;
      alerts = map (λ a. restore_alert (omit_empty a)) alerts;
      clients = m;
      heap = heap;
      dirty_state = false;
      dirty_alerts = false;
      dirty_clients = false;
    }
