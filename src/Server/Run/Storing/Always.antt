-- ===== src/Server/Run/Storing/Always.antt =====
-- What the server holds can be stored, whatever files it has read and whatever requests have come in.
use stem_computing_desktop_p.Prelude.{
  ℕ, ◌≡◌, refl, Bool, true, ◌||◌, List, [], ◌∷◌, ◌++◌, arith, all, map, length, is_empty,
  if◌then◌else◌, is_none, Bool-cases, inl, inr,
}
use stem_computing_desktop_p.Platform.{Platform}
use stem_computing_desktop_p.Dict.{Dict, insert}
use stem_computing_desktop_p.Model.{Alert, ClientInfo}
use stem_computing_desktop_p.Store.{omit_empty, restore_alert, restore_clients, open_store}
use stem_computing_desktop_p.Store.Flush.{Disk}
use stem_computing_desktop_p.Store.Reopen.{AllWhole}
use stem_computing_desktop_p.Store.Reopen.Clients.{Keyed}
use stem_computing_desktop_p.App.{App, Config}
use stem_computing_desktop_p.History.{All}
use stem_computing_desktop_p.Server.Run.{new_app}
use stem_computing_desktop_p.Server.Run.Restart.{Storable}
use stem_computing_desktop_p.Server.Run.Storing.{Reach, here, next, Whole, Step-Whole, Step-InOrder}
use stem_computing_desktop_p.Server.Run.Storing.Keys.{
  Sha1Law, InOrder, get_elem?-end, Keyed-append, Keyed-insert,
}

-- An alert whose file has its deliveries or its totals, or neither.
abbrev pub is_readable : Alert → Bool
is_readable a = is_none a.deliveries || is_none a.archived

restore_alert-Whole : (a : Alert) → is_readable a ≡ true → Whole (restore_alert (omit_empty a))
unfolding restore_alert
restore_alert-Whole a h = ground arith

restore_alerts-Whole :
    (alerts : List Alert)
    → all is_readable alerts ≡ true
    → All Whole (map (λ a. restore_alert (omit_empty a)) alerts)
restore_alerts-Whole [] h = tt
restore_alerts-Whole (a ∷ alerts) h =
    (restore_alert-Whole a (ground arith), restore_alerts-Whole alerts (ground arith))

restore_clients-Keyed :
    (cs heap : List ClientInfo) (m : Dict ℕ)
    → Keyed m heap
    → Keyed (restore_clients cs heap m).0 (restore_clients cs heap m).1
unfolding restore_clients
restore_clients-Keyed [] heap m h = h
restore_clients-Keyed (c ∷ cs) heap m h =
    let d : ClientInfo = record c { polling = 0 } in
    let m' = if is_empty c.id then m else insert c.id (length heap) m in
    let more = Keyed-append m heap d h in
    let kept : Keyed m' (heap ++ d ∷ []) = elim (Bool-cases (is_empty c.id)) [
      | inl y ↦ rw (y) more
      | inr n ↦ rw (n) (
          Keyed-insert m (heap ++ d ∷ []) c.id (length heap) d (get_elem?-end heap d) refl
            (λ e. absurd (ground (arith, e, n))) more)
    ] in
    restore_clients-Keyed cs (heap ++ d ∷ []) m' kept

pub All-AllWhole : (alerts : List Alert) → All Whole alerts → AllWhole alerts
All-AllWhole [] h = tt
All-AllWhole (a ∷ alerts) h = (h.0, All-AllWhole alerts h.1)

Reach-InOrder :
    {e : Platform} {a b : App}
    → Sha1Law e
    → Reach e a b
    → All Whole a.store.alerts × InOrder a.store
    → All Whole b.store.alerts × InOrder b.store
Reach-InOrder law here h = h
Reach-InOrder law (next r st) h =
    let (w, k) = Reach-InOrder law r h in (Step-Whole st w, Step-InOrder law st k)

-- From whatever files, none of whose alerts has both its deliveries and its totals, any sequence of
-- requests leads to a store in which each alert has its deliveries or its totals, and not both, and the
-- map of the computers leads from each id to the one computer that has it, where SHA-1 gives 20 bytes.
pub Reach-Storable :
    (e : Platform) (cfg : Config) (disk : Disk) (a : App)
    → Sha1Law e
    → all is_readable disk.alerts ≡ true
    → Reach e (new_app cfg disk) a
    → Storable a.store
unfolding open_store
Reach-Storable e cfg disk a law ok r =
    let (w, k) =
      Reach-InOrder law r
        (restore_alerts-Whole disk.alerts ok, restore_clients-Keyed disk.clients [] [] tt) in
    record { alerts = All-AllWhole a.store.alerts w; clients = k }
