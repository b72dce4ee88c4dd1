-- ===== src/Delivery/Report.antt =====
-- server/api_client.go: `applyEvents`, what a client reports of the alerts that it was sent. A delivery's
-- pointers into an alert's map are writes back into that map.
use stem_computing_desktop_p.Prelude.{
  Bool, true, false, ◌&&◌, ◌||◌, Option, none, some, List, [], ◌∷◌, if◌then◌else◌, take, is_none,
}
use stem_computing_desktop_p.Text.{Text, codes, text_eq}
use stem_computing_desktop_p.Dict.{lookup, insert}
use stem_computing_desktop_p.Model.{Time, Delivery, Alert, Store}
use stem_computing_desktop_p.Store.{alert_by_id, modify_alert}
use stem_computing_desktop_p.Delivery.{ClientEvent}

abbrev pub is_close_event : Text → Bool
is_close_event ev =
    text_eq ev (codes "dismissed") || text_eq ev (codes "timeout") || text_eq ev (codes "recalled")

-- `case "acknowledged"`
unfoldable pub acknowledge : Time → Delivery → Delivery × Bool
acknowledge now d =
    let seen : Delivery =
      if is_none d.displayed_at then record d { displayed_at = some now } else d in
    if is_none d.acked_at
    then (
      record seen {
        acked_at = some now;
        closed_at = some now;
        close_reason = codes "acknowledged";
      },
      true,
    )
    else (seen, false)

-- the switch of `applyEvents`: the delivery, and whether `changed` is set
unfoldable pub apply_event : Text → Time → Delivery → Delivery × Bool
unfolding acknowledge
apply_event ev now d =
    if text_eq ev (codes "displayed")
    then (if is_none d.displayed_at
        then (record d { displayed_at = some now }, true)
        else (d, false))
    else if text_eq ev (codes "acknowledged")
    then acknowledge now d
    else if is_close_event ev && is_none d.closed_at
    then (record d { closed_at = some now; close_reason = ev }, true)
    else (d, false)

-- The delivery of an alert to a client, if the alert still has its deliveries.
unfoldable pub delivery_of : Alert → Text → Option Delivery
delivery_of a cid = elim a.deliveries [ none ↦ none | some ds ↦ lookup cid ds ]

unfoldable pub set_delivery : Text → Delivery → Alert → Alert
set_delivery cid d a = elim a.deliveries [
  | none ↦ a
  | some ds ↦ record a { deliveries = some (insert cid d ds) }
]

-- one round of the loop of `applyEvents`
unfoldable pub apply_one : Text → Time → ClientEvent → List Alert → List Alert × Bool
unfolding apply_event delivery_of set_delivery
apply_one cid now ev alerts = elim (alert_by_id alerts ev.alert_id) [
  | none ↦ (alerts, false)
  | some a ↦ elim (delivery_of a cid) [
    | none ↦ (alerts, false)
    | some d ↦
        let (d', changed) = apply_event ev.event now d in
        (modify_alert (set_delivery cid d') alerts ev.alert_id, changed)
  ]
]

unfoldable pub apply_all : Text → Time → List ClientEvent → List Alert → List Alert × Bool
unfolding apply_one
apply_all cid now [] alerts = (alerts, false)
apply_all cid now (ev ∷ evs) alerts =
    let (alerts', changed) = apply_one cid now ev alerts in
    let (alerts'', changed') = apply_all cid now evs alerts' in (alerts'', changed || changed')

-- applyEvents
unfoldable pub apply_events : Text → List ClientEvent → Time → Store → Store × Bool
unfolding apply_all
apply_events cid events now s =
    let (alerts', changed) = apply_all cid now (take 200 events) s.alerts in
    (record s { alerts = alerts'; dirty_alerts = s.dirty_alerts || changed }, changed)
