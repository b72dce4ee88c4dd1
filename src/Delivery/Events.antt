-- ===== src/Delivery/Events.antt =====
-- `applyEvents`: a repeated report changes nothing.
use stem_computing_desktop_p.Prelude.{
  ◌≡◌, refl, ap, Bool, true, false, not, ◌&&◌, ◌||◌, none, some, List, [], ◌∷◌, arith, all,
  if◌then◌else◌, is_some, Option-cases, inl, inr, take,
}
use stem_computing_desktop_p.Text.{Text, codes, text_eq}
use stem_computing_desktop_p.Text.Equality.{text_eq_iff, text_eq_refl}
use stem_computing_desktop_p.Model.{Time, Delivery, Alert, Store}
use stem_computing_desktop_p.Store.{alert_by_id}
use stem_computing_desktop_p.Store.Lookup.{alert_by_id-modify_alert, modify_alert_same}
use stem_computing_desktop_p.Delivery.Slot.{
  set_delivery_same, set_delivery-id, delivery_of-set_delivery, delivery_of-some,
}
use stem_computing_desktop_p.Delivery.{ClientEvent}
use stem_computing_desktop_p.Delivery.Report.{
  is_close_event, apply_event, delivery_of, set_delivery, apply_one, apply_all, apply_events,
}

-- The event has nothing left to say about the delivery.
abbrev is_settled : Text → Delivery → Bool
is_settled ev d =
    if text_eq ev (codes "displayed")
    then is_some d.displayed_at
    else if text_eq ev (codes "acknowledged")
    then is_some d.displayed_at && is_some d.acked_at
    else not (is_close_event ev) || is_some d.closed_at

is_settled→eq :
    (ev : Text) (now : Time) (d : Delivery)
    → is_settled ev d ≡ true
    → apply_event ev now d ≡ (d, false)
unfolding apply_event
is_settled→eq ev now d h = ground arith

apply_event-is_settled :
    (ev : Text) (now : Time) (d : Delivery) → is_settled ev (apply_event ev now d).0 ≡ true
unfolding apply_event
apply_event-is_settled ev now d = ground arith

apply_event-keeps_settled :
    (ev ev' : Text) (now : Time) (d : Delivery)
    → is_settled ev d ≡ true
    → is_settled ev (apply_event ev' now d).0 ≡ true
unfolding apply_event
apply_event-keeps_settled ev ev' now d h = ground arith

-- The same, for the delivery that the event is about, if there is one.
abbrev settled_in : Text → ClientEvent → List Alert → Bool
settled_in cid ev alerts = elim (alert_by_id alerts ev.alert_id) [
  | none ↦ true
  | some a ↦ elim (delivery_of a cid) [ none ↦ true | some d ↦ is_settled ev.event d ]
]

apply_one-settled :
    (cid : Text) (now : Time) (ev : ClientEvent) (alerts : List Alert)
    → settled_in cid ev alerts ≡ true
    → apply_one cid now ev alerts ≡ (alerts, false)
unfolding apply_one
apply_one-settled cid now ev alerts h = elim (Option-cases (alert_by_id alerts ev.alert_id)) [
  | inl n ↦ rw (n, apply_one)
  | inr (a, e) ↦ elim (Option-cases (delivery_of a cid)) [
    | inl n ↦ rw (e, n, apply_one)
    | inr (d, k) ↦
        let s = is_settled→eq ev.event now d (ground (arith, e, k)) in
        rw (e, k, s, apply_one)
          (ap (λ (x : List Alert). (x, false))
            (modify_alert_same (set_delivery cid d) alerts ev.alert_id e
              (set_delivery_same cid a k)))
  ]
]

-- After a report, an event is settled if it was so before, or if it is the one reported.
settled_in-apply_one :
    (cid : Text) (now : Time) (ev ev' : ClientEvent) (alerts : List Alert)
    → settled_in cid ev alerts ≡ true
    → settled_in cid ev (apply_one cid now ev' alerts).0 ≡ true
unfolding apply_one
settled_in-apply_one cid now ev ev' alerts h =
    elim (Option-cases (alert_by_id alerts ev'.alert_id)) [
      | inl n ↦ rw (n, apply_one) h
      | inr (a, e) ↦ elim (Option-cases (delivery_of a cid)) [
        | inl n ↦ rw (e, n, apply_one) h
        | inr (d, k) ↦
            let d' = (apply_event ev'.event now d).0 in
            ground (
              arith,
              e,
              k,
              alert_by_id-modify_alert (set_delivery cid d') (set_delivery-id cid d') alerts
                  ev'.alert_id ev.alert_id,
              delivery_of-set_delivery cid cid d' a,
              delivery_of-some cid a,
              text_eq_iff ev'.alert_id ev.alert_id,
              text_eq_refl cid,
              apply_event-keeps_settled ev.event ev'.event now d,
            )
      ]
    ]

settled_in-apply_self :
    (cid : Text) (now : Time) (ev : ClientEvent) (alerts : List Alert)
    → settled_in cid ev (apply_one cid now ev alerts).0 ≡ true
unfolding apply_one
settled_in-apply_self cid now ev alerts = elim (Option-cases (alert_by_id alerts ev.alert_id)) [
  | inl n ↦ ground (arith, n)
  | inr (a, e) ↦ elim (Option-cases (delivery_of a cid)) [
    | inl n ↦ ground (arith, e, n)
    | inr (d, k) ↦
        let d' = (apply_event ev.event now d).0 in
        ground (
          arith,
          e,
          k,
          alert_by_id-modify_alert (set_delivery cid d') (set_delivery-id cid d') alerts ev.alert_id
              ev.alert_id,
          delivery_of-set_delivery cid cid d' a,
          delivery_of-some cid a,
          text_eq_refl ev.alert_id,
          text_eq_refl cid,
          apply_event-is_settled ev.event now d,
        )
  ]
]

apply_all-settled :
    (cid : Text) (now : Time) (evs : List ClientEvent) (alerts : List Alert)
    → all (λ ev. settled_in cid ev alerts) evs ≡ true
    → apply_all cid now evs alerts ≡ (alerts, false)
unfolding apply_all
apply_all-settled cid now [] alerts h = refl
apply_all-settled cid now (ev ∷ evs) alerts h =
    ground (arith, apply_one-settled cid now ev alerts, apply_all-settled cid now evs alerts)

settled_in-apply_all :
    (cid : Text) (now : Time) (ev : ClientEvent) (evs : List ClientEvent) (alerts : List Alert)
    → settled_in cid ev alerts ≡ true
    → settled_in cid ev (apply_all cid now evs alerts).0 ≡ true
unfolding apply_all
settled_in-apply_all cid now ev [] alerts h = h
settled_in-apply_all cid now ev (ev' ∷ evs) alerts h =
    settled_in-apply_all cid now ev evs (apply_one cid now ev' alerts).0
      (settled_in-apply_one cid now ev ev' alerts h)

all-settled-apply_all :
    (cid : Text) (now : Time) (evs : List ClientEvent) (alerts : List Alert)
    → all (λ ev. settled_in cid ev (apply_all cid now evs alerts).0) evs ≡ true
unfolding apply_all
all-settled-apply_all cid now [] alerts = refl
all-settled-apply_all cid now (ev ∷ evs) alerts =
    let alerts' = (apply_one cid now ev alerts).0 in
    ground (
      arith,
      settled_in-apply_all cid now ev evs alerts' (settled_in-apply_self cid now ev alerts),
      all-settled-apply_all cid now evs alerts',
    )

-- A client may repeat a report whose answer it never got: applied a second time, at whatever time,
-- the same events change nothing in the store and count as no change.
pub apply_events_twice :
    (cid : Text) (events : List ClientEvent) (now later : Time) (s : Store)
    → apply_events cid events later (apply_events cid events now s).0
      ≡ ((apply_events cid events now s).0, false)
unfolding apply_events
apply_events_twice cid events now later s =
    let evs = take 200 events in
    rw
      (apply_all-settled cid later evs (apply_all cid now evs s.alerts).0
        (all-settled-apply_all cid now evs s.alerts))
      (ground arith)
