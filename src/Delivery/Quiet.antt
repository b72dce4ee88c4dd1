-- ===== src/Delivery/Quiet.antt =====
-- What `applyEvents` and `pendingFor` do not count as a change is none.
use stem_computing_desktop_p.Prelude.{
  ◌≡◌, refl, ◌∙◌, ap₂, false, some, List, [], ◌∷◌, arith, Option-cases, inl, inr, take,
}
use stem_computing_desktop_p.Text.{Text}
use stem_computing_desktop_p.Platform.{Platform}
use stem_computing_desktop_p.Model.{Time, Delivery, Alert, ClientInfo, Store}
use stem_computing_desktop_p.Store.{alert_by_id}
use stem_computing_desktop_p.Store.Lookup.{modify_alert_same}
use stem_computing_desktop_p.Delivery.{ClientEvent}
use stem_computing_desktop_p.Delivery.Report.{
  apply_event, delivery_of, set_delivery, apply_one, apply_all, apply_events,
}
use stem_computing_desktop_p.Delivery.Pending.{
  Action, pass, send, recall, is_write, action, act, pending_loop,
}
use stem_computing_desktop_p.Delivery.Slot.{set_delivery_same}
use stem_computing_desktop_p.Delivery.Coherent.{IsCoherent, AlertCoherent, delivery_of-IsCoherent}

-- Every alert that is found by an id is coherent.
abbrev pub Known : List Alert → Type 0
Known alerts = (id : Text) (a : Alert) → alert_by_id alerts id ≡ some a → AlertCoherent a

apply_event-quiet :
    (ev : Text) (now : Time) (d : Delivery)
    → IsCoherent d
    → (apply_event ev now d).1 ≡ false
    → (apply_event ev now d).0 ≡ d
unfolding apply_event
apply_event-quiet ev now d h q = ground arith

apply_one-quiet :
    (cid : Text) (now : Time) (ev : ClientEvent) (alerts : List Alert)
    → Known alerts
    → (apply_one cid now ev alerts).1 ≡ false
    → (apply_one cid now ev alerts).0 ≡ alerts
unfolding apply_one
apply_one-quiet cid now ev alerts h q = elim (Option-cases (alert_by_id alerts ev.alert_id)) [
  | inl n ↦ rw (n, apply_one) refl
  | inr (a, k) ↦ elim (Option-cases (delivery_of a cid)) [
    | inl n ↦ rw (k, n, apply_one) refl
    | inr (d, f) ↦
        let same =
          apply_event-quiet ev.event now d (delivery_of-IsCoherent a cid (h ev.alert_id a k) f)
            (ground (arith, q, k, f)) in
        rw (k, f, apply_one)
          (modify_alert_same (set_delivery cid (apply_event ev.event now d).0) alerts ev.alert_id k
            (rw same (set_delivery_same cid a f)))
  ]
]

apply_all-quiet :
    (cid : Text) (now : Time) (evs : List ClientEvent) (alerts : List Alert)
    → Known alerts
    → (apply_all cid now evs alerts).1 ≡ false
    → (apply_all cid now evs alerts).0 ≡ alerts
unfolding apply_all
apply_all-quiet cid now [] alerts h q = refl
apply_all-quiet cid now (ev ∷ evs) alerts h q =
    let same = apply_one-quiet cid now ev alerts h (ground (arith, q)) in
    apply_all-quiet cid now evs (apply_one cid now ev alerts).0 (rw same h) (ground (arith, q))
    ∙ same

-- Reports that `applyEvents` does not count as a change leave the alerts as they are, where every
-- delivery that is acknowledged is displayed and closed.
pub apply_events-quiet :
    (cid : Text) (events : List ClientEvent) (now : Time) (s : Store)
    → Known s.alerts
    → (apply_events cid events now s).1 ≡ false
    → (apply_events cid events now s).0.alerts ≡ s.alerts
unfolding apply_events
apply_events-quiet cid events now s h q = apply_all-quiet cid now (take 200 events) s.alerts h q

act-quiet :
    (c : ClientInfo) (now : Time) (a : Alert) (todo : Action)
    → is_write todo ≡ false
    → act c now todo a ≡ a
unfolding act
act-quiet c now a pass q = refl
act-quiet c now a send q = cc
act-quiet c now a (recall d) q = cc

-- An answer that marks nothing has changed nothing.
pub pending_loop-quiet :
    (e : Platform) (org : Text) (c : ClientInfo) (now : Time) (alerts : List Alert)
    → (pending_loop e org c now alerts).2 ≡ false
    → (pending_loop e org c now alerts).0 ≡ alerts
unfolding pending_loop
pending_loop-quiet e org c now [] q = refl
pending_loop-quiet e org c now (a ∷ alerts) q =
    ap₂ (◌∷◌) (act-quiet c now a (action e a c now) (ground (arith, q)))
      (pending_loop-quiet e org c now alerts (ground (arith, q)))
