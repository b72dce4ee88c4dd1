-- ===== src/History/Answered.antt =====
-- An alert that somebody has acknowledged never comes back to them.
use stem_computing_desktop_p.Prelude.{
  ◌≡◌, ◌≢◌, refl, Bool, true, false, not, ◌&&◌, ◌||◌, Option, none, some, List, [], ◌∷◌, arith, any,
  map, filter, is_some, is_none,
}
use stem_computing_desktop_p.Text.{Text, text_eq}
use stem_computing_desktop_p.Text.Equality.{text_eq_iff, text_eq-false}
use stem_computing_desktop_p.Platform.{Platform}
use stem_computing_desktop_p.Model.{Time, Delivery, Alert, AlertSpec, User, ClientInfo, Group}
use stem_computing_desktop_p.Store.{archive}
use stem_computing_desktop_p.Delivery.{WireAlert}
use stem_computing_desktop_p.Delivery.Report.{apply_event, delivery_of, set_delivery}
use stem_computing_desktop_p.Delivery.Pending.{sent_delivery, recall_delivery, wire, pending_for}
use stem_computing_desktop_p.Delivery.Slot.{delivery_of-set_delivery, set_delivery-id}
use stem_computing_desktop_p.Delivery.Resend.{is_due, pending_for-reply}
use stem_computing_desktop_p.App.{App, World}
use stem_computing_desktop_p.Console.Alerts.{mark_recalled, new_alert}
use stem_computing_desktop_p.History.{All, Stable, Reach, here, next}
use stem_computing_desktop_p.History.Kept.{Step-All, handle_send_alert-All}

-- Seen and acknowledged.
abbrev pub is_done : Option Delivery → Bool
is_done none = false
is_done (some d) = is_some d.displayed_at && is_some d.acked_at

-- If the alert has this id, the client has seen and acknowledged it, as far as the alert still
-- keeps its deliveries.
abbrev pub Answered : Text → Text → Alert → Type 0
Answered id cid a =
    (not (text_eq a.id id) || is_none a.deliveries || is_done (delivery_of a cid)) ≡ true

apply_event-done :
    (ev : Text) (now : Time) (d : Delivery)
    → is_done (some d) ≡ true
    → is_done (some (apply_event ev now d).0) ≡ true
unfolding apply_event
apply_event-done ev now d h = ground arith

sent-done :
    (o : Option Delivery) (c : ClientInfo) (now : Time)
    → is_done o ≡ true
    → is_done (some (sent_delivery o c now)) ≡ true
sent-done none c now h = cc
sent-done (some d) c now h = h

is_none-set_delivery :
    (j : Text) (d : Delivery) (a : Alert)
    → is_none (set_delivery j d a).deliveries ≡ is_none a.deliveries
unfolding set_delivery
is_none-set_delivery j d a = ground arith

-- A write that keeps what is answered answered keeps the property.
set_delivery-Answered :
    (id cid j : Text) (d : Delivery) (a : Alert)
    → (is_done (delivery_of a j) ≡ true → is_done (some d) ≡ true)
    → Answered id cid a
    → Answered id cid (set_delivery j d a)
set_delivery-Answered id cid j d a keep h = ground (
  arith,
  keep,
  set_delivery-id j d a,
  is_none-set_delivery j d a,
  delivery_of-set_delivery j cid d a,
  text_eq_iff j cid,
)

mark_recalled-Answered :
    (id cid : Text) (a : Alert) (by : Text) (now : Time)
    → Answered id cid a
    → Answered id cid (mark_recalled now by a)
unfolding mark_recalled delivery_of
mark_recalled-Answered id cid a by now h = ground arith

archive-Answered :
    (id cid : Text) (a : Alert) (now : Time) → Answered id cid a → Answered id cid (archive now a)
unfolding archive delivery_of
archive-Answered id cid a now h = ground arith

pub Answered-stable : (id cid : Text) → Stable (Answered id cid)
Answered-stable id cid = record {
  lasting = record {
    reported = λ a j ev now d e h.
        set_delivery-Answered id cid j (apply_event ev now d).0 a
          (λ k. apply_event-done ev now d (rw e at k)) h;
    sent = λ a c now h.
        set_delivery-Answered id cid c.id (sent_delivery (delivery_of a c.id) c now) a
          (sent-done (delivery_of a c.id) c now) h;
    told = λ a j d e h. set_delivery-Answered id cid j (recall_delivery d) a (λ k. rw e at k) h;
    archived = λ a now h. archive-Answered id cid a now h;
  };
  marked = λ a by now h. mark_recalled-Answered id cid a by now h;
}

pub new_alert-Answered :
    (id cid : Text) (w : World) (u : User) (groups : List Group) (spec : AlertSpec)
    → w.new_id ≢ id
    → Answered id cid (new_alert w u groups spec)
unfolding new_alert
new_alert-Answered id cid w u groups spec n = rw (text_eq-false w.new_id id n)

Reach-Answered :
    (id cid : Text) {e : Platform} {a b : App}
    → All (Answered id cid) a.store.alerts
    → Reach e (λ w. w.new_id ≢ id) a b
    → All (Answered id cid) b.store.alerts
Reach-Answered id cid h here = h
Reach-Answered id cid {e = e} h (next path st) =
    Step-All (Answered id cid) (Answered-stable id cid)
      (λ w body who a fresh k.
        handle_send_alert-All (Answered id cid) (Answered-stable id cid).lasting e w body who a
          (λ spec. new_alert-Answered id cid w who.user a.store.state.groups spec fresh) k)
      st (Reach-Answered id cid h path)

-- Nothing with this id is due to a client who has answered it.
pub not-is_due :
    (e : Platform) (id : Text) (c : ClientInfo) (now : Time) (org : Text) (alerts : List Alert)
    → All (Answered id c.id) alerts
    → any (λ (x : WireAlert). text_eq x.id id) (map (wire org) (filter (is_due e c now) alerts))
      ≡ false
not-is_due e id c now org [] h = refl
not-is_due e id c now org (a ∷ alerts) h = ground (arith, h.0, not-is_due e id c now org alerts h.1)

-- Once a client has acknowledged an alert, no answer to it ever holds that alert again: not after a
-- restart, a recall, a compaction or any other requests, as long as no new alert gets the same id.
pub Answered-never_returns :
    (e : Platform) (id : Text) (c : ClientInfo) (now : Time) (a b : App)
    → All (Answered id c.id) a.store.alerts
    → Reach e (λ w. w.new_id ≢ id) a b
    → any (λ (x : WireAlert). text_eq x.id id) (pending_for e c now b.store).1.alerts ≡ false
Answered-never_returns e id c now a b h path = rw (pending_for-reply e c now b.store).0 (
    not-is_due e id c now b.store.state.settings.org_name b.store.alerts
      (Reach-Answered id c.id h path))
