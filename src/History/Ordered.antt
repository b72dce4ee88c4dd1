-- ===== src/History/Ordered.antt =====
-- The totals of every alert stay in order.
use stem_computing_desktop_p.Prelude.{
  ◌≡◌, refl, Option, none, some, List, [], ◌∷◌, if_cases, is_none, not, ◌&&◌,
}
use stem_computing_desktop_p.Text.{Text}
use stem_computing_desktop_p.Platform.{Platform}
use stem_computing_desktop_p.Model.{Time, Delivery, Alert, AlertSpec, User, ClientInfo, Group}
use stem_computing_desktop_p.Store.{status, totals, archive, is_active}
use stem_computing_desktop_p.Delivery.Report.{apply_event, delivery_of}
use stem_computing_desktop_p.Delivery.Pending.{sent_delivery, recall_delivery}
use stem_computing_desktop_p.Delivery.Coherent.{
  IsCoherent, TotalsOrdered, AlertCoherent, apply_event-IsCoherent, set_delivery-AlertCoherent,
  delivery_of-IsCoherent, totals-TotalsOrdered,
}
use stem_computing_desktop_p.App.{App, World}
use stem_computing_desktop_p.Console.Alerts.{mark_recalled, new_alert}
use stem_computing_desktop_p.History.{All, Stable, Reach, here, next}
use stem_computing_desktop_p.History.Kept.{Step-All, handle_send_alert-All}

sent-IsCoherent :
    (o : Option Delivery) (c : ClientInfo) (now : Time)
    → ((d : Delivery) → o ≡ some d → IsCoherent d)
    → IsCoherent (sent_delivery o c now)
sent-IsCoherent none c now h = refl
sent-IsCoherent (some d) c now h = h d refl

mark_recalled-AlertCoherent :
    (a : Alert) (by : Text) (now : Time) → AlertCoherent a → AlertCoherent (mark_recalled now by a)
unfolding mark_recalled
mark_recalled-AlertCoherent a by now h =
    if_cases AlertCoherent (is_none a.recalled_at)
      (record a { recalled_at = some now; recalled_by = by }) a
      (λ _. record { deliveries = h.deliveries; archive = h.archive }) (λ _. h)

archive-AlertCoherent : (a : Alert) (now : Time) → AlertCoherent a → AlertCoherent (archive now a)
unfolding archive
archive-AlertCoherent a now h =
    if_cases AlertCoherent (is_none a.archived && not (is_active (status a now)))
      (record a { archived = some (totals a); deliveries = none }) a
      (λ _. record { deliveries = tt; archive = totals-TotalsOrdered a h }) (λ _. h)

pub coherent_stable : Stable AlertCoherent
coherent_stable = record {
  lasting = record {
    reported = λ a cid ev now d e h.
        set_delivery-AlertCoherent cid (apply_event ev now d).0 a h
          (apply_event-IsCoherent ev now d (delivery_of-IsCoherent a cid h e));
    sent = λ a c now h.
        set_delivery-AlertCoherent c.id (sent_delivery (delivery_of a c.id) c now) a h
          (sent-IsCoherent (delivery_of a c.id) c now (λ d e. delivery_of-IsCoherent a c.id h e));
    told = λ a cid d e h.
        set_delivery-AlertCoherent cid (recall_delivery d) a h (delivery_of-IsCoherent a cid h e);
    archived = archive-AlertCoherent;
  };
  marked = mark_recalled-AlertCoherent;
}

pub new_alert-AlertCoherent :
    (w : World) (u : User) (groups : List Group) (spec : AlertSpec)
    → AlertCoherent (new_alert w u groups spec)
unfolding new_alert
new_alert-AlertCoherent w u groups spec = record { deliveries = tt; archive = tt }

Reach-AlertCoherent :
    {e : Platform} {Fresh : World → Type 0} {a b : App}
    → All AlertCoherent a.store.alerts
    → Reach e Fresh a b
    → All AlertCoherent b.store.alerts
Reach-AlertCoherent h here = h
Reach-AlertCoherent {e = e} h (next path st) =
    Step-All AlertCoherent coherent_stable
      (λ w body id a _ k.
        handle_send_alert-All AlertCoherent coherent_stable.lasting e w body id a
          (λ spec. new_alert-AlertCoherent w id.user a.store.state.groups spec) k)
      st (Reach-AlertCoherent h path)

pub All-totals :
    (alerts : List Alert) → All AlertCoherent alerts → All (λ a. TotalsOrdered (totals a)) alerts
All-totals [] h = tt
All-totals (a ∷ alerts) h = (totals-TotalsOrdered a h.0, All-totals alerts h.1)

-- Whatever requests come in, in whatever order, no alert ever counts more people who confirmed it
-- than saw it, nor more who saw it than it was sent to, if that is so of the alerts at the start.
pub Reach-totals :
    (e : Platform) (Fresh : World → Type 0) (a b : App)
    → All AlertCoherent a.store.alerts
    → Reach e Fresh a b
    → All (λ x. TotalsOrdered (totals x)) b.store.alerts
Reach-totals e Fresh a b h path = All-totals b.store.alerts (Reach-AlertCoherent h path)
