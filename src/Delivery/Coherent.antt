-- ===== src/Delivery/Coherent.antt =====
-- What the delivery records say is consistent: nobody has confirmed an alert that they never saw.
use stem_computing_desktop_p.Prelude.{
  ◌≤◌, ◌≡◌, Bool, true, not, ◌&&◌, ◌||◌, Option, none, some, List, [], ◌∷◌, arith, is_some,
  Option-cases, inl, inr, length,
}
use stem_computing_desktop_p.Text.{Text}
use stem_computing_desktop_p.Dict
use stem_computing_desktop_p.Dict.{Dict, lookup, insert}
use stem_computing_desktop_p.Model.{Time, Delivery, Totals, Alert}
use stem_computing_desktop_p.Store.{entries, count_deliveries, totals}
use stem_computing_desktop_p.Delivery.Report.{apply_event, delivery_of, set_delivery}

-- An acknowledged delivery is displayed and closed.
abbrev pub is_coherent : Delivery → Bool
is_coherent d = not (is_some d.acked_at) || is_some d.displayed_at && is_some d.closed_at

abbrev pub IsCoherent : Delivery → Type 0
IsCoherent d = is_coherent d ≡ true

abbrev pub TotalsOrdered : Totals → Type 0
TotalsOrdered t = (t.acked ≤ t.displayed) × (t.displayed ≤ t.sent)

abbrev pub ArchiveOrdered : Option Totals → Type 0
ArchiveOrdered none = Unit {0}
ArchiveOrdered (some t) = TotalsOrdered t

-- Every delivery of the alert is coherent, and totals that were archived are in order.
pub record AlertCoherent (a : Alert) : Type 0 where
  pub deliveries : Dict.All IsCoherent (entries a.deliveries)
  pub archive : ArchiveOrdered a.archived

abbrev pub AlertsCoherent : List Alert → Type 0
AlertsCoherent [] = Unit
AlertsCoherent (a ∷ alerts) = AlertCoherent a × AlertsCoherent alerts

pub apply_event-IsCoherent :
    (ev : Text) (now : Time) (d : Delivery) → IsCoherent d → IsCoherent (apply_event ev now d).0
unfolding apply_event
apply_event-IsCoherent ev now d h = ground arith

count_ordered :
    (ds : Dict Delivery)
    → Dict.All IsCoherent ds
    → count_deliveries (λ d. is_some d.acked_at) ds
      ≤ count_deliveries (λ d. is_some d.displayed_at) ds
unfolding count_deliveries
count_ordered [] h = omega arith
count_ordered ((k, d) ∷ ds) h = ground (arith, count_ordered ds h.1)

count-le-length : (p : Delivery → Bool) (ds : Dict Delivery) → count_deliveries p ds ≤ length ds
unfolding count_deliveries
count-le-length p [] = omega arith
count-le-length p ((k, d) ∷ ds) = ground (arith, count-le-length p ds)

pub totals-TotalsOrdered : (a : Alert) → AlertCoherent a → TotalsOrdered (totals a)
unfolding totals
totals-TotalsOrdered a c = elim (Option-cases a.archived) [
  | inl n ↦
      rw (n, totals)
        (
          count_ordered (entries a.deliveries) c.deliveries,
          count-le-length (λ d. is_some d.displayed_at) (entries a.deliveries),
        )
  | inr (t, e) ↦ rw (e, totals) (rw e at c.archive)
]

pub set_delivery-AlertCoherent :
    (cid : Text) (d : Delivery) (a : Alert)
    → AlertCoherent a
    → IsCoherent d
    → AlertCoherent (set_delivery cid d a)
unfolding set_delivery
set_delivery-AlertCoherent cid d a c h = elim (Option-cases a.deliveries) [
  | inl n ↦ rw (n, set_delivery) c
  | inr (ds, e) ↦
      rw (e, set_delivery)
        (record {
          deliveries = Dict.All-insert IsCoherent cid d ds (rw e at c.deliveries) h;
          archive = c.archive;
        })
]

pub delivery_of-IsCoherent :
    (a : Alert) (cid : Text) {d : Delivery}
    → AlertCoherent a
    → delivery_of a cid ≡ some d
    → IsCoherent d
unfolding delivery_of
delivery_of-IsCoherent a cid c h = elim (Option-cases a.deliveries) [
  | inl n ↦ ground (arith, n)
  | inr (ds, e) ↦
      Dict.All-lookup IsCoherent cid ds (rw e at c.deliveries) (rw (e, delivery_of) at h)
]
