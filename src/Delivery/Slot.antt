-- ===== src/Delivery/Slot.antt =====
-- A client's place in an alert's map of deliveries.
use stem_computing_desktop_p.Prelude.{
  ◌≡◌, ◌&&◌, true, some, arith, if◌then◌else◌, is_some, Option-cases, inl, inr,
}
use stem_computing_desktop_p.Text.{Text, text_eq}
use stem_computing_desktop_p.Dict.{lookup-insert, insert_same}
use stem_computing_desktop_p.Model.{Delivery, Alert}
use stem_computing_desktop_p.Delivery.Report.{delivery_of, set_delivery}

pub set_delivery-id : (cid : Text) (d : Delivery) (a : Alert) → (set_delivery cid d a).id ≡ a.id
unfolding set_delivery
set_delivery-id cid d a = ground arith

pub set_delivery_same :
    (cid : Text) (a : Alert) {d : Delivery} → delivery_of a cid ≡ some d → set_delivery cid d a ≡ a
unfolding delivery_of set_delivery
set_delivery_same cid a {d} e = elim (Option-cases a.deliveries) [
  | inl n ↦ ground arith
  | inr (ds, m) ↦ ground (arith, m, insert_same cid d ds)
]

pub delivery_of-set_delivery :
    (cid j : Text) (d : Delivery) (a : Alert)
    → delivery_of (set_delivery cid d a) j
      ≡ (if is_some a.deliveries && text_eq cid j then some d else delivery_of a j)
unfolding delivery_of set_delivery
delivery_of-set_delivery cid j d a = elim (Option-cases a.deliveries) [
  | inl n ↦ ground arith
  | inr (ds, m) ↦ ground (arith, m, lookup-insert cid j d ds)
]

pub delivery_of-some :
    (cid : Text) (a : Alert) {d : Delivery}
    → delivery_of a cid ≡ some d
    → is_some a.deliveries ≡ true
unfolding delivery_of
delivery_of-some cid a e = ground arith
