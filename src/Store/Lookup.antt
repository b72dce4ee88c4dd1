-- ===== src/Store/Lookup.antt =====
-- `alertByID` and a write through the pointer that it returns.
use stem_computing_desktop_p.Prelude.{
  ◌≡◌, refl, some, List, [], ◌∷◌, arith, if◌then◌else◌, map_some,
}
use stem_computing_desktop_p.Text.{Text, text_eq}
use stem_computing_desktop_p.Text.Equality.{text_eq_iff}
use stem_computing_desktop_p.Model.{Alert}
use stem_computing_desktop_p.Store.{alert_by_id, modify_alert}

-- The ids of the alerts, which no later write changes.
abbrev pub ids : List Alert → List Text
ids [] = []
ids (a ∷ alerts) = a.id ∷ ids alerts

pub alert_by_id-id :
    (alerts : List Alert) (id : Text) {a : Alert} → alert_by_id alerts id ≡ some a → a.id ≡ id
unfolding alert_by_id
alert_by_id-id [] id h = cc
alert_by_id-id (b ∷ alerts) id {a} h =
    ground (arith, alert_by_id-id alerts id {a = a}, text_eq_iff b.id id)

-- What is written is read back, and no other alert changes.
pub alert_by_id-modify_alert :
    (f : Alert → Alert)
    → ((a : Alert) → (f a).id ≡ a.id)
    → (alerts : List Alert) (id j : Text)
    → alert_by_id (modify_alert f alerts id) j
      ≡ (if text_eq id j then map_some f (alert_by_id alerts id) else alert_by_id alerts j)
unfolding alert_by_id modify_alert
alert_by_id-modify_alert f keep [] id j = ground arith
alert_by_id-modify_alert f keep (a ∷ alerts) id j = ground (
  arith,
  keep a,
  alert_by_id-modify_alert f keep alerts id j,
  text_eq_iff id j,
  text_eq_iff a.id id,
  text_eq_iff a.id j,
)

-- A write that changes nothing in the alert leaves the list as it is.
pub modify_alert_same :
    (f : Alert → Alert) (alerts : List Alert) (id : Text) {a : Alert}
    → alert_by_id alerts id ≡ some a
    → f a ≡ a
    → modify_alert f alerts id ≡ alerts
unfolding alert_by_id modify_alert
modify_alert_same f [] id e h = refl
modify_alert_same f (b ∷ alerts) id {a} e h = ground (arith, modify_alert_same f alerts id {a = a})
