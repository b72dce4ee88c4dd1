-- ===== src/Store/Reopen.antt =====
-- The store that `openStore` makes of the files is the one that was written.
pub mod Clients
use stem_computing_desktop_p.Prelude.{
  ℕ, ◌≡◌, refl, ◌∙◌, ap, ap₂, Bool, true, false, not, ◌&&◌, ◌||◌, Option, none, some, List, [], ◌∷◌,
  arith, map, is_none, is_some, is_empty, if◌then◌else◌, zero, suc, drop,
}
use stem_computing_desktop_p.Dict.{Dict}
use stem_computing_desktop_p.Model.{Time, Alert}
use stem_computing_desktop_p.Store.{
  Status, is_active, status, totals, archive, archive_first, entries, omit_empty, restore_alert,
}

-- An alert has its deliveries or its totals, and not both.
abbrev pub is_whole : Alert → Bool
is_whole a = if is_some a.deliveries then is_none a.archived else is_some a.archived

abbrev pub AllWhole : List Alert → Type 0
AllWhole [] = Unit {0}
AllWhole (a ∷ alerts) = (is_whole a ≡ true) × AllWhole alerts

restore_alert-whole : (a : Alert) → is_whole a ≡ true → restore_alert (omit_empty a) ≡ a
unfolding restore_alert
restore_alert-whole a h = ground arith

pub restore_alerts-whole :
    (alerts : List Alert)
    → AllWhole alerts
    → map (λ a. restore_alert (omit_empty a)) alerts ≡ alerts
restore_alerts-whole [] h = refl
restore_alerts-whole (a ∷ alerts) h =
    ap₂ (◌∷◌) (restore_alert-whole a h.0) (restore_alerts-whole alerts h.1)

pub archive_first-AllWhole :
    (n : ℕ) (now : Time) (alerts : List Alert)
    → AllWhole alerts
    → AllWhole (archive_first n now alerts)
unfolding archive_first archive
archive_first-AllWhole zero now alerts h = h
archive_first-AllWhole (suc n) now [] h = tt
archive_first-AllWhole (suc n) now (a ∷ alerts) h =
    (ground (arith, h.0), archive_first-AllWhole n now alerts h.1)

pub drop-AllWhole : (n : ℕ) (alerts : List Alert) → AllWhole alerts → AllWhole (drop n alerts)
drop-AllWhole zero alerts h = h
drop-AllWhole (suc n) [] h = tt
drop-AllWhole (suc n) (a ∷ alerts) h = drop-AllWhole n alerts h.1
