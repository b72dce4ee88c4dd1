-- ===== src/Store/Compact.antt =====
-- `compactLocked`: what it drops, and what it keeps.
use stem_computing_desktop_p.Prelude.{
  ℕ, zero, suc, ◌-◌, ◌<◌, ◌≡◌, refl, ap, ap₂, ◌∙◌, false, some, List, [], ◌∷◌, arith, min, map,
  length, drop, length-drop, get_elem?,
}
use stem_computing_desktop_p.Text.{Text}
use stem_computing_desktop_p.Dict.{Dict, lookup}
use stem_computing_desktop_p.Model.{Time, Alert, ClientInfo, Store}
use stem_computing_desktop_p.Store.{
  status, active, totals, archive, archive_first, drop_stale, compact, newest_alerts,
  max_alerts_kept, max_alerts_with_deliveries, is_stale,
}

totals-archive : (now : Time) (a : Alert) → totals (archive now a) ≡ totals a
unfolding archive totals
totals-archive now a = ground arith

archive-active : (now : Time) (a : Alert) → status a now ≡ active → archive now a ≡ a
unfolding archive
archive-active now a h = ground arith

archive_idem : (now : Time) (a : Alert) → archive now (archive now a) ≡ archive now a
unfolding archive
archive_idem now a = ground arith

length-archive_first :
    (n : ℕ) (now : Time) (alerts : List Alert) → length (archive_first n now alerts) ≡ length alerts
unfolding archive_first
length-archive_first zero now alerts = refl
length-archive_first (suc n) now [] = refl
length-archive_first (suc n) now (a ∷ alerts) = ap suc (length-archive_first n now alerts)

map-totals-archive_first :
    (n : ℕ) (now : Time) (alerts : List Alert)
    → map totals (archive_first n now alerts) ≡ map totals alerts
unfolding archive_first
map-totals-archive_first zero now alerts = refl
map-totals-archive_first (suc n) now [] = refl
map-totals-archive_first (suc n) now (a ∷ alerts) =
    ap₂ ◌∷◌ (totals-archive now a) (map-totals-archive_first n now alerts)

drop-archive_first :
    (n : ℕ) (now : Time) (alerts : List Alert) → drop n (archive_first n now alerts) ≡ drop n alerts
unfolding archive_first
drop-archive_first zero now alerts = refl
drop-archive_first (suc n) now [] = refl
drop-archive_first (suc n) now (a ∷ alerts) = drop-archive_first n now alerts

-- Compaction keeps the newest 300 alerts, or all where there are fewer.
pub length-compact :
    (now : Time) (s : Store) → length (compact now s).alerts ≡ min max_alerts_kept (length s.alerts)
unfolding compact
length-compact now s =
    length-archive_first _ now (newest_alerts s.alerts)
    ∙ omega (arith, length-drop (length s.alerts - max_alerts_kept) s.alerts)

-- It changes no alert's totals, and none of the newest 60 that it keeps.
pub compact-totals :
    (now : Time) (s : Store)
    → let kept = newest_alerts s.alerts in
      let cut = length kept - max_alerts_with_deliveries in
      (map totals (compact now s).alerts ≡ map totals kept)
      × (drop cut (compact now s).alerts ≡ drop cut kept)
unfolding compact
compact-totals now s =
    let kept = newest_alerts s.alerts in
    (
      map-totals-archive_first (length kept - max_alerts_with_deliveries) now kept,
      drop-archive_first (length kept - max_alerts_with_deliveries) now kept,
    )

get_elem?-archive_first :
    (n i : ℕ) (now : Time) (alerts : List Alert) {a : Alert}
    → get_elem? alerts i ≡ some a
    → status a now ≡ active
    → get_elem? (archive_first n now alerts) i ≡ some a
unfolding archive_first
get_elem?-archive_first zero i now alerts e h = e
get_elem?-archive_first (suc n) i now [] e h = e
get_elem?-archive_first (suc n) zero now (b ∷ alerts) {a} e h =
    ground (arith, archive-active now a h)
get_elem?-archive_first (suc n) (suc i) now (b ∷ alerts) e h =
    get_elem?-archive_first n i now alerts e h

-- An alert that is still active is kept as it is, with every delivery record, at its place among
-- the newest 300.
pub compact-active :
    (now : Time) (s : Store) (i : ℕ) (a : Alert)
    → get_elem? (newest_alerts s.alerts) i ≡ some a
    → status a now ≡ active
    → get_elem? (compact now s).alerts i ≡ some a
unfolding compact
compact-active now s i a e h = get_elem?-archive_first _ i now (newest_alerts s.alerts) e h

lookup-drop_stale :
    (now : Time) (heap : List ClientInfo) (id : Text) (m : Dict ℕ) (p : ℕ) (c : ClientInfo)
    → lookup id m ≡ some p
    → get_elem? heap p ≡ some c
    → is_stale now c ≡ false
    → lookup id (drop_stale now heap m) ≡ some p
unfolding lookup drop_stale
lookup-drop_stale now heap id [] p c e g h = e
lookup-drop_stale now heap id ((j, q) ∷ m) p c e g h =
    ground (arith, lookup-drop_stale now heap id m p c)

-- A computer that holds a poll open is never forgotten, however long ago it was last seen.
pub compact-polling :
    (now : Time) (s : Store) (id : Text) (p : ℕ) (c : ClientInfo)
    → lookup id s.clients ≡ some p
    → get_elem? s.heap p ≡ some c
    → 0 < c.polling
    → (lookup id (compact now s).clients ≡ some p) × (get_elem? (compact now s).heap p ≡ some c)
unfolding compact
compact-polling now s id p c e g h =
    (lookup-drop_stale now s.heap id s.clients p c e g (ground arith), g)
