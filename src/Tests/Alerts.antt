-- ===== src/Tests/Alerts.antt =====
-- Alerts on their way to a computer and in the history, at concrete inputs.
use stem_computing_desktop_p.Prelude.{◌+◌, ◌≡◌, ◌↔◌, refl, true, false, none, [], ◌∷◌, map, filter}
use stem_computing_desktop_p.Text.{codes, text_eq, to_lower, clean_text}
use stem_computing_desktop_p.Model.{minute, Alert}
use stem_computing_desktop_p.Match.{wildcard_match}
use stem_computing_desktop_p.Match.Glob.{Glob}
use stem_computing_desktop_p.Match.Wildcard.{wildcard_match_iff, wildcard_match_star_in_text}
use stem_computing_desktop_p.Delivery.{ClientEvent}
use stem_computing_desktop_p.Delivery.Report.{apply_events}
use stem_computing_desktop_p.Delivery.Pending.{wire, pending_for}
use stem_computing_desktop_p.Delivery.Events.{apply_events_twice}
use stem_computing_desktop_p.Delivery.Resend.{is_due, must_come_down, pending_for-reply}
use stem_computing_desktop_p.Console.Alerts.{check_allowed}
use stem_computing_desktop_p.Console.Alerts.Allowed.{MaySend, check_allowed_iff}
use stem_computing_desktop_p.Console.Spec.{validate_spec}
use stem_computing_desktop_p.Console.Spec.Valid.{SpecValid, validate_spec-SpecValid}
use stem_computing_desktop_p.Tests.Data.{
  platform, clock, front_desk, everybody, drill, fire_drill, answered, reception, store_with,
}

-- an alert that nobody has had yet, and one that the front desk has answered
abbrev fresh : Alert
fresh = fire_drill []

abbrev done : Alert
done = fire_drill ((codes "c1", answered) ∷ [])

pending_for-reply_example :
    ((pending_for platform front_desk clock (store_with (fresh ∷ []))).1.alerts
      ≡ map (wire (codes "School")) (filter (is_due platform front_desk clock) (fresh ∷ [])))
    × ((pending_for platform front_desk clock (store_with (fresh ∷ []))).1.recalled
        ≡ map (λ (a : Alert). a.id) (filter (must_come_down front_desk clock) (fresh ∷ [])))
pending_for-reply_example = pending_for-reply platform front_desk clock (store_with (fresh ∷ []))

abbrev acknowledged : ClientEvent
acknowledged = record { alert_id = codes "a1"; event = codes "acknowledged" }

apply_events_twice_example :
    apply_events
      (codes "c1")
      (acknowledged ∷ [])
      (clock + minute)
      (apply_events (codes "c1") (acknowledged ∷ []) clock (store_with (done ∷ []))).0
    ≡ ((apply_events (codes "c1") (acknowledged ∷ []) clock (store_with (done ∷ []))).0, false)
apply_events_twice_example =
    apply_events_twice (codes "c1") (acknowledged ∷ []) clock (clock + minute)
      (store_with (done ∷ []))

wildcard_match_iff_example :
    (wildcard_match platform.unicode (codes "LAB-*") (codes "LAB-07") ≡ true)
    ↔ Glob (to_lower platform.unicode (codes "LAB-*")) (to_lower platform.unicode (codes "LAB-07"))
wildcard_match_iff_example =
    wildcard_match_iff platform.unicode (codes "LAB-*") (codes "LAB-07") refl

wildcard_match_star_in_text_example :
    (wildcard_match platform.unicode (codes "*") (codes "*a") ≡ false)
    × Glob (to_lower platform.unicode (codes "*")) (to_lower platform.unicode (codes "*a"))
wildcard_match_star_in_text_example = wildcard_match_star_in_text platform.unicode b'a' [] refl

validate_spec-SpecValid_example : SpecValid platform drill
unfolding validate_spec clean_text text_eq
validate_spec-SpecValid_example = validate_spec-SpecValid platform drill drill refl

check_allowed_iff_example : (check_allowed reception everybody ≡ none) ↔ MaySend reception everybody
check_allowed_iff_example = check_allowed_iff reception everybody
