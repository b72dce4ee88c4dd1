-- ===== src/Console/Alerts/Delivered.antt =====
-- From `handleSendAlert` to the answer of a poll that is held.
use stem_computing_desktop_p.Prelude.{
  ℕ, ◌≤◌, ◌<◌, ◌≡◌, refl, Bool, true, false, Option, some, List, [], ◌∷◌, arith, any, get_elem?,
  is_empty,
}
use stem_computing_desktop_p.Text.{Text, text_eq}
use stem_computing_desktop_p.Platform.{Platform}
use stem_computing_desktop_p.Model.{Time, AlertSpec, ClientInfo}
use stem_computing_desktop_p.Match.{alert_matches}
use stem_computing_desktop_p.Store.{compact}
use stem_computing_desktop_p.Store.Flush.{flush, collect}
use stem_computing_desktop_p.Delivery.{WireAlert}
use stem_computing_desktop_p.Delivery.Pending.{pending_for}
use stem_computing_desktop_p.App.{App, World, Identity, reply, save, wake, with_store}
use stem_computing_desktop_p.Poll.{PollResponse, Held, look}
use stem_computing_desktop_p.Console.Alerts.{check_send, new_alert, add_alert, handle_send_alert}
use stem_computing_desktop_p.Console.Alerts.Sent.{handle_send_alert-pending_for}

save-heap : (w : World) (a : App) → (save w a).store.heap ≡ a.store.heap
unfolding save flush collect compact
save-heap w a = ground arith

handle_send_alert-heap :
    (e : Platform) (w : World) (body : Option AlertSpec) (id : Identity) (a : App) (n : ℕ)
    (spec : AlertSpec)
    → check_send e id body a.store ≡ reply n spec
    → (handle_send_alert e w body id a).0.store.heap ≡ a.store.heap
unfolding handle_send_alert
handle_send_alert-heap e w body id a n spec k =
    rw (k, handle_send_alert)
      (save-heap w
        (wake (with_store a (add_alert (new_alert w id.user a.store.state.groups spec) a.store))))

abbrev pub lists : Text → List WireAlert → Bool
lists id alerts = any (λ (x : WireAlert). text_eq x.id id) alerts

any-nonempty :
    (id : Text) (alerts : List WireAlert) → lists id alerts ≡ true → is_empty alerts ≡ false
any-nonempty id [] h = absurd (ground (arith, h))
any-nonempty id (x ∷ alerts) h = refl

-- A look that finds an alert answers.
look-answers :
    (e : Platform) (now : Time) (k : Held) (a : App) (c : ClientInfo) (id : Text)
    → get_elem? a.store.heap k.pointer ≡ some c
    → lists id (pending_for e c now a.store).1.alerts ≡ true
    → (r : PollResponse) × ((look e now k a).1 ≡ some r) × (lists id r.alerts ≡ true)
unfolding look
look-answers e now k a c id at h =
    let p = (pending_for e c now a.store).1 in
    (
      record { alerts = p.alerts; recalled = p.recalled; retry_ms = 1000 },
      rw (at, look) (rw (any-nonempty id p.alerts h) refl),
      h,
    )

-- When `handleSendAlert` accepts an alert, a poll that is held for a computer that the alert matches has
-- been woken, though it may have looked just before; and its next look, if that is before the alert
-- expires, answers with the alert.
pub handle_send_alert-look :
    (e : Platform) (w : World) (body : Option AlertSpec) (id : Identity) (a : App) (n : ℕ)
    (spec : AlertSpec) (k : Held) (c : ClientInfo) (later : Time)
    → check_send e id body a.store ≡ reply n spec
    → get_elem? a.store.heap k.pointer ≡ some c
    → k.seen ≤ a.wakes
    → alert_matches e (new_alert w id.user a.store.state.groups spec) c ≡ true
    → later ≤ (new_alert w id.user a.store.state.groups spec).expires_at
    → let b = (handle_send_alert e w body id a).0 in
      (k.seen < b.wakes)
      × ((r : PollResponse) × ((look e later k b).1 ≡ some r) × (lists w.new_id r.alerts ≡ true))
handle_send_alert-look e w body id a n spec k c later sent at seen m l =
    let (there, woken) = handle_send_alert-pending_for e w body id a n spec c later sent m l in
    let b = (handle_send_alert e w body id a).0 in
    (
      omega (arith, seen, woken),
      look-answers e later k b c w.new_id (rw (handle_send_alert-heap e w body id a n spec sent) at)
          there,
    )
