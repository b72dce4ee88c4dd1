-- ===== src/Delivery/Resend.antt =====
-- `pendingFor`: which alerts go out, which are taken down, and that nothing goes out twice at once.
use stem_computing_desktop_p.Prelude.{
  ◌≡◌, refl, Bool, true, false, not, ◌&&◌, ◌||◌, Option, none, some, List, [], ◌∷◌, arith, is_none,
  is_some, leb, ltb, map, filter, Option-cases, inl, inr,
}
use stem_computing_desktop_p.Text.{Text, text_eq}
use stem_computing_desktop_p.Text.Equality.{text_eq_refl}
use stem_computing_desktop_p.Dict.{lookup, lookup-insert_self}
use stem_computing_desktop_p.Platform.{Platform}
use stem_computing_desktop_p.Model.{Time, elapsed, Delivery, Alert, AlertSpec, ClientInfo, Store}
use stem_computing_desktop_p.Match.{alert_matches}
use stem_computing_desktop_p.Delivery.{resend_after, recall_window}
use stem_computing_desktop_p.Delivery.Report.{delivery_of, set_delivery}
use stem_computing_desktop_p.Delivery.Pending.{
  Action, pass, send, recall, action, act, should_send, should_recall, sent_delivery,
  recall_delivery, wire, pending_loop, pending_for,
}

-- Whether a client wants an alert, from what is on record of it: it never had it; or it has not
-- shown it, and has restarted or had it over a minute ago; or it has restarted, and owes an answer.
abbrev pub wants : AlertSpec → Option Delivery → Text → Time → Bool
wants spec none sid now = true
wants spec (some d) sid now =
    is_none d.displayed_at && (not (text_eq d.sid sid) || ltb resend_after (elapsed now d.sent_at))
    || not (text_eq d.sid sid) && spec.require_ack && is_none d.acked_at

-- An alert that is live, for this client, and wanted.
abbrev pub is_due : Platform → ClientInfo → Time → Alert → Bool
is_due e c now a =
    is_some a.deliveries
    && is_none a.recalled_at
    && leb now a.expires_at
    && alert_matches e a c
    && wants a.spec (delivery_of a c.id) c.sid now

-- A delivery that is still open, of an alert recalled in the last twelve hours, not yet told.
abbrev pub is_open : Option Delivery → Bool
is_open none = false
is_open (some d) = is_none d.closed_at && not d.recall_sent

abbrev pub is_recent : Option Time → Time → Bool
is_recent none now = false
is_recent (some at) now = ltb (elapsed now at) recall_window

abbrev pub must_come_down : ClientInfo → Time → Alert → Bool
must_come_down c now a = is_recent a.recalled_at now && is_open (delivery_of a c.id)

abbrev is_send : Action → Bool
is_send send = true
is_send _ = false

abbrev is_recall : Action → Bool
is_recall (recall _) = true
is_recall _ = false

action-is_due :
    (e : Platform) (a : Alert) (c : ClientInfo) (now : Time)
    → is_send (action e a c now) ≡ is_due e c now a
unfolding action delivery_of should_send should_recall
action-is_due e a c now = ground arith

action-must_come_down :
    (e : Platform) (a : Alert) (c : ClientInfo) (now : Time)
    → is_recall (action e a c now) ≡ must_come_down c now a
unfolding action delivery_of should_send should_recall
action-must_come_down e a c now = ground arith

pending_loop-reply :
    (e : Platform) (org : Text) (c : ClientInfo) (now : Time) (alerts : List Alert)
    → ((pending_loop e org c now alerts).1.alerts ≡ map (wire org) (filter (is_due e c now) alerts))
      × ((pending_loop e org c now alerts).1.recalled
          ≡ map (λ (a : Alert). a.id) (filter (must_come_down c now) alerts))
unfolding pending_loop
pending_loop-reply e org c now [] = (refl, refl)
pending_loop-reply e org c now (a ∷ alerts) =
    let ih = pending_loop-reply e org c now alerts in
    let due = action-is_due e a c now in
    let down = action-must_come_down e a c now in
    (ground (arith, ih, due, down), ground (arith, ih, due, down))

-- The answer to a client holds, in their order, exactly the alerts that are due to it, and the ids
-- of exactly those that it must take down.
pub pending_for-reply :
    (e : Platform) (c : ClientInfo) (now : Time) (s : Store)
    → ((pending_for e c now s).1.alerts
        ≡ map (wire s.state.settings.org_name) (filter (is_due e c now) s.alerts))
      × ((pending_for e c now s).1.recalled
          ≡ map (λ (a : Alert). a.id) (filter (must_come_down c now) s.alerts))
unfolding pending_for
pending_for-reply e c now s = pending_loop-reply e s.state.settings.org_name c now s.alerts

alert_matches-set_delivery :
    (e : Platform) (cid : Text) (d : Delivery) (a : Alert) (c : ClientInfo)
    → alert_matches e (set_delivery cid d a) c ≡ alert_matches e a c
unfolding alert_matches set_delivery
alert_matches-set_delivery e cid d a c = ground arith

action-act :
    (e : Platform) (a : Alert) (c : ClientInfo) (now : Time)
    → action e (act c now (action e a c now) a) c now ≡ pass
unfolding action act set_delivery delivery_of should_send should_recall
action-act e a c now = elim (Option-cases a.deliveries) [
  | inl n ↦ ground (arith, n)
  | inr (ds, m) ↦ elim (Option-cases (lookup c.id ds)) [
    | inl n ↦
        let d = sent_delivery none c now in
        ground (
          arith,
          m,
          n,
          lookup-insert_self c.id d ds,
          alert_matches-set_delivery e c.id d a c,
          text_eq_refl c.sid,
        )
    | inr (b, k) ↦
        let d = sent_delivery (some b) c now in
        ground (
          arith,
          m,
          k,
          lookup-insert_self c.id d ds,
          lookup-insert_self c.id (recall_delivery b) ds,
          alert_matches-set_delivery e c.id d a c,
          text_eq_refl c.sid,
        )
  ]
]

pending_loop_twice :
    (e : Platform) (org : Text) (c : ClientInfo) (now : Time) (alerts : List Alert)
    → pending_loop e org c now (pending_loop e org c now alerts).0
      ≡ ((pending_loop e org c now alerts).0, record { alerts = []; recalled = [] }, false)
unfolding pending_loop act
pending_loop_twice e org c now [] = refl
pending_loop_twice e org c now (a ∷ alerts) =
    ground (arith, action-act e a c now, pending_loop_twice e org c now alerts)

-- Asked again at once, the server has nothing more for the client, and the store stays as it is:
-- no alert and no recall goes out twice for one look.
pub pending_for_twice :
    (e : Platform) (c : ClientInfo) (now : Time) (s : Store)
    → pending_for e c now (pending_for e c now s).0
      ≡ ((pending_for e c now s).0, record { alerts = []; recalled = [] })
unfolding pending_for
pending_for_twice e c now s =
    rw (pending_loop_twice e s.state.settings.org_name c now s.alerts) (ground arith)
