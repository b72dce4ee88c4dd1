-- ===== src/History/Kept.antt =====
-- What every request keeps of each alert: a rule for the properties that no single write breaks.
use stem_computing_desktop_p.Prelude.{
  ℕ, zero, suc, ◌≡◌, refl, Option, none, some, List, [], ◌∷◌, arith, take, Option-cases, inl, inr,
  Bool-cases, get_elem?, is_empty, not, ◌&&◌, ◌||◌,
}
use stem_computing_desktop_p.Text.{Text, text_eq, codes}
use stem_computing_desktop_p.Auth.Guard.{check_client_key}
use stem_computing_desktop_p.Platform.{Platform}
use stem_computing_desktop_p.Model.{Time, Delivery, Alert, AlertSpec, ClientInfo}
use stem_computing_desktop_p.Store.{alert_by_id, archive_first, compact, newest_alerts}
use stem_computing_desktop_p.Store.Flush.{collect, flush}
use stem_computing_desktop_p.Delivery.{ClientEvent, touch_client, ClientHello}
use stem_computing_desktop_p.Delivery.Report.{delivery_of, apply_one, apply_all, apply_events}
use stem_computing_desktop_p.Delivery.Pending.{
  action, act, Action, pass, send, recall, pending_loop, pending_for,
}
use stem_computing_desktop_p.App.{
  App, World, Request, Identity, Response, refused, reply, save, wake, with_store,
}
use stem_computing_desktop_p.Poll.{
  PollRequest, Held, start_poll, look, finish_poll, modify_client, end_hold, begin_hold, tidy_hello,
  remote_ip, id_at, open_poll,
}
use stem_computing_desktop_p.Console.Alerts.{
  mark_recalled, recall_in, new_alert, add_alert, handle_send_alert, handle_recall_alert,
  check_send,
}
use stem_computing_desktop_p.History.{
  All-append, All-drop, All-modify_alert, polled, looked, finished, sends, recalls, saves,
  elsewhere, All, Lasting, Stable, All-append, All-drop, All-modify_alert, action-recall,
  touch_client-alerts, modify_client-alerts, Step, polled, looked, finished, sends, recalls, saves,
  elsewhere,
}

module _ (P : Alert → Type 0) (lasting : Lasting P) where
  apply_one-All :
      (cid : Text) (now : Time) (ev : ClientEvent) (alerts : List Alert)
      → All P alerts
      → All P (apply_one cid now ev alerts).0
  unfolding apply_one
  apply_one-All cid now ev alerts h = elim (Option-cases (alert_by_id alerts ev.alert_id)) [
    | inl n ↦ rw (n, apply_one) h
    | inr (a, k) ↦ elim (Option-cases (delivery_of a cid)) [
      | inl n ↦ rw (k, n, apply_one) h
      | inr (d, f) ↦
          rw (k, f, apply_one)
            (All-modify_alert P _ alerts ev.alert_id
              (λ b e p. lasting.reported b cid ev.event now d (ground (arith, e, k, f)) p) h)
    ]
  ]

  apply_all-All :
      (cid : Text) (now : Time) (evs : List ClientEvent) (alerts : List Alert)
      → All P alerts
      → All P (apply_all cid now evs alerts).0
  unfolding apply_all
  apply_all-All cid now [] alerts h = h
  apply_all-All cid now (ev ∷ evs) alerts h =
      apply_all-All cid now evs (apply_one cid now ev alerts).0 (apply_one-All cid now ev alerts h)

  act_any-keeps :
      (c : ClientInfo) (now : Time) (a : Alert) (todo : Action)
      → ((d : Delivery) → todo ≡ recall d → delivery_of a c.id ≡ some d)
      → P a
      → P (act c now todo a)
  unfolding act
  act_any-keeps c now a pass h p = p
  act_any-keeps c now a send h p = lasting.sent a c now p
  act_any-keeps c now a (recall d) h p = lasting.told a c.id d (h d refl) p

  act-keeps :
      (e : Platform) (c : ClientInfo) (now : Time) (a : Alert)
      → P a
      → P (act c now (action e a c now) a)
  act-keeps e c now a p = act_any-keeps c now a (action e a c now) (action-recall e a c now) p

  pending_loop-All :
      (e : Platform) (org : Text) (c : ClientInfo) (now : Time) (alerts : List Alert)
      → All P alerts
      → All P (pending_loop e org c now alerts).0
  unfolding pending_loop
  pending_loop-All e org c now [] h = tt
  pending_loop-All e org c now (a ∷ alerts) h =
      (act-keeps e c now a h.0, pending_loop-All e org c now alerts h.1)

  archive_first-All :
      (n : ℕ) (now : Time) (alerts : List Alert) → All P alerts → All P (archive_first n now alerts)
  unfolding archive_first
  archive_first-All zero now alerts h = h
  archive_first-All (suc n) now [] h = h
  archive_first-All (suc n) now (a ∷ alerts) h =
      (lasting.archived a now h.0, archive_first-All n now alerts h.1)

  pub flush-All : (w : World) (a : App) → All P a.store.alerts → All P (save w a).store.alerts
  unfolding save flush collect compact
  flush-All w a h = elim (Bool-cases a.store.dirty_alerts) [
    | inl d ↦
        rw (d, save)
          (archive_first-All _ w.now (newest_alerts a.store.alerts) (All-drop P _ a.store.alerts h))
    | inr d ↦ rw (d, save) h
  ]

  open_poll-All :
      (e : Platform) (w : World) (ip : Text) (req : PollRequest) (h : ClientHello) (a : App)
      → All P a.store.alerts
      → All P (open_poll e w ip req h a).0.store.alerts
  unfolding open_poll apply_events
  open_poll-All e w ip req h a k =
      let (s, p) = touch_client e h ip w.now a.store in
      let s' = modify_client begin_hold p s in
      apply_all-All (id_at p s') w.now (take 200 req.events) s'.alerts
        (rw (modify_client-alerts begin_hold p s, touch_client-alerts e h ip w.now a.store) k)

  pub start_poll-All :
      (e : Platform) (w : World) (r : Request) (body : Option PollRequest) (a : App)
      → All P a.store.alerts
      → All P (start_poll e w r body a).0.store.alerts
  unfolding start_poll
  start_poll-All e w r none a h = h
  start_poll-All e w r (some req) a h =
      let hello = tidy_hello req.client in
      elim (Bool-cases (check_client_key r a.store)) [
        | inl c ↦ elim (Bool-cases (is_empty hello.hostname || is_empty hello.user)) [
          | inl m ↦ rw (c, m, start_poll) h
          | inr m ↦ rw (c, m, start_poll) (open_poll-All e w (remote_ip e a.cfg r) req hello a h)
        ]
        | inr c ↦ rw (c, start_poll) h
      ]

  pub look-All :
      (e : Platform) (now : Time) (h : Held) (a : App)
      → All P a.store.alerts
      → All P (look e now h a).0.store.alerts
  unfolding look pending_for
  look-All e now h a k = elim (Option-cases (get_elem? a.store.heap h.pointer)) [
    | inl n ↦ rw (n, look) k
    | inr (c, f) ↦
        rw (f, look) (pending_loop-All e a.store.state.settings.org_name c now a.store.alerts k)
  ]

  pub handle_send_alert-All :
      (e : Platform) (w : World) (body : Option AlertSpec) (id : Identity) (a : App)
      → ((spec : AlertSpec) → P (new_alert w id.user a.store.state.groups spec))
      → All P a.store.alerts
      → All P (handle_send_alert e w body id a).0.store.alerts
  unfolding handle_send_alert
  handle_send_alert-All e w body id a new h = sent_or_not (check_send e id body a.store) refl
    where
      sent_or_not :
          (r : Response AlertSpec)
          → check_send e id body a.store ≡ r
          → All P (handle_send_alert e w body id a).0.store.alerts
      sent_or_not (refused status code) k = rw (k, handle_send_alert) h
      sent_or_not (reply status spec) k =
          let al = new_alert w id.user a.store.state.groups spec in
          rw (k, handle_send_alert)
            (flush-All w (wake (with_store a (add_alert al a.store)))
              (All-append P a.store.alerts (al ∷ []) h (new spec, tt)))

module _ (P : Alert → Type 0) (stable : Stable P) where
  handle_recall_alert-All :
      (e : Platform) (w : World) (aid : Text) (id : Identity) (a : App)
      → All P a.store.alerts
      → All P (handle_recall_alert e w aid id a).0.store.alerts
  unfolding handle_recall_alert
  handle_recall_alert-All e w aid id a h = elim (Option-cases (alert_by_id a.store.alerts aid)) [
    | inl n ↦ rw (n, handle_recall_alert) h
    | inr (al, k) ↦
        elim (Bool-cases (
          not (text_eq id.user.role (codes "admin")) && not (text_eq al.sender id.user.username))) [
            | inl f ↦ rw (k, f, handle_recall_alert) h
            | inr f ↦
                rw (k, f, handle_recall_alert)
                  (flush-All P stable.lasting w
                    (wake (with_store a (recall_in w.now id.user.username aid al a.store)))
                    (All-modify_alert P (mark_recalled w.now id.user.username) a.store.alerts aid
                      (λ b _ p. stable.marked b id.user.username w.now p) h))
          ]
  ]

  pub Step-All :
      {e : Platform} {Fresh : World → Type 0} {a b : App}
      → ((w : World) (body : Option AlertSpec) (id : Identity) (a : App)
          → Fresh w
          → All P a.store.alerts
          → All P (handle_send_alert e w body id a).0.store.alerts)
      → Step e Fresh a b
      → All P a.store.alerts
      → All P b.store.alerts
  unfolding finish_poll handle_recall_alert
  Step-All {e = e} new (polled w r body a) h = start_poll-All P stable.lasting e w r body a h
  Step-All {e = e} new (looked now k a) h = look-All P stable.lasting e now k a h
  Step-All new (finished now k a) h = rw (modify_client-alerts (end_hold now) k.pointer a.store) h
  Step-All new (sends w body id a f) h = new w body id a f h
  Step-All {e = e} new (recalls w aid id a) h = handle_recall_alert-All e w aid id a h
  Step-All new (saves w a) h = flush-All P stable.lasting w a h
  Step-All new (elsewhere a b k) h = rw k h
