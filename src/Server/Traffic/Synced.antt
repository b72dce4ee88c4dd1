-- ===== src/Server/Traffic/Synced.antt =====
-- The files hold what the memory holds, but for what is marked to be written.
use stem_computing_desktop_p.Prelude.{
  ℕ, ◌≡◌, refl, ◌∙◌, ap, sym, inl, inr, true, false, not, ◌&&◌, ◌||◌, Option, none, some, arith,
  get_elem?, is_empty, is_none, Option-cases, Bool-cases,
}
use stem_computing_desktop_p.Text.{Text, text_eq, codes}
use stem_computing_desktop_p.Platform.{Platform}
use stem_computing_desktop_p.Dict.{delete}
use stem_computing_desktop_p.Model.{ClientInfo, Time, Alert, AlertSpec, Store}
use stem_computing_desktop_p.Store.{alert_by_id, compact}
use stem_computing_desktop_p.Store.Flush.{Disk, flush, collect}
use stem_computing_desktop_p.Store.Flush.Lost.{no_failure}
use stem_computing_desktop_p.Store.Lookup.{modify_alert_same}
use stem_computing_desktop_p.Delivery.{ClientHello, touch_client}
use stem_computing_desktop_p.Delivery.Report.{apply_events}
use stem_computing_desktop_p.Delivery.Pending.{pending_for}
use stem_computing_desktop_p.Delivery.Coherent.{AlertCoherent}
use stem_computing_desktop_p.Delivery.Quiet.{Known, apply_events-quiet, pending_loop-quiet}
use stem_computing_desktop_p.Auth.Guard.{check_client_key}
use stem_computing_desktop_p.App.{
  App, World, Request, Identity, Response, refused, reply, save, wake, with_store,
}
use stem_computing_desktop_p.Poll.{
  PollRequest, Held, start_poll, look, finish_poll, modify_client, end_hold, begin_hold, tidy_hello,
  remote_ip, open_poll, id_at,
}
use stem_computing_desktop_p.Console.Alerts.{
  mark_recalled, recall_in, new_alert, add_alert, handle_send_alert, handle_recall_alert,
  check_send,
}
use stem_computing_desktop_p.Console.Computers.{handle_forget_client}
use stem_computing_desktop_p.History.{All, All-alert_by_id}
use stem_computing_desktop_p.Server.Run.Restart.{Synced}
use stem_computing_desktop_p.Server.Traffic.{
  Noted, Step, polled, looked, finished, sends, recalls, forgets, saves, notes,
}

abbrev pub InStep : App → Type 0
InStep a = Synced a.store a.disk

flush-Synced :
    (now : Time) (s : Store) (disk : Disk)
    → Synced s disk
    → let (s', disk', _) = flush no_failure now s disk in Synced s' disk'
unfolding flush collect compact
flush-Synced now s disk h = elim (Bool-cases s.dirty_alerts) [
  | inl d ↦ record { state = λ _. ground (arith, d, h.state); alerts = λ _. ground (arith, d) }
  | inr d ↦ record {
    state = λ _. ground (arith, d, h.state);
    alerts = λ _. ground (arith, d, h.alerts d);
  }
]

-- Where every file can be written, saving leaves nothing marked and both alike.
save-InStep : (w : World) (a : App) → w.fails ≡ no_failure → InStep a → InStep (save w a)
unfolding save
save-InStep w a f h = rw (save, f) (flush-Synced w.now a.store a.disk h)

-- Of what a change of the alerts has to do: mark them, or leave them.
alerts-InStep :
    (a : App) (s : Store)
    → InStep a
    → s.state ≡ a.store.state
    → s.dirty_state ≡ a.store.dirty_state
    → (s.dirty_alerts ≡ false → (a.store.dirty_alerts ≡ false) × (s.alerts ≡ a.store.alerts))
    → InStep (with_store a s)
alerts-InStep a s h st d k = record {
  state = λ q. h.state (sym d ∙ q) ∙ sym st;
  alerts = λ q. let (q', same) = k q in h.alerts q' ∙ sym same;
}

Noted-InStep : {a b : App} → Noted a b → InStep a → InStep b
Noted-InStep n h = record {
  state = λ q. elim n.state [
    | inl y ↦ cc
    | inr (d, s) ↦ ap (λ (x : Disk). x.state) n.disk ∙ h.state (sym d ∙ q) ∙ sym s
  ];
  alerts =
      λ q. ap (λ (x : Disk). x.alerts) n.disk ∙ h.alerts (sym n.dirty_alerts ∙ q) ∙ sym n.alerts;
}

touch_client-marks :
    (e : Platform) (h : ClientHello) (ip : Text) (now : Time) (s : Store)
    → let t = (touch_client e h ip now s).0 in
      (t.state ≡ s.state)
      × (t.dirty_state ≡ s.dirty_state)
      × (t.alerts ≡ s.alerts)
      × (t.dirty_alerts ≡ s.dirty_alerts)
unfolding touch_client
touch_client-marks e h ip now s = (ground arith, ground arith, ground arith, ground arith)

modify_client-marks :
    (f : ClientInfo → ClientInfo) (p : ℕ) (s : Store)
    → let t = modify_client f p s in
      (t.state ≡ s.state)
      × (t.dirty_state ≡ s.dirty_state)
      × (t.alerts ≡ s.alerts)
      × (t.dirty_alerts ≡ s.dirty_alerts)
unfolding modify_client
modify_client-marks f p s = (ground arith, ground arith, ground arith, ground arith)

open_poll-InStep :
    (e : Platform) (w : World) (ip : Text) (req : PollRequest) (h : ClientHello) (a : App)
    → Known a.store.alerts
    → InStep a
    → InStep (open_poll e w ip req h a).0
unfolding open_poll apply_events
open_poll-InStep e w ip req h a known k =
    let (s, p) = touch_client e h ip w.now a.store in
    let s' = modify_client begin_hold p s in
    let (t1, t2, t3, t4) = touch_client-marks e h ip w.now a.store in
    let (m1, m2, m3, m4) = modify_client-marks begin_hold p s in
    let r = apply_events (id_at p s') req.events w.now s' in
    alerts-InStep a r.0 k (m1 ∙ t1) (m2 ∙ t2) (λ q.
      let quiet : r.1 ≡ false = ground (arith, q) in
      (
        ground (arith, q, m4, t4),
        apply_events-quiet (id_at p s') req.events w.now s' (rw (m3, t3) known) quiet ∙ m3 ∙ t3,
      ))

start_poll-InStep :
    (e : Platform) (w : World) (r : Request) (body : Option PollRequest) (a : App)
    → Known a.store.alerts
    → InStep a
    → InStep (start_poll e w r body a).0
unfolding start_poll
start_poll-InStep e w r none a known h = h
start_poll-InStep e w r (some req) a known h =
    let hello = tidy_hello req.client in
    elim (Bool-cases (check_client_key r a.store)) [
      | inl c ↦ elim (Bool-cases (is_empty hello.hostname || is_empty hello.user)) [
        | inl m ↦ rw (c, m, start_poll) h
        | inr m ↦
            rw (c, m, start_poll) (open_poll-InStep e w (remote_ip e a.cfg r) req hello a known h)
      ]
      | inr c ↦ rw (c, start_poll) h
    ]

look-InStep :
    (e : Platform) (now : Time) (k : Held) (a : App) → InStep a → InStep (look e now k a).0
unfolding look pending_for
look-InStep e now k a h = elim (Option-cases (get_elem? a.store.heap k.pointer)) [
  | inl n ↦ rw (n, look) h
  | inr (c, f) ↦
      rw (f, look)
        (alerts-InStep a _ h refl refl (λ q. (
          ground (arith, q),
          pending_loop-quiet e a.store.state.settings.org_name c now a.store.alerts
              (ground (arith, q)),
        )))
]

handle_send_alert-InStep :
    (e : Platform) (w : World) (body : Option AlertSpec) (id : Identity) (a : App)
    → w.fails ≡ no_failure
    → InStep a
    → InStep (handle_send_alert e w body id a).0
unfolding handle_send_alert
handle_send_alert-InStep e w body id a f h = sent_or_not (check_send e id body a.store) refl
  where
    sent_or_not :
        (r : Response AlertSpec)
        → check_send e id body a.store ≡ r
        → InStep (handle_send_alert e w body id a).0
    sent_or_not (refused status code) k = rw (k, handle_send_alert) h
    sent_or_not (reply status spec) k =
        let s = add_alert (new_alert w id.user a.store.state.groups spec) a.store in
        rw (k, handle_send_alert)
          (save-InStep w (wake (with_store a s)) f (record { state = h.state; alerts = λ q. cc }))

marked_once :
    (now : Time) (by : Text) (al : Alert)
    → is_none al.recalled_at ≡ false
    → mark_recalled now by al ≡ al
unfolding mark_recalled
marked_once now by al n = rw (n) refl

handle_recall_alert-InStep :
    (e : Platform) (w : World) (aid : Text) (id : Identity) (a : App)
    → w.fails ≡ no_failure
    → InStep a
    → InStep (handle_recall_alert e w aid id a).0
unfolding handle_recall_alert
handle_recall_alert-InStep e w aid id a f h = elim (Option-cases (alert_by_id a.store.alerts aid)) [
  | inl n ↦ rw (n, handle_recall_alert) h
  | inr (al, k) ↦
      let by = id.user.username in
      elim (Bool-cases
        (not (text_eq id.user.role (codes "admin")) && not (text_eq al.sender id.user.username))) [
          | inl t ↦ rw (k, t, handle_recall_alert) h
          | inr t ↦
              rw (k, t, handle_recall_alert)
                (save-InStep w (wake (with_store a (recall_in w.now by aid al a.store))) f (record {
                  state = h.state;
                  alerts = λ q.
                      h.alerts (ground (arith, q))
                      ∙ sym (
                          modify_alert_same (mark_recalled w.now by) a.store.alerts aid k
                            (marked_once w.now by al (ground (arith, q))));
                }))
        ]
]

-- Every step keeps the files in step, where they can be written.
pub Step-InStep :
    {e : Platform} {Fresh : World → Type 0} {a b : App}
    → ((w : World) → Fresh w → w.fails ≡ no_failure)
    → Step e Fresh a b
    → All AlertCoherent a.store.alerts
    → InStep a
    → InStep b
unfolding finish_poll handle_forget_client
Step-InStep {e = e} ok (polled w r body a) c h =
    start_poll-InStep e w r body a (λ id x k. All-alert_by_id AlertCoherent a.store.alerts id c k) h
Step-InStep {e = e} ok (looked now k a) c h = look-InStep e now k a h
Step-InStep ok (finished now k a) c h =
    let (m1, m2, m3, m4) = modify_client-marks (end_hold now) k.pointer a.store in
    alerts-InStep a _ h m1 m2 (λ q. (sym m4 ∙ q, m3))
Step-InStep {e = e} ok (sends w body id a f) c h = handle_send_alert-InStep e w body id a (ok w f) h
Step-InStep {e = e} ok (recalls w aid id a f) c h =
    handle_recall_alert-InStep e w aid id a (ok w f) h
Step-InStep ok (forgets w cid a f) c h =
    save-InStep w
      (with_store a (record a.store { clients = delete cid a.store.clients; dirty_clients = true }))
      (ok w f) (record { state = h.state; alerts = h.alerts })
Step-InStep ok (saves w a f) c h = save-InStep w a (ok w f) h
Step-InStep ok (notes n) c h = Noted-InStep n h
