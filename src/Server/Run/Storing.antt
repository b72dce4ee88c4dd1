-- ===== src/Server/Run/Storing.antt =====
-- The requests that reach the alerts and the computers keep both in order.
pub mod Keys
pub mod Always
use stem_computing_desktop_p.Prelude.{
  ℕ, ◌≡◌, ◌≢◌, refl, ◌∙◌, Bool, true, false, not, ◌&&◌, ◌||◌, Option, none, some, List, [], ◌∷◌,
  arith, get_elem?, is_empty, if◌then◌else◌, is_none, is_some, Option-cases, Bool-cases, inl, inr,
  if_cases,
}
use stem_computing_desktop_p.Text.{Text, text_eq, codes}
use stem_computing_desktop_p.Platform.{Platform}
use stem_computing_desktop_p.Model.{Time, Alert, AlertSpec, ClientInfo, Delivery, Store}
use stem_computing_desktop_p.Dict.{delete}
use stem_computing_desktop_p.Store.{alert_by_id, archive, compact}
use stem_computing_desktop_p.Store.Flush.{flush, collect}
use stem_computing_desktop_p.Store.Reopen.{is_whole, AllWhole}
use stem_computing_desktop_p.Store.Reopen.Clients.{Keyed, drop_stale-Keyed}
use stem_computing_desktop_p.Delivery.{ClientHello, touch_client}
use stem_computing_desktop_p.Delivery.Report.{apply_events, delivery_of, set_delivery}
use stem_computing_desktop_p.Delivery.Pending.{pending_for}
use stem_computing_desktop_p.Auth.Guard.{check_client_key}
use stem_computing_desktop_p.App.{
  App, World, Request, Identity, Response, refused, reply, save, wake, with_store,
}
use stem_computing_desktop_p.Poll.{
  PollRequest, Held, start_poll, look, finish_poll, modify_client, end_hold, begin_hold, tidy_hello,
  remote_ip, open_poll,
}
use stem_computing_desktop_p.Console.Alerts.{
  mark_recalled, recall_in, new_alert, add_alert, handle_send_alert, handle_recall_alert,
  check_send,
}
use stem_computing_desktop_p.Console.Computers.{handle_forget_client}
use stem_computing_desktop_p.History
use stem_computing_desktop_p.History.{All, Stable}
use stem_computing_desktop_p.History.Kept.{Step-All, handle_send_alert-All}
use stem_computing_desktop_p.Server.Run.Restart.{Storable}
use stem_computing_desktop_p.Server.Run.Storing.Keys.{
  Sha1Law, InOrder, Keyed-delete, modify_client-InOrder, touch_client-InOrder,
}

-- The requests that reach the alerts and the computers, and whatever leaves both as they are.
pub data Step (e : Platform) : App → App → Type 0 where
  polled :
      (w : World) (r : Request) (body : Option PollRequest) (a : App)
      → Step e a (start_poll e w r body a).0
  looked : (now : Time) (k : Held) (a : App) → Step e a (look e now k a).0
  finished : (now : Time) (k : Held) (a : App) → Step e a (finish_poll now k a)
  sends :
      (w : World) (body : Option AlertSpec) (id : Identity) (a : App)
      → Step e a (handle_send_alert e w body id a).0
  recalls :
      (w : World) (aid : Text) (id : Identity) (a : App)
      → Step e a (handle_recall_alert e w aid id a).0
  forgets : (w : World) (cid : Text) (a : App) → Step e a (handle_forget_client w cid a).0
  saves : (w : World) (a : App) → Step e a (save w a)
  elsewhere :
      (a b : App)
      → b.store.alerts ≡ a.store.alerts
      → b.store.clients ≡ a.store.clients
      → b.store.heap ≡ a.store.heap
      → Step e a b

pub data Reach (e : Platform) (a : App) : App → Type 0 where
  here : Reach e a a
  next : {b c : App} → Reach e a b → Step e b c → Reach e a c

abbrev pub Whole : Alert → Type 0
Whole a = is_whole a ≡ true

set_delivery-Whole :
    (cid : Text) (d : Delivery) (a : Alert) → Whole a → Whole (set_delivery cid d a)
unfolding set_delivery
set_delivery-Whole cid d a h = ground arith

pub Whole-Stable : Stable Whole
unfolding mark_recalled archive
Whole-Stable = record {
  lasting = record {
    reported = λ a cid ev now d e h. set_delivery-Whole cid _ a h;
    sent = λ a c now h. set_delivery-Whole c.id _ a h;
    told = λ a cid d e h. set_delivery-Whole cid _ a h;
    archived = λ a now h. ground arith;
  };
  marked = λ a by now h. ground arith;
}

History-Whole :
    {e : Platform} {a b : App}
    → History.Step e (λ w. Unit {0}) a b
    → All Whole a.store.alerts
    → All Whole b.store.alerts
unfolding new_alert
History-Whole {e = e} st h =
    Step-All Whole Whole-Stable
      (λ w body id a _ k.
        handle_send_alert-All Whole Whole-Stable.lasting e w body id a (λ spec. refl) k)
      st h

pub Step-Whole :
    {e : Platform} {a b : App} → Step e a b → All Whole a.store.alerts → All Whole b.store.alerts
unfolding handle_forget_client
Step-Whole {e = e} (polled w r body a) h = History-Whole {e = e} (History.polled w r body a) h
Step-Whole {e = e} (looked now k a) h = History-Whole {e = e} (History.looked now k a) h
Step-Whole {e = e} (finished now k a) h = History-Whole {e = e} (History.finished now k a) h
Step-Whole {e = e} (sends w body id a) h = History-Whole {e = e} (History.sends w body id a tt) h
Step-Whole {e = e} (recalls w aid id a) h = History-Whole {e = e} (History.recalls w aid id a) h
Step-Whole {e = e} (forgets w cid a) h =
    History-Whole {e = e}
      (History.saves w (
        with_store a
          (record a.store { clients = delete cid a.store.clients; dirty_clients = true })))
      h
Step-Whole {e = e} (saves w a) h = History-Whole {e = e} (History.saves w a) h
Step-Whole {e = e} (elsewhere a b x y z) h = rw x h

-- `save` forgets stale computers, if anything.
save-InOrder : (w : World) (a : App) → InOrder a.store → InOrder (save w a).store
unfolding save flush collect compact
save-InOrder w a h = elim (Bool-cases a.store.dirty_alerts) [
  | inl d ↦ rw (d, save) (drop_stale-Keyed w.now a.store.heap a.store.clients h)
  | inr d ↦ rw (d, save) h
]

start_poll-InOrder :
    (e : Platform) (w : World) (r : Request) (body : Option PollRequest) (a : App)
    → Sha1Law e
    → InOrder a.store
    → InOrder (start_poll e w r body a).0.store
unfolding start_poll open_poll apply_events
start_poll-InOrder e w r none a law h = h
start_poll-InOrder e w r (some req) a law h =
    let hello = tidy_hello req.client in
    let t = touch_client e hello (remote_ip e a.cfg r) w.now a.store in
    elim (Bool-cases (check_client_key r a.store)) [
      | inl c ↦ elim (Bool-cases (is_empty hello.hostname || is_empty hello.user)) [
        | inl m ↦ rw (c, m, start_poll) h
        | inr m ↦
            rw (c, m, start_poll)
              (modify_client-InOrder begin_hold t.1 t.0 (λ x. refl)
                (touch_client-InOrder e hello (remote_ip e a.cfg r) w.now a.store law h))
      ]
      | inr c ↦ rw (c, start_poll) h
    ]

look-InOrder :
    (e : Platform) (now : Time) (k : Held) (a : App)
    → InOrder a.store
    → InOrder (look e now k a).0.store
unfolding look pending_for
look-InOrder e now k a h = elim (Option-cases (get_elem? a.store.heap k.pointer)) [
  | inl n ↦ rw (n, look) h
  | inr (c, f) ↦ rw (f, look) h
]

handle_send_alert-InOrder :
    (e : Platform) (w : World) (body : Option AlertSpec) (id : Identity) (a : App)
    → InOrder a.store
    → InOrder (handle_send_alert e w body id a).0.store
unfolding handle_send_alert
handle_send_alert-InOrder e w body id a h = sent_or_not (check_send e id body a.store) refl
  where
    sent_or_not :
        (r : Response AlertSpec)
        → check_send e id body a.store ≡ r
        → InOrder (handle_send_alert e w body id a).0.store
    sent_or_not (refused status code) k = rw (k, handle_send_alert) h
    sent_or_not (reply status spec) k =
        rw (k, handle_send_alert)
          (save-InOrder w
            (wake
              (with_store a (add_alert (new_alert w id.user a.store.state.groups spec) a.store)))
            h)

handle_recall_alert-InOrder :
    (e : Platform) (w : World) (aid : Text) (id : Identity) (a : App)
    → InOrder a.store
    → InOrder (handle_recall_alert e w aid id a).0.store
unfolding handle_recall_alert
handle_recall_alert-InOrder e w aid id a h = elim (Option-cases (alert_by_id a.store.alerts aid)) [
  | inl n ↦ rw (n, handle_recall_alert) h
  | inr (al, k) ↦
      elim (Bool-cases
        (not (text_eq id.user.role (codes "admin")) && not (text_eq al.sender id.user.username))) [
          | inl f ↦ rw (k, f, handle_recall_alert) h
          | inr f ↦
              rw (k, f, handle_recall_alert)
                (save-InOrder w
                  (wake (with_store a (recall_in w.now id.user.username aid al a.store))) h)
        ]
]

pub Step-InOrder :
    {e : Platform} {a b : App} → Sha1Law e → Step e a b → InOrder a.store → InOrder b.store
unfolding handle_forget_client finish_poll
Step-InOrder {e = e} law (polled w r body a) h = start_poll-InOrder e w r body a law h
Step-InOrder {e = e} law (looked now k a) h = look-InOrder e now k a h
Step-InOrder law (finished now k a) h =
    modify_client-InOrder (end_hold now) k.pointer a.store (λ c. refl) h
Step-InOrder {e = e} law (sends w body id a) h = handle_send_alert-InOrder e w body id a h
Step-InOrder {e = e} law (recalls w aid id a) h = handle_recall_alert-InOrder e w aid id a h
Step-InOrder law (forgets w cid a) h =
    save-InOrder w
      (with_store a (record a.store { clients = delete cid a.store.clients; dirty_clients = true }))
      (Keyed-delete a.store.clients a.store.heap cid h)
Step-InOrder law (saves w a) h = save-InOrder w a h
Step-InOrder law (elsewhere a b x y z) h = rw (y, z) h
