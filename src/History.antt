-- ===== src/History.antt =====
-- What becomes of the alerts over any sequence of requests: the requests that touch them as steps.
pub mod Kept
pub mod Ordered
pub mod Answered
use stem_computing_desktop_p.Prelude.{
  ℕ, zero, suc, ◌-◌, ◌≡◌, refl, Bool, true, false, Option, none, some, List, [], ◌∷◌, ◌++◌, arith,
  drop, length, take, Option-cases, inl, inr, if◌then◌else◌, Bool-cases, get_elem?, is_empty, not,
  ◌&&◌, ◌||◌,
}
use stem_computing_desktop_p.Text.{Text, text_eq, codes}
use stem_computing_desktop_p.Auth.Guard.{check_client_key}
use stem_computing_desktop_p.Platform.{Platform}
use stem_computing_desktop_p.Model.{Time, Delivery, Alert, AlertSpec, ClientInfo, Store}
use stem_computing_desktop_p.Store.{
  alert_by_id, modify_alert, archive, archive_first, compact, newest_alerts,
}
use stem_computing_desktop_p.Store.Flush.{collect, flush}
use stem_computing_desktop_p.Delivery.{ClientEvent, touch_client, ClientHello}
use stem_computing_desktop_p.Delivery.Report.{
  apply_event, delivery_of, set_delivery, apply_one, apply_all, apply_events,
}
use stem_computing_desktop_p.Delivery.Pending.{
  action, act, Action, pass, send, recall, sent_delivery, recall_delivery, pending_loop,
  pending_for, should_recall,
}
use stem_computing_desktop_p.App.{
  App, World, Request, Identity, Response, refused, reply, save, wake, with_store,
}
use stem_computing_desktop_p.Poll.{
  PollRequest, Held, start_poll, look, finish_poll, modify_client, end_hold, begin_hold, tidy_hello,
  remote_ip, id_at, open_poll,
}
use stem_computing_desktop_p.Console.Alerts.{
  mark_recalled, recall_in, new_alert, add_alert, handle_send_alert, handle_recall_alert,
  check_send,
}

abbrev pub All : (Alert → Type 0) → List Alert → Type 0
All P [] = Unit
All P (a ∷ alerts) = P a × All P alerts

-- A property of one alert that no write to it breaks but a recall.
pub record Lasting (P : Alert → Type 0) : Type 0 where
  pub reported :
      (a : Alert) (cid ev : Text) (now : Time) (d : Delivery)
      → delivery_of a cid ≡ some d
      → P a
      → P (set_delivery cid (apply_event ev now d).0 a)
  pub sent :
      (a : Alert) (c : ClientInfo) (now : Time)
      → P a
      → P (set_delivery c.id (sent_delivery (delivery_of a c.id) c now) a)
  pub told :
      (a : Alert) (cid : Text) (d : Delivery)
      → delivery_of a cid ≡ some d
      → P a
      → P (set_delivery cid (recall_delivery d) a)
  pub archived : (a : Alert) (now : Time) → P a → P (archive now a)

-- A property of one alert that no write to it breaks.
pub record Stable (P : Alert → Type 0) : Type 0 where
  pub lasting : Lasting P
  pub marked : (a : Alert) (by : Text) (now : Time) → P a → P (mark_recalled now by a)

module _ (P : Alert → Type 0) where
  pub All-append : (xs ys : List Alert) → All P xs → All P ys → All P (xs ++ ys)
  All-append [] ys h k = k
  All-append (x ∷ xs) ys h k = (h.0, All-append xs ys h.1 k)

  pub All-drop : (n : ℕ) (xs : List Alert) → All P xs → All P (drop n xs)
  All-drop zero xs h = h
  All-drop (suc n) [] h = h
  All-drop (suc n) (x ∷ xs) h = All-drop n xs h.1

  pub All-alert_by_id :
      (xs : List Alert) (id : Text) {a : Alert} → All P xs → alert_by_id xs id ≡ some a → P a
  unfolding alert_by_id
  All-alert_by_id [] id h e = cc
  All-alert_by_id (x ∷ xs) id {a} h e = elim (Option-cases (alert_by_id xs id)) [
    | inl n ↦ elim (Bool-cases (text_eq x.id id)) [
      | inl t ↦ ground (arith, n, t)
      | inr t ↦ ground (arith, n, t)
    ]
    | inr (b, k) ↦ All-alert_by_id xs id h.1 (ground (arith, k))
  ]

  pub All-modify_alert :
      (f : Alert → Alert) (xs : List Alert) (id : Text)
      → ((a : Alert) → alert_by_id xs id ≡ some a → P a → P (f a))
      → All P xs
      → All P (modify_alert f xs id)
  unfolding modify_alert alert_by_id
  All-modify_alert f [] id keep h = tt
  All-modify_alert f (x ∷ xs) id keep h = elim (Option-cases (alert_by_id xs id)) [
    | inl n ↦ elim (Bool-cases (text_eq x.id id)) [
      | inl t ↦ rw (n, t, modify_alert) (keep x (ground (arith, n, t)) h.0, h.1)
      | inr t ↦ rw (n, t, modify_alert) h
    ]
    | inr (b, k) ↦
        rw (k, modify_alert) (h.0, All-modify_alert f xs id (λ a e. keep a (ground (arith, e))) h.1)
  ]

pub action-recall :
    (e : Platform) (a : Alert) (c : ClientInfo) (now : Time) (d : Delivery)
    → action e a c now ≡ recall d
    → delivery_of a c.id ≡ some d
unfolding action delivery_of should_recall
action-recall e a c now d h = ground arith

pub touch_client-alerts :
    (e : Platform) (h : ClientHello) (ip : Text) (now : Time) (s : Store)
    → (touch_client e h ip now s).0.alerts ≡ s.alerts
unfolding touch_client
touch_client-alerts e h ip now s = ground arith

pub modify_client-alerts :
    (f : ClientInfo → ClientInfo) (p : ℕ) (s : Store) → (modify_client f p s).alerts ≡ s.alerts
unfolding modify_client
modify_client-alerts f p s = ground arith

-- The requests that reach the alerts, and whatever leaves the alerts as they are. `Fresh` is what
-- is known of the random ids.
pub data Step (e : Platform) (Fresh : World → Type 0) : App → App → Type 0 where
  polled :
      (w : World) (r : Request) (body : Option PollRequest) (a : App)
      → Step e Fresh a (start_poll e w r body a).0
  looked : (now : Time) (h : Held) (a : App) → Step e Fresh a (look e now h a).0
  finished : (now : Time) (h : Held) (a : App) → Step e Fresh a (finish_poll now h a)
  sends :
      (w : World) (body : Option AlertSpec) (id : Identity) (a : App)
      → Fresh w
      → Step e Fresh a (handle_send_alert e w body id a).0
  recalls :
      (w : World) (aid : Text) (id : Identity) (a : App)
      → Step e Fresh a (handle_recall_alert e w aid id a).0
  saves : (w : World) (a : App) → Step e Fresh a (save w a)
  elsewhere : (a b : App) → b.store.alerts ≡ a.store.alerts → Step e Fresh a b

pub data Reach (e : Platform) (Fresh : World → Type 0) (a : App) : App → Type 0 where
  here : Reach e Fresh a a
  next : {b c : App} → Reach e Fresh a b → Step e Fresh b c → Reach e Fresh a c
