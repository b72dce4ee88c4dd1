-- ===== src/Server/Traffic.antt =====
-- What requests and the saving ticker do to the store, in few kinds of step: each handler of the
-- server takes some of them, and each invariant has to be checked against these alone. A save is one whole
-- `flush` in them, which no other overtakes.
pub mod Plain
pub mod Handlers
pub mod Sessions
pub mod Serving
pub mod Synced
pub mod Kept
pub mod Starting
pub mod Lifetime
pub mod Durable
pub mod Woken
pub mod Hold
use stem_computing_desktop_p.Prelude.{◌≡◌, ◌≤◌, refl, ◌⊎◌, inl, inr, true, Option, Bool}
use stem_computing_desktop_p.Text.{Text}
use stem_computing_desktop_p.Platform.{Platform}
use stem_computing_desktop_p.Model.{Time, AlertSpec, State}
use stem_computing_desktop_p.App.{App, World, Request, Identity, Response, save, with_state}
use stem_computing_desktop_p.Poll.{PollRequest, Held, start_poll, look, finish_poll}
use stem_computing_desktop_p.Console.Alerts.{handle_send_alert, handle_recall_alert}
use stem_computing_desktop_p.Console.Computers.{handle_forget_client}

-- A change that leaves the alerts, the computers and the files as they are, and marks the rest if it
-- changes it.
pub record Noted (a b : App) : Type 0 where
  pub alerts : b.store.alerts ≡ a.store.alerts
  pub clients : b.store.clients ≡ a.store.clients
  pub heap : b.store.heap ≡ a.store.heap
  pub dirty_alerts : b.store.dirty_alerts ≡ a.store.dirty_alerts
  pub disk : b.disk ≡ a.disk
  pub wakes : a.wakes ≤ b.wakes
  pub state :
      (b.store.dirty_state ≡ true)
      ⊎ ((b.store.dirty_state ≡ a.store.dirty_state) × (b.store.state ≡ a.store.state))

-- `Fresh` is what is known of the world of a request.
pub data Step (e : Platform) (Fresh : World → Type 0) : App → App → Type 0 where
  polled :
      (w : World) (r : Request) (body : Option PollRequest) (a : App)
      → Step e Fresh a (start_poll e w r body a).0
  looked : (now : Time) (k : Held) (a : App) → Step e Fresh a (look e now k a).0
  finished : (now : Time) (k : Held) (a : App) → Step e Fresh a (finish_poll now k a)
  sends :
      (w : World) (body : Option AlertSpec) (id : Identity) (a : App)
      → Fresh w
      → Step e Fresh a (handle_send_alert e w body id a).0
  recalls :
      (w : World) (aid : Text) (id : Identity) (a : App)
      → Fresh w
      → Step e Fresh a (handle_recall_alert e w aid id a).0
  forgets :
      (w : World) (cid : Text) (a : App) → Fresh w → Step e Fresh a (handle_forget_client w cid a).0
  saves : (w : World) (a : App) → Fresh w → Step e Fresh a (save w a)
  notes : {a b : App} → Noted a b → Step e Fresh a b

pub data Reach (e : Platform) (Fresh : World → Type 0) (a : App) : App → Type 0 where
  here : Reach e Fresh a a
  next : {b c : App} → Reach e Fresh a b → Step e Fresh b c → Reach e Fresh a c
