-- ===== src/Delivery/Pending.antt =====
-- server/api_client.go: `pendingFor`, the alerts that go out to a client and those that come down.
use stem_computing_desktop_p.Prelude.{
  Bool, true, false, not, ◌&&◌, ◌||◌, Option, none, some, List, [], ◌∷◌, ltb, if◌then◌else◌,
  is_none,
}
use stem_computing_desktop_p.Text.{Text, text_eq}
use stem_computing_desktop_p.Dict.{lookup}
use stem_computing_desktop_p.Platform.{Platform}
use stem_computing_desktop_p.Model.{Time, elapsed, Delivery, Alert, AlertSpec, ClientInfo, Store}
use stem_computing_desktop_p.Match.{alert_matches}
use stem_computing_desktop_p.Delivery.{resend_after, recall_window, WireAlert}
use stem_computing_desktop_p.Delivery.Report.{delivery_of, set_delivery}

-- the switch of `pendingFor`: whether an alert that is for this client goes out now
unfoldable pub should_send : AlertSpec → Option Delivery → Text → Time → Bool
should_send spec none sid now = true
should_send spec (some d) sid now =
    if text_eq d.sid sid
    then is_none d.displayed_at && ltb resend_after (elapsed now d.sent_at)
    else is_none d.displayed_at || spec.require_ack && is_none d.acked_at

-- Whether a recalled alert has to be taken down on this client.
unfoldable pub should_recall : Option Delivery → Time → Time → Bool
should_recall none recalled_at now = false
should_recall (some d) recalled_at now =
    is_none d.closed_at && not d.recall_sent && ltb (elapsed now recalled_at) recall_window

-- The delivery record of an alert that goes out.
abbrev pub sent_delivery : Option Delivery → ClientInfo → Time → Delivery
sent_delivery none c now = record {
  hostname = c.hostname;
  user = c.user;
  sid = c.sid;
  sent_at = now;
  displayed_at = none;
  acked_at = none;
  closed_at = none;
  close_reason = [];
  recall_sent = false;
}
sent_delivery (some d) c now = record d { sid = c.sid; sent_at = now }

abbrev pub recall_delivery : Delivery → Delivery
recall_delivery d = record d { recall_sent = true }

abbrev pub wire : Text → Alert → WireAlert
wire org a = record {
  id = a.id;
  title = a.spec.title;
  message = a.spec.message;
  level = a.spec.level;
  display = a.spec.display;
  require_ack = a.spec.require_ack;
  display_seconds = a.spec.display_seconds;
  sound = a.spec.sound;
  link = a.spec.link;
  sender = a.sender_name;
  org = org;
  created_at = a.created_at;
}

-- What a round of the loop of `pendingFor` does with one alert.
pub data Action : Type 0 where
  pass send : Action
  recall : Delivery → Action

unfoldable pub action : Platform → Alert → ClientInfo → Time → Action
unfolding should_send should_recall delivery_of
action e a c now = elim a.deliveries [
  | none ↦ pass
  | some ds ↦ elim a.recalled_at [
    | some at ↦ elim (lookup c.id ds) [
      | none ↦ pass
      | some d ↦ if should_recall (some d) at now then recall d else pass
    ]
    | none ↦
        if ltb a.expires_at now || not (alert_matches e a c)
        then pass
        else if should_send a.spec (lookup c.id ds) c.sid now
        then send
        else pass
  ]
]

-- The alert after the round.
unfoldable pub act : ClientInfo → Time → Action → Alert → Alert
unfolding set_delivery delivery_of
act c now pass a = a
act c now send a = set_delivery c.id (sent_delivery (delivery_of a c.id) c now) a
act c now (recall d) a = set_delivery c.id (recall_delivery d) a

pub record Pending : Type 0 where
  pub alerts : List WireAlert
  pub recalled : List Text

abbrev pub report : Text → Alert → Action → Pending → Pending
report org a pass r = r
report org a send r = record r { alerts = wire org a ∷ r.alerts }
report org a (recall _) r = record r { recalled = a.id ∷ r.recalled }

abbrev pub is_write : Action → Bool
is_write pass = false
is_write _ = true

-- the loop of `pendingFor`
unfoldable pub pending_loop :
    Platform → Text → ClientInfo → Time → List Alert → List Alert × Pending × Bool
unfolding action act
pending_loop e org c now [] = ([], record { alerts = []; recalled = [] }, false)
pending_loop e org c now (a ∷ alerts) =
    let todo = action e a c now in
    let (rest, r, dirty) = pending_loop e org c now alerts in
    (act c now todo a ∷ rest, report org a todo r, is_write todo || dirty)

-- pendingFor
unfoldable pub pending_for : Platform → ClientInfo → Time → Store → Store × Pending
unfolding pending_loop
pending_for e c now s =
    let (alerts', r, dirty) = pending_loop e s.state.settings.org_name c now s.alerts in
    (record s { alerts = alerts'; dirty_alerts = s.dirty_alerts || dirty }, r)
