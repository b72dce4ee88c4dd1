-- ===== src/Poll.antt =====
-- `handlePoll` of server/api_client.go as a machine: a poll starts, looks at the store again and
-- again while it is held, and ends. What runs between two looks belongs to other requests.
pub mod Count
pub mod Kept
pub mod Hub
use stem_computing_desktop_p.Prelude.{
  ℕ, suc, ◌-◌, Bool, not, ◌&&◌, ◌||◌, Option, none, some, List, [], ◌∷◌, if◌then◌else◌, is_empty,
  is_some, set, get_elem?, ◌==◌,
}
use stem_computing_desktop_p.Text.{Text, codes, clean_text, trim_space}
use stem_computing_desktop_p.Platform.{Platform}
use stem_computing_desktop_p.Model.{Time, ClientInfo, Store}
use stem_computing_desktop_p.Delivery.{ClientHello, ClientEvent, WireAlert, touch_client}
use stem_computing_desktop_p.Delivery.Report.{apply_events}
use stem_computing_desktop_p.Delivery.Pending.{pending_for}
use stem_computing_desktop_p.Auth.Guard.{check_client_key}
use stem_computing_desktop_p.App.{App, World, Request, Config, with_store}

pub record PollRequest : Type 0 where
  pub client : ClientHello
  pub events : List ClientEvent
  pub wait : Bool

pub record PollResponse : Type 0 where
  pub alerts : List WireAlert
  pub recalled : List Text
  pub retry_ms : ℕ

-- A poll that is held open: the pointer to its computer, whether it asked to wait, and how often
-- the hub had been woken when it took the channel that it waits on.
pub record Held : Type 0 where
  pub pointer : ℕ
  pub wait : Bool
  pub seen : ℕ

-- The first part of a header that is split at commas.
unfoldable pub before_comma : Text → Text
before_comma [] = []
before_comma (c ∷ s) = let rest = before_comma s in if c == b',' then [] else c ∷ rest

-- remoteIP
unfoldable pub remote_ip : Platform → Config → Request → Text
unfolding before_comma
remote_ip e cfg r =
    let first = trim_space (before_comma r.x_forwarded_for) in
    if cfg.trust_proxy_headers && not (is_empty r.x_forwarded_for) && is_some (e.parse_ip first)
    then first
    else elim (e.split_host_port r.remote_addr) [ none ↦ r.remote_addr | some host ↦ host ]

-- A write through a pointer to a computer.
unfoldable pub modify_client : (ClientInfo → ClientInfo) → ℕ → Store → Store
modify_client f p s = elim (get_elem? s.heap p) [
  | none ↦ s
  | some c ↦ record s { heap = set s.heap p (f c) }
]

abbrev pub begin_hold : ClientInfo → ClientInfo
begin_hold c = record c { polling = suc c.polling }

abbrev pub end_hold : Time → ClientInfo → ClientInfo
end_hold now c = record c { polling = c.polling - 1; last_seen = now }

-- The id of the computer behind a pointer.
abbrev pub id_at : ℕ → Store → Text
id_at p s = elim (get_elem? s.heap p) [ none ↦ [] | some c ↦ c.id ]

pub data Started : Type 0 where
  turned_away : ℕ → Text → Started
  held : Held → Started

-- the hello with its two required texts tidied
abbrev pub tidy_hello : ClientHello → ClientHello
tidy_hello h = record h { hostname = clean_text h.hostname 64; user = clean_text h.user 104 }

-- the locked part of `handlePoll` before its loop, for a hello that is tidied and complete
unfoldable pub open_poll : Platform → World → Text → PollRequest → ClientHello → App → App × Held
unfolding touch_client apply_events modify_client
open_poll e w ip req h a =
    let (s, p) = touch_client e h ip w.now a.store in
    let s' = modify_client begin_hold p s in
    (
      with_store a (apply_events (id_at p s') req.events w.now s').0,
      record { pointer = p; wait = req.wait; seen = a.wakes },
    )

-- `handlePoll` up to its loop
unfoldable pub start_poll : Platform → World → Request → Option PollRequest → App → App × Started
unfolding check_client_key open_poll remote_ip
start_poll e w r none a = (
  a,
  if check_client_key r a.store
      then turned_away 400 (codes "bad_json")
      else turned_away 401 (codes "bad_client_key"),
)
start_poll e w r (some req) a =
    let h = tidy_hello req.client in
    let (a', k) = open_poll e w (remote_ip e a.cfg r) req h a in
    if not (check_client_key r a.store)
    then (a, turned_away 401 (codes "bad_client_key"))
    else if is_empty h.hostname || is_empty h.user
    then (a, turned_away 400 (codes "bad_request"))
    else (a', held k)

-- the channel that is taken at the start of each round of the loop
abbrev pub take_channel : Held → App → Held
take_channel h a = record h { seen = a.wakes }

-- the rest of a round of the loop: the answer, or none to wait on the channel
unfoldable pub look : Platform → Time → Held → App → App × Option PollResponse
unfolding pending_for
look e now h a = elim (get_elem? a.store.heap h.pointer) [
  | none ↦ (a, none)
  | some c ↦
      let (s, r) = pending_for e c now a.store in
      (
        with_store a s,
        if not (is_empty r.alerts) || not (is_empty r.recalled) || not h.wait || a.closing
            then some (record { alerts = r.alerts; recalled = r.recalled; retry_ms = 1000 })
            else none,
      )
]

-- the answer when the poll has been held for 25 seconds
abbrev pub timed_out : PollResponse
timed_out = record { alerts = []; recalled = []; retry_ms = 250 }

-- the deferred function
unfoldable pub finish_poll : Time → Held → App → App
unfolding modify_client
finish_poll now h a = with_store a (modify_client (end_hold now) h.pointer a.store)
