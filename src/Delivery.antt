-- ===== src/Delivery.antt =====
-- server/api_client.go: what one check-in of a desktop client does to the store, up to `touchClient`.
-- `touchClient`, `applyEvents` and `pendingFor` run under the lock, so each is one step.
pub mod Report
pub mod Pending
pub mod Events
pub mod Coherent
pub mod Resend
pub mod Slot
pub mod Quiet
use stem_computing_desktop_p.Prelude.{
  ℕ, ◌+◌, ◌*◌, ◌/◌, ◌%◌, Bool, true, false, not, ◌&&◌, ◌||◌, Option, none, some, List, [], ◌∷◌,
  ◌++◌, ltb, ◌==◌, if◌then◌else◌, length, take, set, get_elem?, is_none, is_empty,
}
use stem_computing_desktop_p.Prelude.Int.{ℤ}
use stem_computing_desktop_p.Text.{Text, codes, text_eq, to_lower, clean_text}
use stem_computing_desktop_p.Dict.{lookup, insert}
use stem_computing_desktop_p.Platform.{Platform, Bytes}
use stem_computing_desktop_p.Model.{
  Time, second, minute, hour, elapsed, Delivery, Alert, AlertSpec, ClientInfo, Store,
}
use stem_computing_desktop_p.Match.{alert_matches}
use stem_computing_desktop_p.Store.{alert_by_id, modify_alert}

abbrev pub resend_after : ℕ
resend_after = 60 * second

abbrev pub recall_window : ℕ
recall_window = 12 * hour

abbrev pub max_groups_kept : ℕ
max_groups_kept = 300

-- clientHello
pub record ClientHello : Type 0 where
  pub hostname : Text
  pub user : Text
  pub domain : Text
  pub ou : Text
  pub groups : List Text
  pub version : Text
  pub os : Text
  pub sid : Text

-- clientEvent
pub record ClientEvent : Type 0 where
  pub alert_id : Text
  pub event : Text

-- wireAlert; the text of its time, in the layout of RFC 3339, is left to the encoding of the answer
pub record WireAlert : Type 0 where
  pub id : Text
  pub title : Text
  pub message : Text
  pub level : Text
  pub display : Text
  pub require_ack : Bool
  pub display_seconds : ℤ
  pub sound : Bool
  pub link : Text
  pub sender : Text
  pub org : Text
  pub created_at : Time

-- A digit of hex.EncodeToString, and the encoding of some bytes.
abbrev hex_digit : ℕ → ℕ
hex_digit n = if ltb n 10 then 48 + n else 87 + n

unfoldable pub hex : Bytes → Text
hex [] = []
hex (b ∷ bs) = hex_digit (b / 16) ∷ hex_digit (b % 16) ∷ hex bs

-- clientIDFor
unfoldable pub client_id_for : Platform → Text → Text → Text → Text
unfolding hex
client_id_for e hostname domain user =
    hex (take 8 (e.sha1 (to_lower e.unicode (hostname ++ (b'|' ∷ domain ++ (92 ∷ user))))))

-- the loop over the groups in `touchClient`
unfoldable pub clean_groups : List Text → List Text
clean_groups [] = []
clean_groups (g ∷ gs) =
    let rest = clean_groups gs in
    if is_empty (clean_text g 256) then rest else clean_text g 256 ∷ rest

-- The computer as it stands after a check-in.
unfoldable pub checked_in : ClientInfo → ClientHello → Text → Time → ClientInfo
unfolding clean_groups
checked_in c h ip now = record c {
  hostname = h.hostname;
  user = h.user;
  domain = clean_text h.domain 64;
  ou = clean_text h.ou 512;
  groups = clean_groups (take max_groups_kept h.groups);
  ip = ip;
  version = clean_text h.version 32;
  os = clean_text h.os 128;
  sid = clean_text h.sid 64;
  last_seen = now;
}

-- Whether the check-in is worth writing to disk.
unfoldable pub is_news : ClientInfo → ClientHello → Text → Time → Bool
unfolding clean_groups
is_news c h ip now =
    not (text_eq c.sid (clean_text h.sid 64))
    || not (text_eq c.ip ip)
    || not (text_eq c.ou h.ou)
    || not (length c.groups == length (clean_groups (take max_groups_kept h.groups)))
    || ltb (5 * minute) (elapsed now c.last_seen)

abbrev pub new_client : Text → Time → ClientInfo
new_client id now = record {
  id = id;
  hostname = [];
  user = [];
  domain = [];
  ou = [];
  groups = [];
  ip = [];
  version = [];
  os = [];
  sid = [];
  first_seen = now;
  last_seen = 0;
  polling = 0;
}

-- The computer with its pointer: the one that the map holds, or a new one at the heap's end.
unfoldable pub find_client : Text → Store → Option (ℕ × ClientInfo)
find_client id s = elim (lookup id s.clients) [
  | none ↦ none
  | some p ↦ elim (get_elem? s.heap p) [ none ↦ none | some c ↦ some (p, c) ]
]

-- touchClient: the store, and the pointer that it returns
unfoldable pub touch_client : Platform → ClientHello → Text → Time → Store → Store × ℕ
unfolding client_id_for checked_in is_news find_client
touch_client e h ip now s =
    let id = client_id_for e h.hostname (clean_text h.domain 64) h.user in
    elim (find_client id s) [
      | none ↦ (
        record s {
          clients = insert id (length s.heap) s.clients;
          heap = s.heap ++ (checked_in (new_client id now) h ip now ∷ []);
          dirty_clients = true;
        },
        length s.heap,
      )
      | some (p, c) ↦ (
        record s {
          heap = set s.heap p (checked_in c h ip now);
          dirty_clients = s.dirty_clients || is_news c h ip now;
        },
        p,
      )
    ]
