-- ===== src/Model.antt =====
-- The data model of server/store.go. A time is a number of nanoseconds since Go's zero time, and a
-- pointer to one is an `Option`. A nil and an empty slice are one empty list; a nil map is `none`.
use stem_computing_desktop_p.Prelude.{ℕ, Bool, Option, List, ◌-◌}
use stem_computing_desktop_p.Prelude.Int.{ℤ}
use stem_computing_desktop_p.Text.{Text}
use stem_computing_desktop_p.Dict.{Dict}

abbrev pub Time : Type 0
Time = ℕ

abbrev pub second : ℕ
second = 1_000_000_000

abbrev pub minute : ℕ
minute = 60_000_000_000

abbrev pub hour : ℕ
hour = 3_600_000_000_000

-- now.Sub(t). The server only compares the result with positive durations far below the bounds at
-- which Go saturates, so a negative one may stand as 0.
abbrev pub elapsed : Time → Time → ℕ
elapsed now t = now - t

pub record User : Type 0 where
  pub id : Text
  pub username : Text
  pub display_name : Text
  pub role : Text
  pub pass_hash : Text
  pub must_change : Bool
  pub disabled : Bool
  pub allowed_group_ids : List Text
  pub created_at : Time
  pub last_login : Time

pub record Token : Type 0 where
  pub id : Text
  pub name : Text
  pub hash : Text
  pub created_by : Text
  pub created_at : Time
  pub last_used : Time

pub record Rule : Type 0 where
  pub field : Text
  pub pattern : Text

pub record Group : Type 0 where
  pub id : Text
  pub name : Text
  pub rules : List Rule

pub record Target : Type 0 where
  pub all : Bool
  pub group_ids : List Text
  pub rules : List Rule

pub record AlertSpec : Type 0 where
  pub title : Text
  pub message : Text
  pub level : Text
  pub display : Text
  pub require_ack : Bool
  pub display_seconds : ℤ
  pub sound : Bool
  pub link : Text
  pub expires_minutes : ℤ
  pub target : Target

pub record Template : Type 0 where
  pub id : Text
  pub name : Text
  pub spec : AlertSpec

pub record Delivery : Type 0 where
  pub hostname : Text
  pub user : Text
  pub sid : Text
  pub sent_at : Time
  pub displayed_at : Option Time
  pub acked_at : Option Time
  pub closed_at : Option Time
  pub close_reason : Text
  pub recall_sent : Bool

pub record Totals : Type 0 where
  pub sent : ℕ
  pub displayed : ℕ
  pub acked : ℕ

pub record Alert : Type 0 where
  pub id : Text
  pub spec : AlertSpec
  pub rules : List Rule
  pub target_summary : Text
  pub sender : Text
  pub sender_name : Text
  pub created_at : Time
  pub expires_at : Time
  pub recalled_at : Option Time
  pub recalled_by : Text
  pub deliveries : Option (Dict Delivery)
  pub archived : Option Totals

pub record Settings : Type 0 where
  pub org_name : Text
  pub client_key : Text

pub record State : Type 0 where
  pub settings : Settings
  pub users : List User
  pub tokens : List Token
  pub groups : List Group
  pub templates : List Template

pub record ClientInfo : Type 0 where
  pub id : Text
  pub hostname : Text
  pub user : Text
  pub domain : Text
  pub ou : Text
  pub groups : List Text
  pub ip : Text
  pub version : Text
  pub os : Text
  pub sid : Text
  pub first_seen : Time
  pub last_seen : Time
  pub polling : ℕ

-- `Clients` maps an id to a pointer, since a held poll keeps its pointer while the map changes:
-- here an index into `heap`, where every `ClientInfo` that was ever made stays.
pub record Store : Type 0 where
  pub state : State
  pub alerts : List Alert
  pub clients : Dict ℕ
  pub heap : List ClientInfo
  pub dirty_state : Bool
  pub dirty_alerts : Bool
  pub dirty_clients : Bool
