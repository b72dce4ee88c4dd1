-- ===== src/Store/Files.antt =====
-- `loadJSON` and the first half of `openStore` of server/store.go: the three files as they lie on the disk.
-- encoding/json on the three types is a parameter.
pub mod Written
use stem_computing_desktop_p.Prelude.{
  ℕ, Bool, true, false, Option, none, some, List, [], is_empty, if◌then◌else◌,
}
use stem_computing_desktop_p.Platform.{Bytes}
use stem_computing_desktop_p.Model.{Settings, State, Alert, ClientInfo}
use stem_computing_desktop_p.Store.Flush.{Disk}

-- What os.ReadFile gives: no such file, another error, or the bytes.
pub data Content : Type 0 where
  missing unreadable : Content
  bytes : Bytes → Content

-- json.Unmarshal into a value and json.Marshal, on the types of the files.
pub record Codec : Type 0 where
  pub state_in : Bytes → State → Option State
  pub state_out : State → Bytes
  pub alerts_in : Bytes → List Alert → Option (List Alert)
  pub alerts_out : List Alert → Bytes
  pub clients_in : Bytes → List ClientInfo → Option (List ClientInfo)
  pub clients_out : List ClientInfo → Bytes

pub record Files : Type 0 where
  pub state : Content
  pub alerts : Content
  pub clients : Content

infixl 5 ◌>>=◌
abbrev pub ◌>>=◌ : {A B : Type 0} → Option A → (A → Option B) → Option B
none >>= k = none
some a >>= k = k a

-- loadJSON: the value, or none for an error
abbrev pub load_json : {A : Type 0} → (Bytes → A → Option A) → Content → A → Option A
load_json decode missing v = some v
load_json decode unreadable v = none
load_json decode (bytes b) v = if is_empty b then some v else decode b v

-- the zero value of `State`
abbrev pub zero_state : State
zero_state = record {
  settings = record { org_name = []; client_key = [] };
  users = [];
  tokens = [];
  groups = [];
  templates = [];
}

-- the calls of loadJSON in `openStore`
unfoldable pub read_files : Codec → Files → Option Disk
read_files c f = do
  st ← load_json c.state_in f.state zero_state
  alerts ← load_json c.alerts_in f.alerts []
  clients ← load_json c.clients_in f.clients []
  some (record { state = st; alerts = alerts; clients = clients })

-- the files that `flush` writes, each of them once
abbrev pub written : Codec → Disk → Files
written c disk = record {
  state = bytes (c.state_out disk.state);
  alerts = bytes (c.alerts_out disk.alerts);
  clients = bytes (c.clients_out disk.clients);
}
