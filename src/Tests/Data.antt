-- ===== src/Tests/Data.antt =====
-- Data that the tests share: a platform with made-up tables and hashes, two computers, accounts,
-- alerts and a server that holds them.
use stem_computing_desktop_p.Prelude.{
  ℕ, true, false, none, some, List, [], ◌∷◌, take, replicate, ◌++◌, ◌*◌, ◌+◌, ◌-◌, ◌≡◌, refl, ap,
  ap₂, map, length, length-take, length-append, arith,
}
use stem_computing_desktop_p.Auth.Password.{hash_len}
use stem_computing_desktop_p.Auth.Password.Stored.{Base64Laws, lacks}
use stem_computing_desktop_p.Prelude.Int.{pos}
use stem_computing_desktop_p.Text.{Text, codes}
use stem_computing_desktop_p.Platform.{Platform, Bytes}
use stem_computing_desktop_p.Model.{
  Time, minute, User, Target, AlertSpec, Delivery, Alert, ClientInfo, State, Store,
}
use stem_computing_desktop_p.Store.Flush.{Disk}
use stem_computing_desktop_p.App.{App, World, Request, Identity, Response, reply}

-- 32 bytes from the first ones of a message
abbrev pub digest : Bytes → Bytes
digest m = take 32 (m ++ replicate 32 0)

abbrev pub platform : Platform
platform = record {
  unicode = record { lower = λ c. c; fold = λ c. c };
  parse_cidr = λ s. none;
  parse_ip = λ s. some s;
  split_host_port = λ s. none;
  parse_url = λ s. some (record { scheme = codes "https"; host = s });
  sha1 = λ s. s;
  sha256 = λ s. s;
  hmac_sha256 = λ key m. digest m;
  utf8 = λ s. s;
  base64_encode = λ b. b;
  base64_decode = λ s. some s;
}

pub length-digest : (m : List ℕ) → length (digest m) ≡ hash_len
length-digest m =
    omega (arith, length-take 32 (m ++ replicate 32 0), length-append m (replicate 32 0))

-- Base64 made up of runes above 99.
abbrev pub shifting : Platform
shifting = record platform {
  base64_encode = map (λ b. b + 100);
  base64_decode = λ s. some (map (λ c. c - 100) s);
}

map-shift : (b : List ℕ) → map (λ c. c - 100) (map (λ b. b + 100) b) ≡ b
map-shift [] = refl
map-shift (x ∷ b) = ap₂ (◌∷◌) (omega arith) (map-shift b)

all-shift : (b : List ℕ) → lacks b'$' (map (λ b. b + 100) b) ≡ true
all-shift [] = refl
all-shift (x ∷ b) = ground (arith, all-shift b)

pub shifting-Base64Laws : Base64Laws shifting
shifting-Base64Laws = record { read_back = λ b. ap some (map-shift b); no_dollar = all-shift }

abbrev pub clock : Time
clock = 100 * minute

abbrev pub front_desk : ClientInfo
front_desk = record {
  id = codes "c1";
  hostname = codes "DESK";
  user = codes "ann";
  domain = [];
  ou = [];
  groups = [];
  ip = codes "10.0.0.7";
  version = [];
  os = [];
  sid = codes "s1";
  first_seen = 0;
  last_seen = 90 * minute;
  polling = 1;
}

abbrev pub everybody : Target
everybody = record { all = true; group_ids = []; rules = [] }

abbrev pub drill : AlertSpec
drill = record {
  title = codes "Drill";
  message = [];
  level = codes "info";
  display = codes "corner";
  require_ack = true;
  display_seconds = pos 0;
  sound = false;
  link = [];
  expires_minutes = pos 10;
  target = everybody;
}

-- an alert that is active at `clock`, with these deliveries
abbrev pub fire_drill : List (Text × Delivery) → Alert
fire_drill ds = record {
  id = codes "a1";
  spec = drill;
  rules = [];
  target_summary = codes "Every computer";
  sender = codes "root";
  sender_name = codes "Root";
  created_at = 99 * minute;
  expires_at = 109 * minute;
  recalled_at = none;
  recalled_by = [];
  deliveries = some ds;
  archived = none;
}

abbrev pub answered : Delivery
answered = record {
  hostname = codes "DESK";
  user = codes "ann";
  sid = codes "s0";
  sent_at = 99 * minute;
  displayed_at = some (99 * minute);
  acked_at = some clock;
  closed_at = some clock;
  close_reason = codes "acknowledged";
  recall_sent = false;
}

abbrev pub root : User
root = record {
  id = codes "u1";
  username = codes "root";
  display_name = codes "Root";
  role = codes "admin";
  pass_hash = [];
  must_change = false;
  disabled = false;
  allowed_group_ids = [];
  created_at = 0;
  last_login = 0;
}

-- a sender who may send to one group
abbrev pub reception : User
reception = record root {
  id = codes "u2";
  username = codes "reception";
  role = codes "sender";
  allowed_group_ids = codes "g1" ∷ [];
}

abbrev pub state : State
state = record {
  settings = record { org_name = codes "School"; client_key = codes "key" };
  users = root ∷ reception ∷ [];
  tokens = [];
  groups = record { id = codes "g1"; name = codes "Hall"; rules = [] } ∷ [];
  templates = [];
}

-- a store with these alerts, in which nothing waits to be written
abbrev pub store_with : List Alert → Store
store_with alerts = record {
  state = state;
  alerts = alerts;
  clients = (codes "c1", 0) ∷ [];
  heap = front_desk ∷ [];
  dirty_state = false;
  dirty_alerts = false;
  dirty_clients = false;
}

abbrev pub disk_with : List Alert → Disk
disk_with alerts = record { state = state; alerts = alerts; clients = front_desk ∷ [] }

-- a server where root is signed in
abbrev pub server_with : List Alert → App
server_with alerts = record {
  cfg = record { listen = []; tls_cert = []; tls_key = []; trust_proxy_headers = false };
  store = store_with alerts;
  disk = disk_with alerts;
  sessions = (codes "sid", record { user_id = codes "u1"; expires = 200 * minute }) ∷ [];
  throttle = [];
  wakes = 0;
  closing = false;
}

abbrev pub world : World
world = record {
  now = clock;
  new_id = codes "a2";
  secret = codes "secret";
  salt = [];
  fails = λ f. false;
}

-- root's browser posts a form
abbrev pub post : Request
post = record {
  method = codes "POST";
  authorization = [];
  x_foghorn = codes "1";
  x_foghorn_key = codes "key";
  x_forwarded_for = [];
  remote_addr = codes "10.0.0.7";
  cookie = some (codes "sid");
}

abbrev pub as_root : Identity
as_root = record { user = root; via_token = false; session = codes "sid" }

-- a handler that sets a mark
abbrev pub close_down : Identity → App → App × Response ℕ
close_down id a = (record a { closing = true }, reply 200 1)
