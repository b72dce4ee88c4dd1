-- ===== src/App.antt =====
-- The server's state as the handlers see it (`App` of server/main.go), a request, and an answer.
-- `writeJSON` and `writeErr` are the two constructors of an answer; the sentence that an error
-- carries for a person is left out where its code and status tell the error apart. A handler
-- reads the clock once here, which stands for readings that follow one another at once.
use stem_computing_desktop_p.Prelude.{ℕ, suc, Bool, true, Option, List}
use stem_computing_desktop_p.Text.{Text}
use stem_computing_desktop_p.Model.{Time, Store, State, User}
use stem_computing_desktop_p.Auth.Sessions.{Sessions}
use stem_computing_desktop_p.Auth.Throttle.{Throttle}
use stem_computing_desktop_p.Store.Flush.{Disk, File, flush}

pub record Config : Type 0 where
  pub listen : Text
  pub tls_cert : Text
  pub tls_key : Text
  pub trust_proxy_headers : Bool

-- `wakes` counts the calls of `hub.wake`.
pub record App : Type 0 where
  pub cfg : Config
  pub store : Store
  pub disk : Disk
  pub sessions : Sessions
  pub throttle : Throttle
  pub wakes : ℕ
  pub closing : Bool

-- What a request brings from outside: the clock, what the random source gives, and which files
-- cannot be written.
pub record World : Type 0 where
  pub now : Time
  -- newID
  pub new_id : Text
  -- randomSecret and generatePassword
  pub secret : Text
  -- the salt that `hashPassword` draws
  pub salt : List ℕ
  pub fails : File → Bool

-- The parts of a request that the guard and the session handlers read. A missing header reads as
-- an empty one.
pub record Request : Type 0 where
  pub method : Text
  pub authorization : Text
  pub x_foghorn : Text
  pub x_foghorn_key : Text
  pub x_forwarded_for : Text
  pub remote_addr : Text
  pub cookie : Option Text

-- identity
pub record Identity : Type 0 where
  pub user : User
  pub via_token : Bool
  pub session : Text

pub data Response (A : Type 0) : Type 0 where
  -- writeErr: the status and the code
  refused : ℕ → Text → Response A
  -- writeJSON: the status and the value
  reply : ℕ → A → Response A

-- save: a failed write is logged, and the request goes on
unfoldable pub save : World → App → App
unfolding flush
save w a =
    let (store', disk', _) = flush w.fails w.now a.store a.disk in
    record a { store = store'; disk = disk' }

-- hub.wake
abbrev pub wake : App → App
wake a = record a { wakes = suc a.wakes }

abbrev pub with_store : App → Store → App
with_store a s = record a { store = s }

abbrev pub with_state : App → State → App
with_state a st = record a { store = record a.store { state = st; dirty_state = true } }
