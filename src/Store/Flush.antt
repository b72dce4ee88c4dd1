-- ===== src/Store/Flush.antt =====
-- `flush` of server/store.go: what is taken from the store under the lock, and what reaches the
-- disk. Marshalling cannot fail on these types. `fails` says which of the three files cannot be
-- written this time; `writeFileAtomic` leaves such a file as it was.
pub mod Lost
pub mod Atomic
pub mod Overlap
use stem_computing_desktop_p.Prelude.{
  ℕ, Bool, true, false, not, ◌&&◌, ◌||◌, Option, none, some, List, [], ◌∷◌, ltb, ◌==◌,
  if◌then◌else◌,
}
use stem_computing_desktop_p.Text.{Text}
use stem_computing_desktop_p.Model.{Time, Alert, ClientInfo, Store, State}
use stem_computing_desktop_p.Store.{compact, live_clients}

-- a < b on strings
unfoldable pub text_lt : Text → Text → Bool
text_lt a [] = false
text_lt [] (d ∷ b) = true
text_lt (c ∷ a) (d ∷ b) = ltb c d || c == d && text_lt a b

-- sort.Slice, for keys that are all different
unfoldable pub insert_sorted {ℓ} : {A : Type ℓ} → (A → A → Bool) → A → List A → List A
insert_sorted lt x [] = x ∷ []
insert_sorted lt x (y ∷ ys) =
    let rest = insert_sorted lt x ys in if lt y x then y ∷ rest else x ∷ y ∷ ys

unfoldable pub sort {ℓ} : {A : Type ℓ} → (A → A → Bool) → List A → List A
unfolding insert_sorted
sort lt [] = []
sort lt (x ∷ xs) = insert_sorted lt x (sort lt xs)

-- What is to be written to each of the three files.
pub record Writes : Type 0 where
  pub state : Option State
  pub alerts : Option (List Alert)
  pub clients : Option (List ClientInfo)

-- The files' contents.
pub record Disk : Type 0 where
  pub state : State
  pub alerts : List Alert
  pub clients : List ClientInfo

pub data File : Type 0 where
  state_json alerts_json clients_json : File

abbrev pub by_id : ClientInfo → ClientInfo → Bool
by_id c d = text_lt c.id d.id

-- the part of `flush` under the lock
unfoldable pub collect : Time → Store → Store × Writes
unfolding compact sort live_clients
collect now s =
    let s' = if s.dirty_alerts then compact now s else s in
    (
      record s' { dirty_state = false; dirty_alerts = false; dirty_clients = false },
      record {
        state = if s.dirty_state then some s.state else none;
        alerts = if s.dirty_alerts then some s'.alerts else none;
        clients =
            if s'.dirty_clients then some (sort by_id (live_clients s'.clients s'.heap)) else none;
      },
    )

abbrev pub put_state : Option State → Disk → Disk
put_state none disk = disk
put_state (some x) disk = record disk { state = x }

abbrev pub put_alerts : Option (List Alert) → Disk → Disk
put_alerts none disk = disk
put_alerts (some x) disk = record disk { alerts = x }

abbrev pub put_clients : Option (List ClientInfo) → Disk → Disk
put_clients none disk = disk
put_clients (some x) disk = record disk { clients = x }

abbrev pub wants {ℓ} : {A : Type ℓ} → Option A → Bool
wants none = false
wants (some _) = true

-- the part of `flush` outside the lock: the first file that cannot be written ends it
unfoldable pub write_files : (File → Bool) → Writes → Disk → Disk × Bool
write_files fails w disk =
    if wants w.state && fails state_json
    then (disk, false)
    else let d1 = put_state w.state disk in
      if wants w.alerts && fails alerts_json
      then (d1, false)
      else let d2 = put_alerts w.alerts d1 in
        if wants w.clients && fails clients_json
        then (d2, false)
        else (put_clients w.clients d2, true)

-- flush: the store, the disk, and whether it returns nil
unfoldable pub flush : (File → Bool) → Time → Store → Disk → Store × Disk × Bool
unfolding collect write_files
flush fails now s disk =
    let (s', w) = collect now s in let (disk', done) = write_files fails w disk in (s', disk', done)
