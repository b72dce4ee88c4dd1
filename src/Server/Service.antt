-- ===== src/Server/Service.antt =====
-- server/service_windows.go: the server as a Windows service, and the commands that install, remove,
-- start, stop and ask after it. The service manager is golang.org/x/sys's, an argument here; a handle
-- that is opened is always closed, so handles are left out, and so is what is printed but for a status.
pub mod Laws
use stem_computing_desktop_p.Prelude.{
  ℕ, zero, suc, ◌+◌, Bool, true, false, not, Option, none, some, List, [], ◌∷◌, if◌then◌else◌,
  is_some,
}

-- svc.State
pub data Phase : Type 0 where
  stopped start_pending stop_pending running : Phase

abbrev pub is_stopped : Phase → Bool
is_stopped stopped = true
is_stopped _ = false

-- What comes to `Execute`: the end of `runServer`, with whether it is an error, or a request.
pub data Event : Type 0 where
  ended : Bool → Event
  -- svc.Interrogate, with the status that the manager has
  interrogate : Phase → Event
  stop shutdown other : Event

-- the loop of `Execute`: the statuses that it reports, and the code that it returns with, if it does
unfoldable pub execute_loop : List Event → List Phase × Option ℕ
execute_loop [] = ([], none)
execute_loop (ended err ∷ events) = ([], some (if err then 1 else 0))
execute_loop (interrogate p ∷ events) =
    let (reports, code) = execute_loop events in (p ∷ reports, code)
execute_loop (stop ∷ events) = (stop_pending ∷ [], some 0)
execute_loop (shutdown ∷ events) = (stop_pending ∷ [], some 0)
execute_loop (other ∷ events) = execute_loop events

-- Execute
unfoldable pub execute : List Event → List Phase × Option ℕ
unfolding execute_loop
execute events =
    let (reports, code) = execute_loop events in (start_pending ∷ running ∷ reports, code)

-- The package mgr, on what the manager and the machine hold. `none` is an error.
pub record Manager : Type 1 where
  pub State : Type 0
  pub connects : State → Bool
  -- whether OpenService finds the service
  pub has_service : State → Bool
  pub create_service : State → Option State
  pub delete_service : State → Option State
  pub start_service : State → Option State
  pub control_stop : State → Option (State × Phase)
  pub query : State → Option (State × Phase)

-- Why a command fails.
pub data Failure : Type 0 where
  no_executable no_manager already_installed not_created not_started not_installed not_deleted
        not_queried :
      Failure

module _ (m : Manager) where
  -- the loop of `stopAndWait`, with the number of rounds that may still come, and how many it takes
  unfoldable pub wait_stopped : ℕ → m.State → Phase → m.State × ℕ
  wait_stopped zero s p = (s, 0)
  wait_stopped (suc n) s p = if is_stopped p then (s, 0) else elim (m.query s) [
    | none ↦ (s, 1)
    | some (s', p') ↦ let (s'', rounds) = wait_stopped n s' p' in (s'', suc rounds)
  ]

  -- stopAndWait: the state, and how often it has waited for a quarter of a second
  unfoldable pub stop_and_wait : m.State → m.State × ℕ
  unfolding wait_stopped
  stop_and_wait s = elim (m.control_stop s) [ none ↦ (s, 0) | some (s', p) ↦ wait_stopped 40 s' p ]

  -- installService; the recovery actions may fail unnoticed. The flag says whether os.Executable and
  -- filepath.Abs give the paths.
  unfoldable pub install_service : Bool → m.State → m.State × Option Failure
  install_service has_paths s =
      if not has_paths
      then (s, some no_executable)
      else if not (m.connects s)
      then (s, some no_manager)
      else if m.has_service s
      then (s, some already_installed)
      else elim (m.create_service s) [
        | none ↦ (s, some not_created)
        | some s' ↦ elim (m.start_service s') [
          | none ↦ (s', some not_started)
          | some s'' ↦ (s'', none)
        ]
      ]

  -- uninstallService
  unfoldable pub uninstall_service : m.State → m.State × Option Failure
  unfolding stop_and_wait
  uninstall_service s =
      let (s', _) = stop_and_wait s in
      if not (m.connects s)
      then (s, some no_manager)
      else if not (m.has_service s)
      then (s, some not_installed)
      else elim (m.delete_service s') [ none ↦ (s', some not_deleted) | some s'' ↦ (s'', none) ]

  -- controlService
  unfoldable pub control_service : Bool → m.State → m.State × Option Failure
  unfolding stop_and_wait
  control_service starts s =
      if not (m.connects s)
      then (s, some no_manager)
      else if not (m.has_service s)
      then (s, some not_installed)
      else if starts
      then elim (m.start_service s) [ none ↦ (s, some not_started) | some s' ↦ (s', none) ]
      else ((stop_and_wait s).0, none)

  -- What `printServiceStatus` prints; a service that is not there is no failure.
  pub data Printed : Type 0 where
    absent : Printed
    status_is : Phase → Printed
    failure : Failure → Printed

  -- printServiceStatus
  unfoldable pub print_service_status : m.State → m.State × Printed
  print_service_status s =
      if not (m.connects s)
      then (s, failure no_manager)
      else if not (m.has_service s)
      then (s, absent)
      else elim (m.query s) [ none ↦ (s, failure not_queried) | some (s', p) ↦ (s', status_is p) ]
