-- ===== src/Server/Service/Laws.antt =====
-- What the service reports and returns with, and what the commands do to the machine.
use stem_computing_desktop_p.Prelude.{
  ℕ, zero, suc, ◌≤◌, ◌≡◌, refl, ◌∙◌, Bool, true, false, none, some, List, [], ◌∷◌, ◌++◌, arith, inl,
  inr, Option-cases, Bool-cases,
}
use stem_computing_desktop_p.Server.Service.{
  Phase, is_stopped, stop_pending, start_pending, running, Event, ended, interrogate, stop,
  shutdown, other, execute_loop, execute, Manager, already_installed, not_installed, wait_stopped,
  stop_and_wait, install_service, uninstall_service,
}

-- Neither the end of the server nor a request to stop.
abbrev pub is_quiet : List Event → Bool
is_quiet [] = true
is_quiet (interrogate p ∷ events) = is_quiet events
is_quiet (other ∷ events) = is_quiet events
is_quiet _ = false

-- The statuses that the manager is told again.
abbrev pub asked : List Event → List Phase
asked [] = []
asked (interrogate p ∷ events) = p ∷ asked events
asked (_ ∷ events) = asked events

execute_loop-stop :
    (events later : List Event)
    → is_quiet events ≡ true
    → execute_loop (events ++ stop ∷ later) ≡ (asked events ++ stop_pending ∷ [], some 0)
unfolding execute_loop
execute_loop-stop [] later h = refl
execute_loop-stop (interrogate p ∷ events) later h =
    ground (arith, execute_loop-stop events later h)
execute_loop-stop (other ∷ events) later h = ground (arith, execute_loop-stop events later h)
execute_loop-stop (ended b ∷ events) later h = cc
execute_loop-stop (stop ∷ events) later h = cc
execute_loop-stop (shutdown ∷ events) later h = cc

-- Asked to stop while it runs, the service reports that it starts, runs and stops, in this order and
-- with an answer to each question in between, and returns without an error, whatever would come later.
pub execute-stop :
    (events later : List Event)
    → is_quiet events ≡ true
    → execute (events ++ stop ∷ later)
      ≡ (start_pending ∷ running ∷ asked events ++ stop_pending ∷ [], some 0)
unfolding execute
execute-stop events later h = ground (arith, execute_loop-stop events later h)

-- A service manager on which no other program holds the service open, where a deleted service would
-- only be marked for deletion: a service that has been created is there until it is deleted, and
-- neither starting, stopping nor asking changes that or the connection.
pub record Lawful (m : Manager) : Type 0 where
  pub created :
      (s t : m.State)
      → m.create_service s ≡ some t
      → (m.has_service t ≡ true) × (m.connects t ≡ m.connects s)
  pub deleted :
      (s t : m.State)
      → m.delete_service s ≡ some t
      → (m.has_service t ≡ false) × (m.connects t ≡ m.connects s)
  pub started :
      (s t : m.State)
      → m.start_service s ≡ some t
      → (m.has_service t ≡ m.has_service s) × (m.connects t ≡ m.connects s)
  pub told :
      (s t : m.State) (p : Phase)
      → m.control_stop s ≡ some (t, p)
      → (m.has_service t ≡ m.has_service s) × (m.connects t ≡ m.connects s)
  pub asked_after :
      (s t : m.State) (p : Phase)
      → m.query s ≡ some (t, p)
      → (m.has_service t ≡ m.has_service s) × (m.connects t ≡ m.connects s)

module _ (m : Manager) (l : Lawful m) where
  -- `stopAndWait` keeps whether the service is there, and waits at most so often.
  Waited : m.State → ℕ → m.State × ℕ → Type 0
  Waited s n r = (r.1 ≤ n) × (m.has_service r.0 ≡ m.has_service s) × (m.connects r.0 ≡ m.connects s)

  wait_stopped-Waited : (n : ℕ) (s : m.State) (p : Phase) → Waited s n (wait_stopped m n s p)
  unfolding wait_stopped Waited
  wait_stopped-Waited zero s p = (omega arith, refl, refl)
  wait_stopped-Waited (suc n) s p = elim (Bool-cases (is_stopped p)) [
    | inl y ↦ rw (y, wait_stopped) (omega arith, refl, refl)
    | inr x ↦ elim (Option-cases (m.query s)) [
      | inl k ↦ rw (x, k, wait_stopped) (omega arith, refl, refl)
      | inr ((t, q), k) ↦
          let (few, has, con) = wait_stopped-Waited n t q in
          let (has', con') = l.asked_after s t q k in
          rw (x, k, wait_stopped) (omega (arith, few), has ∙ has', con ∙ con')
    ]
  ]

  -- where the manager keeps to that
  pub stop_and_wait-bound :
      (s : m.State)
      → ((stop_and_wait m s).1 ≤ 40)
        × (m.has_service (stop_and_wait m s).0 ≡ m.has_service s)
        × (m.connects (stop_and_wait m s).0 ≡ m.connects s)
  unfolding stop_and_wait Waited
  stop_and_wait-bound s = elim (Option-cases (m.control_stop s)) [
    | inl k ↦ rw (k, stop_and_wait) (omega arith, refl, refl)
    | inr ((t, p), k) ↦
        let (few, has, con) = wait_stopped-Waited 40 t p in
        let (has', con') = l.told s t p k in rw (k, stop_and_wait) (few, has ∙ has', con ∙ con')
  ]

  install_service-inv :
      (has_paths : Bool) (s t : m.State)
      → install_service m has_paths s ≡ (t, none)
      → (m.has_service s ≡ false)
        × (m.connects s ≡ true)
        × (m.has_service t ≡ true)
        × (m.connects t ≡ true)
  unfolding install_service
  install_service-inv has_paths s t h = elim (Option-cases (m.create_service s)) [
    | inl k ↦ absurd (ground (arith, k))
    | inr (u, k) ↦ elim (Option-cases (m.start_service u)) [
      | inl k' ↦ absurd (ground (arith, k, k'))
      | inr (v, k') ↦
          let (has, con) = l.created s u k in
          let (has', con') = l.started u v k' in
          (
            ground (arith, k, k'),
            ground (arith, k, k'),
            ground (arith, k, k', has, has'),
            ground (arith, k, k', con, con'),
          )
    ]
  ]

  uninstall_service-inv :
      (s t : m.State)
      → uninstall_service m s ≡ (t, none)
      → (m.has_service t ≡ false) × (m.connects t ≡ m.connects s)
  unfolding uninstall_service
  uninstall_service-inv s t h =
      let s' = (stop_and_wait m s).0 in
      let (_, has, con) = stop_and_wait-bound s in
      elim (Option-cases (m.delete_service s')) [
        | inl k ↦ absurd (ground (arith, k))
        | inr (u, k) ↦
            let (has', con') = l.deleted s' u k in
            (ground (arith, k, has'), ground (arith, k, con', con))
      ]

  -- The service is installed only where it is not there; then it cannot be installed again, and once it
  -- has been removed it cannot be removed again.
  pub install_service-uninstall_service :
      (s t u : m.State)
      → install_service m true s ≡ (t, none)
      → uninstall_service m t ≡ (u, none)
      → (m.has_service s ≡ false)
        × (install_service m true t ≡ (t, some already_installed))
        × (uninstall_service m u ≡ (u, some not_installed))
  unfolding install_service uninstall_service
  install_service-uninstall_service s t u i r =
      let (before, _, there, con) = install_service-inv true s t i in
      let (gone, con') = uninstall_service-inv t u r in
      (before, ground (arith, there, con), ground (arith, gone, con', con))
