-- ===== src/Server/Bootstrap/Ready.antt =====
-- What `bootstrap` leaves behind.
use stem_computing_desktop_p.Prelude.{◌≡◌, ◌≢◌, sym, ◌∙◌, not, [], arith, if◌then◌else◌, is_empty}
use mathlib.Core.Path.{subst}
use stem_computing_desktop_p.Platform.{Platform}
use stem_computing_desktop_p.Model.{State, Store}
use stem_computing_desktop_p.Store.{compact}
use stem_computing_desktop_p.Store.Flush.{flush, collect}
use stem_computing_desktop_p.App.{App, with_store}
use stem_computing_desktop_p.Server.Bootstrap.{FirstRun, with_key, with_admin, flushed, bootstrap}

flushed-state : (f : FirstRun) (a : App) → (flushed f a).0.store.state ≡ a.store.state
unfolding flush collect compact
flushed-state f a = ground arith

-- The state that a start goes on with.
abbrev pub ready_state : Platform → FirstRun → Store → State
ready_state e f s =
    if not (is_empty s.state.users)
    then (with_key f s).state
    else (with_admin e f (with_key f s)).state

pub bootstrap-state :
    (e : Platform) (f : FirstRun) (a : App)
    → (bootstrap e f a).0.store.state ≡ ready_state e f a.store
unfolding bootstrap
bootstrap-state e f a =
    let s = with_key f a.store in
    ground
      (arith, flushed-state f (with_store a s), flushed-state f (with_store a (with_admin e f s)))

with_key-users : (f : FirstRun) (s : Store) → (with_key f s).state.users ≡ s.state.users
with_key-users f s = ground arith

-- A client key and an account.
abbrev pub IsReady : State → Type 0
IsReady st = (st.settings.client_key ≢ []) × (st.users ≢ [])

ready_state-IsReady :
    (e : Platform) (f : FirstRun) (s : Store) → f.client_key ≢ [] → IsReady (ready_state e f s)
unfolding with_admin
ready_state-IsReady e f s h = (ground arith, ground arith)

ready_state-same :
    (e : Platform) (f : FirstRun) (s : Store) → IsReady s.state → ready_state e f s ≡ s.state
ready_state-same e f s h = ground arith

-- After `bootstrap` the clients have a key and there is an account, where the random source gives a
-- key; and a later start, with whatever random source, finds the settings, accounts and templates as
-- they are and changes none of them.
pub bootstrap_twice :
    (e : Platform) (f g : FirstRun) (a b : App)
    → f.client_key ≢ []
    → b.store.state ≡ (bootstrap e f a).0.store.state
    → IsReady b.store.state × ((bootstrap e g b).0.store.state ≡ b.store.state)
bootstrap_twice e f g a b h same =
    let left = same ∙ bootstrap-state e f a in
    let ready : IsReady b.store.state =
      subst (λ st. IsReady st) (sym left) (ready_state-IsReady e f a.store h) in
    (ready, bootstrap-state e g b ∙ ready_state-same e g b.store ready)
