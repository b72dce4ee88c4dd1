-- ===== src/Tests/Lockout.antt =====
-- Sending and the lock on an address at concrete inputs.
use stem_computing_desktop_p.Prelude.{◌<◌, ℕ, ◌+◌, ◌*◌, ◌≡◌, refl, true, some, [], ◌∷◌, arith, any}
use stem_computing_desktop_p.Text.{
  codes, text_eq, trim_space, trim_left, trim_right, is_space, equal_fold, clean_text,
}
use stem_computing_desktop_p.Dict
use stem_computing_desktop_p.Model.{minute}
use stem_computing_desktop_p.Store.{user_by_name}
use stem_computing_desktop_p.Match.{alert_matches}
use stem_computing_desktop_p.Delivery.{WireAlert}
use stem_computing_desktop_p.Delivery.Pending.{pending_for}
use stem_computing_desktop_p.Auth.Throttle.{blocked, fail, window, count_failure, sweep}
use stem_computing_desktop_p.App.{refused}
use stem_computing_desktop_p.Poll.{remote_ip}
use stem_computing_desktop_p.Console.Alerts.{
  check_send, check_allowed, new_alert, handle_send_alert,
}
use stem_computing_desktop_p.Console.Alerts.Sent.{handle_send_alert-pending_for}
use stem_computing_desktop_p.Console.Spec.{validate_spec}
use stem_computing_desktop_p.Console.Login.{admitted, is_locked, fail_keys, handle_login}
use stem_computing_desktop_p.Console.Login.Lockout.{Attempt, try, after, handle_login_locks}
use stem_computing_desktop_p.Poll.{PollResponse, Held, look}
use stem_computing_desktop_p.Console.Alerts.Delivered.{lists, handle_send_alert-look}
use stem_computing_desktop_p.Tests.Data.{
  platform, clock, front_desk, drill, server_with, world, post, as_root,
}

handle_send_alert-pending_for_example :
    let b = (handle_send_alert platform world (some drill) as_root (server_with [])).0 in
    (any
        (λ (x : WireAlert). text_eq x.id (codes "a2"))
        (pending_for platform front_desk (clock + minute) b.store).1.alerts
      ≡ true)
    × (b.wakes ≡ 1)
unfolding check_send check_allowed validate_spec clean_text text_eq alert_matches new_alert
handle_send_alert-pending_for_example =
    handle_send_alert-pending_for platform world (some drill) as_root (server_with []) 200 drill
      front_desk (clock + minute) refl refl (omega arith)

-- the poll of the front desk, which has looked since the last wake
abbrev desk_poll : Held
desk_poll = record { pointer = 0; wait = true; seen = 0 }

handle_send_alert-look_example :
    let b = (handle_send_alert platform world (some drill) as_root (server_with [])).0 in
    (0 < b.wakes)
    × ((r : PollResponse) × ((look platform (clock + minute) desk_poll b).1 ≡ some r)
        × (lists (codes "a2") r.alerts ≡ true))
unfolding check_send check_allowed validate_spec clean_text text_eq alert_matches new_alert
handle_send_alert-look_example =
    handle_send_alert-look platform world (some drill) as_root (server_with []) 200 drill desk_poll
      front_desk (clock + minute) refl refl (omega arith) refl (omega arith)

-- somebody guesses, a minute after the last guess
abbrev guess : ℕ → Attempt
guess n = record {
  world = record world { now = clock + n * minute };
  request = post;
  login = record { username = codes "nobody"; password = codes "guess" };
}

handle_login_locks_example :
    try platform
      (guess 6)
      (after platform (guess 0) (guess 1 ∷ guess 2 ∷ guess 3 ∷ []) (guess 4) (server_with []))
    ≡ (
      after platform (guess 0) (guess 1 ∷ guess 2 ∷ guess 3 ∷ []) (guess 4) (server_with []),
      refused 429 (codes "locked"),
    )
unfolding handle_login admitted is_locked fail_keys blocked fail window count_failure sweep
    Dict.lookup Dict.insert text_eq user_by_name equal_fold trim_space trim_left trim_right is_space
    remote_ip
handle_login_locks_example =
    handle_login_locks platform (codes "10.0.0.7") (guess 0) (guess 1 ∷ guess 2 ∷ guess 3 ∷ [])
      (guess 4) (guess 6) (server_with []) refl
      (
        (refl, refl, omega arith, omega arith),
        (
          (refl, refl, omega arith, omega arith),
          ((refl, refl, omega arith, omega arith), ((refl, refl, omega arith, omega arith), tt)),
        ),
      )
      refl (refl, refl, omega arith, omega arith) refl (omega arith) refl
