-- ===== src/Tests/Access.antt =====
-- Sessions, the throttle, passwords and the guard at concrete inputs.
use stem_computing_desktop_p.Prelude.{ℕ, ◌≡◌, ◌≢◌, ◌⊎◌, true, false, some, []}
use stem_computing_desktop_p.Text.{Text, codes}
use stem_computing_desktop_p.Auth.Sessions.{session_lifetime}
use stem_computing_desktop_p.Auth.Sessions
use stem_computing_desktop_p.Auth.Sessions.Laws.{lookup-drop_user}
use stem_computing_desktop_p.Auth.Password.{hash_password, verify_password}
use stem_computing_desktop_p.Auth.Password.Stored.{verify_password-hash_password}
use stem_computing_desktop_p.Auth.Guard.{any, admin, authenticate, guard}
use stem_computing_desktop_p.Auth.Guard.Laws.{
  HoldsToken, HoldsSession, May, guard_admits, guard_admin,
}
use stem_computing_desktop_p.App.{Identity, refused}
use stem_computing_desktop_p.Tests.Data.{
  platform, clock, length-digest, shifting, shifting-Base64Laws, server_with, post, close_down,
}

guard_admin_example :
    let a' = (authenticate platform clock post (server_with [])).0 in
    ((status : ℕ) × (code : Text) × (guard platform clock admin close_down post (server_with [])
        ≡ (a', refused status code)))
    ⊎ ((id : Identity) × HoldsSession clock post (server_with []) id
        × (id.user.role ≡ codes "admin")
        × (id.user.must_change ≡ false)
        × (guard platform clock admin close_down post (server_with []) ≡ close_down id a'))
guard_admin_example = guard_admin platform clock close_down post (server_with [])

guard_admits_example :
    let a' = (authenticate platform clock post (server_with [])).0 in
    ((status : ℕ) × (code : Text) × (guard platform clock any close_down post (server_with [])
        ≡ (a', refused status code)))
    ⊎ ((id : Identity) × (HoldsToken platform post (server_with []) id
          ⊎ HoldsSession clock post (server_with []) id)
        × May any post id
        × (guard platform clock any close_down post (server_with []) ≡ close_down id a'))
guard_admits_example = guard_admits platform clock any close_down post (server_with [])

lookup-drop_user_example :
    (Sessions.lookup
      (codes "sid")
      clock
      (Sessions.drop_user (codes "u1") (server_with []).sessions)).1
    ≢ some (codes "u1")
lookup-drop_user_example =
    lookup-drop_user (codes "sid") (codes "u1") clock (server_with []).sessions

verify_password-hash_password_example :
    verify_password shifting (hash_password shifting (codes "salt") (codes "pw")) (codes "pw")
    ≡ true
verify_password-hash_password_example =
    verify_password-hash_password shifting (codes "salt") (codes "pw") shifting-Base64Laws
      length-digest
