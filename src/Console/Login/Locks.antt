-- ===== src/Console/Login/Locks.antt =====
-- The lock on a username and the spaces around it.
use stem_computing_desktop_p.Prelude.{
  ◌<◌, ◌≡◌, refl, true, false, some, [], ◌∷◌, ◌++◌, arith, is_empty, Bool-cases, inl, inr,
}
use stem_computing_desktop_p.Text.{
  Text, codes, to_lower, trim_space, trim_left, trim_right, is_space,
}
use stem_computing_desktop_p.Platform.{Platform}
use stem_computing_desktop_p.Model.{User}
use stem_computing_desktop_p.Store.{user_by_name}
use stem_computing_desktop_p.Auth.Password.{verify_password}
use stem_computing_desktop_p.Auth.Throttle.{blocked}
use stem_computing_desktop_p.App.{App, World, Request, refused, reply}
use stem_computing_desktop_p.Poll.{remote_ip}
use stem_computing_desktop_p.Console.Users.{view_user}
use stem_computing_desktop_p.Console.Login.{login_keys, is_locked, handle_login}
use stem_computing_desktop_p.Console.Login.Signin.{handle_login_may}

trim_right-space : (s : Text) → trim_right (s ++ b' ' ∷ []) ≡ trim_right s
unfolding trim_right is_space
trim_right-space [] = refl
trim_right-space (c ∷ s) = rw (trim_right-space s, trim_right)

trim_space-space : (s : Text) → trim_space (s ++ b' ' ∷ []) ≡ trim_space s
unfolding trim_space trim_left trim_right is_space
trim_space-space [] = refl
trim_space-space (c ∷ s) = elim (Bool-cases (is_space c)) [
  | inl y ↦ rw (y, trim_left) (trim_space-space s)
  | inr n ↦ rw (n, trim_left) (trim_right-space (c ∷ s))
]

-- A lock on a username does not stop whoever adds a space to it: where the name is locked, but
-- neither the address nor the name with a space, the right password is refused with the name and
-- opens the same account with the name and a space.
pub handle_login_past_lock :
    (e : Platform) (w : World) (r : Request) (name password : Text) (a : App) (u : User)
    → is_empty r.x_foghorn ≡ false
    → 0 < blocked (codes "user:" ++ to_lower e.unicode name) w.now a.throttle
    → is_locked (login_keys e (remote_ip e a.cfg r) (name ++ b' ' ∷ [])) w.now a.throttle ≡ false
    → user_by_name e.unicode a.store.state.users (trim_space name) ≡ some u
    → verify_password e u.pass_hash password ≡ true
    → u.disabled ≡ false
    → ((handle_login e w r (some (record { username = name; password = password })) a).1
        ≡ refused 429 (codes "locked"))
      × ((handle_login e w r
            (some (record { username = name ++ b' ' ∷ []; password = password }))
            a).1
          ≡ reply 200 (view_user (record u { last_login = w.now }), w.secret))
unfolding handle_login is_locked
handle_login_past_lock e w r name password a u x b n f v d = (
  ground (arith, x, b),
  handle_login_may e w r (record { username = name ++ b' ' ∷ []; password = password }) a u
      (record {
        from_console = x;
        unlocked = n;
        on_record = rw (trim_space-space name) f;
        right = v;
        enabled = d;
      }),
)
