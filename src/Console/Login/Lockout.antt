-- ===== src/Console/Login/Lockout.antt =====
-- Five wrong passwords in a row from one address, through the whole of `handleLogin`.
use stem_computing_desktop_p.Prelude.{
  ◌+◌, ◌*◌, ◌≤◌, ◌<◌, ◌≡◌, refl, false, none, some, List, [], ◌∷◌, ◌++◌, arith, is_empty, length,
}
use stem_computing_desktop_p.Text.{Text, codes, text_eq, to_lower}
use stem_computing_desktop_p.Dict
use stem_computing_desktop_p.Platform.{Platform}
use stem_computing_desktop_p.Model.{Time, minute}
use stem_computing_desktop_p.Auth.Throttle.{Attempts, Throttle, blocked, count_failure, fail}
use stem_computing_desktop_p.Auth.Throttle.Laws.{
  lookup-fail_recent, lookup-fail_first, lookup-fail_other,
}
use stem_computing_desktop_p.App.{App, World, Request, Response, refused}
use stem_computing_desktop_p.Poll.{remote_ip}
use stem_computing_desktop_p.Console.Users.{UserView}
use stem_computing_desktop_p.Console.Login.{
  LoginRequest, login_keys, is_locked, fail_keys, handle_login,
}

-- A request to sign in, and the world that it comes in.
pub record Attempt : Type 0 where
  pub world : World
  pub request : Request
  pub login : LoginRequest

abbrev pub try : Platform → Attempt → App → App × Response (UserView × Text)
try e x a = handle_login e x.world x.request (some x.login) a

-- the server after some attempts
abbrev pub run : Platform → List Attempt → App → App
run e [] a = a
run e (x ∷ xs) a = run e xs (try e x a).0

-- The attempt comes from this address, within ten minutes of a time, with a wrong password.
abbrev pub Fails : Platform → Text → Time → Attempt → App → Type 0
Fails e ip first x a =
    (remote_ip e a.cfg x.request ≡ ip)
    × ((try e x a).1 ≡ refused 401 (codes "bad_login"))
    × (first ≤ x.world.now)
    × (x.world.now ≤ first + 10 * minute)

abbrev pub AllFail : Platform → Text → Time → List Attempt → App → Type 0
AllFail e ip first [] a = Unit {0}
AllFail e ip first (x ∷ xs) a = Fails e ip first x a × AllFail e ip first xs (try e x a).0

abbrev pub address_key : Text → Text
address_key ip = codes "ip:" ++ ip

try-throttle :
    (e : Platform) (x : Attempt) (a : App)
    → (try e x a).1 ≡ refused 401 (codes "bad_login")
    → (try e x a).0.throttle
      ≡ fail_keys
          (login_keys e (remote_ip e a.cfg x.request) x.login.username)
          x.world.now
          a.throttle
unfolding handle_login
try-throttle e x a h = ground arith

fail_keys-recent :
    (e : Platform) (ip name : Text) (now : Time) (t : Throttle) (at : Attempts)
    → Dict.lookup (address_key ip) t ≡ some at
    → now ≤ at.first + 10 * minute
    → Dict.lookup (address_key ip) (fail_keys (login_keys e ip name) now t)
      ≡ some (count_failure at now)
unfolding fail_keys count_failure text_eq
fail_keys-recent e ip name now t at f h =
    lookup-fail_other (codes "user:" ++ to_lower e.unicode name) (address_key ip) now
      (fail (address_key ip) now t) (count_failure at now) refl
      (lookup-fail_recent (address_key ip) now t at f h) (ground arith)

fail_keys-first :
    (e : Platform) (ip name : Text) (now : Time) (t : Throttle)
    → Dict.lookup (address_key ip) t ≡ none
    → Dict.lookup (address_key ip) (fail_keys (login_keys e ip name) now t)
      ≡ some (record { fails = 1; first = now; locked_until = 0 })
unfolding fail_keys text_eq
fail_keys-first e ip name now t f =
    lookup-fail_other (codes "user:" ++ to_lower e.unicode name) (address_key ip) now
      (fail (address_key ip) now t) (record { fails = 1; first = now; locked_until = 0 }) refl
      (lookup-fail_first (address_key ip) now t f) (omega arith)

run-lookup :
    (e : Platform) (ip : Text) (xs : List Attempt) (a : App) (at : Attempts)
    → Dict.lookup (address_key ip) a.throttle ≡ some at
    → AllFail e ip at.first xs a
    → at.fails + length xs < 5
    → Dict.lookup (address_key ip) (run e xs a).throttle
      ≡ some (record at { fails = at.fails + length xs })
unfolding count_failure
run-lookup e ip [] a at f h n = ground (arith, f)
run-lookup e ip (x ∷ xs) a at f ((address, wrong, _, soon), h) n =
    let at' : Attempts = record at { fails = at.fails + 1 } in
    let counted : Dict.lookup (address_key ip) (try e x a).0.throttle ≡ some at' = ground (
      arith,
      try-throttle e x a wrong,
      address,
      fail_keys-recent e ip x.login.username x.world.now a.throttle at f soon,
    ) in
    ground (arith, run-lookup e ip xs (try e x a).0 at' counted h (omega arith))

-- the server after a first attempt, some more and a last one
abbrev pub after : Platform → Attempt → List Attempt → Attempt → App → App
after e x xs y a = (try e y (run e (x ∷ xs) a)).0

-- Where nothing is on record of an address, and then five attempts come from it one after the other, with
-- nothing in between, all with wrong passwords and within ten minutes of the first, whatever the names, the
-- address is locked: the next request to sign in from there, if it comes from the console within five
-- minutes of the fifth, is refused, with the right password too, and changes nothing.
pub handle_login_locks :
    (e : Platform) (ip : Text) (x : Attempt) (xs : List Attempt) (y z : Attempt) (a : App)
    → Dict.lookup (address_key ip) a.throttle ≡ none
    → AllFail e ip x.world.now (x ∷ xs) a
    → length xs ≡ 3
    → Fails e ip x.world.now y (run e (x ∷ xs) a)
    → remote_ip e (after e x xs y a).cfg z.request ≡ ip
    → z.world.now < y.world.now + 5 * minute
    → is_empty z.request.x_foghorn ≡ false
    → try e z (after e x xs y a) ≡ (after e x xs y a, refused 429 (codes "locked"))
unfolding handle_login is_locked blocked count_failure
handle_login_locks e ip x xs y z a new ((xa, xw, _, _), xh) n (ya, yw, _, ys) za zt zc =
    let a1 = (try e x a).0 in
    let at : Attempts = record { fails = 1; first = x.world.now; locked_until = 0 } in
    let first : Dict.lookup (address_key ip) a1.throttle ≡ some at = ground (
      arith,
      try-throttle e x a xw,
      xa,
      fail_keys-first e ip x.login.username x.world.now a.throttle new,
    ) in
    let four = run-lookup e ip xs a1 at first xh (omega arith) in
    let b4 = run e (x ∷ xs) a in
    let five =
      fail_keys-recent e ip y.login.username y.world.now b4.throttle
        (record at { fails = 1 + length xs }) four ys in
    ground (arith, try-throttle e y b4 yw, ya, za, five)
