-- ===== src/Auth/Guard.antt =====
-- `authenticate`, `guard` and `checkClientKey` of server/auth.go. The hash of a token and a stored
-- hash are compared as texts: a comparison in constant time has the same result.
pub mod Laws
use stem_computing_desktop_p.Prelude.{
  ℕ, Bool, true, false, not, ◌&&◌, ◌||◌, Option, none, some, List, [], ◌∷◌, ◌++◌, ltb,
  if◌then◌else◌, drop, find?, is_empty,
}
use stem_computing_desktop_p.Text.{Text, codes, text_eq, starts_with, trim_space}
use stem_computing_desktop_p.Platform.{Platform}
use stem_computing_desktop_p.Delivery.{hex}
use stem_computing_desktop_p.Model.{Time, minute, elapsed, User, Token, Store}
use stem_computing_desktop_p.Store.{user_by_id}
use stem_computing_desktop_p.Auth.Sessions
use stem_computing_desktop_p.App.{App, Request, Identity, Response, refused, with_store}

-- hashToken
unfoldable pub hash_token : Platform → Text → Text
unfolding hex
hash_token e tok = hex (e.sha256 tok)

-- the user that a token stands for
abbrev pub token_user : Token → User
token_user t = record {
  id = codes "token:" ++ t.id;
  username = codes "token:" ++ t.name;
  display_name = t.name;
  role = codes "sender";
  pass_hash = [];
  must_change = false;
  disabled = false;
  allowed_group_ids = [];
  created_at = 0;
  last_login = 0;
}

-- the loop over the tokens: the token that fits, and the tokens with its time of use brought up
unfoldable pub use_token : Text → Time → List Token → Option Token × List Token × Bool
use_token sum now [] = (none, [], false)
use_token sum now (t ∷ ts) =
    let (found, ts', dirty) = use_token sum now ts in
    if text_eq t.hash sum
    then (
      some t,
      (if ltb minute (elapsed now t.last_used) then record t { last_used = now } else t) ∷ ts,
      ltb minute (elapsed now t.last_used),
    )
    else (found, t ∷ ts', dirty)

abbrev pub bearer : Text
bearer = codes "Bearer "

-- authenticate, from a Bearer token
unfoldable pub by_token : Platform → Time → Text → App → App × Option Identity
unfolding hash_token use_token
by_token e now header a =
    let sum = hash_token e (trim_space (drop 7 header)) in
    let (found, ts', dirty) = use_token sum now a.store.state.tokens in
    (
      with_store a (record a.store {
        state = record (a.store.state) { tokens = ts' };
        dirty_state = a.store.dirty_state || dirty;
      }),
      elim found [
        | none ↦ none
        | some t ↦ some (record { user = token_user t; via_token = true; session = [] })
      ],
    )

-- the account behind a session, if it may still be used
abbrev pub session_identity : Text → Option User → Option Identity
session_identity sid none = none
session_identity sid (some u) =
    if u.disabled then none else some (record { user = u; via_token = false; session = sid })

-- authenticate, from a session cookie
unfoldable pub by_session : Time → Text → App → App × Option Identity
unfolding Sessions.lookup user_by_id
by_session now sid a =
    let (m, found) = Sessions.lookup sid now a.sessions in
    (
      record a { sessions = m },
      elim found [
        | none ↦ none
        | some uid ↦ session_identity sid (user_by_id a.store.state.users uid)
      ],
    )

-- authenticate
unfoldable pub authenticate : Platform → Time → Request → App → App × Option Identity
unfolding by_token by_session starts_with
authenticate e now r a =
    if starts_with bearer r.authorization
    then by_token e now r.authorization a
    else elim r.cookie [ none ↦ (a, none) | some sid ↦ by_session now sid a ]

-- The role that a route asks for.
pub data Role : Type 0 where
  self any admin : Role

abbrev pub is_admin_role : Role → Bool
is_admin_role admin = true
is_admin_role _ = false

abbrev pub is_self_role : Role → Bool
is_self_role self = true
is_self_role _ = false

-- http.MethodGet, http.MethodHead
abbrev pub is_read : Text → Bool
is_read m = text_eq m (codes "GET") || text_eq m (codes "HEAD")

-- the checks of `guard` once the caller is known: the status and the code of the first that fails
unfoldable pub refusal : Role → Request → Identity → Option (ℕ × Text)
refusal role r id =
    if not id.via_token && not (is_read r.method) && is_empty r.x_foghorn
    then some (403, codes "csrf")
    else if is_admin_role role && not (text_eq id.user.role (codes "admin"))
    then some (403, codes "forbidden")
    else if id.user.must_change && not (is_self_role role)
    then some (403, codes "password_change_required")
    else none

-- guard
unfoldable pub guard :
    {A : Type 0}
    → Platform
    → Time
    → Role
    → (Identity → App → App × Response A)
    → Request
    → App
    → App × Response A
unfolding authenticate refusal
guard e now role handler r a =
    let (a', who) = authenticate e now r a in
    elim who [
      | none ↦ (a', refused 401 (codes "not_signed_in"))
      | some id ↦ elim (refusal role r id) [
        | some (status, code) ↦ (a', refused status code)
        | none ↦ handler id a'
      ]
    ]

-- checkClientKey
unfoldable pub check_client_key : Request → Store → Bool
check_client_key r s =
    not (is_empty s.state.settings.client_key)
    && text_eq r.x_foghorn_key s.state.settings.client_key
