-- ===== src/Auth/Guard/Laws.antt =====
-- Who gets past `guard`.
use stem_computing_desktop_p.Prelude.{
  ℕ, ◌≤◌, ◌≡◌, refl, ◌⊎◌, inl, inr, true, false, none, some, List, [], ◌∷◌, arith, Option-cases,
  Bool-cases, drop, find?, is_empty,
}
use stem_computing_desktop_p.Text.{Text, codes, text_eq, starts_with, trim_space}
use stem_computing_desktop_p.Text.Equality.{text_eq_iff}
use stem_computing_desktop_p.Platform.{Platform}
use stem_computing_desktop_p.Dict
use stem_computing_desktop_p.Model.{Time, Token}
use stem_computing_desktop_p.Store.{user_by_id}
use stem_computing_desktop_p.Auth.Sessions
use stem_computing_desktop_p.Auth.Sessions.{Session}
use stem_computing_desktop_p.App.{App, Request, Identity, Response, refused}
use stem_computing_desktop_p.Auth.Guard.{
  Role, admin, is_admin_role, is_self_role, is_read, bearer, hash_token, token_user, use_token,
  by_token, by_session, authenticate, refusal, guard,
}

-- The caller shows a token that is on record.
abbrev pub HoldsToken : Platform → Request → App → Identity → Type 0
HoldsToken e r a id =
    (t : Token) × (starts_with bearer r.authorization ≡ true)
    × (find? (λ t. text_eq t.hash (hash_token e (trim_space (drop 7 r.authorization))))
          a.store.state.tokens
        ≡ some t)
    × (id ≡ record { user = token_user t; via_token = true; session = [] })

-- The caller shows the cookie of a session that has not expired, of a user who is not disabled.
abbrev pub HoldsSession : Time → Request → App → Identity → Type 0
HoldsSession now r a id =
    (sid : Text) × (v : Session) × (starts_with bearer r.authorization ≡ false)
    × (r.cookie ≡ some sid)
    × (Dict.lookup sid a.sessions ≡ some v)
    × (now ≤ v.expires)
    × (user_by_id a.store.state.users v.user_id ≡ some id.user)
    × (id.user.disabled ≡ false)
    × (id.via_token ≡ false)
    × (id.session ≡ sid)

use_token-find? :
    (sum : Text) (now : Time) (ts : List Token)
    → (use_token sum now ts).0 ≡ find? (λ t. text_eq t.hash sum) ts
unfolding use_token
use_token-find? sum now [] = refl
use_token-find? sum now (t ∷ ts) = ground (arith, use_token-find? sum now ts)

by_session-inv :
    (now : Time) (r : Request) (sid : Text) (a : App) (id : Identity)
    → starts_with bearer r.authorization ≡ false
    → r.cookie ≡ some sid
    → (by_session now sid a).1 ≡ some id
    → HoldsSession now r a id
unfolding by_session Sessions.lookup
by_session-inv now r sid a id h c e = elim (Option-cases (Dict.lookup sid a.sessions)) [
  | inl n ↦ absurd (ground (arith, n))
  | inr (v, f) ↦ (
    sid,
    v,
    h,
    c,
    f,
    ground (arith, f),
    ground (arith, f),
    ground (arith, f),
    ground (arith, f),
    ground (arith, f),
  )
]

-- `authenticate` names nobody but the holder of a token on record or of a live session.
pub authenticate-inv :
    (e : Platform) (now : Time) (r : Request) (a : App) (id : Identity)
    → (authenticate e now r a).1 ≡ some id
    → HoldsToken e r a id ⊎ HoldsSession now r a id
unfolding authenticate by_token
authenticate-inv e now r a id h = elim (Bool-cases (starts_with bearer r.authorization)) [
  | inl b ↦
      let sum = hash_token e (trim_space (drop 7 r.authorization)) in
      elim (Option-cases (find? (λ (t : Token). text_eq t.hash sum) a.store.state.tokens)) [
        | inl n ↦ absurd (ground (arith, b, n, use_token-find? sum now a.store.state.tokens))
        | inr (t, f) ↦
            inl (t, b, f, ground (arith, b, f, use_token-find? sum now a.store.state.tokens))
      ]
  | inr b ↦ elim (Option-cases r.cookie) [
    | inl n ↦ absurd (ground (arith, b, n))
    | inr (sid, c) ↦ inr (by_session-inv now r sid a id b c (ground (arith, b, c)))
  ]
]

-- What `guard` asks of the caller and the request beside a known identity.
abbrev pub May : Role → Request → Identity → Type 0
May role r id =
    ((id.via_token ≡ true) ⊎ (is_read r.method ≡ true) ⊎ (is_empty r.x_foghorn ≡ false))
    × ((is_admin_role role ≡ false) ⊎ (id.user.role ≡ codes "admin"))
    × ((id.user.must_change ≡ false) ⊎ (is_self_role role ≡ true))

refusal-none :
    (role : Role) (r : Request) (id : Identity) → refusal role r id ≡ none → May role r id
unfolding refusal
refusal-none role r id h = (
  elim (Bool-cases id.via_token) [
    | inl t ↦ inl t
    | inr t ↦ elim (Bool-cases (is_read r.method)) [
      | inl g ↦ inr (inl g)
      | inr g ↦ inr (inr (ground arith))
    ]
  ],
  elim (Bool-cases (is_admin_role role)) [
    | inl x ↦ inr ((text_eq_iff id.user.role (codes "admin")).0 (ground arith))
    | inr x ↦ inl x
  ],
  elim (Bool-cases id.user.must_change) [ inl m ↦ inr (ground arith) | inr m ↦ inl m ],
)

refusal-May : (role : Role) (r : Request) (id : Identity) → May role r id → refusal role r id ≡ none
unfolding refusal
refusal-May role r id m = ground (arith, text_eq_iff id.user.role (codes "admin"))

-- A handler behind `guard` runs only for a caller who holds a token on record or a live session, and
-- whom the role, the check against forged requests and the forced change of password let through;
-- in every other case the answer is an error, and the handler's part of the state is untouched.
pub guard_admits :
    {A : Type 0} (e : Platform) (now : Time) (role : Role)
    (handler : Identity → App → App × Response A) (r : Request) (a : App)
    → let a' = (authenticate e now r a).0 in
      ((status : ℕ) × (code : Text) × (guard e now role handler r a ≡ (a', refused status code)))
      ⊎ ((id : Identity) × (HoldsToken e r a id ⊎ HoldsSession now r a id)
          × May role r id
          × (guard e now role handler r a ≡ handler id a'))
unfolding guard
guard_admits e now role handler r a = elim (Option-cases (authenticate e now r a).1) [
  | inl n ↦ inl (401, codes "not_signed_in", rw (n, guard))
  | inr (id, f) ↦ elim (Option-cases (refusal role r id)) [
    | inl n ↦ inr (id, authenticate-inv e now r a id f, refusal-none role r id n, rw (f, n, guard))
    | inr ((status, code), k) ↦ inl (status, code, rw (f, k, guard))
  ]
]

-- Whoever authenticates and may pass gets the handler's own answer.
pub guard_passes :
    {A : Type 0} (e : Platform) (now : Time) (role : Role)
    (handler : Identity → App → App × Response A) (r : Request) (a : App) (id : Identity)
    → (authenticate e now r a).1 ≡ some id
    → May role r id
    → guard e now role handler r a ≡ handler id (authenticate e now r a).0
unfolding guard
guard_passes e now role handler r a id f m = rw (f, refusal-May role r id m, guard)

-- What only an administrator may do is done by an enabled administrator who is signed in: no API
-- token passes, nor an account that is disabled or has to change its password first.
pub guard_admin :
    {A : Type 0} (e : Platform) (now : Time) (handler : Identity → App → App × Response A)
    (r : Request) (a : App)
    → let a' = (authenticate e now r a).0 in
      ((status : ℕ) × (code : Text) × (guard e now admin handler r a ≡ (a', refused status code)))
      ⊎ ((id : Identity) × HoldsSession now r a id
          × (id.user.role ≡ codes "admin")
          × (id.user.must_change ≡ false)
          × (guard e now admin handler r a ≡ handler id a'))
guard_admin e now handler r a = elim (guard_admits e now admin handler r a) [
  | inl stopped ↦ inl stopped
  | inr (id, inl (t, b, f, i), m, g) ↦ absurd (ground (arith, i, m))
  | inr (id, inr s, m, g) ↦ inr (id, s, ground (arith, m), ground (arith, m), g)
]
