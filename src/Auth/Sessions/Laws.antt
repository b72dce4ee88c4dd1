-- ===== src/Auth/Sessions/Laws.antt =====
-- How long a session lasts, and what ends it.
use stem_computing_desktop_p.Prelude.{
  ◌+◌, ◌≡◌, none, some, arith, ltb, if◌then◌else◌, Option-cases, inl, inr, ◌≢◌,
}
use stem_computing_desktop_p.Text.{Text, text_eq}
use stem_computing_desktop_p.Text.Equality.{text_eq_refl, text_eq_iff}
use stem_computing_desktop_p.Dict
use stem_computing_desktop_p.Model.{Time}
use stem_computing_desktop_p.Auth.Sessions.{
  Session, Sessions, session_lifetime, create, lookup, drop, drop_user,
}

-- A new session names its user for twelve hours, and nobody afterwards.
pub lookup-create :
    (id user_id : Text) (now later : Time) (m : Sessions)
    → (lookup id later (create id user_id now m)).1
      ≡ (if ltb (now + session_lifetime) later then none else some user_id)
unfolding lookup create
lookup-create id user_id now later m =
    let v : Session = record { user_id = user_id; expires = now + session_lifetime } in
    let kept = Dict.delete_if (λ (v : Session). ltb v.expires now) m in
    ground (arith, Dict.lookup-insert_self id v kept)

-- A session that `drop` has removed names nobody.
pub lookup-drop : (id : Text) (now : Time) (m : Sessions) → (lookup id now (drop id m)).1 ≡ none
unfolding lookup drop
lookup-drop id now m = ground (arith, Dict.lookup-delete id id m, text_eq_refl id)

-- After `dropUser` no session names the user.
pub lookup-drop_user :
    (id user_id : Text) (now : Time) (m : Sessions)
    → (lookup id now (drop_user user_id m)).1 ≢ some user_id
unfolding lookup drop_user
lookup-drop_user id user_id now m h = elim (Option-cases (Dict.lookup id (drop_user user_id m))) [
  | inl n ↦ ground (arith, n)
  | inr (v, e) ↦
      let gone = Dict.lookup-delete_if (λ (v : Session). text_eq v.user_id user_id) id m {v = v} in
      ground (arith, e, gone e, text_eq_refl user_id)
]

-- `dropUser` leaves the sessions of every other user as they are.
pub lookup-drop_user_other :
    (id user_id other : Text) (now : Time) (m : Sessions)
    → other ≢ user_id
    → (lookup id now m).1 ≡ some other
    → (lookup id now (drop_user user_id m)).1 ≡ some other
unfolding lookup drop_user
lookup-drop_user_other id user_id other now m n h = elim (Option-cases (Dict.lookup id m)) [
  | inl e ↦ ground (arith, e)
  | inr (v, e) ↦
      let kept = Dict.lookup-delete_if_kept (λ (v : Session). text_eq v.user_id user_id) id m v e in
      ground (arith, e, kept, text_eq_iff v.user_id user_id)
]
