-- ===== src/Console/Users/Admins.antt =====
-- Somebody can always administer the server.
use stem_computing_desktop_p.Prelude.{
  ℕ, ◌+◌, ◌≤◌, ◌≡◌, refl, true, false, not, ◌&&◌, ◌||◌, Option, none, some, List, [], ◌∷◌, ◌++◌,
  arith, inl, inr, ◌⊎◌, Bool-cases, leb, if◌then◌else◌, is_empty, modify_first,
}
use stem_computing_desktop_p.Text.{Text, codes, text_eq}
use stem_computing_desktop_p.Text.Equality.{text_eq_iff}
use stem_computing_desktop_p.Platform.{Platform}
use stem_computing_desktop_p.Model.{User}
use stem_computing_desktop_p.Store.{user_by_id, is_admin, admin_count, compact}
use stem_computing_desktop_p.Store.Flush.{collect, flush}
use stem_computing_desktop_p.Auth.Sessions.{drop_user}
use stem_computing_desktop_p.App.{App, World, Identity, Response, refused, reply, save, with_state}
use stem_computing_desktop_p.Console.Users.{
  UserRequest, account_for, is_losing_admin, resets, filled_in, put_user, check_user, sign_out,
  handle_save_user, without_user, is_admin_account, handle_delete_user, with_users,
}

-- Writing the files changes nothing in the settings, accounts, tokens, groups and templates.
pub save-state : (w : World) (a : App) → (save w a).store.state ≡ a.store.state
unfolding save flush collect compact
save-state w a = ground arith

admin_count-put :
    (us : List User) (uid : Text) (u u' : User)
    → user_by_id us uid ≡ some u
    → admin_count (modify_first (λ (x : User). text_eq x.id uid) (λ _. u') us)
        + (if is_admin u then 1 else 0)
      ≡ admin_count us + (if is_admin u' then 1 else 0)
unfolding user_by_id admin_count
admin_count-put [] uid u u' h = cc
admin_count-put (x ∷ us) uid u u' h = ground (arith, admin_count-put us uid u u')

admin_count-append : (us : List User) (u : User) → admin_count us ≤ admin_count (us ++ u ∷ [])
unfolding admin_count
admin_count-append [] u = ground arith
admin_count-append (x ∷ us) u = omega (arith, admin_count-append us u)

-- The account that `handleSaveUser` goes on with is new or on record, and is not the last
-- administrator's if it is to lose that.
pub check_user-inv :
    (e : Platform) (w : World) (uid : Text) (req : UserRequest) (us : List User) (st : ℕ) (u : User)
    → check_user e w uid req us ≡ reply st u
    → ((is_empty uid ≡ true) ⊎ ((is_empty uid ≡ false) × (user_by_id us uid ≡ some u)))
      × ((is_losing_admin u req && leb (admin_count us) 1) ≡ false)
unfolding check_user account_for
check_user-inv e w uid req us st u h = (
  elim (Bool-cases (is_empty uid)) [ inl y ↦ inl y | inr n ↦ inr (n, ground (arith, n)) ],
  ground arith,
)

is_admin-filled_in :
    (e : Platform) (w : World) (uid : Text) (req : UserRequest) (a : App) (u : User)
    → is_admin (filled_in e w uid req a.store.state.groups u)
      ≡ (text_eq req.role (codes "admin") && not req.disabled)
unfolding filled_in
is_admin-filled_in e w uid req a u = ground arith

-- The account that is written keeps an administrator, where it does not lose the last one.
put_user-admins :
    (uid : Text) (req : UserRequest) (us : List User) (u u' : User)
    → ((is_empty uid ≡ true) ⊎ ((is_empty uid ≡ false) × (user_by_id us uid ≡ some u)))
    → (is_losing_admin u req && leb (admin_count us) 1) ≡ false
    → is_admin u' ≡ (text_eq req.role (codes "admin") && not req.disabled)
    → 1 ≤ admin_count us
    → 1 ≤ admin_count (put_user uid u' us)
put_user-admins uid req us u u' (inl y) l f h = ground (arith, y, admin_count-append us u')
put_user-admins uid req us u u' (inr (n, k)) l f h =
    ground (arith, n, admin_count-put us uid u u' k)

-- `handleSaveUser` never takes away the last working administrator.
pub handle_save_user-admins :
    (e : Platform) (w : World) (uid : Text) (body : Option UserRequest) (a : App)
    → 1 ≤ admin_count a.store.state.users
    → 1 ≤ admin_count (handle_save_user e w uid body a).0.store.state.users
unfolding handle_save_user sign_out
handle_save_user-admins e w uid none a h = h
handle_save_user-admins e w uid (some req) a h =
    go (check_user e w uid req a.store.state.users) refl
  where
    go :
        (r : Response User)
        → check_user e w uid req a.store.state.users ≡ r
        → 1 ≤ admin_count (handle_save_user e w uid (some req) a).0.store.state.users
    go (refused status code) k = rw (k, handle_save_user) h
    go (reply status u) k =
        let st = a.store.state in
        let u' = filled_in e w uid req st.groups u in
        let (found, losing) = check_user-inv e w uid req st.users status u k in
        rw (k, handle_save_user)
          (rw
            (save-state w (
              sign_out (resets uid req || u'.disabled) u'.id
                (with_state a (with_users (put_user uid u' st.users) st))))
            (put_user-admins uid req st.users u u' found losing (is_admin-filled_in e w uid req a u)
              h))

-- No two accounts have the same id.
abbrev pub UniqueIds : List User → Type 0
UniqueIds [] = Unit {0}
UniqueIds (u ∷ us) = (user_by_id us u.id ≡ none) × UniqueIds us

without_user-none :
    (us : List User) (uid : Text) → user_by_id us uid ≡ none → without_user uid us ≡ us
unfolding user_by_id
without_user-none [] uid h = refl
without_user-none (u ∷ us) uid h = ground (arith, without_user-none us uid)

admin_count-without :
    (us : List User) (uid : Text)
    → UniqueIds us
    → admin_count us
      ≡ admin_count (without_user uid us) + (if is_admin_account (user_by_id us uid) then 1 else 0)
unfolding user_by_id admin_count
admin_count-without [] uid h = refl
admin_count-without (u ∷ us) uid h = elim (Bool-cases (text_eq u.id uid)) [
  | inl y ↦ ground (arith, y, h.0, (text_eq_iff u.id uid).0 y, without_user-none us uid)
  | inr n ↦ ground (arith, n, admin_count-without us uid h.1)
]

-- `handleDeleteUser` never deletes the last working administrator, where ids are unique.
pub handle_delete_user-admins :
    (w : World) (uid : Text) (id : Identity) (a : App)
    → UniqueIds a.store.state.users
    → 1 ≤ admin_count a.store.state.users
    → 1 ≤ admin_count (handle_delete_user w uid id a).0.store.state.users
unfolding handle_delete_user
handle_delete_user-admins w uid id a u h =
    let st = a.store.state in
    ground (
      arith,
      save-state w (record (with_state a (with_users (without_user uid st.users) st)) {
        sessions = drop_user uid a.sessions;
      }),
      admin_count-without st.users uid u,
    )
