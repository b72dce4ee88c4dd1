-- ===== src/Console/Users/Remain.antt =====
-- The accounts over any sequence of requests that change them.
use stem_computing_desktop_p.Prelude.{
  ℕ, ◌≤◌, ◌≡◌, refl, ◌∙◌, ◌||◌, leb, if_cases, inl, inr, ◌⊎◌, Bool, true, false, ◌&&◌, Option, none,
  some, List, [], ◌∷◌, ◌++◌, arith, is_empty, modify_first, Bool-cases,
}
use stem_computing_desktop_p.Text.{Text, text_eq}
use stem_computing_desktop_p.Text.Equality.{text_eq_iff}
use stem_computing_desktop_p.Platform.{Platform}
use stem_computing_desktop_p.Model.{User}
use stem_computing_desktop_p.Store.{user_by_id, admin_count}
use stem_computing_desktop_p.App.{App, World, Identity, Response, refused, reply, with_state}
use stem_computing_desktop_p.Auth.Sessions.{drop_user}
use stem_computing_desktop_p.Console.Users.{
  UserRequest, put_user, check_user, account_for, filled_in, sign_out, resets, handle_save_user,
  without_user, is_admin_account, handle_delete_user, with_users,
}
use stem_computing_desktop_p.Console.Users.Admins.{
  UniqueIds, save-state, check_user-inv, handle_save_user-admins, handle_delete_user-admins,
}

-- Saving or deleting an account, where a new id is on nobody's account; and whatever leaves the
-- accounts as they are.
pub data Step (e : Platform) : App → App → Type 0 where
  saved :
      (w : World) (uid : Text) (body : Option UserRequest) (a : App)
      → user_by_id a.store.state.users w.new_id ≡ none
      → Step e a (handle_save_user e w uid body a).0
  deleted :
      (w : World) (uid : Text) (id : Identity) (a : App)
      → Step e a (handle_delete_user w uid id a).0
  elsewhere : (a b : App) → b.store.state.users ≡ a.store.state.users → Step e a b

pub data Reach (e : Platform) (a : App) : App → Type 0 where
  here : Reach e a a
  next : {b c : App} → Reach e a b → Step e b c → Reach e a c

user_by_id-append :
    (us : List User) (u : User) (id : Text)
    → user_by_id us id ≡ none
    → text_eq u.id id ≡ false
    → user_by_id (us ++ u ∷ []) id ≡ none
unfolding user_by_id
user_by_id-append [] u id h n = ground arith
user_by_id-append (x ∷ us) u id h n = ground (arith, user_by_id-append us u id)

UniqueIds-append :
    (us : List User) (u : User)
    → UniqueIds us
    → user_by_id us u.id ≡ none
    → UniqueIds (us ++ u ∷ [])
unfolding user_by_id
UniqueIds-append [] u h n = (refl, tt)
UniqueIds-append (x ∷ us) u h n = (
  user_by_id-append us u x.id h.0 (ground (arith, text_eq_iff u.id x.id, text_eq_iff x.id u.id)),
  UniqueIds-append us u h.1 (ground arith),
)

user_by_id-modify :
    (us : List User) (uid id : Text) (u : User)
    → u.id ≡ uid
    → user_by_id us id ≡ none
    → user_by_id (modify_first (λ (x : User). text_eq x.id uid) (λ _. u) us) id ≡ none
unfolding user_by_id
user_by_id-modify [] uid id u k h = refl
user_by_id-modify (x ∷ us) uid id u k h =
    ground (arith, k, text_eq_iff x.id uid, user_by_id-modify us uid id u)

UniqueIds-modify :
    (us : List User) (uid : Text) (u : User)
    → u.id ≡ uid
    → UniqueIds us
    → UniqueIds (modify_first (λ (x : User). text_eq x.id uid) (λ _. u) us)
unfolding user_by_id
UniqueIds-modify [] uid u k h = tt
UniqueIds-modify (x ∷ us) uid u k h = elim (Bool-cases (text_eq x.id uid)) [
  | inl y ↦ rw y (ground (arith, h.0, k, (text_eq_iff x.id uid).0 y), h.1)
  | inr n ↦ rw n (user_by_id-modify us uid x.id u k h.0, UniqueIds-modify us uid u k h.1)
]

user_by_id-without :
    (us : List User) (uid id : Text)
    → user_by_id us id ≡ none
    → user_by_id (without_user uid us) id ≡ none
unfolding user_by_id
user_by_id-without [] uid id h = refl
user_by_id-without (x ∷ us) uid id h = ground (arith, user_by_id-without us uid id)

UniqueIds-without : (us : List User) (uid : Text) → UniqueIds us → UniqueIds (without_user uid us)
UniqueIds-without [] uid h = tt
UniqueIds-without (x ∷ us) uid h = elim (Bool-cases (text_eq x.id uid)) [
  | inl y ↦ rw y (UniqueIds-without us uid h.1)
  | inr n ↦ rw n (user_by_id-without us uid x.id h.0, UniqueIds-without us uid h.1)
]

user_by_id-id : (us : List User) (uid : Text) (u : User) → user_by_id us uid ≡ some u → u.id ≡ uid
unfolding user_by_id
user_by_id-id [] uid u h = cc
user_by_id-id (x ∷ us) uid u h = ground (arith, user_by_id-id us uid u, text_eq_iff x.id uid)

check_user-new :
    (e : Platform) (w : World) (uid : Text) (req : UserRequest) (us : List User) (n : ℕ) (u : User)
    → check_user e w uid req us ≡ reply n u
    → is_empty uid ≡ true
    → u.id ≡ w.new_id
unfolding check_user account_for
check_user-new e w uid req us n u h y = ground (arith, y)

filled_in-id :
    (e : Platform) (w : World) (uid : Text) (req : UserRequest) (a : App) (u : User)
    → (filled_in e w uid req a.store.state.groups u).id ≡ u.id
unfolding filled_in
filled_in-id e w uid req a u = ground arith

put_user-UniqueIds :
    (uid : Text) (us : List User) (u : User)
    → ((is_empty uid ≡ true) × (user_by_id us u.id ≡ none))
      ⊎ ((is_empty uid ≡ false) × (u.id ≡ uid))
    → UniqueIds us
    → UniqueIds (put_user uid u us)
put_user-UniqueIds uid us u (inl (y, n)) h = rw y (UniqueIds-append us u h n)
put_user-UniqueIds uid us u (inr (n, k)) h = rw n (UniqueIds-modify us uid u k h)

handle_save_user-UniqueIds :
    (e : Platform) (w : World) (uid : Text) (body : Option UserRequest) (a : App)
    → user_by_id a.store.state.users w.new_id ≡ none
    → UniqueIds a.store.state.users
    → UniqueIds (handle_save_user e w uid body a).0.store.state.users
unfolding handle_save_user sign_out
handle_save_user-UniqueIds e w uid none a f h = h
handle_save_user-UniqueIds e w uid (some req) a f h =
    by_answer (check_user e w uid req a.store.state.users) refl
  where
    by_answer :
        (r : Response User)
        → check_user e w uid req a.store.state.users ≡ r
        → UniqueIds (handle_save_user e w uid (some req) a).0.store.state.users
    by_answer (refused status code) k = rw (k, handle_save_user) h
    by_answer (reply status u) k =
        let st = a.store.state in
        let u' = filled_in e w uid req st.groups u in
        let same = filled_in-id e w uid req a u in
        rw (k, handle_save_user)
          (rw
            (save-state w (
              sign_out (resets uid req || u'.disabled) u'.id
                (with_state a (with_users (put_user uid u' st.users) st))))
            (put_user-UniqueIds uid st.users u'
              (elim (check_user-inv e w uid req st.users status u k).0 [
                | inl y ↦ inl (y, rw (same, check_user-new e w uid req st.users status u k y) f)
                | inr (n, found) ↦ inr (n, same ∙ user_by_id-id st.users uid u found)
              ])
              h))

handle_delete_user-UniqueIds :
    (w : World) (uid : Text) (id : Identity) (a : App)
    → UniqueIds a.store.state.users
    → UniqueIds (handle_delete_user w uid id a).0.store.state.users
unfolding handle_delete_user
handle_delete_user-UniqueIds w uid id a h =
    let st = a.store.state in
    let b = record (with_state a (with_users (without_user uid st.users) st)) {
      sessions = drop_user uid a.sessions;
    } in
    if_cases (λ (r : App × Response Bool). UniqueIds r.0.store.state.users) (text_eq uid id.user.id)
      _ _ (λ _. h)
      (λ _.
        if_cases (λ (r : App × Response Bool). UniqueIds r.0.store.state.users)
          (is_admin_account (user_by_id st.users uid) && leb (admin_count st.users) 1) _ _ (λ _. h)
          (λ _. rw (save-state w b) (UniqueIds-without st.users uid h)))

Step-keeps :
    {e : Platform} {a b : App}
    → Step e a b
    → UniqueIds a.store.state.users × (1 ≤ admin_count a.store.state.users)
    → UniqueIds b.store.state.users × (1 ≤ admin_count b.store.state.users)
Step-keeps {e = e} (saved w uid body a f) (u, h) =
    (handle_save_user-UniqueIds e w uid body a f u, handle_save_user-admins e w uid body a h)
Step-keeps (deleted w uid id a) (u, h) =
    (handle_delete_user-UniqueIds w uid id a u, handle_delete_user-admins w uid id a u h)
Step-keeps (elsewhere a b k) h = rw k h

-- Whatever accounts are saved and deleted, in whatever order and by whomever, a working administrator
-- remains and no two accounts get the same id, if that is so at the start and every new id is unused.
pub Reach-admins :
    (e : Platform) (a b : App)
    → UniqueIds a.store.state.users
    → 1 ≤ admin_count a.store.state.users
    → Reach e a b
    → UniqueIds b.store.state.users × (1 ≤ admin_count b.store.state.users)
Reach-admins e a b u h here = (u, h)
Reach-admins e a b u h (next path st) = Step-keeps st (Reach-admins e a _ u h path)
