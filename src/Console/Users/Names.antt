-- ===== src/Console/Users/Names.antt =====
-- The names of the accounts over any sequence of requests: case aside, no two are the same.
pub mod Lists
use stem_computing_desktop_p.Prelude.{
  ℕ, Option-cases, ◌≡◌, refl, ap, inl, inr, ◌⊎◌, Bool, true, false, ◌&&◌, ◌||◌, Option, none, leb,
  if_cases, some, List, [], ◌∷◌, ◌++◌, arith, is_empty, modify_first, Bool-cases, map,
}
use mathlib.Core.Path.{subst}
use stem_computing_desktop_p.Text.{Text, Unicode, text_eq, equal_fold, clean_text}
use stem_computing_desktop_p.Text.Equality.{text_eq_iff, equal_fold_refl}
use stem_computing_desktop_p.Platform.{Platform}
use stem_computing_desktop_p.Model.{User}
use stem_computing_desktop_p.Store.{user_by_id, user_by_name, admin_count}
use stem_computing_desktop_p.App.{App, World, Identity, Response, refused, reply, with_state}
use stem_computing_desktop_p.Auth.Sessions.{drop_user}
use stem_computing_desktop_p.Console.Users.{
  UserRequest, put_user, check_user, account_for, filled_in, sign_out, resets, handle_save_user,
  without_user, is_admin_account, handle_delete_user, with_users,
}
use stem_computing_desktop_p.Console.Users.Admins.{save-state, check_user-inv}
use stem_computing_desktop_p.Console.Users.Names.Lists.{
  names, is_taken, Unique, equal_fold_sym, Unique-append, is_taken-user_by_name, names-append,
  names-modify, Unique-without,
}

new_name :
    (e : Platform) (w : World) (uid : Text) (req : UserRequest) (us : List User) (n : ℕ) (u : User)
    → check_user e w uid req us ≡ reply n u
    → is_empty uid ≡ true
    → user_by_name e.unicode us (clean_text req.username 64) ≡ none
    → u.username ≡ clean_text req.username 64
unfolding check_user account_for
new_name e w uid req us n u h y k = ground (arith, h, y, k)

check_user-name :
    (e : Platform) (w : World) (uid : Text) (req : UserRequest) (us : List User) (n : ℕ) (u : User)
    → check_user e w uid req us ≡ reply n u
    → is_empty uid ≡ true
    → user_by_name e.unicode us u.username ≡ none
unfolding check_user account_for
check_user-name e w uid req us n u h y =
    elim (Option-cases (user_by_name e.unicode us (clean_text req.username 64))) [
      | inl k ↦ rw (new_name e w uid req us n u h y k) k
      | inr (v, k) ↦ absurd (ground (arith, h, y, k))
    ]

filled_in-username :
    (e : Platform) (w : World) (uid : Text) (req : UserRequest) (a : App) (u : User)
    → (filled_in e w uid req a.store.state.groups u).username ≡ u.username
unfolding filled_in
filled_in-username e w uid req a u = ground arith

put_user-Unique :
    (e : Unicode) (uid : Text) (us : List User) (u v : User)
    → ((is_empty uid ≡ true) × (user_by_name e us v.username ≡ none))
      ⊎ ((is_empty uid ≡ false) × (user_by_id us uid ≡ some u) × (v.username ≡ u.username))
    → Unique e (names us)
    → Unique e (names (put_user uid v us))
put_user-Unique e uid us u v (inl (y, n)) h =
    rw (y, names-append us v)
      (Unique-append e (names us) v.username h (is_taken-user_by_name e us v.username n))
put_user-Unique e uid us u v (inr (n, k, same)) h = rw (n, names-modify us uid u v k same) h

handle_save_user-Unique :
    (e : Platform) (w : World) (uid : Text) (body : Option UserRequest) (a : App)
    → Unique e.unicode (names a.store.state.users)
    → Unique e.unicode (names (handle_save_user e w uid body a).0.store.state.users)
unfolding handle_save_user sign_out
handle_save_user-Unique e w uid none a h = h
handle_save_user-Unique e w uid (some req) a h =
    by_answer (check_user e w uid req a.store.state.users) refl
  where
    by_answer :
        (r : Response User)
        → check_user e w uid req a.store.state.users ≡ r
        → Unique e.unicode (names (handle_save_user e w uid (some req) a).0.store.state.users)
    by_answer (refused status code) k = rw (k, handle_save_user) h
    by_answer (reply status u) k =
        let st = a.store.state in
        let u' = filled_in e w uid req st.groups u in
        let same = filled_in-username e w uid req a u in
        rw (k, handle_save_user)
          (rw
            (save-state w (
              sign_out (resets uid req || u'.disabled) u'.id
                (with_state a (with_users (put_user uid u' st.users) st))))
            (put_user-Unique e.unicode uid st.users u u'
              (elim (check_user-inv e w uid req st.users status u k).0 [
                | inl y ↦ inl (y, rw same (check_user-name e w uid req st.users status u k y))
                | inr (n, found) ↦ inr (n, found, same)
              ])
              h))

handle_delete_user-Unique :
    (e : Unicode) (w : World) (uid : Text) (id : Identity) (a : App)
    → Unique e (names a.store.state.users)
    → Unique e (names (handle_delete_user w uid id a).0.store.state.users)
unfolding handle_delete_user
handle_delete_user-Unique e w uid id a h =
    let st = a.store.state in
    let b = record (with_state a (with_users (without_user uid st.users) st)) {
      sessions = drop_user uid a.sessions;
    } in
    if_cases (λ (r : App × Response Bool). Unique e (names r.0.store.state.users))
      (text_eq uid id.user.id) _ _ (λ _. h)
      (λ _.
        if_cases (λ (r : App × Response Bool). Unique e (names r.0.store.state.users))
          (is_admin_account (user_by_id st.users uid) && leb (admin_count st.users) 1) _ _ (λ _. h)
          (λ _. rw (save-state w b) (Unique-without e st.users uid h)))

-- Saving or deleting an account, and whatever leaves the names of the accounts as they are.
pub data Step (e : Platform) : App → App → Type 0 where
  saved :
      (w : World) (uid : Text) (body : Option UserRequest) (a : App)
      → Step e a (handle_save_user e w uid body a).0
  deleted :
      (w : World) (uid : Text) (id : Identity) (a : App)
      → Step e a (handle_delete_user w uid id a).0
  elsewhere : (a b : App) → names b.store.state.users ≡ names a.store.state.users → Step e a b

pub data Reach (e : Platform) (a : App) : App → Type 0 where
  here : Reach e a a
  next : {b c : App} → Reach e a b → Step e b c → Reach e a c

Step-Unique :
    {e : Platform} {a b : App}
    → Step e a b
    → Unique e.unicode (names a.store.state.users)
    → Unique e.unicode (names b.store.state.users)
Step-Unique {e = e} (saved w uid body a) h = handle_save_user-Unique e w uid body a h
Step-Unique {e = e} (deleted w uid id a) h = handle_delete_user-Unique e.unicode w uid id a h
Step-Unique (elsewhere a b k) h = rw k h

pub Reach-Unique :
    {e : Platform} {a b : App}
    → Reach e a b
    → Unique e.unicode (names a.store.state.users)
    → Unique e.unicode (names b.store.state.users)
Reach-Unique here h = h
Reach-Unique (next r st) h = Step-Unique st (Reach-Unique r h)

is_taken-middle :
    (e : Unicode) (xs : List User) (u : User) (ys : List User) (n : Text)
    → is_taken e (names (xs ++ u ∷ ys)) n ≡ false
    → equal_fold e u.username n ≡ false
is_taken-middle e [] u ys n h = ground (arith, h)
is_taken-middle e (x ∷ xs) u ys n h = is_taken-middle e xs u ys n (ground (arith, h))

pub user_by_name-middle :
    (e : Unicode) (xs : List User) (u : User) (ys : List User)
    → Unique e (names (xs ++ u ∷ ys))
    → user_by_name e (xs ++ u ∷ ys) u.username ≡ some u
unfolding user_by_name
user_by_name-middle e [] u ys h = rw (equal_fold_refl e u.username) refl
user_by_name-middle e (x ∷ xs) u ys h = ground (
  arith,
  equal_fold_sym e x.username u.username,
  is_taken-middle e xs u ys x.username h.0,
  user_by_name-middle e xs u ys h.1,
)

-- From accounts whose names differ, case aside, any sequence of requests leads to accounts each of which
-- is the one that a sign-in finds by its name, when only saving and deleting accounts changes names.
pub Reach-found :
    (e : Platform) (a b : App) (xs : List User) (u : User) (ys : List User)
    → Unique e.unicode (names a.store.state.users)
    → Reach e a b
    → b.store.state.users ≡ xs ++ u ∷ ys
    → user_by_name e.unicode b.store.state.users u.username ≡ some u
Reach-found e a b xs u ys h r same = rw same (
    user_by_name-middle e.unicode xs u ys
      (subst (λ us. Unique e.unicode (names us)) same (Reach-Unique r h)))
