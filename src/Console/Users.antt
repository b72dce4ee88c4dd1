-- ===== src/Console/Users.antt =====
-- The accounts: `handleListUsers`, `handleSaveUser` and `handleDeleteUser`. A password is hashed
-- between two locked parts of `handleSaveUser`; what other requests do meanwhile can neither change
-- which account is written nor be overwritten, but for its password and whether that has to be changed:
-- where the account's owner changes the password meanwhile, the new temporary one takes its place. The
-- handler is one step here.
pub mod Admins
pub mod Remain
pub mod Names
use stem_computing_desktop_p.Prelude.{
  ℕ, Bool, true, false, not, ◌&&◌, ◌||◌, Option, none, some, List, [], ◌∷◌, ◌++◌, leb,
  if◌then◌else◌, filter, is_empty, is_some, map, modify_first,
}
use stem_computing_desktop_p.Text.{Text, codes, text_eq, clean_text, contains_any}
use stem_computing_desktop_p.Platform.{Platform}
use stem_computing_desktop_p.Model.{Time, User, Group, State}
use stem_computing_desktop_p.Match.{group_by_id}
use stem_computing_desktop_p.Store.{user_by_name, user_by_id, is_admin, admin_count}
use stem_computing_desktop_p.Auth.Sessions.{drop_user}
use stem_computing_desktop_p.Auth.Password.{hash_password}
use stem_computing_desktop_p.App.{App, World, Identity, Response, refused, reply, save, with_state}

-- userView
pub record UserView : Type 0 where
  pub id : Text
  pub username : Text
  pub display_name : Text
  pub role : Text
  pub must_change : Bool
  pub disabled : Bool
  pub allowed_group_ids : List Text
  pub last_login : Time

-- viewUser
unfoldable pub view_user : User → UserView
view_user u = record {
  id = u.id;
  username = u.username;
  display_name = u.display_name;
  role = u.role;
  must_change = u.must_change;
  disabled = u.disabled;
  allowed_group_ids = u.allowed_group_ids;
  last_login = u.last_login;
}

-- handleListUsers
unfoldable pub handle_list_users : App → App × Response (List UserView)
unfolding view_user
handle_list_users a = (a, reply 200 (map view_user a.store.state.users))

pub record UserRequest : Type 0 where
  pub username : Text
  pub display_name : Text
  pub role : Text
  pub disabled : Bool
  pub allowed_group_ids : List Text
  pub reset_password : Bool

abbrev pub with_users : List User → State → State
with_users us st = record st { users = us }

abbrev pub is_role : Text → Bool
is_role t = text_eq t (codes "admin") || text_eq t (codes "sender")

-- Whether the name may be given to a new account.
unfoldable pub is_username : Text → Bool
unfolding contains_any
is_username name = not (is_empty name || contains_any name (codes " :/\\"))

-- the new account, before it is filled in
abbrev pub new_user : World → Text → User
new_user w name = record {
  id = w.new_id;
  username = name;
  display_name = [];
  role = [];
  pass_hash = [];
  must_change = false;
  disabled = false;
  allowed_group_ids = [];
  created_at = w.now;
  last_login = 0;
}

-- the account that the request is about, by the id in the path
unfoldable pub account_for : Platform → World → Text → Text → List User → Response User
unfolding user_by_name user_by_id
account_for e w uid name us =
    if is_empty uid
    then elim (user_by_name e.unicode us name) [
      | some _ ↦ refused 409 (codes "exists")
      | none ↦ reply 200 (new_user w name)
    ]
    else elim (user_by_id us uid) [ none ↦ refused 404 (codes "not_found") | some u ↦ reply 200 u ]

-- losingAdmin
abbrev pub is_losing_admin : User → UserRequest → Bool
is_losing_admin u req = is_admin u && (not (text_eq req.role (codes "admin")) || req.disabled)

-- u.ResetPassword, which a new account always gets
abbrev pub resets : Text → UserRequest → Bool
resets uid req = is_empty uid || req.reset_password

-- the account as the request fills it in
unfoldable pub filled_in : Platform → World → Text → UserRequest → List Group → User → User
unfolding group_by_id hash_password
filled_in e w uid req groups u =
    let u' : User = record u {
      display_name = clean_text req.display_name 80;
      role = req.role;
      disabled = req.disabled;
      allowed_group_ids = filter (λ gid. is_some (group_by_id groups gid)) req.allowed_group_ids;
    } in
    if resets uid req
    then record u' { pass_hash = hash_password e w.salt w.secret; must_change = true }
    else u'

-- the write through the pointer `u`: a new account stands last
abbrev pub put_user : Text → User → List User → List User
put_user uid u us =
    if is_empty uid then us ++ u ∷ [] else modify_first (λ (x : User). text_eq x.id uid) (λ _. u) us

-- the checks of `handleSaveUser`, in their order: the account to write, or the refusal
unfoldable pub check_user : Platform → World → Text → UserRequest → List User → Response User
unfolding account_for admin_count is_username
check_user e w uid req us =
    let name = clean_text req.username 64 in
    if not (is_role req.role)
    then refused 400 (codes "invalid")
    else if is_empty uid && not (is_username name)
    then refused 400 (codes "invalid")
    else elim (account_for e w uid name us) [
      | refused status code ↦ refused status code
      | reply _ u ↦
          if is_losing_admin u req && leb (admin_count us) 1
          then refused 409 (codes "last_admin")
          else reply 200 u
    ]

-- if b { a.sessions.dropUser(uid) }
unfoldable pub sign_out : Bool → Text → App → App
unfolding drop_user
sign_out b uid a = record a { sessions = if b then drop_user uid a.sessions else a.sessions }

-- handleSaveUser: the account, and its temporary password or an empty text
unfoldable pub handle_save_user :
    Platform → World → Text → Option UserRequest → App → App × Response (UserView × Text)
unfolding check_user filled_in view_user sign_out save
handle_save_user e w uid none a = (a, refused 400 (codes "bad_json"))
handle_save_user e w uid (some req) a =
    let st = a.store.state in
    elim (check_user e w uid req st.users) [
      | refused status code ↦ (a, refused status code)
      | reply _ u ↦
          let u' = filled_in e w uid req st.groups u in
          (
            save w (
                sign_out (resets uid req || u'.disabled) u'.id
                  (with_state a (with_users (put_user uid u' st.users) st))),
            reply 200 (view_user u', if resets uid req then w.secret else []),
          )
    ]

-- the loop of `handleDeleteUser`
abbrev pub without_user : Text → List User → List User
without_user uid us = filter (λ (x : User). not (text_eq x.id uid)) us

abbrev pub is_admin_account : Option User → Bool
is_admin_account none = false
is_admin_account (some u) = is_admin u

-- handleDeleteUser
unfoldable pub handle_delete_user : World → Text → Identity → App → App × Response Bool
unfolding user_by_id admin_count drop_user save
handle_delete_user w uid id a =
    let st = a.store.state in
    if text_eq uid id.user.id
    then (a, refused 409 (codes "self"))
    else if is_admin_account (user_by_id st.users uid) && leb (admin_count st.users) 1
    then (a, refused 409 (codes "last_admin"))
    else (
      save w (record (with_state a (with_users (without_user uid st.users) st)) {
        sessions = drop_user uid a.sessions;
      }),
      reply 200 true,
    )
