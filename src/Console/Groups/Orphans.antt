-- ===== src/Console/Groups/Orphans.antt =====
-- What deleting a group does to the accounts that may only send to it.
use stem_computing_desktop_p.Prelude.{
  ◌≡◌, refl, not, none, some, List, [], ◌∷◌, arith, map, map_some, filter,
}
use stem_computing_desktop_p.Text.{Text, text_eq}
use stem_computing_desktop_p.Text.Equality.{text_eq_refl}
use stem_computing_desktop_p.Model.{User, Target, Group}
use stem_computing_desktop_p.Store.{user_by_id}
use stem_computing_desktop_p.App.{App, World, with_state}
use stem_computing_desktop_p.Console.Alerts.{check_allowed}
use stem_computing_desktop_p.Console.Users.Admins.{save-state}
use stem_computing_desktop_p.Console.Groups.{drop_allowed, handle_delete_group}

user_by_id-map :
    (gid : Text) (us : List User) (uid : Text)
    → user_by_id (map (drop_allowed gid) us) uid ≡ map_some (drop_allowed gid) (user_by_id us uid)
unfolding user_by_id
user_by_id-map gid [] uid = refl
user_by_id-map gid (u ∷ us) uid = ground (arith, user_by_id-map gid us uid)

-- Whose one group is deleted may then send to everybody: an empty list of groups means no
-- restriction.
pub handle_delete_group-check_allowed :
    (w : World) (gid uid : Text) (a : App) (u : User) (t : Target)
    → user_by_id a.store.state.users uid ≡ some u
    → u.allowed_group_ids ≡ gid ∷ []
    → let b = (handle_delete_group w gid a).0 in
      (u' : User) × (user_by_id b.store.state.users uid ≡ some u') × (check_allowed u' t ≡ none)
unfolding handle_delete_group check_allowed
handle_delete_group-check_allowed w gid uid a u t f h =
    let st = a.store.state in
    (
      drop_allowed gid u,
      rw
          (save-state w (
            with_state a (record st {
              groups = filter (λ (g : Group). not (text_eq g.id gid)) st.groups;
              users = map (drop_allowed gid) st.users;
            })))
          (rw (user_by_id-map gid st.users uid, f)),
      ground (arith, h, text_eq_refl gid),
    )
