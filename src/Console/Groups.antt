-- ===== src/Console/Groups.antt =====
-- The saved groups: `handleListGroups`, `handleSaveGroup` and `handleDeleteGroup`.
pub mod Orphans
use stem_computing_desktop_p.Prelude.{
  ℕ, Bool, true, false, not, ◌&&◌, Option, none, some, List, [], ◌∷◌, ◌++◌, if◌then◌else◌, any,
  count, filter, is_empty, map, modify_first,
}
use stem_computing_desktop_p.Text.{Text, codes, text_eq, clean_text, equal_fold, to_lower}
use stem_computing_desktop_p.Platform.{Platform}
use stem_computing_desktop_p.Model.{User, Group, Rule, State}
use stem_computing_desktop_p.Match.{clean_rules, rules_match, group_by_id}
use stem_computing_desktop_p.Store.{online, live_clients}
use stem_computing_desktop_p.Store.Flush.{sort, text_lt}
use stem_computing_desktop_p.App.{App, World, Response, refused, reply, save, with_state}

-- a row of the answer of `handleListGroups`
pub record GroupView : Type 0 where
  pub group : Group
  pub online : ℕ
  pub known : ℕ

-- handleListGroups
unfoldable pub handle_list_groups : Platform → World → App → App × Response (List GroupView)
unfolding rules_match online live_clients
handle_list_groups e w a =
    let cs = live_clients a.store.clients a.store.heap in
    (
      a,
      reply 200 (
          map
            (λ (g : Group). record {
              group = g;
              online = count (λ c. rules_match e g.rules c && online c w.now) cs;
              known = count (rules_match e g.rules) cs;
            })
            a.store.state.groups),
    )

abbrev pub with_groups : List Group → State → State
with_groups gs st = record st { groups = gs }

-- the order that `handleSaveGroup` leaves the groups in
abbrev pub by_name : Platform → Group → Group → Bool
by_name e g h = text_lt (to_lower e.unicode g.name) (to_lower e.unicode h.name)

-- the checks of `handleSaveGroup`, in their order: the group to write, tidied, or the refusal
unfoldable pub check_group : Platform → World → Text → Group → List Group → Response Group
unfolding equal_fold group_by_id
check_group e w gid req gs =
    let name = clean_text req.name 60 in
    let rules = clean_rules e req.rules in
    if is_empty name
    then refused 400 (codes "invalid")
    else if is_empty rules
    then refused 400 (codes "invalid")
    else if any (λ (g : Group). not (text_eq g.id gid) && equal_fold e.unicode g.name name) gs
    then refused 409 (codes "exists")
    else if is_empty gid
    then reply 200 (record { id = w.new_id; name = name; rules = rules })
    else elim (group_by_id gs gid) [
      | none ↦ refused 404 (codes "not_found")
      | some g ↦ reply 200 (record g { name = name; rules = rules })
    ]

-- the write through the pointer `g`: a new group stands last
abbrev pub put_group : Text → Group → List Group → List Group
put_group gid g gs =
    if is_empty gid
    then gs ++ g ∷ []
    else modify_first (λ (x : Group). text_eq x.id gid) (λ _. g) gs

-- handleSaveGroup
unfoldable pub handle_save_group :
    Platform → World → Text → Option Group → App → App × Response Group
unfolding check_group sort text_lt save
handle_save_group e w gid none a = (a, refused 400 (codes "bad_json"))
handle_save_group e w gid (some req) a =
    let st = a.store.state in
    elim (check_group e w gid req st.groups) [
      | refused status code ↦ (a, refused status code)
      | reply _ g ↦ (
        save w (with_state a (with_groups (sort (by_name e) (put_group gid g st.groups)) st)),
        reply 200 g,
      )
    ]

-- without
abbrev pub without : List Text → Text → List Text
without list x = filter (λ v. not (text_eq v x)) list

abbrev pub drop_allowed : Text → User → User
drop_allowed gid u = record u { allowed_group_ids = without u.allowed_group_ids gid }

-- handleDeleteGroup
unfoldable pub handle_delete_group : World → Text → App → App × Response Bool
unfolding save
handle_delete_group w gid a =
    let st = a.store.state in
    (
      save w (
          with_state a (record st {
            groups = filter (λ (g : Group). not (text_eq g.id gid)) st.groups;
            users = map (drop_allowed gid) st.users;
          })),
      reply 200 true,
    )
