-- ===== src/Console/Alerts.antt =====
-- The handlers of alerts of server/api_admin.go: sending, recalling and listing.
pub mod Probe
pub mod Allowed
pub mod Sent
pub mod Delivered
use stem_computing_desktop_p.Prelude.{
  ℕ, zero, suc, ◌+◌, ◌*◌, Bool, true, false, not, ◌&&◌, ◌||◌, Option, none, some, List, [], ◌∷◌,
  ◌++◌, leb, ltb, if◌then◌else◌, is_empty, is_none, is_some, any, all, count, take, map, length,
  filter,
}
use mathlib.Core.List.{reverse}
use stem_computing_desktop_p.Prelude.Int.{pos_part, ℤ, is_below, is_above, pos}
use stem_computing_desktop_p.Text.{Text, codes, text_eq, to_lower}
use stem_computing_desktop_p.Platform.{Platform}
use stem_computing_desktop_p.Model.{
  Time, minute, User, Target, AlertSpec, Alert, Delivery, Totals, ClientInfo, Store, Group,
}
use stem_computing_desktop_p.Match.{alert_matches, group_by_id, flatten_target, clean_rules}
use stem_computing_desktop_p.Store.{
  Status, status, totals, online, live_clients, alert_by_id, modify_alert, entries, max_alerts_kept,
}
use stem_computing_desktop_p.Store.Flush.{sort, text_lt}
use stem_computing_desktop_p.App.{
  App, World, Identity, Response, refused, reply, save, wake, with_store,
}
use stem_computing_desktop_p.Console.Spec.{Result, ok, err, validate_spec}

-- alertView
pub record AlertView : Type 0 where
  pub id : Text
  pub spec : AlertSpec
  pub target_summary : Text
  pub sender : Text
  pub sender_name : Text
  pub created_at : Time
  pub expires_at : Time
  pub recalled_at : Option Time
  pub recalled_by : Text
  pub status : Status
  pub totals : Totals
  pub archived : Bool
  pub deliveries : List Delivery

abbrev pub values : List (Text × Delivery) → List Delivery
values [] = []
values ((_, d) ∷ ds) = d ∷ values ds

-- viewAlert
unfoldable pub view_alert : Platform → Alert → Time → Bool → AlertView
unfolding status totals sort text_lt
view_alert e a now with_deliveries = record {
  id = a.id;
  spec = a.spec;
  target_summary = a.target_summary;
  sender = a.sender;
  sender_name = a.sender_name;
  created_at = a.created_at;
  expires_at = a.expires_at;
  recalled_at = a.recalled_at;
  recalled_by = a.recalled_by;
  status = status a now;
  totals = totals a;
  archived = is_some a.archived;
  deliveries =
      if with_deliveries
      then sort
          (λ (x y : Delivery).
            text_lt (to_lower e.unicode x.hostname) (to_lower e.unicode y.hostname))
          (values (entries a.deliveries))
      else [];
}

-- checkAllowed, with the message for the person where the sender may not
unfoldable pub check_allowed : User → Target → Option Text
check_allowed u t =
    if text_eq u.role (codes "admin") || is_empty u.allowed_group_ids
    then none
    else if t.all || not (is_empty t.rules)
    then some
        (codes "Your account can only send to the groups an administrator has chosen for you.")
    else if all (λ gid. any (text_eq gid) u.allowed_group_ids) t.group_ids
    then none
    else some (codes "Your account is not allowed to send to one of those groups.")

abbrev pub sender_name : User → Text
sender_name u = if is_empty u.display_name then u.username else u.display_name

-- the alert that `handleSendAlert` makes
unfoldable pub new_alert : World → User → List Group → AlertSpec → Alert
unfolding flatten_target
new_alert w u groups spec =
    let (rules', summary) = flatten_target groups spec.target in
    record {
      id = w.new_id;
      spec = spec;
      rules = rules';
      target_summary = summary;
      sender = u.username;
      sender_name = sender_name u;
      created_at = w.now;
      expires_at = w.now + pos_part spec.expires_minutes * minute;
      recalled_at = none;
      recalled_by = [];
      deliveries = some [];
      archived = none;
    }

-- s.Alerts = append(s.Alerts, al)
abbrev pub add_alert : Alert → Store → Store
add_alert al s = record s { alerts = s.alerts ++ al ∷ []; dirty_alerts = true }

-- the loop that counts the computers that are on and matched
unfoldable pub reach : Platform → Alert → Time → Store → ℕ
unfolding online live_clients
reach e al now s = count (λ c. online c now && alert_matches e al c) (live_clients s.clients s.heap)

-- the checks of `handleSendAlert`, in their order: the tidied spec, or the refusal
unfoldable pub check_send : Platform → Identity → Option AlertSpec → Store → Response AlertSpec
unfolding check_allowed group_by_id
check_send e id none s = refused 400 (codes "bad_json")
check_send e id (some body) s = elim (validate_spec e body) [
  | err _ ↦ refused 400 (codes "invalid")
  | ok spec ↦ elim (check_allowed id.user spec.target) [
    | some _ ↦ refused 403 (codes "forbidden")
    | none ↦
        if any (λ gid. is_none (group_by_id s.state.groups gid)) spec.target.group_ids
        then refused 400 (codes "invalid")
        else reply 200 spec
  ]
]

-- handleSendAlert
unfoldable pub handle_send_alert :
    Platform → World → Option AlertSpec → Identity → App → App × Response (AlertView × ℕ)
unfolding check_send new_alert reach view_alert save
handle_send_alert e w body id a = elim (check_send e id body a.store) [
  | refused status code ↦ (a, refused status code)
  | reply _ spec ↦
      let al = new_alert w id.user a.store.state.groups spec in
      let s = add_alert al a.store in
      (save w (wake (with_store a s)), reply 201 (view_alert e al w.now false, reach e al w.now s))
]

-- what `handleRecallAlert` writes, if nobody has recalled the alert before
unfoldable pub mark_recalled : Time → Text → Alert → Alert
mark_recalled now by a =
    if is_none a.recalled_at then record a { recalled_at = some now; recalled_by = by } else a

-- the write of `handleRecallAlert`, through the pointer to the alert `al`
abbrev pub recall_in : Time → Text → Text → Alert → Store → Store
recall_in now by aid al s = record s {
  alerts = modify_alert (mark_recalled now by) s.alerts aid;
  dirty_alerts = s.dirty_alerts || is_none al.recalled_at;
}

-- handleRecallAlert
unfoldable pub handle_recall_alert :
    Platform → World → Text → Identity → App → App × Response AlertView
unfolding mark_recalled view_alert save alert_by_id modify_alert
handle_recall_alert e w aid id a = elim (alert_by_id a.store.alerts aid) [
  | none ↦ (a, refused 404 (codes "not_found"))
  | some al ↦
      if not (text_eq id.user.role (codes "admin")) && not (text_eq al.sender id.user.username)
      then (a, refused 403 (codes "forbidden"))
      else (
        save w (wake (with_store a (recall_in w.now id.user.username aid al a.store))),
        reply 200 (view_alert e (mark_recalled w.now id.user.username al) w.now false),
      )
]

-- handleGetAlert
unfoldable pub handle_get_alert : Platform → World → Text → App → App × Response AlertView
unfolding alert_by_id view_alert
handle_get_alert e w aid a = elim (alert_by_id a.store.alerts aid) [
  | none ↦ (a, refused 404 (codes "not_found"))
  | some al ↦ (a, reply 200 (view_alert e al w.now true))
]

-- `limit` after the check at the start of `handleListAlerts`
abbrev pub list_limit : ℤ → ℕ
list_limit n = if is_below n 1 || is_above n max_alerts_kept then 100 else pos_part n

-- handleListAlerts: the newest alerts first
unfoldable pub handle_list_alerts : Platform → World → ℤ → App → App × Response (List AlertView)
unfolding view_alert
handle_list_alerts e w n a = (
  a,
  reply 200
      (map (λ al. view_alert e al w.now false) (take (list_limit n) (reverse a.store.alerts))),
)
