-- ===== src/Console/Alerts/Sent.antt =====
-- What becomes of an alert once `handleSendAlert` has answered.
use stem_computing_desktop_p.Prelude.{
  ℕ, zero, suc, ◌+◌, ◌-◌, ◌≤◌, ◌≡◌, refl, ap, true, Option, some, List, [], ◌∷◌, ◌++◌, arith, any,
  map, filter, drop, length, get_elem?,
}
use stem_computing_desktop_p.Text.{Text, text_eq}
use stem_computing_desktop_p.Text.Equality.{text_eq_refl}
use stem_computing_desktop_p.Dict.{lookup}
use stem_computing_desktop_p.Platform.{Platform}
use stem_computing_desktop_p.Model.{Time, AlertSpec, Alert, ClientInfo, User, Group}
use stem_computing_desktop_p.Match.{alert_matches}
use stem_computing_desktop_p.Store.{active, status, compact, newest_alerts, max_alerts_kept}
use stem_computing_desktop_p.Store.Compact.{compact-active}
use stem_computing_desktop_p.Store.Flush.{collect, flush}
use stem_computing_desktop_p.Delivery.{WireAlert}
use stem_computing_desktop_p.Delivery.Report.{delivery_of}
use stem_computing_desktop_p.Delivery.Pending.{wire, pending_for}
use stem_computing_desktop_p.Delivery.Resend.{is_due, pending_for-reply}
use stem_computing_desktop_p.App.{App, World, Identity, reply, save, wake, with_store}
use stem_computing_desktop_p.Console.Alerts.{check_send, new_alert, add_alert, handle_send_alert}

get_elem?-end :
    {A : Type 0} (i : ℕ) (xs : List A) (x : A) → i ≡ length xs → get_elem? (xs ++ x ∷ []) i ≡ some x
get_elem?-end zero [] x h = refl
get_elem?-end zero (y ∷ xs) x h = ground arith
get_elem?-end (suc i) [] x h = ground arith
get_elem?-end (suc i) (y ∷ xs) x h = get_elem?-end i xs x (omega arith)

get_elem?-drop_end :
    {A : Type 0} (i k : ℕ) (xs : List A) (x : A)
    → i + k ≡ length xs
    → get_elem? (drop k (xs ++ x ∷ [])) i ≡ some x
get_elem?-drop_end i zero xs x h = get_elem?-end i xs x (omega arith)
get_elem?-drop_end i (suc k) [] x h = ground arith
get_elem?-drop_end i (suc k) (y ∷ xs) x h = get_elem?-drop_end i k xs x (omega arith)

length-snoc : {A : Type 0} (xs : List A) (x : A) → length (xs ++ x ∷ []) ≡ suc (length xs)
length-snoc [] x = refl
length-snoc (y ∷ xs) x = ap suc (length-snoc xs x)

save-alerts :
    (w : World) (a : App)
    → a.store.dirty_alerts ≡ true
    → (save w a).store.alerts ≡ (compact w.now a.store).alerts
unfolding save flush collect
save-alerts w a h = ground (arith, h)

new_alert-active :
    (w : World) (u : User) (groups : List Group) (spec : AlertSpec)
    → status (new_alert w u groups spec) w.now ≡ active
unfolding new_alert status
new_alert-active w u groups spec = ground arith

new_alert-id :
    (w : World) (u : User) (groups : List Group) (spec : AlertSpec)
    → (new_alert w u groups spec).id ≡ w.new_id
unfolding new_alert
new_alert-id w u groups spec = refl

save-wakes : (w : World) (a : App) → (save w a).wakes ≡ a.wakes
unfolding save
save-wakes w a = refl

new_alert-is_due :
    (e : Platform) (w : World) (u : User) (groups : List Group) (spec : AlertSpec) (c : ClientInfo)
    (later : Time)
    → alert_matches e (new_alert w u groups spec) c ≡ true
    → later ≤ (new_alert w u groups spec).expires_at
    → is_due e c later (new_alert w u groups spec) ≡ true
unfolding new_alert delivery_of lookup
new_alert-is_due e w u groups spec c later h l = ground (arith, h)

-- An alert that is due is in the answer.
any-is_due :
    (e : Platform) (c : ClientInfo) (now : Time) (org id : Text) (alerts : List Alert) (i : ℕ)
    (a : Alert)
    → get_elem? alerts i ≡ some a
    → is_due e c now a ≡ true
    → a.id ≡ id
    → any (λ (x : WireAlert). text_eq x.id id) (map (wire org) (filter (is_due e c now) alerts))
      ≡ true
any-is_due e c now org id [] i a f d k = cc
any-is_due e c now org id (b ∷ alerts) zero a f d k = ground (arith, d, k, text_eq_refl id)
any-is_due e c now org id (b ∷ alerts) (suc i) a f d k =
    ground (arith, any-is_due e c now org id alerts i a f d k)

-- The new alert stands last among the newest ones.
newest-new :
    (alerts : List Alert) (al : Alert)
    → get_elem?
        (newest_alerts (alerts ++ al ∷ []))
        (length alerts - (suc (length alerts) - max_alerts_kept))
      ≡ some al
newest-new alerts al =
    let k = suc (length alerts) - max_alerts_kept in
    rw (length-snoc alerts al) (get_elem?-drop_end (length alerts - k) k alerts al (omega arith))

-- An alert that `handleSendAlert` accepts goes to every computer that it matches and that asks before
-- it expires, at once and whatever the save has cut from the history, and it has woken the polls
-- that were waiting.
pub handle_send_alert-pending_for :
    (e : Platform) (w : World) (body : Option AlertSpec) (id : Identity) (a : App) (n : ℕ)
    (spec : AlertSpec) (c : ClientInfo) (later : Time)
    → check_send e id body a.store ≡ reply n spec
    → alert_matches e (new_alert w id.user a.store.state.groups spec) c ≡ true
    → later ≤ (new_alert w id.user a.store.state.groups spec).expires_at
    → let b = (handle_send_alert e w body id a).0 in
      (any (λ (x : WireAlert). text_eq x.id w.new_id) (pending_for e c later b.store).1.alerts
        ≡ true)
      × (b.wakes ≡ suc a.wakes)
unfolding handle_send_alert
handle_send_alert-pending_for e w body id a n spec c later k m l =
    let al = new_alert w id.user a.store.state.groups spec in
    let b = wake (with_store a (add_alert al a.store)) in
    let i = length a.store.alerts - (suc (length a.store.alerts) - max_alerts_kept) in
    let at_end =
      compact-active w.now b.store i al (newest-new a.store.alerts al)
        (new_alert-active w id.user a.store.state.groups spec) in
    rw (k, handle_send_alert)
      (
        rw (pending_for-reply e c later (save w b).store).0 (
            any-is_due e c later (save w b).store.state.settings.org_name w.new_id
              (save w b).store.alerts i al (rw (save-alerts w b refl) at_end)
              (new_alert-is_due e w id.user a.store.state.groups spec c later m l)
              (new_alert-id w id.user a.store.state.groups spec)),
        save-wakes w b,
      )
