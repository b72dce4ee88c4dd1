-- ===== src/Server/Traffic/Woken.antt =====
-- Whatever brings a new alert or a new recall wakes the polls that are held.
use stem_computing_desktop_p.Prelude.{
  ◌≡◌, ◌≤◌, ◌<◌, refl, ap, ◌⊎◌, inl, inr, Bool, true, not, ◌&&◌, ◌||◌, Option, none, some, List, [],
  ◌∷◌, arith, any, is_none, is_some, get_elem?, suc, Option-cases, Bool-cases, if_cases,
}
use stem_computing_desktop_p.Text.{Text, text_eq, codes}
use stem_computing_desktop_p.Text.Equality.{text_eq_refl}
use stem_computing_desktop_p.Platform.{Platform}
use stem_computing_desktop_p.Dict.{delete}
use stem_computing_desktop_p.Model.{Time, Alert, AlertSpec, Delivery}
use stem_computing_desktop_p.Store.{alert_by_id, archive}
use stem_computing_desktop_p.Delivery.Report.{set_delivery}
use stem_computing_desktop_p.Delivery.Slot.{set_delivery-id}
use stem_computing_desktop_p.App.{
  App, World, Request, Identity, Response, refused, reply, save, wake, with_store,
}
use stem_computing_desktop_p.Poll.{
  PollRequest, Held, start_poll, look, finish_poll, open_poll, end_hold,
}
use stem_computing_desktop_p.Console.Alerts.{
  recall_in, new_alert, add_alert, handle_send_alert, handle_recall_alert, check_send,
}
use stem_computing_desktop_p.Console.Computers.{handle_forget_client}
use stem_computing_desktop_p.History.{All, Lasting, modify_client-alerts}
use stem_computing_desktop_p.History.Kept.{flush-All, start_poll-All, look-All}
use stem_computing_desktop_p.Server.Traffic.{
  Step, polled, looked, finished, sends, recalls, forgets, saves, notes, Reach, here, next,
}

-- The list has an alert of this id, and it is recalled there if this one is.
abbrev pub is_known : List Alert → Alert → Bool
is_known alerts x =
    any (λ y. text_eq y.id x.id && (is_none x.recalled_at || is_some y.recalled_at)) alerts

abbrev pub Known : List Alert → Alert → Type 0
Known alerts x = is_known alerts x ≡ true

set_delivery-recalled_at :
    (cid : Text) (d : Delivery) (a : Alert) → (set_delivery cid d a).recalled_at ≡ a.recalled_at
unfolding set_delivery
set_delivery-recalled_at cid d a = ground arith

set_delivery-Known :
    (alerts : List Alert) (cid : Text) (d : Delivery) (a : Alert)
    → Known alerts a
    → Known alerts (set_delivery cid d a)
set_delivery-Known alerts cid d a h =
    rw (set_delivery-id cid d a, set_delivery-recalled_at cid d a) h

archive-Known :
    (alerts : List Alert) (a : Alert) (now : Time) → Known alerts a → Known alerts (archive now a)
unfolding archive
archive-Known alerts a now h = if_cases (Known alerts) _ _ _ (λ _. h) (λ _. h)

Known-Lasting : (alerts : List Alert) → Lasting (Known alerts)
Known-Lasting alerts = record {
  reported = λ a cid ev now d e h. set_delivery-Known alerts cid _ a h;
  sent = λ a c now h. set_delivery-Known alerts c.id _ a h;
  told = λ a cid d e h. set_delivery-Known alerts cid _ a h;
  archived = λ a now h. archive-Known alerts a now h;
}

Known-more :
    (a : Alert) (alerts xs : List Alert) → All (Known alerts) xs → All (Known (a ∷ alerts)) xs
Known-more a alerts [] h = tt
Known-more a alerts (x ∷ xs) h = (ground (arith, h.0), Known-more a alerts xs h.1)

Known-self : (alerts : List Alert) → All (Known alerts) alerts
Known-self [] = tt
Known-self (a ∷ alerts) =
    (ground (arith, text_eq_refl a.id), Known-more a alerts alerts (Known-self alerts))

-- The polls have been woken, or every alert and every recall is one of these.
abbrev Tells : List Alert → App → App → Type 0
Tells alerts a b = (a.wakes < b.wakes) ⊎ All (Known alerts) b.store.alerts

save-wakes : (w : World) (a : App) → (save w a).wakes ≡ a.wakes
unfolding save
save-wakes w a = refl

start_poll-wakes :
    (e : Platform) (w : World) (r : Request) (body : Option PollRequest) (a : App)
    → (start_poll e w r body a).0.wakes ≡ a.wakes
unfolding start_poll open_poll
start_poll-wakes e w r none a = refl
start_poll-wakes e w r (some req) a = ground arith

look-wakes : (e : Platform) (now : Time) (k : Held) (a : App) → (look e now k a).0.wakes ≡ a.wakes
unfolding look
look-wakes e now k a = elim (Option-cases (get_elem? a.store.heap k.pointer)) [
  | inl n ↦ rw (n, look) refl
  | inr (c, f) ↦ rw (f, look) refl
]

-- A request that is refused changes nothing, and one that is not wakes the polls.
WakesIf : App → App → Type 0
WakesIf a b = (b ≡ a) ⊎ (b.wakes ≡ suc a.wakes)

handle_send_alert-wakes :
    (e : Platform) (w : World) (body : Option AlertSpec) (id : Identity) (a : App)
    → WakesIf a (handle_send_alert e w body id a).0
unfolding handle_send_alert WakesIf
handle_send_alert-wakes e w body id a = sent_or_not (check_send e id body a.store) refl
  where
    sent_or_not :
        (r : Response AlertSpec)
        → check_send e id body a.store ≡ r
        → WakesIf a (handle_send_alert e w body id a).0
    sent_or_not (refused status code) k = rw (k, handle_send_alert) (inl refl)
    sent_or_not (reply status spec) k =
        rw (k, handle_send_alert)
          (inr (
            save-wakes w (
              wake (
                with_store a (add_alert (new_alert w id.user a.store.state.groups spec) a.store)))))

handle_recall_alert-wakes :
    (e : Platform) (w : World) (aid : Text) (id : Identity) (a : App)
    → WakesIf a (handle_recall_alert e w aid id a).0
unfolding handle_recall_alert WakesIf
handle_recall_alert-wakes e w aid id a = elim (Option-cases (alert_by_id a.store.alerts aid)) [
  | inl n ↦ rw (n, handle_recall_alert) (inl refl)
  | inr (al, k) ↦
      elim (Bool-cases
        (not (text_eq id.user.role (codes "admin")) && not (text_eq al.sender id.user.username))) [
          | inl t ↦ rw (k, t, handle_recall_alert) (inl refl)
          | inr t ↦
              rw (k, t, handle_recall_alert)
                (inr (
                  save-wakes w
                    (wake (with_store a (recall_in w.now id.user.username aid al a.store)))))
        ]
]

-- A step from `a` to `b`.
pub record Wakes (alerts : List Alert) (a b : App) : Type 0 where
  pub later : a.wakes ≤ b.wakes
  pub tells : All (Known alerts) a.store.alerts → Tells alerts a b

same-Wakes :
    (alerts : List Alert) {a b : App}
    → b.wakes ≡ a.wakes
    → (All (Known alerts) a.store.alerts → All (Known alerts) b.store.alerts)
    → Wakes alerts a b
same-Wakes alerts e k = record { later = omega (arith, e); tells = λ h. inr (k h) }

WakesIf-Wakes : (alerts : List Alert) (a b : App) → WakesIf a b → Wakes alerts a b
unfolding WakesIf
WakesIf-Wakes alerts a b (inl same) =
    same-Wakes alerts (ap (λ (x : App). x.wakes) same) (λ h. rw same h)
WakesIf-Wakes alerts a b (inr more) = record {
  later = omega (arith, more);
  tells = λ h. inl (omega (arith, more));
}

pub Step-Wakes :
    (alerts : List Alert) {e : Platform} {Fresh : World → Type 0} {a b : App}
    → Step e Fresh a b
    → Wakes alerts a b
unfolding finish_poll handle_forget_client
Step-Wakes alerts {e = e} (polled w r body a) =
    same-Wakes alerts (start_poll-wakes e w r body a)
      (λ h. start_poll-All (Known alerts) (Known-Lasting alerts) e w r body a h)
Step-Wakes alerts {e = e} (looked now k a) =
    same-Wakes alerts (look-wakes e now k a)
      (λ h. look-All (Known alerts) (Known-Lasting alerts) e now k a h)
Step-Wakes alerts (finished now k a) =
    same-Wakes alerts refl (λ h. rw (modify_client-alerts (end_hold now) k.pointer a.store) h)
Step-Wakes alerts {e = e} (sends w body id a f) =
    WakesIf-Wakes alerts a _ (handle_send_alert-wakes e w body id a)
Step-Wakes alerts {e = e} (recalls w aid id a f) =
    WakesIf-Wakes alerts a _ (handle_recall_alert-wakes e w aid id a)
Step-Wakes alerts (forgets w cid a f) =
    let b =
      with_store a
        (record a.store { clients = delete cid a.store.clients; dirty_clients = true }) in
    same-Wakes alerts (save-wakes w b) (λ h. flush-All (Known alerts) (Known-Lasting alerts) w b h)
Step-Wakes alerts (saves w a f) =
    same-Wakes alerts (save-wakes w a) (λ h. flush-All (Known alerts) (Known-Lasting alerts) w a h)
Step-Wakes alerts (notes n) = record { later = n.wakes; tells = λ h. inr (rw n.alerts h) }

-- Unless the polls have been woken since, whatever the memory holds of alerts and recalls it held before.
pub Reach-woken :
    {e : Platform} {Fresh : World → Type 0} {a b : App}
    → Reach e Fresh a b
    → (a.wakes ≤ b.wakes) × Tells a.store.alerts a b
Reach-woken {a = a} here = (omega arith, inr (Known-self a.store.alerts))
Reach-woken {a = a} (next r st) =
    let (before, h) = Reach-woken r in
    let s = Step-Wakes a.store.alerts st in
    let after = s.later in
    (
      omega (arith, before, after),
      elim h [
        | inl woken ↦ inl (omega (arith, woken, after))
        | inr known ↦ elim (s.tells known) [
          | inl woken ↦ inl (omega (arith, before, woken))
          | inr kept ↦ inr kept
        ]
      ],
    )
