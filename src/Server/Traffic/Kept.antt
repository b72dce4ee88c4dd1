-- ===== src/Server/Traffic/Kept.antt =====
-- The steps of the traffic as those that `History` and `Storing` tell apart, and what every step keeps
-- of the alerts, in memory and on the disk alike.
use stem_computing_desktop_p.Prelude.{
  ◌≡◌, refl, ◌⊎◌, inl, inr, Bool, true, not, ◌&&◌, Option, none, some, List, arith, get_elem?,
  Option-cases, Bool-cases,
}
use stem_computing_desktop_p.Text.{Text, text_eq, codes}
use stem_computing_desktop_p.Platform.{Platform}
use stem_computing_desktop_p.Dict.{delete}
use stem_computing_desktop_p.Model.{Time, Alert, AlertSpec, User, Group, Store}
use stem_computing_desktop_p.Store.{alert_by_id}
use stem_computing_desktop_p.Store.Flush.{Disk, File, flush, collect, write_files}
use stem_computing_desktop_p.App.{
  App, World, Request, Identity, Response, refused, reply, save, wake, with_store,
}
use stem_computing_desktop_p.Poll.{PollRequest, Held, start_poll, look, finish_poll, open_poll}
use stem_computing_desktop_p.Console.Alerts.{
  recall_in, new_alert, add_alert, handle_send_alert, handle_recall_alert, check_send,
}
use stem_computing_desktop_p.Console.Computers.{handle_forget_client}
use stem_computing_desktop_p.History
use stem_computing_desktop_p.History.{All, Stable}
use stem_computing_desktop_p.History.Kept.{Step-All, handle_send_alert-All}
use stem_computing_desktop_p.Server.Run.Storing
use stem_computing_desktop_p.Server.Traffic.{
  Step, polled, looked, finished, sends, recalls, forgets, saves, notes, Reach, here, next,
}

module _ {e : Platform} {Fresh : World → Type 0} where
  -- Where History has been to before a step, it gets to after it.
  Step-History :
      {a b c : App} → History.Reach e Fresh a b → Step e Fresh b c → History.Reach e Fresh a c
  unfolding handle_forget_client
  Step-History r (polled w q body b) = History.next r (History.polled w q body b)
  Step-History r (looked now k b) = History.next r (History.looked now k b)
  Step-History r (finished now k b) = History.next r (History.finished now k b)
  Step-History r (sends w body id b f) = History.next r (History.sends w body id b f)
  Step-History r (recalls w aid id b f) = History.next r (History.recalls w aid id b)
  Step-History r (forgets w cid b f) =
      let b' =
        with_store b
          (record b.store { clients = delete cid b.store.clients; dirty_clients = true }) in
      History.next (History.next r (History.elsewhere b b' refl)) (History.saves w b')
  Step-History r (saves w b f) = History.next r (History.saves w b)
  Step-History {b = b} {c = c} r (notes n) = History.next r (History.elsewhere b c n.alerts)

  pub Reach-History : {a b : App} → Reach e Fresh a b → History.Reach e Fresh a b
  Reach-History here = History.here
  Reach-History (next r st) = Step-History (Reach-History r) st

  Step-Storing : {a b : App} → Step e Fresh a b → Storing.Step e a b
  Step-Storing (polled w q body b) = Storing.polled w q body b
  Step-Storing (looked now k b) = Storing.looked now k b
  Step-Storing (finished now k b) = Storing.finished now k b
  Step-Storing (sends w body id b f) = Storing.sends w body id b
  Step-Storing (recalls w aid id b f) = Storing.recalls w aid id b
  Step-Storing (forgets w cid b f) = Storing.forgets w cid b
  Step-Storing (saves w b f) = Storing.saves w b
  Step-Storing {a = a} {b = b} (notes n) = Storing.elsewhere a b n.alerts n.clients n.heap

  pub Reach-Storing : {a b : App} → Reach e Fresh a b → Storing.Reach e a b
  Reach-Storing here = Storing.here
  Reach-Storing (next r st) = Storing.next (Reach-Storing r) (Step-Storing st)

-- The disk has the alerts that it had, or those of the memory.
abbrev OnDisk : Disk → App → Type 0
OnDisk disk b = (b.disk.alerts ≡ disk.alerts) ⊎ (b.disk.alerts ≡ b.store.alerts)

pub flush-OnDisk :
    (fails : File → Bool) (now : Time) (s : Store) (disk : Disk)
    → let (s', disk', _) = flush fails now s disk in
      (disk'.alerts ≡ disk.alerts) ⊎ (disk'.alerts ≡ s'.alerts)
unfolding flush collect write_files
flush-OnDisk fails now s disk = elim (Bool-cases s.dirty_alerts) [
  | inl d ↦ ground (arith, d)
  | inr d ↦ inl (ground (arith, d))
]

save-OnDisk : (w : World) (a : App) → OnDisk a.disk (save w a)
unfolding save
save-OnDisk w a = flush-OnDisk w.fails w.now a.store a.disk

start_poll-OnDisk :
    (e : Platform) (w : World) (r : Request) (body : Option PollRequest) (a : App)
    → (start_poll e w r body a).0.disk ≡ a.disk
unfolding start_poll open_poll
start_poll-OnDisk e w r none a = refl
start_poll-OnDisk e w r (some req) a = ground arith

look-OnDisk : (e : Platform) (now : Time) (k : Held) (a : App) → (look e now k a).0.disk ≡ a.disk
unfolding look
look-OnDisk e now k a = elim (Option-cases (get_elem? a.store.heap k.pointer)) [
  | inl n ↦ rw (n, look) refl
  | inr (c, f) ↦ rw (f, look) refl
]

handle_send_alert-OnDisk :
    (e : Platform) (w : World) (body : Option AlertSpec) (id : Identity) (a : App)
    → OnDisk a.disk (handle_send_alert e w body id a).0
unfolding handle_send_alert
handle_send_alert-OnDisk e w body id a = sent_or_not (check_send e id body a.store) refl
  where
    sent_or_not :
        (r : Response AlertSpec)
        → check_send e id body a.store ≡ r
        → OnDisk a.disk (handle_send_alert e w body id a).0
    sent_or_not (refused status code) k = rw (k, handle_send_alert) (inl refl)
    sent_or_not (reply status spec) k =
        rw (k, handle_send_alert)
          (save-OnDisk w (
            wake
              (with_store a (add_alert (new_alert w id.user a.store.state.groups spec) a.store))))

handle_recall_alert-OnDisk :
    (e : Platform) (w : World) (aid : Text) (id : Identity) (a : App)
    → OnDisk a.disk (handle_recall_alert e w aid id a).0
unfolding handle_recall_alert
handle_recall_alert-OnDisk e w aid id a = elim (Option-cases (alert_by_id a.store.alerts aid)) [
  | inl n ↦ rw (n, handle_recall_alert) (inl refl)
  | inr (al, k) ↦
      elim (Bool-cases
        (not (text_eq id.user.role (codes "admin")) && not (text_eq al.sender id.user.username))) [
          | inl t ↦ rw (k, t, handle_recall_alert) (inl refl)
          | inr t ↦
              rw (k, t, handle_recall_alert)
                (save-OnDisk w
                  (wake (with_store a (recall_in w.now id.user.username aid al a.store))))
        ]
]

Step-OnDisk :
    {e : Platform} {Fresh : World → Type 0} {a b : App} → Step e Fresh a b → OnDisk a.disk b
unfolding finish_poll handle_forget_client
Step-OnDisk {e = e} (polled w r body a) = inl (rw (start_poll-OnDisk e w r body a) refl)
Step-OnDisk {e = e} (looked now k a) = inl (rw (look-OnDisk e now k a) refl)
Step-OnDisk (finished now k a) = inl refl
Step-OnDisk {e = e} (sends w body id a f) = handle_send_alert-OnDisk e w body id a
Step-OnDisk {e = e} (recalls w aid id a f) = handle_recall_alert-OnDisk e w aid id a
Step-OnDisk (forgets w cid a f) =
    save-OnDisk w
      (with_store a (record a.store { clients = delete cid a.store.clients; dirty_clients = true }))
Step-OnDisk (saves w a f) = save-OnDisk w a
Step-OnDisk (notes n) = inl (rw n.disk refl)

-- A property of every alert, in memory and on the disk.
abbrev pub Everywhere : (Alert → Type 0) → App → Type 0
Everywhere P a = All P a.store.alerts × All P a.disk.alerts

-- The new alerts have the property.
abbrev pub Made : (Alert → Type 0) → (World → Type 0) → Type 0
Made P Fresh =
    (w : World) (u : User) (groups : List Group) (spec : AlertSpec)
    → Fresh w
    → P (new_alert w u groups spec)

module _ (P : Alert → Type 0) (stable : Stable P) {e : Platform} {Fresh : World → Type 0}
    (made : Made P Fresh) where
  History-All :
      {a b : App} → History.Reach e Fresh a b → All P a.store.alerts → All P b.store.alerts
  History-All History.here h = h
  History-All (History.next r st) h =
      Step-All P stable
        (λ w body id a f k.
          handle_send_alert-All P stable.lasting e w body id a
            (λ spec. made w id.user a.store.state.groups spec f) k)
        st (History-All r h)

  pub Reach-Everywhere : {a b : App} → Reach e Fresh a b → Everywhere P a → Everywhere P b
  Reach-Everywhere here h = h
  Reach-Everywhere (next r st) h =
      let (memory, disk) = Reach-Everywhere r h in
      let memory' = History-All (Step-History History.here st) memory in
      (memory', elim (Step-OnDisk st) [ inl same ↦ rw same disk | inr same ↦ rw same memory' ])
