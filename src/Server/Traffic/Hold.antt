-- ===== src/Server/Traffic/Hold.antt =====
-- The loop of `handlePoll` of server/api_client.go, step by step, among the steps of other requests. What
-- it selects from is a step each: the channel, the timer and the end of the request. `handleSendAlert` and
-- `handleRecallAlert` are in steps too: they let the lock go before they wake the hub, and then save.
use stem_computing_desktop_p.Prelude.{
  ℕ, suc, false, not, ◌&&◌, ◌≡◌, refl, ◌≤◌, ◌<◌, ◌⊎◌, inl, inr, true, Option, none, some, arith,
  Option-cases,
}
use stem_computing_desktop_p.Platform.{Platform}
use stem_computing_desktop_p.Text.{Text, text_eq, codes}
use stem_computing_desktop_p.Model.{Time, Alert, AlertSpec}
use stem_computing_desktop_p.Store.{alert_by_id}
use stem_computing_desktop_p.App.{App, World, Identity, reply, wake, with_store}
use stem_computing_desktop_p.Poll.{PollResponse, Held, take_channel, look, timed_out, finish_poll}
use stem_computing_desktop_p.Poll.Hub.{is_closed, hub_after, hub_after-closed}
use stem_computing_desktop_p.Console.Alerts.{recall_in, new_alert, add_alert, check_send}
use stem_computing_desktop_p.History.{All}
use stem_computing_desktop_p.Server.Traffic
use stem_computing_desktop_p.Server.Traffic.{looked}
use stem_computing_desktop_p.Server.Traffic.Woken.{Known, Reach-woken, Step-Wakes}

-- Where a poll is: at the top of the loop, with the channel in hand, in the select, or with an answer; it
-- has gone when its client has given up, and has ended when the deferred function has run. A poll in the
-- select keeps, for what is proved of it, what it has looked at and when.
pub data Phase : Type 0 where
  ready looking gone : Held → Phase
  waiting : Held → App → Time → Phase
  answered : Held → PollResponse → Phase
  ended : Phase

-- what follows a look
abbrev pub after_look : Held → App → Time → Option PollResponse → Phase
after_look k a now none = waiting k a now
after_look k a now (some r) = answered k r

-- The server, and how many handlers have changed an alert and let the lock go, but not yet woken the hub.
pub record Server : Type 0 where
  pub app : App
  pub owed : ℕ

pub data Step (e : Platform) (Fresh : World → Type 0)
    : Server → Phase → Server → Phase → Type 0 where
  takes : (k : Held) (s : Server) → Step e Fresh s (ready k) s (looking (take_channel k s.app))
  looks :
      (now : Time) (k : Held) (s : Server)
      → Step e Fresh s
          (looking k)
          (record s { app = (look e now k s.app).0 })
          (after_look k s.app now (look e now k s.app).1)
  woken :
      (k : Held) (o : App) (now : Time) (s : Server)
      → is_closed k.seen (hub_after s.app.wakes) ≡ true
      → Step e Fresh s (waiting k o now) s (ready k)
  expired :
      (k : Held) (o : App) (now : Time) (s : Server)
      → Step e Fresh s (waiting k o now) s (answered k timed_out)
  leaves :
      (k : Held) (o : App) (now : Time) (s : Server) → Step e Fresh s (waiting k o now) s (gone k)
  ends :
      (now : Time) (k : Held) (r : PollResponse) (s : Server)
      → Step e Fresh s (answered k r) (record s { app = finish_poll now k s.app }) ended
  left :
      (now : Time) (k : Held) (s : Server)
      → Step e Fresh s (gone k) (record s { app = finish_poll now k s.app }) ended
  -- handleSendAlert, while it holds the lock
  adds :
      (p : Phase) (w : World) (body : Option AlertSpec) (id : Identity) (status : ℕ)
      (spec : AlertSpec) (s : Server)
      → check_send e id body s.app.store ≡ reply status spec
      → Step e Fresh s p
          (record {
            app =
                with_store s.app
                  (add_alert (new_alert w id.user s.app.store.state.groups spec) s.app.store);
            owed = suc s.owed;
          })
          p
  -- handleRecallAlert, while it holds the lock
  marks :
      (p : Phase) (w : World) (aid : Text) (id : Identity) (al : Alert) (s : Server)
      → alert_by_id s.app.store.alerts aid ≡ some al
      → not (text_eq id.user.role (codes "admin")) && not (text_eq al.sender id.user.username)
        ≡ false
      → Step e Fresh s p
          (record {
            app = with_store s.app (recall_in w.now id.user.username aid al s.app.store);
            owed = suc s.owed;
          })
          p
  -- the wake of one of them
  wakes :
      (p : Phase) (a : App) (n : ℕ)
      → Step e Fresh (record { app = a; owed = suc n }) p (record { app = wake a; owed = n }) p
  -- what else the server does, their saving too
  others :
      (p : Phase) (n : ℕ) {a b : App}
      → Traffic.Step e Fresh a b
      → Step e Fresh (record { app = a; owed = n }) p (record { app = b; owed = n }) p

pub data Reach (e : Platform) (Fresh : World → Type 0) (s : Server) (p : Phase)
    : Server → Phase → Type 0 where
  here : Reach e Fresh s p s p
  next :
      {t u : Server} {q r : Phase}
      → Reach e Fresh s p t q
      → Step e Fresh t q u r
      → Reach e Fresh s p u r

-- The poll has found nothing to say in `o`, and every alert and recall that `b` holds was there.
abbrev pub Idle : Platform → Held → App → Time → App → Type 0
Idle e k o now b = ((look e now k o).1 ≡ none) × All (Known o.store.alerts) b.store.alerts

Attends : Platform → Phase → Server → Type 0
Attends e (ready k) s = Unit
Attends e (looking k) s = k.seen ≤ s.app.wakes
Attends e (waiting k o now) s =
    (k.seen ≤ s.app.wakes) × ((k.seen < s.app.wakes) ⊎ (0 < s.owed) ⊎ Idle e k o now s.app)
Attends e (gone k) s = Unit
Attends e (answered k r) s = Unit
Attends e ended s = Unit

-- A look that says nothing leaves the poll idle.
look-Attends :
    (e : Platform) (now : Time) (k : Held) (s : Server)
    → k.seen ≤ s.app.wakes
    → Attends e
        (after_look k s.app now (look e now k s.app).1)
        (record s { app = (look e now k s.app).0 })
unfolding Attends
look-Attends e now k s h =
    let a = s.app in
    let (later, tells) =
      Reach-woken {e = e} {Fresh = λ w. Unit {0}} (Traffic.next Traffic.here (looked now k a)) in
    elim (Option-cases (look e now k a).1) [
      | inl n ↦ rw (n) (
        omega (arith, h, later),
        elim tells [ inl more ↦ inl (omega (arith, h, more)) | inr known ↦ inr (inr (n, known)) ],
      )
      | inr (r, f) ↦ rw (f) tt
    ]

others-Attends :
    (e : Platform) {Fresh : World → Type 0} (p : Phase) (n : ℕ) {a b : App}
    → Traffic.Step e Fresh a b
    → Attends e p (record { app = a; owed = n })
    → Attends e p (record { app = b; owed = n })
unfolding Attends
others-Attends e (ready k) n st h = tt
others-Attends e (looking k) n {a = a} st h =
    let later = (Step-Wakes a.store.alerts st).later in omega (arith, h, later)
others-Attends e (waiting k o now) n st (at, why) =
    let s = Step-Wakes o.store.alerts st in
    let later = s.later in
    (
      omega (arith, at, later),
      elim why [
        | inl more ↦ inl (omega (arith, more, later))
        | inr (inl due) ↦ inr (inl due)
        | inr (inr (silent, known)) ↦ elim (s.tells known) [
          | inl more ↦ inl (omega (arith, at, more))
          | inr kept ↦ inr (inr (silent, kept))
        ]
      ],
    )
others-Attends e (gone k) n st h = tt
others-Attends e (answered k r) n st h = tt
others-Attends e ended n st h = tt

-- A handler that has changed an alert owes a wake.
owed-Attends :
    (e : Platform) (p : Phase) (a b : App) (n : ℕ)
    → b.wakes ≡ a.wakes
    → Attends e p (record { app = a; owed = n })
    → Attends e p (record { app = b; owed = suc n })
unfolding Attends
owed-Attends e (ready k) a b n same h = tt
owed-Attends e (looking k) a b n same h = omega (arith, same, h)
owed-Attends e (waiting k o now) a b n same (at, _) =
    (omega (arith, same, at), inr (inl (omega arith)))
owed-Attends e (gone k) a b n same h = tt
owed-Attends e (answered k r) a b n same h = tt
owed-Attends e ended a b n same h = tt

wake-Attends :
    (e : Platform) (p : Phase) (a : App) (n : ℕ)
    → Attends e p (record { app = a; owed = suc n })
    → Attends e p (record { app = wake a; owed = n })
unfolding Attends
wake-Attends e (ready k) a n h = tt
wake-Attends e (looking k) a n h = omega (arith, h)
wake-Attends e (waiting k o now) a n (at, _) = (omega (arith, at), inl (omega (arith, at)))
wake-Attends e (gone k) a n h = tt
wake-Attends e (answered k r) a n h = tt
wake-Attends e ended a n h = tt

Step-Attends :
    {e : Platform} {Fresh : World → Type 0} {s t : Server} {p q : Phase}
    → Step e Fresh s p t q
    → Attends e p s
    → Attends e q t
unfolding Attends
Step-Attends (takes k s) h = omega arith
Step-Attends {e = e} (looks now k s) h = look-Attends e now k s h
Step-Attends (woken k o now s c) h = tt
Step-Attends (expired k o now s) h = tt
Step-Attends (leaves k o now s) h = tt
Step-Attends (ends now k r s) h = tt
Step-Attends (left now k s) h = tt
Step-Attends {e = e} (adds p w body id status spec s c) h = owed-Attends e p s.app _ s.owed refl h
Step-Attends {e = e} (marks p w aid id al s f c) h = owed-Attends e p s.app _ s.owed refl h
Step-Attends {e = e} (wakes p a n) h = wake-Attends e p a n h
Step-Attends {e = e} (others p n st) h = others-Attends e p n st h

Reach-Attends :
    {e : Platform} {Fresh : World → Type 0} {s : Server} {p : Phase} {t : Server} {q : Phase}
    → Reach e Fresh s p t q
    → Attends e p s
    → Attends e q t
Reach-Attends here h = h
Reach-Attends (next r st) h = Step-Attends st (Reach-Attends r h)

-- No wake is lost: however the steps of a poll and of other requests follow one another, if the poll waits
-- after a look then its channel is closed, or a handler that has changed an alert has its wake still to
-- come, or the poll found nothing to say in that look, and no alert has been sent and none recalled since.
pub Reach-waiting :
    (e : Platform) (Fresh : World → Type 0) (k k' : Held) (s t : Server) (o : App) (now : Time)
    → Reach e Fresh s (ready k) t (waiting k' o now)
    → (is_closed k'.seen (hub_after t.app.wakes) ≡ true) ⊎ (0 < t.owed) ⊎ Idle e k' o now t.app
unfolding Attends
Reach-waiting e Fresh k k' s t o now r = elim (Reach-Attends r tt).1 [
  | inl more ↦ inl (rw ((hub_after-closed t.app.wakes k'.seen).1) (ground (arith, more)))
  | inr rest ↦ inr rest
]
