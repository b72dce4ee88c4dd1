-- ===== src/Server/Main/Reopened.antt =====
-- From one start of the server to the next.
use stem_computing_desktop_p.Prelude.{
  ◌≡◌, refl, sym, ap, ◌∙◌, true, List, [], ◌∷◌, ◌++◌, map, map_some, arith,
}
use stem_computing_desktop_p.Text.{Text}
use stem_computing_desktop_p.Platform.{Platform}
use stem_computing_desktop_p.Model.{Time}
use stem_computing_desktop_p.Store.Flush.{Disk, flush, collect}
use stem_computing_desktop_p.Store.{compact}
use stem_computing_desktop_p.Store.Flush.Lost.{no_failure}
use stem_computing_desktop_p.Store.Reopen.Clients.{client_at, offline}
use stem_computing_desktop_p.App.{App}
use stem_computing_desktop_p.History.{All}
use stem_computing_desktop_p.Server.Serve.{Json}
use stem_computing_desktop_p.Server.Run
use stem_computing_desktop_p.Server.Run.{Host, opened, start, begin_stop, end_stop}
use stem_computing_desktop_p.Server.Run.Storing.Keys.{Sha1Law}
use stem_computing_desktop_p.Server.Traffic.Serving.{
  Life, started, served, looks, ends, ticks, closes,
}
use stem_computing_desktop_p.Server.Traffic.Lifetime.{Left}
use stem_computing_desktop_p.Server.Traffic.Durable.{Sound, Any, Written, Life-opened}
use stem_computing_desktop_p.Server.Main.{
  Work, request, round, poll_ends, tick, Event, work, cancelled, drained, Outcome, flushed, serving,
  closing, returned, do_work, step, run,
}

-- Where each of them can write its files.
abbrev pub CanWrite : List Work → Type 0
CanWrite [] = Unit
CanWrite (request w c ∷ xs) = Written w × CanWrite xs
CanWrite (tick w ∷ xs) = Written w × CanWrite xs
CanWrite (round now k ∷ xs) = CanWrite xs
CanWrite (poll_ends now k ∷ xs) = CanWrite xs

-- What the work comes to.
unfoldable do_all : Json → Platform → List Work → App → App
unfolding do_work
do_all j e [] a = a
do_all j e (x ∷ xs) a = do_all j e xs (do_work j e x a)

do_all-Life :
    (j : Json) (e : Platform) (xs : List Work) {a b : App}
    → CanWrite xs
    → Life j e Written a b
    → Life j e Written a (do_all j e xs b)
unfolding do_all
do_all-Life j e [] ok l = l
do_all-Life j e (request w c ∷ xs) (f, ok) l = do_all-Life j e xs ok (served w c f l)
do_all-Life j e (round now k ∷ xs) ok l = do_all-Life j e xs ok (looks now k l)
do_all-Life j e (poll_ends now k ∷ xs) ok l = do_all-Life j e xs ok (ends now k l)
do_all-Life j e (tick w ∷ xs) (f, ok) l = do_all-Life j e xs ok (ticks w f l)

run-serving :
    (j : Json) (e : Platform) (xs : List Work) (evs : List Event) (a : App)
    → run j e (map work xs ++ evs) (serving a) ≡ run j e evs (serving (do_all j e xs a))
unfolding do_all run
run-serving j e [] evs a = refl
run-serving j e (x ∷ xs) evs a = run-serving j e xs evs (do_work j e x a)

run-closing :
    (j : Json) (e : Platform) (xs : List Work) (evs : List Event) (a : App)
    → run j e (map work xs ++ evs) (closing a) ≡ run j e evs (closing (do_all j e xs a))
unfolding do_all run
run-closing j e [] evs a = refl
run-closing j e (x ∷ xs) evs a = run-closing j e xs evs (do_work j e x a)

run-returned :
    (j : Json) (e : Platform) (evs : List Event) (a : App) (o : Outcome)
    → run j e evs (returned a o) ≡ returned a o
unfolding run step
run-returned j e [] a o = refl
run-returned j e (ev ∷ evs) a o = run-returned j e evs a o

-- Work until the context is cancelled, work until the requests that are open then have ended, and what
-- may happen after the last flush.
abbrev pub timeline : List Work → List Work → Time → List Event → List Event
timeline xs ys now evs =
    map work xs ++ (cancelled ∷ (map work ys ++ (drained now no_failure ∷ evs)))

-- the server when its last flush begins
abbrev done_by : Json → Platform → List Work → List Work → App → App
done_by j e xs ys a = do_all j e ys (begin_stop (do_all j e xs a))

run-timeline :
    (j : Json) (e : Platform) (xs ys : List Work) (now : Time) (evs : List Event) (a : App)
    → let (b, done) = end_stop no_failure now (done_by j e xs ys a) in
      run j e (timeline xs ys now evs) (serving a) ≡ returned b (flushed done)
unfolding run step
run-timeline j e xs ys now evs a =
    run-serving j e xs (cancelled ∷ (map work ys ++ (drained now no_failure ∷ evs))) a
    ∙ run-closing j e ys (drained now no_failure ∷ evs) (begin_stop (do_all j e xs a))
    ∙ run-returned j e evs _ _

end_stop-state : (now : Time) (a : App) → (end_stop no_failure now a).0.store.state ≡ a.store.state
unfolding end_stop flush collect compact
end_stop-state now a = ground arith

-- Where `runServer` starts on files that any earlier runs have left, does whatever work comes in, one piece
-- after the other, so that each call of `flush` has written its files before the next begins, is
-- cancelled, does the work that is still open, and can write each file in all of this, then it returns
-- without an error, and the next start reads from the files what was in memory at the end: the settings,
-- accounts, tokens, groups and templates, every alert with its deliveries, and every computer under its id,
-- with no poll open. The first of the files is to hold alerts with their deliveries or their totals, not
-- both, and in order; SHA-1 is to give 20 bytes.
pub run-opened :
    (j : Json) (e : Platform) (h : Host) (listen : Text) (disk d : Disk) (a : App)
    (xs ys : List Work) (now : Time) (evs : List Event)
    → Sha1Law e
    → All Sound disk.alerts
    → Left j e Any disk d
    → start e h listen d ≡ Run.serving a
    → h.first_run.fails ≡ no_failure
    → CanWrite xs
    → CanWrite ys
    → (b : App) × (run j e (timeline xs ys now evs) (serving a) ≡ returned b (flushed true))
      × (let s = opened b.disk in
          (s.state ≡ b.store.state)
          × (s.alerts ≡ b.store.alerts)
          × ((id : Text)
              → client_at id s.clients s.heap
                ≡ map_some offline (client_at id b.store.clients b.store.heap)))
run-opened j e h listen disk d a xs ys now evs law sound l k written ok ok' =
    let c = done_by j e xs ys a in
    let life = do_all-Life j e ys ok' (closes (do_all-Life j e xs ok started)) in
    let (done, state, alerts, clients) =
      Life-opened j e h listen now disk d a c law sound l k written life in
    (
      (end_stop no_failure now c).0,
      run-timeline j e xs ys now evs a
          ∙ ap (λ x. returned (end_stop no_failure now c).0 (flushed x)) done,
      (state ∙ sym (end_stop-state now c), alerts, clients),
    )
