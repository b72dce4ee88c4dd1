-- ===== src/Server/Main.antt =====
-- `runServer` of server/main.go from its first request to its end, event by event: what its goroutines
-- and its selects wait for.
pub mod Reopened
use stem_computing_desktop_p.Prelude.{Bool, List, [], ◌∷◌}
use stem_computing_desktop_p.Platform.{Platform}
use stem_computing_desktop_p.Model.{Time}
use stem_computing_desktop_p.Store.Flush.{File}
use stem_computing_desktop_p.App.{App, World, save}
use stem_computing_desktop_p.Poll.{Held, look, finish_poll}
use stem_computing_desktop_p.Server.Serve.{Json, Call, serve}
use stem_computing_desktop_p.Server.Run.{begin_stop, end_stop}

-- What happens to the store: a request, a round or the end of a poll that is held, and the saver's ticker.
pub data Work : Type 0 where
  request : World → Call → Work
  round : Time → Held → Work
  poll_ends : Time → Held → Work
  tick : World → Work

pub data Event : Type 0 where
  work : Work → Event
  -- srv.Serve returns an error
  serve_fails : Event
  -- the context is cancelled
  cancelled : Event
  -- Shutdown or Close has returned and the saver is done; which files can be written then
  drained : Time → (File → Bool) → Event

pub data Outcome : Type 0 where
  serve_error : Outcome
  -- whether the last flush returns nil
  flushed : Bool → Outcome

pub data Running : Type 0 where
  serving closing : App → Running
  returned : App → Outcome → Running

unfoldable pub do_work : Json → Platform → Work → App → App
unfolding serve look finish_poll save
do_work j e (request w c) a = (serve j e w c a).0
do_work j e (round now k) a = (look e now k a).0
do_work j e (poll_ends now k) a = finish_poll now k a
do_work j e (tick w) a = save w a

-- The saver and the requests that are still open go on while the server closes.
unfoldable pub step : Json → Platform → Event → Running → Running
unfolding do_work end_stop
step j e (work x) (serving a) = serving (do_work j e x a)
step j e (work x) (closing a) = closing (do_work j e x a)
step j e serve_fails (serving a) = returned a serve_error
step j e serve_fails (closing a) = closing a
step j e cancelled (serving a) = closing (begin_stop a)
step j e cancelled (closing a) = closing a
step j e (drained now fails) (serving a) = serving a
step j e (drained now fails) (closing a) =
    let (b, done) = end_stop fails now a in returned b (flushed done)
step j e ev (returned a o) = returned a o

unfoldable pub run : Json → Platform → List Event → Running → Running
unfolding step
run j e [] s = s
run j e (ev ∷ evs) s = run j e evs (step j e ev s)
