-- ===== src/Lib.antt =====
-- Foghorn's notification server (server/): people send alerts from a web console or by an API
-- token, and a client on each computer fetches them by long polling. The model is of the server's
-- own Go code; the desktop client, the console's assets, the install scripts and the vendored
-- golang.org/x/sys are not modelled.
--
-- The parts, each a function on explicit state, named as in the source in snake case:
-- - Prelude (with Tests, Lists, Int): names of the libraries passed on, Boolean tests, lists.
-- - Text: strings as lists of runes, Go's string functions that the server calls, cleanText
--   (server/match.go). Text/Equality, Text/Trim and Text/Clean hold its lemmas.
-- - Platform: what other packages do, as parameters: case tables, addresses, URLs, hashes, base64.
-- - Dict: Go's maps with text keys, as association lists.
-- - Model: the records of server/store.go. Clients live on a heap, since a poll keeps its pointer.
-- - Match (server/match.go): patterns, rules, groups. Match/Glob says what a pattern means.
-- - Store (server/store.go): lookups, totals, compaction; Store/Flush the writing of the three
--   files, Store/Flush/Atomic the calls of the file system as steps that may fail, and what a power cut
--   leaves,
--   Store/Flush/Overlap two calls of flush at once, Store/Files loadJSON and the files as bytes,
--   with encoding/json on them as a parameter, Store/Reopen what openStore makes of them.
-- - Delivery (server/api_client.go): touchClient, with applyEvents in Delivery/Report and
--   pendingFor in Delivery/Pending.
-- - Auth (server/auth.go): Password, Sessions, Throttle, Guard and Random (with newID and
--   randomSecret of server/store.go), each with its laws below it.
-- - App: the state that all handlers share (App of server/main.go), a request, an answer.
-- - Poll (server/api_client.go): the parts of handlePoll: its start, the channel it takes, a look,
--   its end. Poll/Hub is the hub with its channels, Poll/Count and Poll/Kept are about the number
--   of polls that are held for a computer.
-- - Console (server/api_admin.go): Spec (validateSpec), Alerts (with handleReach in Alerts/Probe),
--   Login, Users, Groups, Templates, Settings, Computers: one function per handler, from its checks
--   to its calls of the hub and save; what is proved of a handler stands in modules below its own.
-- - Server (server/main.go, server/service_windows.go, server/service_other.go): Routes and Serve,
--   from a request to its answer (routes), with Serve/Rights, People, Keepers and Accounts, what
--   requests do to the accounts; Answer, the headers and cookies of an answer; Log (setupLogging);
--   Config (loadConfig), Bootstrap (bootstrap) and Run (runServer up to the first request, what it
--   does at its end, resetPassword), with Run/Storing, the requests that change alerts or computers
--   as steps; Main (runServer from the
--   first request to its end, event by event); Command (main, serviceCommand); Service (Execute and
--   the commands, on a service manager that is a parameter).
-- - Server/Traffic: what requests do, in few kinds of step. Traffic/Plain, Handlers, Sessions and
--   Serving take every request through its route and its guard to such steps, Traffic/Synced and
--   Traffic/Kept say what the steps keep of the files and of the alerts, Traffic/Woken when they
--   wake the polls. Traffic/Hold is the loop of handlePoll among the steps of others, with
--   sending and recalling taken apart where they let the lock go;
--   Traffic/Starting takes a start to steps, Traffic/Lifetime is any series of starts, kills, stops
--   and password resets, and Traffic/Durable says what outlasts them.
-- - History: any sequence of requests as a step relation, and what holds in every reachable state;
--   History/Kept is the rule for what no request breaks.
-- - Tests: the theorems at concrete inputs.
--
-- How the parts interact: a handler of Console runs behind Auth/Guard, changes the Store, wakes the
-- polls and saves, which compacts the history and writes the files; a poll changes the Store
-- through Delivery. The code holds one lock around each part that is a function here, so an
-- interleaving of requests is a sequence of steps in History or Server/Traffic. A
-- function here that takes the lock more than once is still one step: flush, which lets it go while
-- it writes the files; handleSendAlert and handleRecallAlert, between the change, the wake and the
-- save; handleSaveUser and handleChangeOwnPassword, which hash a password in between, the latter on
-- the copy of the account that authenticate made; handleLogin, which checks the password without
-- it; and guard, between authenticate and the handler. So what is proved over sequences of steps
-- holds for requests that do not overlap there; in particular save and the ticker are each one
-- whole flush in Server/Traffic and Server/Main. Store/Flush/Overlap takes two calls of flush
-- apart, and Traffic/Hold takes sending and recalling apart.
--
-- Time is a natural number of nanoseconds, and a difference stops at zero, since the server
-- compares it with positive durations only. A handler reads the clock once. Numbers that a request
-- brings are integers within Go's int. Random ids and secrets, the salt of a hash and the files
-- that cannot be written are handed to a request by its World. A map's order is that of its
-- association list, where Go's is arbitrary: it shows in the sample of handleReach, among computers
-- of one name in handleListClients, and among deliveries to computers of one name in viewAlert. The
-- one loop on fuel is that of wildcardMatch: its fuel is (|text| + 1) * (|pattern| + 1) + 1, and it
-- always ends within that. stopAndWait's loop is structural on its forty rounds.
--
-- Not modelled: JSON itself, with the text of a time in it, the limit on a body's size, log lines
-- and the sentences of errors, what is logged and TLS in server/main.go. How long a held poll, the
-- ticker that saves and the shutdown wait is left open: each is an event that may come at any time.
pub mod Prelude
pub mod Text
pub mod Platform
pub mod Dict
pub mod Model
pub mod Match
pub mod Store
pub mod Delivery
pub mod Auth
pub mod App
pub mod Poll
pub mod Console
pub mod Server
pub mod History
pub mod Tests
