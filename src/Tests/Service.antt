-- ===== src/Tests/Service.antt =====
-- The Windows service, the polls that are held and the random texts at concrete inputs.
use stem_computing_desktop_p.Prelude.{
  ℕ, ◌*◌, ◌≡◌, refl, true, none, some, List, [], ◌∷◌, arith, get_elem?, get_or,
}
use stem_computing_desktop_p.Text.{Text, codes, text_eq, clean_text}
use stem_computing_desktop_p.Dict.{lookup, insert}
use stem_computing_desktop_p.Model.{ClientInfo}
use stem_computing_desktop_p.Store.{online, compact}
use stem_computing_desktop_p.Delivery.{client_id_for}
use stem_computing_desktop_p.App.{App}
use stem_computing_desktop_p.Poll.{PollRequest, Held, start_poll}
use stem_computing_desktop_p.Poll.Count.{begins, initial, next, held_at, Reach, Reach-polling}
use stem_computing_desktop_p.Poll.Count.Pointers.{polling_at}
use stem_computing_desktop_p.Poll.Kept.{Reach-online}
use stem_computing_desktop_p.Match.{wildcard_loop}
use stem_computing_desktop_p.Match.Wildcard.Fuel.{Ends, wildcard_loop-Ends}
use stem_computing_desktop_p.Tests.Data.{
  platform, clock, front_desk, store_with, server_with, world, post,
}

wildcard_loop-Ends_example : Ends (wildcard_loop 100 (codes "LAB-*") (codes "LAB-07") none)
wildcard_loop-Ends_example = wildcard_loop-Ends 100 (codes "LAB-*") (codes "LAB-07") (omega arith)

abbrev sixteen : List ℕ
sixteen = codes "0123456789abcdef"

-- a computer that says hello for the first time
abbrev hello : PollRequest
hello = record {
  client = record {
    hostname = codes "LAB-07";
    user = codes "bob";
    domain = [];
    ou = [];
    groups = [];
    version = [];
    os = [];
    sid = codes "s1";
  };
  events = [];
  wait = true;
}

-- a server without computers
abbrev nobody : App
nobody = record (server_with []) { store = record (store_with []) { clients = []; heap = [] } }

abbrev one_poll : App
one_poll = (start_poll platform world post (some hello) nobody).0

abbrev held_poll : Held
held_poll = record { pointer = 0; wait = true; seen = 0 }

-- the server while that poll is held
poll_Reach : Reach (one_poll, held_poll ∷ [])
unfolding start_poll text_eq clean_text lookup
poll_Reach = next (initial {a = nobody} (λ q. refl)) (begins platform world post (some hello))

Reach-polling_example : polling_at one_poll.store.heap 0 ≡ held_at 0 (held_poll ∷ [])
Reach-polling_example = Reach-polling poll_Reach 0

-- the computer that holds it
abbrev lab : ClientInfo
lab = get_or (get_elem? one_poll.store.heap 0) front_desk

abbrev lab_id : Text
lab_id = client_id_for platform (codes "LAB-07") [] (codes "bob")

Reach-online_example :
    (online lab (1_000 * clock) ≡ true)
    × (lookup lab_id (compact (1_000 * clock) one_poll.store).clients ≡ some 0)
unfolding start_poll text_eq clean_text lookup insert
Reach-online_example = Reach-online [] held_poll [] (1_000 * clock) lab_id lab poll_Reach refl refl
