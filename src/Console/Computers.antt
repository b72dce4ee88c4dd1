-- ===== src/Console/Computers.antt =====
-- The computers: `handleListClients` and `handleForgetClient`.
use stem_computing_desktop_p.Prelude.{Bool, true, not, ◌&&◌, ◌||◌, List, if◌then◌else◌, map}
use stem_computing_desktop_p.Text.{Text, to_lower}
use stem_computing_desktop_p.Dict.{delete}
use stem_computing_desktop_p.Platform.{Platform}
use stem_computing_desktop_p.Model.{ClientInfo}
use stem_computing_desktop_p.Store.{online, live_clients}
use stem_computing_desktop_p.Store.Flush.{sort, text_lt}
use stem_computing_desktop_p.App.{App, World, Response, reply, save, with_store}

-- clientView
pub record ClientView : Type 0 where
  pub client : ClientInfo
  pub online : Bool

-- those that are on first, and each part by name
unfoldable pub comes_first : Platform → ClientView → ClientView → Bool
unfolding text_lt
comes_first e c d =
    if c.online && not d.online || not c.online && d.online
    then c.online
    else text_lt (to_lower e.unicode c.client.hostname) (to_lower e.unicode d.client.hostname)

-- handleListClients
unfoldable pub handle_list_clients : Platform → World → App → App × Response (List ClientView)
unfolding comes_first online live_clients sort
handle_list_clients e w a = (
  a,
  reply 200 (
      sort (comes_first e) (
        map (λ c. record { client = c; online = online c w.now })
          (live_clients a.store.clients a.store.heap))),
)

-- handleForgetClient
unfoldable pub handle_forget_client : World → Text → App → App × Response Bool
unfolding save
handle_forget_client w id a = (
  save w
      (with_store a (record a.store { clients = delete id a.store.clients; dirty_clients = true })),
  reply 200 true,
)
