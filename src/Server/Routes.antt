-- ===== src/Server/Routes.antt =====
-- `routes` of server/main.go: which handler answers which request, and behind which check. The
-- multiplexer is net/http's: a pattern matches a path of as many segments, `{id}` any one of them
-- that is not empty, and GET stands for HEAD too.
use stem_computing_desktop_p.Prelude.{
  Bool, is_empty, ◌&&◌, ◌||◌, Option, none, some, List, [], ◌∷◌, if◌then◌else◌,
}
use stem_computing_desktop_p.Text.{Text, codes, text_eq}
use stem_computing_desktop_p.Auth.Guard.{Role, self, any, admin}

-- The handlers that the patterns name, by what they do.
pub data Guarded : Type 0 where
  me change_own_password list_alerts send_alert get_alert recall_alert ask_reach list_clients
        list_groups list_templates save_template delete_template forget_client save_group
        delete_group list_users save_user delete_user get_settings save_settings rotate_key
        create_token delete_token :
      Guarded

pub data Endpoint : Type 0 where
  poll login logout health : Endpoint
  guarded : Role → Guarded → Endpoint

pub data Segment : Type 0 where
  lit : Text → Segment
  id : Segment

pub record Pattern : Type 0 where
  pub method : Text
  pub segments : List Segment
  pub endpoint : Endpoint

abbrev api : Text → List Segment → List Segment
api name rest = lit (codes "api") ∷ lit name ∷ rest

abbrev on : Text → List Segment → Endpoint → Pattern
on method segments endpoint = record { method = method; segments = segments; endpoint = endpoint }

abbrev get : Text
get = codes "GET"

abbrev post : Text
post = codes "POST"

abbrev put : Text
put = codes "PUT"

abbrev delete : Text
delete = codes "DELETE"

-- the calls of mux.HandleFunc, in their order
abbrev pub patterns : List Pattern
patterns =
    on post (api (codes "client") (lit (codes "poll") ∷ [])) poll
    ∷ on post (api (codes "login") []) login
    ∷ on post (api (codes "logout") []) logout
    ∷ on get (api (codes "me") []) (guarded self me)
    ∷ on post (api (codes "me") (lit (codes "password") ∷ [])) (guarded self change_own_password)
    ∷ on get (api (codes "alerts") []) (guarded any list_alerts)
    ∷ on post (api (codes "alerts") []) (guarded any send_alert)
    ∷ on get (api (codes "alerts") (id ∷ [])) (guarded any get_alert)
    ∷ on post (api (codes "alerts") (id ∷ lit (codes "recall") ∷ [])) (guarded any recall_alert)
    ∷ on post (api (codes "reach") []) (guarded any ask_reach)
    ∷ on get (api (codes "clients") []) (guarded any list_clients)
    ∷ on get (api (codes "groups") []) (guarded any list_groups)
    ∷ on get (api (codes "templates") []) (guarded any list_templates)
    ∷ on post (api (codes "templates") []) (guarded any save_template)
    ∷ on delete (api (codes "templates") (id ∷ [])) (guarded any delete_template)
    ∷ on delete (api (codes "clients") (id ∷ [])) (guarded admin forget_client)
    ∷ on post (api (codes "groups") []) (guarded admin save_group)
    ∷ on put (api (codes "groups") (id ∷ [])) (guarded admin save_group)
    ∷ on delete (api (codes "groups") (id ∷ [])) (guarded admin delete_group)
    ∷ on get (api (codes "users") []) (guarded admin list_users)
    ∷ on post (api (codes "users") []) (guarded admin save_user)
    ∷ on put (api (codes "users") (id ∷ [])) (guarded admin save_user)
    ∷ on delete (api (codes "users") (id ∷ [])) (guarded admin delete_user)
    ∷ on get (api (codes "settings") []) (guarded admin get_settings)
    ∷ on put (api (codes "settings") []) (guarded admin save_settings)
    ∷ on post (api (codes "settings") (lit (codes "rotate-client-key") ∷ []))
        (guarded admin rotate_key)
    ∷ on post (api (codes "tokens") []) (guarded admin create_token)
    ∷ on delete (api (codes "tokens") (id ∷ [])) (guarded admin delete_token)
    ∷ on get (lit (codes "healthz") ∷ []) health
    ∷ []

-- The segment that `{id}` stands for, which is not empty, or an empty text where the pattern has no `{id}`;
-- none if the path does not match.
unfoldable pub path_value : List Segment → List Text → Option Text
path_value [] [] = some []
path_value (lit t ∷ segments) (s ∷ path) =
    let rest = path_value segments path in if text_eq t s then rest else none
path_value (id ∷ segments) (s ∷ path) = elim (path_value segments path) [
  | none ↦ none
  | some _ ↦ if is_empty s then none else some s
]
path_value _ _ = none

abbrev pub allows : Text → Text → Bool
allows pattern method =
    text_eq pattern method || text_eq pattern get && text_eq method (codes "HEAD")

-- The endpoint of the first pattern that fits, and the path's id.
unfoldable pub route : List Pattern → Text → List Text → Option (Endpoint × Text)
unfolding path_value
route [] method path = none
route (p ∷ ps) method path = elim (path_value p.segments path) [
  | none ↦ route ps method path
  | some v ↦
      let rest = route ps method path in
      if allows p.method method then some (p.endpoint, v) else rest
]
