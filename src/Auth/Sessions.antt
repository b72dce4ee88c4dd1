-- ===== src/Auth/Sessions.antt =====
-- The session store of server/auth.go. The clock and the random id are arguments.
pub mod Laws
use stem_computing_desktop_p.Prelude.{ℕ, ◌+◌, ◌*◌, Bool, Option, none, some, ltb, if◌then◌else◌}
use stem_computing_desktop_p.Text.{Text, text_eq}
use stem_computing_desktop_p.Dict
use stem_computing_desktop_p.Dict.{Dict}
use stem_computing_desktop_p.Model.{Time, hour}

abbrev pub session_lifetime : ℕ
session_lifetime = 12 * hour

pub record Session : Type 0 where
  pub user_id : Text
  pub expires : Time

abbrev pub Sessions : Type 0
Sessions = Dict Session

-- create: expired sessions go, and the new one is stored
unfoldable pub create : Text → Text → Time → Sessions → Sessions
create id user_id now m =
    Dict.insert id (record { user_id = user_id; expires = now + session_lifetime })
      (Dict.delete_if (λ (v : Session). ltb v.expires now) m)

-- lookup: a session that is missing or has expired is deleted
unfoldable pub lookup : Text → Time → Sessions → Sessions × Option Text
lookup id now m = elim (Dict.lookup id m) [
  | none ↦ (Dict.delete id m, none)
  | some v ↦ if ltb v.expires now then (Dict.delete id m, none) else (m, some v.user_id)
]

-- drop
unfoldable pub drop : Text → Sessions → Sessions
drop id m = Dict.delete id m

-- dropUser
unfoldable pub drop_user : Text → Sessions → Sessions
drop_user user_id m = Dict.delete_if (λ (v : Session). text_eq v.user_id user_id) m
