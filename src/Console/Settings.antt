-- ===== src/Console/Settings.antt =====
-- The settings, the key of the clients, and the API tokens.
pub mod Tokens
use stem_computing_desktop_p.Prelude.{
  ℕ, Bool, true, false, not, Option, none, some, List, [], ◌∷◌, ◌++◌, if◌then◌else◌, filter,
  is_empty, map,
}
use stem_computing_desktop_p.Text.{Text, codes, text_eq, clean_text}
use stem_computing_desktop_p.Platform.{Platform}
use stem_computing_desktop_p.Model.{Time, Token, Settings, State}
use stem_computing_desktop_p.Auth.Guard.{hash_token}
use stem_computing_desktop_p.App.{App, World, Identity, Response, refused, reply, save, with_state}

-- a token without its hash
pub record TokenView : Type 0 where
  pub id : Text
  pub name : Text
  pub created_by : Text
  pub created_at : Time
  pub last_used : Time

-- the answer of `handleGetSettings`, but for the version and the directory of the data
pub record SettingsView : Type 0 where
  pub org_name : Text
  pub client_key : Text
  pub tokens : List TokenView
  pub https : Bool

abbrev pub view_token : Token → TokenView
view_token t = record {
  id = t.id;
  name = t.name;
  created_by = t.created_by;
  created_at = t.created_at;
  last_used = t.last_used;
}

-- handleGetSettings
unfoldable pub handle_get_settings : App → App × Response SettingsView
handle_get_settings a =
    let st = a.store.state in
    (
      a,
      reply 200 (record {
        org_name = st.settings.org_name;
        client_key = st.settings.client_key;
        tokens = map view_token st.tokens;
        https = not (is_empty a.cfg.tls_cert);
      }),
    )

abbrev pub with_settings : Settings → State → State
with_settings s st = record st { settings = s }

-- handleSaveSettings
unfoldable pub handle_save_settings : World → Option Text → App → App × Response Bool
unfolding clean_text save
handle_save_settings w none a = (a, refused 400 (codes "bad_json"))
handle_save_settings w (some org_name) a =
    let st = a.store.state in
    (
      save w (
          with_state a
            (with_settings (record (st.settings) { org_name = clean_text org_name 80 }) st)),
      reply 200 true,
    )

-- handleRotateKey: the new key
unfoldable pub handle_rotate_key : World → App → App × Response Text
unfolding save
handle_rotate_key w a =
    let st = a.store.state in
    (
      save w (with_state a (with_settings (record (st.settings) { client_key = w.secret }) st)),
      reply 200 w.secret,
    )

abbrev pub with_tokens : List Token → State → State
with_tokens ts st = record st { tokens = ts }

-- the secret of a new token
abbrev pub token_secret : World → Text
token_secret w = codes "fh_" ++ w.secret

abbrev pub new_token : Platform → World → Identity → Text → Token
new_token e w id name = record {
  id = w.new_id;
  name = name;
  hash = hash_token e (token_secret w);
  created_by = id.user.username;
  created_at = w.now;
  last_used = 0;
}

-- handleCreateToken: the token's id, name and secret
unfoldable pub handle_create_token :
    Platform → World → Option Text → Identity → App → App × Response (Text × Text × Text)
unfolding hash_token clean_text save
handle_create_token e w none id a = (a, refused 400 (codes "bad_json"))
handle_create_token e w (some name) id a =
    let st = a.store.state in
    let t = new_token e w id (clean_text name 60) in
    if is_empty (clean_text name 60) then (a, refused 400 (codes "invalid")) else (
      save w (with_state a (with_tokens (st.tokens ++ t ∷ []) st)),
      reply 201 (t.id, t.name, token_secret w),
    )

-- handleDeleteToken
unfoldable pub handle_delete_token : World → Text → App → App × Response Bool
unfolding save
handle_delete_token w tid a =
    let st = a.store.state in
    (
      save w (
          with_state a (with_tokens (filter (λ (t : Token). not (text_eq t.id tid)) st.tokens) st)),
      reply 200 true,
    )
