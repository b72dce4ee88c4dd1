-- ===== src/Server/Config.antt =====
-- `loadConfig` and `defaultDataDir` of server/main.go. What the file system and the environment hold
-- are arguments, and so is encoding/json, which fills in a configuration from a text.
pub mod Complete
use stem_computing_desktop_p.Prelude.{
  Bool, true, false, not, ◌&&◌, ◌||◌, ◌==◌, Option, none, some, List, [], ◌∷◌, if◌then◌else◌,
  is_empty,
}
use stem_computing_desktop_p.Text.{Text, codes}
use stem_computing_desktop_p.App.{Config}

abbrev pub default_config : Config
default_config = record {
  listen = codes ":8080";
  tls_cert = [];
  tls_key = [];
  trust_proxy_headers = false;
}

-- os.ReadFile of config.json
pub data Reading : Type 0 where
  missing unreadable : Reading
  content : Text → Reading

pub data ConfigError : Type 0 where
  not_written not_read not_json half_tls : ConfigError

-- strings.TrimPrefix of a byte order mark
abbrev pub without_mark : Text → Text
without_mark [] = []
without_mark (c ∷ s) = if c == 0xfeff then s else c ∷ s

abbrev pub with_listen : Config → Config
with_listen cfg = if is_empty cfg.listen then record cfg { listen = codes ":8080" } else cfg

-- what `loadConfig` makes of a text that it has read
unfoldable pub parse_config : (Text → Config → Option Config) → Text → Config × Option ConfigError
parse_config unmarshal t = elim (unmarshal (without_mark t) default_config) [
  | none ↦ (default_config, some not_json)
  | some cfg ↦
      let cfg' = with_listen cfg in
      (
        cfg',
        if not (is_empty cfg'.tls_cert) && is_empty cfg'.tls_key
              || is_empty cfg'.tls_cert && not (is_empty cfg'.tls_key)
            then some half_tls
            else none,
      )
]

-- loadConfig: the configuration and the error. A file that is missing is written with the defaults,
-- which may fail.
unfoldable pub load_config :
    (Text → Config → Option Config) → Bool → Reading → Config × Option ConfigError
unfolding parse_config
load_config unmarshal writes missing = (default_config, if writes then none else some not_written)
load_config unmarshal writes unreadable = (default_config, some not_read)
load_config unmarshal writes (content t) = parse_config unmarshal t

-- defaultDataDir, from FOGHORN_DATA, the system and ProgramData
unfoldable pub default_data_dir : (Text → Text → Text) → Bool → Text → Text → Text
default_data_dir join is_windows foghorn_data program_data =
    if not (is_empty foghorn_data)
    then foghorn_data
    else if is_windows
    then join (if is_empty program_data then codes "C:\\ProgramData" else program_data)
        (codes "Foghorn")
    else codes "foghorn-data"
