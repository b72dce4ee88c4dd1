-- ===== src/Platform.antt =====
-- What the server takes from packages whose code is not in the repository, where a definition here
-- would be a guess: Unicode's case tables, address and URL parsing, hash functions and base64.
use stem_computing_desktop_p.Prelude.{ℕ, Bool, Option, List}
use stem_computing_desktop_p.Text.{Text, Unicode}

abbrev pub Bytes : Type 0
Bytes = List ℕ

-- The parts of a parsed URL that the server reads.
pub record Url : Type 0 where
  pub scheme : Text
  pub host : Text

pub record Platform : Type 0 where
  pub unicode : Unicode
  -- net.ParseCIDR, with `Contains` of the network that it returns; `none` is an error
  pub parse_cidr : Text → Option (Bytes → Bool)
  -- net.ParseIP
  pub parse_ip : Text → Option Bytes
  -- the host that net.SplitHostPort finds; `none` is an error
  pub split_host_port : Text → Option Text
  -- url.Parse
  pub parse_url : Text → Option Url
  -- crypto/sha1 and crypto/sha256 of the UTF-8 bytes of a text
  pub sha1 : Text → Bytes
  pub sha256 : Text → Bytes
  -- HMAC-SHA256: the key, then the message
  pub hmac_sha256 : Bytes → Bytes → Bytes
  -- the UTF-8 bytes of a text
  pub utf8 : Text → Bytes
  -- base64.RawStdEncoding
  pub base64_encode : Bytes → Text
  pub base64_decode : Text → Option Bytes
