-- ===== src/Server/Config/Complete.antt =====
-- A configuration that the server starts with.
use stem_computing_desktop_p.Prelude.{
  ◌≡◌, refl, Bool, false, Option, none, some, arith, is_empty, if◌then◌else◌, inl, inr,
  Option-cases, Bool-cases, not, ◌&&◌, ◌||◌,
}
use stem_computing_desktop_p.Text.{Text}
use stem_computing_desktop_p.App.{Config}
use stem_computing_desktop_p.Server.Config.{
  Reading, missing, unreadable, content, half_tls, default_config, without_mark, with_listen,
  parse_config, load_config,
}

-- There is an address to listen on, and a certificate just when there is a key.
pub record IsComplete (cfg : Config) : Type 0 where
  pub listens : is_empty cfg.listen ≡ false
  pub paired : is_empty cfg.tls_cert ≡ is_empty cfg.tls_key

with_listen-listens : (cfg : Config) → is_empty (with_listen cfg).listen ≡ false
with_listen-listens cfg = elim (Bool-cases (is_empty cfg.listen)) [
  | inl t ↦ rw (t) refl
  | inr f ↦ rw (f) f
]

paired_of :
    (cfg : Config)
    → (if not (is_empty cfg.tls_cert) && is_empty cfg.tls_key
          || is_empty cfg.tls_cert && not (is_empty cfg.tls_key)
        then some half_tls
        else none)
      ≡ none
    → is_empty cfg.tls_cert ≡ is_empty cfg.tls_key
paired_of cfg h = ground arith

parse_config-IsComplete :
    (unmarshal : Text → Config → Option Config) (t : Text)
    → (parse_config unmarshal t).1 ≡ none
    → IsComplete (parse_config unmarshal t).0
unfolding parse_config
parse_config-IsComplete unmarshal t h =
    elim (Option-cases (unmarshal (without_mark t) default_config)) [
      | inl n ↦ absurd (ground (arith, n, h))
      | inr (cfg, k) ↦
          rw (k, parse_config)
            (record {
              listens = with_listen-listens cfg;
              paired = paired_of (with_listen cfg) (rw (k, parse_config) at h);
            })
    ]

-- Whatever config.json holds, a configuration that `loadConfig` returns without an error has an
-- address to listen on, and a certificate just when it has a key.
pub load_config-IsComplete :
    (unmarshal : Text → Config → Option Config) (writes : Bool) (r : Reading)
    → (load_config unmarshal writes r).1 ≡ none
    → IsComplete (load_config unmarshal writes r).0
unfolding load_config
load_config-IsComplete unmarshal writes missing h = record { listens = refl; paired = refl }
load_config-IsComplete unmarshal writes unreadable h = absurd (ground (arith, h))
load_config-IsComplete unmarshal writes (content t) h = parse_config-IsComplete unmarshal t h
