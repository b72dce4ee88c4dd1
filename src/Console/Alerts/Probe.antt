-- ===== src/Console/Alerts/Probe.antt =====
-- `handleReach` of server/api_admin.go: whom an alert would reach.
use stem_computing_desktop_p.Prelude.{
  ℕ, false, Option, none, some, List, [], take, map, length, filter,
}
use stem_computing_desktop_p.Prelude.Int.{pos}
use stem_computing_desktop_p.Text.{Text, codes}
use stem_computing_desktop_p.Platform.{Platform}
use stem_computing_desktop_p.Model.{Target, Alert, ClientInfo, Group}
use stem_computing_desktop_p.Match.{alert_matches, flatten_target, clean_rules}
use stem_computing_desktop_p.Store.{online, live_clients}
use stem_computing_desktop_p.Store.Flush.{sort, text_lt}
use stem_computing_desktop_p.App.{App, World, Response, refused, reply}

-- The answer of `handleReach`; its sample is sorted.
pub record Reach : Type 0 where
  pub online : ℕ
  pub known : ℕ
  pub sample : List Text

-- the alert that `handleReach` tries on every computer, zero but for its target and rules
unfoldable pub probe : Target → List Group → Alert
unfolding flatten_target
probe t groups = record {
  id = [];
  spec = record {
    title = [];
    message = [];
    level = [];
    display = [];
    require_ack = false;
    display_seconds = pos 0;
    sound = false;
    link = [];
    expires_minutes = pos 0;
    target = t;
  };
  rules = (flatten_target groups t).0;
  target_summary = [];
  sender = [];
  sender_name = [];
  created_at = 0;
  expires_at = 0;
  recalled_at = none;
  recalled_by = [];
  deliveries = none;
  archived = none;
}

-- handleReach
unfoldable pub handle_reach : Platform → World → Option Target → App → App × Response Reach
unfolding probe online live_clients sort text_lt
handle_reach e w none a = (a, refused 400 (codes "bad_json"))
handle_reach e w (some body) a =
    let t = record body { rules = clean_rules e body.rules } in
    let al = probe t a.store.state.groups in
    let matched = filter (alert_matches e al) (live_clients a.store.clients a.store.heap) in
    let on = filter (λ c. online c w.now) matched in
    (
      a,
      reply 200 (record {
        online = length on;
        known = length matched;
        sample = sort text_lt (map (λ (c : ClientInfo). c.hostname) (take 8 on));
      }),
    )
