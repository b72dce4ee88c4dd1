-- ===== src/Console/Spec.antt =====
-- `validateSpec`: tidying and checking what a person fills in on the Send page.
pub mod Valid
use stem_computing_desktop_p.Prelude.{
  ℕ, ◌*◌, Bool, true, false, not, ◌&&◌, ◌||◌, Option, none, some, List, [], String, ltb,
  if◌then◌else◌, is_empty,
}
use stem_computing_desktop_p.Prelude.Int.{ℤ, pos, negsuc, is_below, is_above, is_zero}
use stem_computing_desktop_p.Text.{
  Text, codes, text_eq, trim_space, clean_text, clean_text_opt, len,
}
use stem_computing_desktop_p.Platform.{Platform}
use stem_computing_desktop_p.Model.{Target, AlertSpec}
use stem_computing_desktop_p.Match.{clean_rules}

-- The tidied value, or the message for the person.
pub data Result (A : Type 0) : Type 0 where
  ok : A → Result A
  err : Text → Result A

infixl 5 ◌>>=◌ ◌>>◌
abbrev pub ◌>>=◌ : {A B : Type 0} → Result A → (A → Result B) → Result B
ok a >>= f = f a
err m >>= f = err m

abbrev pub ◌>>◌ : {B : Type 0} → Result (Unit {0}) → Result B → Result B
m >> k = m >>= λ _. k

abbrev pub require : Bool → String → Result (Unit {0})
require true m = ok tt
require false m = err (codes m)

abbrev pub is_level : Text → Bool
is_level t = text_eq t (codes "info") || text_eq t (codes "warning") || text_eq t (codes "critical")

abbrev pub is_display : Text → Bool
is_display t =
    text_eq t (codes "corner") || text_eq t (codes "center") || text_eq t (codes "fullscreen")

-- a switch that lets some values through and gives the empty one a default
abbrev pub choose : (Text → Bool) → String → String → Text → Result Text
choose allowed default message t =
    if allowed t then ok t else if is_empty t then ok (codes default) else err (codes message)

-- url.Parse succeeds, the scheme is http or https, there is a host, and 500 bytes are enough
unfoldable pub is_link : Platform → Text → Bool
unfolding len
is_link e t = elim (e.parse_url t) [
  | none ↦ false
  | some u ↦
      (text_eq u.scheme (codes "http") || text_eq u.scheme (codes "https"))
      && not (is_empty u.host)
      && not (ltb 500 (len t))
]

abbrev pub max_minutes : ℕ
max_minutes = 7 * 24 * 60

abbrev pub tidy_minutes : ℤ → ℤ
tidy_minutes m = if is_zero m then pos 10 else m

-- the target, with its rules tidied
abbrev pub tidy_target : Platform → Target → Target
tidy_target e t =
    if t.all
    then record { all = true; group_ids = []; rules = [] }
    else record t { rules = clean_rules e t.rules }

-- !s.Target.All && len(s.Target.GroupIDs) == 0 && len(s.Target.Rules) == 0
abbrev pub is_nobody : Platform → Target → Bool
is_nobody e t = not t.all && is_empty t.group_ids && is_empty (clean_rules e t.rules)

-- validateSpec
unfoldable pub validate_spec : Platform → AlertSpec → Result AlertSpec
validate_spec e s = do
  let title' = clean_text s.title 120
  let link' = trim_space s.link
  require (not (is_empty title')) "Give the alert a title."
  level' ← choose is_level "info" "Level must be info, warning or critical." s.level
  display' ← choose is_display "corner" "Display must be corner, center or fullscreen." s.display
  require (not (is_below s.display_seconds 0 || is_above s.display_seconds 86400))
      "Auto-close must be between 0 and 86400 seconds."
  require
      (not (
        is_below (tidy_minutes s.expires_minutes) 1
        || is_above (tidy_minutes s.expires_minutes) max_minutes))
      "Keep-delivering time must be between 1 minute and 7 days."
  require (is_empty link' || is_link e link') "The link must be a full http:// or https:// address."
  require (not (is_nobody e s.target)) "Choose who should receive the alert."
  ok (record {
    title = title';
    message = clean_text_opt s.message 2000 true;
    level = level';
    display = display';
    require_ack = s.require_ack;
    display_seconds = if s.require_ack then pos 0 else s.display_seconds;
    sound = s.sound;
    link = link';
    expires_minutes = tidy_minutes s.expires_minutes;
    target = tidy_target e s.target;
  })
