-- ===== src/Match.antt =====
-- server/match.go: deciding which computers an alert is for. The two texts of `wildcardMatch` are
-- walked as what is left of them; `back` is the pair (star + 1, mark) once a star has been met.
pub mod Glob
pub mod Wildcard
use stem_computing_desktop_p.Prelude.{
  ℕ, zero, suc, ◌+◌, ◌*◌, Bool, true, false, ◌&&◌, ◌||◌, Option, none, some, List, [], ◌∷◌, ◌==◌,
  if◌then◌else◌, length, is_empty, is_some, any, get_or, find?, ltb, not, ◌++◌, map,
}
use stem_computing_desktop_p.Text.{
  Text, codes, text_eq, contains, contains_any, after_last, trim_space, Unicode, to_lower,
  clean_text, join, len, byte_prefix,
}
use stem_computing_desktop_p.Platform.{Platform}
use stem_computing_desktop_p.Model.{Rule, Group, ClientInfo, Target, Alert}

-- p[pi] == '?' || p[pi] == t[ti]
abbrev pub accepts : ℕ → ℕ → Bool
accepts q c = q == b'?' || q == c

abbrev pub Back : Type 0
Back = Option (Text × Text)

-- the second loop of `wildcardMatch` and its final test
unfoldable pub only_stars : Text → Bool
only_stars [] = true
only_stars (q ∷ p) = q == b'*' && only_stars p

-- the branch `case star >= 0` and the `default` below it
unfoldable pub retry : Back → (Text → Text → Back → Option Bool) → Option Bool
retry none next = some false
retry (some (p, [])) next = next p [] (some (p, []))
retry (some (p, _ ∷ t)) next = next p t (some (p, t))

-- The first loop, on fuel; `none` means that the fuel ran out.
unfoldable pub wildcard_loop : ℕ → Text → Text → Back → Option Bool
wildcard_loop zero p t back = none
wildcard_loop (suc f) p [] back = some (only_stars p)
wildcard_loop (suc f) [] (c ∷ t) back = retry back (wildcard_loop f)
wildcard_loop (suc f) (q ∷ p) (c ∷ t) back =
    let onward = wildcard_loop f p t back in
    let at_star = wildcard_loop f p (c ∷ t) (some (p, c ∷ t)) in
    if accepts q c then onward else if q == b'*' then at_star else retry back (wildcard_loop f)

abbrev pub fuel_for : Text → Text → ℕ
fuel_for p t = suc (length t) * suc (length p) + 1

-- wildcardMatch, on the texts in lower case
unfoldable pub wildcard_runes : Text → Text → Bool
unfolding wildcard_loop retry only_stars
wildcard_runes p t = get_or (wildcard_loop (fuel_for p t) p t none) false

unfoldable pub wildcard_match : Unicode → Text → Text → Bool
unfolding wildcard_runes
wildcard_match u pattern s = wildcard_runes (to_lower u pattern) (to_lower u s)

-- validFields: the names that the rules' fields may have, and their labels
abbrev pub field_label : Text → Option Text
field_label f =
    if text_eq f (codes "hostname")
    then some (codes "Computer name")
    else if text_eq f (codes "user")
    then some (codes "Username")
    else if text_eq f (codes "ou")
    then some (codes "AD organisational unit")
    else if text_eq f (codes "group")
    then some (codes "AD group")
    else if text_eq f (codes "ip")
    then some (codes "IP address")
    else none

-- hasWildcard
unfoldable pub has_wildcard : Text → Bool
unfolding contains_any
has_wildcard p = contains_any p (codes "*?")

module _ (e : Platform) where
  -- `case "group"`: the name as it is, or without its domain
  unfoldable pub group_matches : Text → Text → Bool
  unfolding wildcard_match after_last
  group_matches p g =
      wildcard_match e.unicode p g || wildcard_match e.unicode p (get_or (after_last 92 g) g)

  -- `case "ip"`
  unfoldable pub ip_matches : Text → Text → Bool
  unfolding wildcard_match
  ip_matches p ip = elim (e.parse_cidr p) [
    | some network ↦ elim (e.parse_ip ip) [ none ↦ false | some addr ↦ network addr ]
    | none ↦ wildcard_match e.unicode p ip
  ]

  -- `case "ou"`
  unfoldable pub ou_matches : Text → Text → Bool
  unfolding wildcard_match has_wildcard contains
  ou_matches p ou =
      if has_wildcard p
      then wildcard_match e.unicode p ou
      else contains (to_lower e.unicode ou) (to_lower e.unicode p)

  -- the switch of `ruleMatches`, for a pattern that is not empty
  unfoldable pub field_matches : Text → Text → ClientInfo → Bool
  unfolding group_matches ip_matches ou_matches wildcard_match
  field_matches f p c =
      if text_eq f (codes "hostname")
      then wildcard_match e.unicode p c.hostname
      else if text_eq f (codes "user")
      then wildcard_match e.unicode p c.user || wildcard_match e.unicode p (c.domain ++ 92 ∷ c.user)
      else if text_eq f (codes "ou")
      then ou_matches p c.ou
      else if text_eq f (codes "group")
      then any (group_matches p) c.groups
      else if text_eq f (codes "ip")
      then ip_matches p c.ip
      else false

  -- ruleMatches
  unfoldable pub rule_matches : Rule → ClientInfo → Bool
  unfolding field_matches trim_space
  rule_matches r c =
      let p = trim_space r.pattern in if is_empty p then false else field_matches r.field p c

  -- rulesMatch
  unfoldable pub rules_match : List Rule → ClientInfo → Bool
  unfolding rule_matches
  rules_match rules c = any (λ r. rule_matches r c) rules

  -- alertMatches
  unfoldable pub alert_matches : Alert → ClientInfo → Bool
  unfolding rules_match
  alert_matches a c = if a.spec.target.all then true else rules_match a.rules c

  -- The body of the loop of `cleanRules`: the tidied rule, if it is kept.
  unfoldable pub clean_rule : Rule → Option Rule
  unfolding clean_text trim_space
  clean_rule r =
      let f = to_lower e.unicode (trim_space r.field) in
      let p = clean_text r.pattern 256 in
      if is_some (field_label f) && not (is_empty p)
      then some (record { field = f; pattern = p })
      else none

  -- cleanRules
  unfoldable pub clean_rules : List Rule → List Rule
  unfolding clean_rule
  clean_rules [] = []
  clean_rules (r ∷ rs) = elim (clean_rule r) [
    | some r' ↦ r' ∷ clean_rules rs
    | none ↦ clean_rules rs
  ]

-- groupByID
unfoldable pub group_by_id : List Group → Text → Option Group
group_by_id gs id = find? (λ g. text_eq g.id id) gs

-- the first loop of `flattenTarget`: the rules and the names of the groups that exist
unfoldable pub resolve_groups : List Group → List Text → List Rule × List Text
unfolding group_by_id
resolve_groups gs [] = ([], [])
resolve_groups gs (id ∷ ids) =
    let (rules, names) = resolve_groups gs ids in
    elim (group_by_id gs id) [ some g ↦ (g.rules ++ rules, g.name ∷ names) | none ↦ (rules, names) ]

-- what the second loop of `flattenTarget` says of a rule
abbrev pub describe : Rule → Text
describe r = get_or (field_label r.field) [] ++ (b' ' ∷ r.pattern)

-- the summary, cut to 200 bytes
unfoldable pub summarize : List Text → Text
unfolding join len byte_prefix
summarize parts =
    let summary = join parts (codes ", ") in
    if ltb 200 (len summary) then byte_prefix 197 summary ++ codes "..." else summary

-- flattenTarget
unfoldable pub flatten_target : List Group → Target → List Rule × Text
unfolding resolve_groups summarize
flatten_target gs t =
    let (rules, names) = resolve_groups gs t.group_ids in
    if t.all
    then ([], codes "Every computer")
    else (rules ++ t.rules, summarize (names ++ map describe t.rules))
