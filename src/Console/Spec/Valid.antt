-- ===== src/Console/Spec/Valid.antt =====
-- What `validateSpec` lets through.
use stem_computing_desktop_p.Prelude.{
  ℕ, ◌≤◌, ◌≡◌, refl, ◌≢◌, ◌⊎◌, inl, inr, Bool, true, false, List, [], ◌∷◌, arith, is_empty, is_some,
  Bool-cases, Option-cases, if◌then◌else◌, ◌||◌,
}
use stem_computing_desktop_p.Prelude.Int.{ℤ, pos, negsuc, is_below, is_above}
use stem_computing_desktop_p.Text.{codes, clean_text, clean_text_opt}
use stem_computing_desktop_p.Text.Clean.{IsClean, clean_text-IsClean, clean_text_opt-IsClean}
use stem_computing_desktop_p.Text.Equality.{text_eq_refl}
use stem_computing_desktop_p.Platform.{Platform}
use stem_computing_desktop_p.Model.{Rule, Target, AlertSpec}
use stem_computing_desktop_p.Match.{field_label, clean_rule, clean_rules}
use stem_computing_desktop_p.Console.Spec.{
  ok, is_level, is_display, is_link, max_minutes, tidy_target, is_nobody, validate_spec,
}

-- Every rule names a field that exists, and has a pattern.
abbrev pub RulesValid : List Rule → Type 0
RulesValid [] = Unit {0}
RulesValid (r ∷ rs) = (is_some (field_label r.field) ≡ true) × (r.pattern ≢ []) × RulesValid rs

-- Everybody and nobody else, or somebody named by a group or a rule.
abbrev pub TargetValid : Target → Type 0
TargetValid t =
    ((t.all ≡ true) × (t.group_ids ≡ []) × (t.rules ≡ []))
    ⊎ ((t.all ≡ false) × ((t.group_ids ≢ []) ⊎ (t.rules ≢ [])))

pub record SpecValid (e : Platform) (s : AlertSpec) : Type 0 where
  pub title : IsClean 120 false s.title
  pub titled : s.title ≢ []
  pub message : IsClean 2000 true s.message
  pub level : is_level s.level ≡ true
  pub display : is_display s.display ≡ true
  pub seconds : (n : ℕ) × (s.display_seconds ≡ pos n) × (n ≤ 86400)
  pub stays_for_ack : (s.require_ack ≡ false) ⊎ (s.display_seconds ≡ pos 0)
  pub minutes : (n : ℕ) × (s.expires_minutes ≡ pos n) × (1 ≤ n) × (n ≤ max_minutes)
  pub link : (s.link ≡ []) ⊎ (is_link e s.link ≡ true)
  pub target : TargetValid s.target
  pub rules : RulesValid s.target.rules

clean_rules-RulesValid : (e : Platform) (rs : List Rule) → RulesValid (clean_rules e rs)
unfolding clean_rules clean_rule
clean_rules-RulesValid e [] = tt
clean_rules-RulesValid e (r ∷ rs) = elim (Option-cases (clean_rule e r)) [
  | inl n ↦ rw (n, clean_rules) (clean_rules-RulesValid e rs)
  | inr (r', k) ↦
      rw (k, clean_rules) (ground (arith, k), ground (arith, k), clean_rules-RulesValid e rs)
]

seconds_range :
    (i : ℤ) → is_below i 0 ≡ false → is_above i 86400 ≡ false → (n : ℕ) × (i ≡ pos n) × (n ≤ 86400)
seconds_range (pos n) l u = (n, refl, ground arith)
seconds_range (negsuc n) l u = cc

seconds_tidied :
    (ack : Bool) (i : ℤ)
    → is_below i 0 ≡ false
    → is_above i 86400 ≡ false
    → (n : ℕ) × ((if ack then pos 0 else i) ≡ pos n) × (n ≤ 86400)
seconds_tidied true i l u = (0, refl, omega arith)
seconds_tidied false i l u = seconds_range i l u

minutes_range :
    (i : ℤ)
    → is_below i 1 ≡ false
    → is_above i max_minutes ≡ false
    → (n : ℕ) × (i ≡ pos n) × (1 ≤ n) × (n ≤ max_minutes)
minutes_range (pos n) l u = (n, refl, ground arith, ground arith)
minutes_range (negsuc n) l u = cc

-- What the checks of `validateSpec` have seen, and the tidied value that it returns.
record Seen (e : Platform) (s s' : AlertSpec) : Type 0 where
  title : s'.title ≡ clean_text s.title 120
  titled : is_empty s'.title ≡ false
  message : s'.message ≡ clean_text_opt s.message 2000 true
  level : is_level s'.level ≡ true
  display : is_display s'.display ≡ true
  seconds_low : is_below s.display_seconds 0 ≡ false
  seconds_high : is_above s.display_seconds 86400 ≡ false
  ack : s'.require_ack ≡ s.require_ack
  seconds : s'.display_seconds ≡ (if s.require_ack then pos 0 else s.display_seconds)
  minutes_low : is_below s'.expires_minutes 1 ≡ false
  minutes_high : is_above s'.expires_minutes max_minutes ≡ false
  link : is_empty s'.link || is_link e s'.link ≡ true
  target : s'.target ≡ tidy_target e s.target
  somebody : is_nobody e s.target ≡ false

validate_spec-Seen : (e : Platform) (s s' : AlertSpec) → validate_spec e s ≡ ok s' → Seen e s s'
unfolding validate_spec
validate_spec-Seen e s s' h =
    ground (arith, text_eq_refl (codes "info"), text_eq_refl (codes "corner"))

target-TargetValid :
    (e : Platform) (t : Target) → is_nobody e t ≡ false → TargetValid (tidy_target e t)
target-TargetValid e t h = elim (Bool-cases t.all) [
  | inl y ↦ inl (ground arith, ground arith, ground arith)
  | inr y ↦ inr (
    ground arith,
    elim (Bool-cases (is_empty t.group_ids)) [
      | inl g ↦ inr (ground arith)
      | inr g ↦ inl (ground arith)
    ],
  )
]

target-RulesValid : (e : Platform) (t : Target) → RulesValid (tidy_target e t).rules
target-RulesValid e t = elim (Bool-cases t.all) [
  | inl y ↦ rw y tt
  | inr y ↦ rw y (clean_rules-RulesValid e t.rules)
]

-- Whatever `validateSpec` lets through is fit to send: a title of at most 120 runes that is not
-- empty, clean texts, a level and a display of the three that there are, display and delivery times
-- in their ranges, no automatic close where an acknowledgement is asked for, no link but a full http
-- or https address, and a target that names everybody alone or somebody, by rules on existing fields.
pub validate_spec-SpecValid :
    (e : Platform) (s s' : AlertSpec) → validate_spec e s ≡ ok s' → SpecValid e s'
validate_spec-SpecValid e s s' h =
    let v = validate_spec-Seen e s s' h in
    record {
      title = rw v.title (clean_text-IsClean s.title 120);
      titled = ground arith;
      message = rw v.message (clean_text_opt-IsClean s.message 2000 true);
      level = v.level;
      display = v.display;
      seconds =
          rw v.seconds
            (seconds_tidied s.require_ack s.display_seconds v.seconds_low v.seconds_high);
      stays_for_ack = elim (Bool-cases s.require_ack) [
        | inl y ↦ inr (ground arith)
        | inr y ↦ inl (ground arith)
      ];
      minutes = minutes_range s'.expires_minutes v.minutes_low v.minutes_high;
      link = elim (Bool-cases (is_empty s'.link)) [
        | inl y ↦ inl (ground arith)
        | inr y ↦ inr (ground arith)
      ];
      target = rw v.target (target-TargetValid e s.target v.somebody);
      rules = rw v.target (target-RulesValid e s.target);
    }
