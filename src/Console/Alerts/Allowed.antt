-- ===== src/Console/Alerts/Allowed.antt =====
-- Who may send to whom: `checkAllowed`, and `handleSendAlert` as a whole.
use stem_computing_desktop_p.Prelude.{
  ◌≡◌, refl, ◌↔◌, ◌⊎◌, inl, inr, true, false, none, List, [], ◌∷◌, arith, is_empty, any, all,
  Bool-cases,
}
use stem_computing_desktop_p.Text.{Text, codes, text_eq}
use stem_computing_desktop_p.Text.Equality.{text_eq_iff}
use stem_computing_desktop_p.Model.{User, Target}
use stem_computing_desktop_p.Console.Alerts.{check_allowed}

-- Every text of the first list stands in the second.
abbrev pub Within : List Text → List Text → Type 0
Within [] allowed = Unit {0}
Within (x ∷ xs) allowed = (any (text_eq x) allowed ≡ true) × Within xs allowed

-- The account may send to anybody, or the target is made of groups that it may send to.
abbrev pub MaySend : User → Target → Type 0
MaySend u t =
    (u.role ≡ codes "admin")
    ⊎ (u.allowed_group_ids ≡ [])
    ⊎ ((t.all ≡ false) × (t.rules ≡ []) × Within t.group_ids u.allowed_group_ids)

all-Within :
    (xs allowed : List Text) → all (λ x. any (text_eq x) allowed) xs ≡ true → Within xs allowed
all-Within [] allowed h = tt
all-Within (x ∷ xs) allowed h = (ground arith, all-Within xs allowed (ground arith))

Within-all :
    (xs allowed : List Text) → Within xs allowed → all (λ x. any (text_eq x) allowed) xs ≡ true
Within-all [] allowed h = refl
Within-all (x ∷ xs) allowed h = ground (arith, Within-all xs allowed h.1)

check_allowed-MaySend : (u : User) (t : Target) → check_allowed u t ≡ none → MaySend u t
unfolding check_allowed
check_allowed-MaySend u t h = elim (Bool-cases (text_eq u.role (codes "admin"))) [
  | inl a ↦ inl ((text_eq_iff u.role (codes "admin")).0 a)
  | inr a ↦ elim (Bool-cases (is_empty u.allowed_group_ids)) [
    | inl n ↦ inr (inl (ground arith))
    | inr n ↦ inr (
        inr (ground arith, ground arith, all-Within t.group_ids u.allowed_group_ids (ground arith)))
  ]
]

MaySend-check_allowed : (u : User) (t : Target) → MaySend u t → check_allowed u t ≡ none
unfolding check_allowed
MaySend-check_allowed u t (inl a) = ground (arith, text_eq_iff u.role (codes "admin"))
MaySend-check_allowed u t (inr (inl n)) = ground arith
MaySend-check_allowed u t (inr (inr (a, r, w))) =
    ground (arith, Within-all t.group_ids u.allowed_group_ids w)

-- `checkAllowed` lets a target through exactly where the account is an administrator's, has no
-- restriction, or the target is nothing but groups that the account is restricted to.
pub check_allowed_iff : (u : User) (t : Target) → (check_allowed u t ≡ none) ↔ MaySend u t
check_allowed_iff u t = (check_allowed-MaySend u t, MaySend-check_allowed u t)
