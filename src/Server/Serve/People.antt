-- ===== src/Server/Serve/People.antt =====
-- What of the accounts decides who can sign in and administer.
use stem_computing_desktop_p.Prelude.{
  Option, ◌≤◌, ◌≡◌, refl, sym, ap, ◌∙◌, Bool, true, not, ◌&&◌, none, List, [], ◌∷◌, arith, map,
  is_none, count,
}
use mathlib.Core.Path.{subst}
use stem_computing_desktop_p.Text.{Text, Unicode, text_eq, codes}
use stem_computing_desktop_p.Model.{User}
use stem_computing_desktop_p.Store.{user_by_id, admin_count}
use stem_computing_desktop_p.Console.Users.Admins.{UniqueIds}
use stem_computing_desktop_p.Console.Users.Names.Lists.{names, Unique}
use stem_computing_desktop_p.Server.Serve.Rights.{Account, account_of}

pub record Person : Type 0 where
  pub id : Text
  pub username : Text
  pub role : Text
  pub disabled : Bool

abbrev pub person_of : User → Person
person_of u = record { id = u.id; username = u.username; role = u.role; disabled = u.disabled }

abbrev pub people : List User → List Person
people us = map person_of us

abbrev of_account : Account → Person
of_account a = record { id = a.id; username = a.username; role = a.role; disabled = a.disabled }

people-accounts :
    (own : Option Text) (us : List User) → people us ≡ map of_account (map (account_of own) us)
people-accounts own [] = refl
people-accounts own (u ∷ us) = ap (λ ps. person_of u ∷ ps) (people-accounts own us)

pub accounts-people :
    (own : Option Text) (us vs : List User)
    → map (account_of own) us ≡ map (account_of own) vs
    → people us ≡ people vs
accounts-people own us vs h =
    people-accounts own us ∙ ap (λ xs. map of_account xs) h ∙ sym (people-accounts own vs)

is_unused : List Person → Text → Bool
is_unused [] id = true
is_unused (p ∷ ps) id = not (text_eq p.id id) && is_unused ps id

is_unused-people :
    (us : List User) (id : Text) → is_none (user_by_id us id) ≡ is_unused (people us) id
unfolding is_unused user_by_id
is_unused-people [] id = refl
is_unused-people (u ∷ us) id = ground (arith, is_unused-people us id)

have_ids : List Person → Bool
have_ids [] = true
have_ids (p ∷ ps) = is_unused ps p.id && have_ids ps

UniqueIds-people : (us : List User) → UniqueIds us → have_ids (people us) ≡ true
unfolding have_ids
UniqueIds-people [] h = refl
UniqueIds-people (u ∷ us) h = ground (arith, h.0, is_unused-people us u.id, UniqueIds-people us h.1)

people-UniqueIds : (us : List User) → have_ids (people us) ≡ true → UniqueIds us
unfolding have_ids
people-UniqueIds [] h = tt
people-UniqueIds (u ∷ us) h =
    (ground (arith, h, is_unused-people us u.id), people-UniqueIds us (ground (arith, h)))

administers : Person → Bool
administers p = text_eq p.role (codes "admin") && not p.disabled

admin_count-people : (us : List User) → admin_count us ≡ count administers (people us)
unfolding admin_count administers
admin_count-people [] = refl
admin_count-people (u ∷ us) = ground (arith, admin_count-people us)

names-people : (us : List User) → names us ≡ map (λ (p : Person). p.username) (people us)
names-people [] = refl
names-people (u ∷ us) = ap (λ ns. u.username ∷ ns) (names-people us)

-- Each account has an id and, case aside, a name of its own, and somebody can administer.
pub record InOrder (e : Unicode) (us : List User) : Type 0 where
  pub ids : UniqueIds us
  pub admins : 1 ≤ admin_count us
  pub names : Unique e (names us)

pub people-InOrder :
    (e : Unicode) (us vs : List User) → people us ≡ people vs → InOrder e us → InOrder e vs
people-InOrder e us vs h o = record {
  ids = people-UniqueIds vs (ap have_ids (sym h) ∙ UniqueIds-people us o.ids);
  admins =
      let same : admin_count us ≡ admin_count vs =
        admin_count-people us ∙ ap (λ ps. count administers ps) h ∙ sym (admin_count-people vs) in
      let some_admin = o.admins in omega (arith, same, some_admin);
  names =
      subst (λ ns. Unique e ns)
        (names-people us ∙ ap (λ ps. map (λ (p : Person). p.username) ps) h ∙ sym (names-people vs))
        o.names;
}

-- An id that is new to the one is new to the other.
pub people-unused :
    (us vs : List User) (id : Text)
    → people us ≡ people vs
    → user_by_id us id ≡ none
    → user_by_id vs id ≡ none
people-unused us vs id h k =
    let u = is_unused-people us id in
    let v = is_unused-people vs id in
    let same = ap (λ ps. is_unused ps id) h in ground (arith, k, u, v, same)
