-- ===== src/Console/Settings/Tokens.antt =====
-- What an API token opens, from its creation to its removal.
use stem_computing_desktop_p.Prelude.{
  ◌≡◌, ◌≢◌, inl, inr, refl, true, false, not, none, some, List, [], ◌∷◌, ◌++◌, arith, drop, find?,
  is_empty, filter,
}
use stem_computing_desktop_p.Text.{Text, codes, text_eq, starts_with, trim_space, clean_text}
use stem_computing_desktop_p.Text.Equality.{text_eq_refl}
use stem_computing_desktop_p.Platform.{Platform}
use stem_computing_desktop_p.Model.{Time, Token}
use stem_computing_desktop_p.App.{App, World, Request, Identity, save, with_state}
use stem_computing_desktop_p.Auth.Guard.{bearer, hash_token, use_token, by_token, authenticate}
use stem_computing_desktop_p.Auth.Guard.Laws.{authenticate-inv}
use stem_computing_desktop_p.Console.Users.Admins.{save-state}
use stem_computing_desktop_p.Console.Settings.{
  token_secret, new_token, with_tokens, handle_create_token, handle_delete_token,
}

use_token-append :
    (sum : Text) (now : Time) (ts : List Token) (t : Token)
    → (use_token sum now ts).0 ≡ none
    → t.hash ≡ sum
    → (use_token sum now (ts ++ t ∷ [])).0 ≡ some t
unfolding use_token
use_token-append sum now [] t n h = ground (arith, text_eq_refl sum)
use_token-append sum now (x ∷ ts) t n h = ground (arith, use_token-append sum now ts t)

-- A token that `handleCreateToken` has made signs its holder in, as a sender without restrictions whose
-- name and id are the token's after `token:`, where no earlier token has its hash and the header carries
-- the secret.
pub authenticate-handle_create_token :
    (e : Platform) (w : World) (now : Time) (name : Text) (id : Identity) (r : Request) (a : App)
    → is_empty (clean_text name 60) ≡ false
    → (use_token (hash_token e (token_secret w)) now a.store.state.tokens).0 ≡ none
    → starts_with bearer r.authorization ≡ true
    → trim_space (drop 7 r.authorization) ≡ token_secret w
    → (authenticate e now r (handle_create_token e w (some name) id a).0).1
      ≡ some (record {
        user = record {
          id = codes "token:" ++ w.new_id;
          username = codes "token:" ++ clean_text name 60;
          display_name = clean_text name 60;
          role = codes "sender";
          pass_hash = [];
          must_change = false;
          disabled = false;
          allowed_group_ids = [];
          created_at = 0;
          last_login = 0;
        };
        via_token = true;
        session = [];
      })
unfolding handle_create_token authenticate by_token
authenticate-handle_create_token e w now name id r a f n h s =
    let st = a.store.state in
    let t = new_token e w id (clean_text name 60) in
    ground (
      arith,
      f,
      n,
      h,
      s,
      save-state w (with_state a (with_tokens (st.tokens ++ t ∷ []) st)),
      use_token-append (hash_token e (token_secret w)) now st.tokens t n refl,
    )

find?-kept :
    (sum tid : Text) (ts : List Token) (t : Token)
    → find? (λ (t : Token). text_eq t.hash sum) (filter (λ (t : Token). not (text_eq t.id tid)) ts)
      ≡ some t
    → text_eq t.id tid ≡ false
find?-kept sum tid [] t h = cc
find?-kept sum tid (x ∷ ts) t h = ground (arith, find?-kept sum tid ts t)

-- Once `handleDeleteToken` has removed a token, nobody is signed in as that token.
pub authenticate-handle_delete_token :
    (e : Platform) (w : World) (now : Time) (tid : Text) (r : Request) (a : App) (who : Identity)
    → (authenticate e now r (handle_delete_token w tid a).0).1 ≡ some who
    → who.via_token ≡ true
    → who.user.id ≢ codes "token:" ++ tid
unfolding handle_delete_token
authenticate-handle_delete_token e w now tid r a who h v k =
    let st = a.store.state in
    let kept = filter (λ (t : Token). not (text_eq t.id tid)) st.tokens in
    let b = save w (with_state a (with_tokens kept st)) in
    elim (authenticate-inv e now r b who h) [
      | inr (_, _, _, _, _, _, _, _, n, _) ↦ ground (arith, n)
      | inl (t, _, f, i) ↦
          let sum = hash_token e (trim_space (drop 7 r.authorization)) in
          let f' : find? (λ (t : Token). text_eq t.hash sum) kept ≡ some t =
            rw (save-state w (with_state a (with_tokens kept st))) at f in
          ground (arith, find?-kept sum tid st.tokens t f', text_eq_refl tid, i)
    ]
