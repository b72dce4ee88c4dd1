-- ===== src/Server/Run/Storing/Keys.antt =====
-- The map of the computers stays in order through the writes that a server makes to it.
use stem_computing_desktop_p.Prelude.{
  ℕ, zero, suc, ◌≡◌, ◌≢◌, refl, ◌∙◌, some, List, [], ◌∷◌, ◌++◌, arith, get_elem?, set, length, take,
  if◌then◌else◌, ◌==◌, ==_iff, Option-cases, Bool-cases, inl, inr,
}
use stem_computing_desktop_p.Text.{Text, text_eq, clean_text}
use stem_computing_desktop_p.Text.Equality.{text_eq_iff}
use stem_computing_desktop_p.Platform.{Platform, Bytes}
use stem_computing_desktop_p.Dict.{Dict, lookup, insert, delete, lookup-insert, lookup-delete}
use stem_computing_desktop_p.Model.{Time, ClientInfo, Store}
use stem_computing_desktop_p.Delivery.{
  ClientHello, hex, client_id_for, new_client, checked_in, find_client, touch_client,
}
use stem_computing_desktop_p.Poll.{modify_client}
use stem_computing_desktop_p.Store.Reopen.Clients.{Keyed}

get_elem?-set :
    (heap : List ClientInfo) (p q : ℕ) (c d : ClientInfo)
    → get_elem? heap p ≡ some c
    → get_elem? (set heap p d) q ≡ (if p == q then some d else get_elem? heap q)
get_elem?-set [] p q c d h = cc
get_elem?-set (x ∷ heap) zero zero c d h = ground arith
get_elem?-set (x ∷ heap) zero (suc q) c d h = ground arith
get_elem?-set (x ∷ heap) (suc p) zero c d h = ground arith
get_elem?-set (x ∷ heap) (suc p) (suc q) c d h = ground (arith, get_elem?-set heap p q c d h)

get_elem?-append :
    (heap : List ClientInfo) (d : ClientInfo) (p : ℕ) (c : ClientInfo)
    → get_elem? heap p ≡ some c
    → get_elem? (heap ++ d ∷ []) p ≡ some c
get_elem?-append [] d p c h = cc
get_elem?-append (x ∷ heap) d zero c h = h
get_elem?-append (x ∷ heap) d (suc p) c h = get_elem?-append heap d p c h

pub get_elem?-end :
    (heap : List ClientInfo) (d : ClientInfo) → get_elem? (heap ++ d ∷ []) (length heap) ≡ some d
get_elem?-end [] d = refl
get_elem?-end (x ∷ heap) d = get_elem?-end heap d

-- A write that keeps the computer's id.
pub Keyed-set :
    (m : Dict ℕ) (heap : List ClientInfo) (p : ℕ) (c d : ClientInfo)
    → get_elem? heap p ≡ some c
    → d.id ≡ c.id
    → Keyed m heap
    → Keyed m (set heap p d)
Keyed-set [] heap p c d at same h = tt
Keyed-set ((id, q) ∷ m) heap p c d at same ((x, e, k), n, new, rest) = (
  elim (Bool-cases (p == q)) [
    | inl y ↦ (
      d,
      get_elem?-set heap p q c d at ∙ rw (y) refl,
      ground (arith, at, same, e, k, (==_iff p q).0 y),
    )
    | inr z ↦ (x, get_elem?-set heap p q c d at ∙ rw (z) e, k)
  ],
  n,
  new,
  Keyed-set m heap p c d at same rest,
)

pub Keyed-append :
    (m : Dict ℕ) (heap : List ClientInfo) (d : ClientInfo) → Keyed m heap → Keyed m (heap ++ d ∷ [])
Keyed-append [] heap d h = tt
Keyed-append ((id, q) ∷ m) heap d ((x, e, k), n, new, rest) =
    ((x, get_elem?-append heap d q x e, k), n, new, Keyed-append m heap d rest)

pub Keyed-insert :
    (m : Dict ℕ) (heap : List ClientInfo) (id : Text) (p : ℕ) (c : ClientInfo)
    → get_elem? heap p ≡ some c
    → c.id ≡ id
    → id ≢ []
    → Keyed m heap
    → Keyed (insert id p m) heap
unfolding insert lookup
Keyed-insert [] heap id p c at same ne h = ((c, at, same), ne, refl, tt)
Keyed-insert ((j, q) ∷ m) heap id p c at same ne ((x, e, k), n, new, rest) =
    elim (Bool-cases (text_eq j id)) [
      | inl y ↦
          rw (y, insert) ((c, at, same), ne, ground (arith, new, (text_eq_iff j id).0 y), rest)
      | inr z ↦
          rw (z, insert)
            (
              (x, e, k),
              n,
              ground (arith, lookup-insert id j p m, text_eq_iff id j, text_eq_iff j id, z, new),
              Keyed-insert m heap id p c at same ne rest,
            )
    ]

pub Keyed-delete :
    (m : Dict ℕ) (heap : List ClientInfo) (id : Text) → Keyed m heap → Keyed (delete id m) heap
unfolding delete
Keyed-delete [] heap id h = tt
Keyed-delete ((j, q) ∷ m) heap id ((x, e, k), n, new, rest) = elim (Bool-cases (text_eq j id)) [
  | inl y ↦ rw (y, delete) (Keyed-delete m heap id rest)
  | inr z ↦
      rw (z, delete)
        ((x, e, k), n, ground (arith, lookup-delete id j m, new), Keyed-delete m heap id rest)
]

-- The map and the heap of a store.
abbrev pub InOrder : Store → Type 0
InOrder s = Keyed s.clients s.heap

pub modify_client-InOrder :
    (f : ClientInfo → ClientInfo) (p : ℕ) (s : Store)
    → ((c : ClientInfo) → (f c).id ≡ c.id)
    → InOrder s
    → InOrder (modify_client f p s)
unfolding modify_client
modify_client-InOrder f p s keep h = elim (Option-cases (get_elem? s.heap p)) [
  | inl n ↦ rw (n, modify_client) h
  | inr (c, at) ↦ rw (at, modify_client) (Keyed-set s.clients s.heap p c (f c) at (keep c) h)
]

hex-nonempty : (b : Bytes) → length b ≡ 20 → hex (take 8 b) ≢ []
unfolding hex
hex-nonempty [] n e = absurd (omega arith)
hex-nonempty (x ∷ b) n e = cc

-- SHA-1 gives 20 bytes.
abbrev pub Sha1Law : Platform → Type 0
Sha1Law e = (b : Text) → length (e.sha1 b) ≡ 20

client_id_for-nonempty : (e : Platform) (h d u : Text) → Sha1Law e → client_id_for e h d u ≢ []
unfolding client_id_for
client_id_for-nonempty e h d u law = hex-nonempty _ (law _)

pub touch_client-InOrder :
    (e : Platform) (h : ClientHello) (ip : Text) (now : Time) (s : Store)
    → Sha1Law e
    → InOrder s
    → InOrder (touch_client e h ip now s).0
unfolding touch_client find_client checked_in
touch_client-InOrder e h ip now s ne k =
    let id = client_id_for e h.hostname (clean_text h.domain 64) h.user in
    let d = checked_in (new_client id now) h ip now in
    elim (Option-cases (find_client id s)) [
      | inl n ↦
          rw (touch_client, n)
            (Keyed-insert s.clients (s.heap ++ d ∷ []) id (length s.heap) d (get_elem?-end s.heap d)
              refl (client_id_for-nonempty e h.hostname (clean_text h.domain 64) h.user ne)
              (Keyed-append s.clients s.heap d k))
      | inr ((p, c), f) ↦
          rw (touch_client, f)
            (Keyed-set s.clients s.heap p c (checked_in c h ip now) (ground (arith, f)) refl k)
    ]
