-- ===== src/Poll/Kept.antt =====
-- What `polling` protects while polls are held: `online` and the clean-up of computers in store.go.
use stem_computing_desktop_p.Prelude.{
  ℕ, ◌≤◌, ◌≡◌, true, some, List, [], ◌∷◌, ◌++◌, arith, get_elem?, inl, inr, Option-cases,
}
use stem_computing_desktop_p.Text.{Text}
use stem_computing_desktop_p.Dict.{Dict, lookup}
use stem_computing_desktop_p.Model.{Time, ClientInfo}
use stem_computing_desktop_p.Store.{online, drop_stale, compact}
use stem_computing_desktop_p.App.{App}
use stem_computing_desktop_p.Poll.{Held}
use stem_computing_desktop_p.Poll.Count.{Reach, Reach-polling, held_at-remove}
use stem_computing_desktop_p.Poll.Count.Pointers.{polling_at, polling_at-some}

polling_at-held :
    {a : App} (xs : List Held) (k : Held) (ys : List Held)
    → Reach (a, xs ++ k ∷ ys)
    → 1 ≤ polling_at a.store.heap k.pointer
polling_at-held xs k ys r =
    grind (arith, Reach-polling r k.pointer, held_at-remove k.pointer xs k ys)

lookup-drop_stale :
    (now : Time) (heap : List ClientInfo) (m : Dict ℕ) (id : Text) (p : ℕ)
    → 1 ≤ polling_at heap p
    → lookup id m ≡ some p
    → lookup id (drop_stale now heap m) ≡ some p
unfolding lookup drop_stale
lookup-drop_stale now heap [] id p h f = cc
lookup-drop_stale now heap ((j, q) ∷ m) id p h f = elim (Option-cases (get_elem? heap q)) [
  | inl n ↦ ground (arith, n, lookup-drop_stale now heap m id p h)
  | inr (c, at) ↦
      ground (arith, at, polling_at-some heap q c at, lookup-drop_stale now heap m id p h)
]

-- While a poll is held, its computer is online and no clean-up forgets it.
pub Reach-online :
    {a : App} (xs : List Held) (k : Held) (ys : List Held) (now : Time) (id : Text) (c : ClientInfo)
    → Reach (a, xs ++ k ∷ ys)
    → lookup id a.store.clients ≡ some k.pointer
    → get_elem? a.store.heap k.pointer ≡ some c
    → (online c now ≡ true) × (lookup id (compact now a.store).clients ≡ some k.pointer)
unfolding online compact
Reach-online {a = a} xs k ys now id c r f at =
    let h = polling_at-held xs k ys r in
    (
      grind (arith, polling_at-some a.store.heap k.pointer c at),
      lookup-drop_stale now a.store.heap a.store.clients id k.pointer h f,
    )
