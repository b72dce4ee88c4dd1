-- ===== src/Poll/Hub.antt =====
-- `hub` of server/api_client.go: a channel that is closed and replaced each time the polls are woken. The
-- channels are numbered in the order in which they are made.
use stem_computing_desktop_p.Prelude.{
  ℕ, zero, suc, ◌≡◌, refl, Bool, List, [], ◌∷◌, arith, any, ltb, ◌==◌, ==_iff,
}

pub record Hub : Type 0 where
  pub ch : ℕ
  -- the channels that are closed
  pub closed : List ℕ

abbrev pub new_hub : Hub
new_hub = record { ch = 0; closed = [] }

-- wait
abbrev pub wait : Hub → ℕ
wait h = h.ch

-- wake
abbrev pub wake_all : Hub → Hub
wake_all h = record { ch = suc h.ch; closed = h.ch ∷ h.closed }

-- whether a receive from the channel goes on
abbrev pub is_closed : ℕ → Hub → Bool
is_closed k h = any (λ n. n == k) h.closed

-- the hub of an `App` that has been woken so many times
unfoldable pub hub_after : ℕ → Hub
hub_after zero = new_hub
hub_after (suc n) = wake_all (hub_after n)

wait-hub_after : (n : ℕ) → wait (hub_after n) ≡ n
unfolding hub_after
wait-hub_after zero = refl
wait-hub_after (suc n) = ground (arith, wait-hub_after n)

-- After n wakes the hub gives out channel n, which is open, so the next wake closes no channel twice; and
-- a channel that was given out before is closed.
pub hub_after-closed : (n k : ℕ) → (wait (hub_after n) ≡ n) × (is_closed k (hub_after n) ≡ ltb k n)
unfolding hub_after
hub_after-closed zero k = (refl, ground arith)
hub_after-closed (suc n) k =
    let (at, rest) = hub_after-closed n k in
    (ground (arith, at), ground (arith, at, rest, ==_iff n k))
