-- ===== src/LoginLimiter/Window.antt =====
-- Pruning a stored list against selecting from the whole history.
use shopify_gmc.Base.{ℕ, ◌+◌, ◌≤◌, ◌<◌, ◌≡◌, refl, List, [], ◌∷◌, ◌++◌, ltb, All, All-append, arith}
use shopify_gmc.Base.Int.{pos, ◌-ℤ◌, ltb_ℤ}
use shopify_gmc.LoginLimiter.{window, prune_before}
use shopify_gmc.LoginLimiter.History.{recent}

abbrev pub IsSorted : List ℕ → Type 0
IsSorted [] = Unit
IsSorted (t ∷ ts) = All (λ u. t ≤ u) ts × IsSorted ts

pub IsSorted-append :
    (ts : List ℕ) (now : ℕ) → IsSorted ts → All (λ u. u ≤ now) ts → IsSorted (ts ++ now ∷ [])
IsSorted-append [] now s h = (tt, tt)
IsSorted-append (t ∷ ts) now s h =
    (All-append (λ u. t ≤ u) ts (now ∷ []) s.0 (h.0, tt), IsSorted-append ts now s.1 h.1)

pub All-le_trans : (ts : List ℕ) (a b : ℕ) → a ≤ b → All (λ u. u ≤ a) ts → All (λ u. u ≤ b) ts
All-le_trans [] a b h k = tt
All-le_trans (t ∷ ts) a b h k = (omega (arith, k.0), All-le_trans ts a b h k.1)

recent-All : (ts : List ℕ) (now t : ℕ) → now < t + window → All (λ u. t ≤ u) ts → recent now ts ≡ ts
recent-All [] now t h a = refl
recent-All (u ∷ ts) now t h a = ground (arith, recent-All ts now t h a.1, a.0)

in_window : (now t : ℕ) → ltb_ℤ (pos now -ℤ pos window) (pos t) ≡ ltb now (t + window)
unfolding ◌-ℤ◌
in_window now t = ground arith

-- What was pruned at `c` and is pruned again at `now` is what is recent at `now`.
pub prune_before-recent :
    (ts : List ℕ) (c now : ℕ)
    → c ≤ now
    → IsSorted ts
    → prune_before (recent c ts) (pos now -ℤ pos window) ≡ recent now ts
unfolding prune_before
prune_before-recent [] c now h s = refl
prune_before-recent (t ∷ ts) c now h s = ground (
  arith,
  recent-All ts now t,
  recent-All ts c t,
  in_window now t,
  prune_before-recent ts c now h s.1,
)
