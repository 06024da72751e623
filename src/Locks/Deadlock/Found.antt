-- ===== src/Locks/Deadlock/Found.antt =====
-- Which cycles `_detect_cycles` of pokerapp/lock_manager.py finds.
use mathlib.Core.Path.{subst}
use poker_telegram_bot.Prelude.{
  contains-append_right, ℕ, ◌≡◌, ◌↔◌, refl, inl, inr, true, false, List, [], ◌∷◌, ◌++◌, length,
  contains, ◌==◌, length-keep-le, All, Bool-cases, arith,
}
use poker_telegram_bot.Locks.Deadlock.{Graph, neighbors, Search, tasks, nodes, detect_cycles}
use poker_telegram_bot.Locks.Deadlock.Reported.{Edge, Waits, IsCycle, detect_cycles-IsCycle}
use poker_telegram_bot.Locks.Deadlock.Missed.{Ends, ends, search_from-After}

-- A chain of one or more waits from one task to another.
pub data Chain (waits : ℕ → ℕ → Type 0) : ℕ → ℕ → Type 0 where
  one : {u v : ℕ} → waits u v → Chain waits u v
  more : {u v w : ℕ} → waits u v → Chain waits v w → Chain waits u w

module _ (waits : ℕ → ℕ → Type 0) where
  last : {u v w : ℕ} → Chain waits u v → waits v w → Chain waits u w
  last (one e) f = more e (one f)
  last (more e c) f = more e (last c f)

Ends-no_chain : (g : Graph) {v : ℕ} → Ends g v → Chain (Edge g) v v → ⊥
Ends-no_chain g (ends next) (one e) = Ends-no_chain g (next _ e) (one e)
Ends-no_chain g (ends next) (more e c) = Ends-no_chain g (next _ e) (last (Edge g) c e)

named_task : (g : Graph) (w : ℕ) → contains (tasks g) w ≡ true → contains (nodes g) w ≡ true
named_task [] w h = h
named_task ((t, owners) ∷ g) w h = elim (Bool-cases (t == w)) [
  | inl e ↦ ground (arith, e)
  | inr e ↦
      ground
        (arith, e, contains-append_right w owners (nodes g) (named_task g w (ground (arith, e))))
]

no_task : (g : Graph) (w : ℕ) → contains (tasks g) w ≡ false → neighbors g w ≡ []
no_task [] w h = refl
no_task ((t, owners) ∷ g) w h = elim (Bool-cases (t == w)) [
  | inl e ↦ absurd (ground (arith, e))
  | inr e ↦ rw e (no_task g w (ground (arith, e)))
]

nothing_found-Ends : (g : Graph) → detect_cycles g ≡ [] → (t : ℕ) → Ends g t
unfolding detect_cycles
nothing_found-Ends g h t =
    let start : Search = record { visited = []; cycles = [] } in
    let all =
      search_from-After g (length (nodes g)) (tasks g) start (named_task g)
        (length-keep-le (λ v. true) (nodes g)) (λ h v k off. absurd (ground (arith))) in
    elim (Bool-cases (contains (tasks g) t)) [
      | inl k ↦ all.all_end h t k
      | inr k ↦ ends (λ w e. absurd (ground (arith, no_task g t k)))
    ]

chain_of : (g : Graph) (x y : ℕ) (xs : List ℕ) → Waits g (x ∷ xs ++ y ∷ []) → Chain (Edge g) x y
chain_of g x y [] w = one w.0
chain_of g x y (z ∷ xs) w = more w.0 (chain_of g z y xs w.1)

IsCycle-Chain : (g : Graph) (c : List ℕ) (h : IsCycle g c) → Chain (Edge g) h.first h.first
IsCycle-Chain g c h = chain_of g h.first h.first h.between (subst (λ x. Waits g x) h.shape h.waits)

pub detect_cycles_lem : (g : Graph) → (detect_cycles g ≡ []) ↔ ((t : ℕ) → ¬ Chain (Edge g) t t)
detect_cycles_lem g = (
  λ h t c. Ends-no_chain g (nothing_found-Ends g h t) c,
  λ h. by_cycles (detect_cycles g) refl (detect_cycles-IsCycle g) h,
)
  where
    by_cycles :
        (cs : List (List ℕ))
        → detect_cycles g ≡ cs
        → All (IsCycle g) (detect_cycles g)
        → ((t : ℕ) → ¬ Chain (Edge g) t t)
        → detect_cycles g ≡ []
    by_cycles [] e a h = e
    by_cycles (c ∷ cs) e a h =
        let real = (rw e at a).0 in absurd (h real.first (IsCycle-Chain g c real))
