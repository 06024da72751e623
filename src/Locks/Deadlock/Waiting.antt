-- ===== src/Locks/Deadlock/Waiting.antt =====
-- Which deadlocks `detect_deadlock` of pokerapp/lock_manager.py finds.
use Prim.Native.String.{String}
use poker_telegram_bot.Prelude.{
  contains-append_one, or_false, and_false, ℕ, ◌≡◌, ◌↔◌, refl, sym, ap, ◌∙◌, inl, inr, Bool, true,
  false, not, ◌&&◌, ◌||◌, Option, none, some, List, [], ◌∷◌, ◌++◌, contains, ◌==◌, if◌then◌else◌,
  All, Bool-cases, ==→eq, arith,
}
use poker_telegram_bot.Locks.Levels.{LockAcquisition}
use poker_telegram_bot.Locks.Deadlock.{
  Graph, neighbors, owner_of, add_owner, add_wait, dependency_graph, detect_deadlock,
}
use poker_telegram_bot.Locks.Deadlock.Found.{Chain, one, more, detect_cycles_lem}
use poker_telegram_bot.Locks.Deadlock.Reported.{Edge, IsCycle, detect_cycles-IsCycle}

-- `t` waits for a lock that `w` has, and is not `w` itself.
abbrev pub waits_for : (String → Option ℕ) → List (ℕ × String) → ℕ → ℕ → Bool
waits_for owner [] t w = false
waits_for owner ((u, key) ∷ waiting) t w =
    u == t && (elim (owner key) [ none ↦ false | some o ↦ o == w && not (o == u) ])
    || waits_for owner waiting t w

with_owner :
    (os : List ℕ) (o w : ℕ)
    → contains (if contains os o then os else os ++ o ∷ []) w ≡ (o == w || contains os w)
with_owner os o w = elim (Bool-cases (contains os o)) [
  | inr new ↦ rw new (ground (arith, contains-append_one os o w))
  | inl old ↦ elim (Bool-cases (o == w)) [
    | inl e ↦
        let same : contains os w ≡ true = ap (λ x. contains os x) (sym (==→eq o w e)) ∙ old in
        rw old (ground (arith, same, e))
    | inr e ↦ rw old (ground (arith, e))
  ]
]

add_owner_lem :
    (t o : ℕ) (g : Graph) (u w : ℕ)
    → contains (neighbors (add_owner t o g) u) w ≡ (t == u && o == w || contains (neighbors g u) w)
add_owner_lem t o [] u w = elim (Bool-cases (t == u)) [
  | inl e ↦ ground (arith, e)
  | inr e ↦ ground (arith, e)
]
add_owner_lem t o ((v, owners) ∷ g) u w = elim (Bool-cases (v == t)) [
  | inl e ↦ elim (Bool-cases (v == u)) [
    | inl e' ↦ ground (arith, e, e', with_owner owners o w)
    | inr e' ↦ ground (arith, e, e')
  ]
  | inr e ↦ elim (Bool-cases (v == u)) [
    | inl e' ↦ ground (arith, e, e')
    | inr e' ↦ ground (arith, e, e', add_owner_lem t o g u w)
  ]
]

or_shift : (a b c : Bool) → (a || (b || c)) ≡ ((b || a) || c)
or_shift true true c = refl
or_shift true false c = refl
or_shift false true c = refl
or_shift false false c = refl

dependency_graph_lem :
    (owner : String → Option ℕ) (waiting : List (ℕ × String)) (g : Graph) (u w : ℕ)
    → contains (neighbors (dependency_graph owner waiting g) u) w
      ≡ (waits_for owner waiting u w || contains (neighbors g u) w)
unfolding dependency_graph
dependency_graph_lem owner [] g u w = refl
dependency_graph_lem owner ((t, key) ∷ waiting) g u w =
    let later = dependency_graph_lem owner waiting (add_wait t (owner key) g) u w in
    later ∙ by_owner (owner key)
  where
    by_owner :
        (o : Option ℕ)
        → (waits_for owner waiting u w || contains (neighbors (add_wait t o g) u) w) ≡ (
            (t == u && (elim o [ none ↦ false | some x ↦ x == w && not (x == t) ])
              || waits_for owner waiting u w)
            || contains (neighbors g u) w)
    by_owner none =
        or_shift (waits_for owner waiting u w) false _
        ∙ ap (λ b. (b || waits_for owner waiting u w) || contains (neighbors g u) w)
            (sym (and_false (t == u)))
    by_owner (some x) = elim (Bool-cases (x == t)) [
      | inl e ↦ ground (
        arith,
        e,
        and_false (t == u),
        and_false (x == w),
        or_shift (waits_for owner waiting u w) false (contains (neighbors g u) w),
      )
      | inr e ↦ ground (
        arith,
        e,
        add_owner_lem t x g u w,
        or_shift (waits_for owner waiting u w) (t == u && x == w) (contains (neighbors g u) w),
      )
    ]

Chain-map :
    (P Q : ℕ → ℕ → Type 0) → ((u v : ℕ) → P u v → Q u v) → {u v : ℕ} → Chain P u v → Chain Q u v
Chain-map P Q f (one e) = one (f _ _ e)
Chain-map P Q f (more e c) = more (f _ _ e) (Chain-map P Q f c)

module _ (states : List (ℕ × List LockAcquisition)) (waiting : List (ℕ × String))
    (lock_owner : String → Option ℕ) where
  abbrev pub waits_graph : Graph
  waits_graph = dependency_graph (owner_of states lock_owner) waiting []

  abbrev pub Blocked : ℕ → ℕ → Type 0
  Blocked t w = waits_for (owner_of states lock_owner) waiting t w ≡ true

  Edge-Blocked :
      (t w : ℕ)
      → contains (neighbors waits_graph t) w ≡ waits_for (owner_of states lock_owner) waiting t w
  Edge-Blocked t w = dependency_graph_lem (owner_of states lock_owner) waiting [] t w ∙ or_false _

  -- Every cycle that `detect_deadlock` reports is a list of tasks, each waiting for a lock that the
  -- next one has, and the last of them is the first.
  pub deadlock_reported :
      All (IsCycle waits_graph) (detect_deadlock states waiting lock_owner)
      × ((t w : ℕ) → Edge waits_graph t w ↔ Blocked t w)
  unfolding detect_deadlock
  deadlock_reported = (
    detect_cycles-IsCycle waits_graph,
    λ t w. (λ h. sym (Edge-Blocked t w) ∙ h, λ h. Edge-Blocked t w ∙ h),
  )

  -- `detect_deadlock` reports no cycle if and only if there is none: no chain of tasks, each waiting
  -- for a lock that the next one has, leads from a task back to it.
  pub deadlock_found :
      (detect_deadlock states waiting lock_owner ≡ []) ↔ ((t : ℕ) → ¬ Chain Blocked t t)
  unfolding detect_deadlock
  deadlock_found =
      let (sound, full) = detect_cycles_lem waits_graph in
      (
        λ h t c. sound h t (Chain-map Blocked (Edge waits_graph) (λ u v e. Edge-Blocked u v ∙ e) c),
        λ h. full (λ t c.
            h t (Chain-map (Edge waits_graph) Blocked (λ u v e. sym (Edge-Blocked u v) ∙ e) c)),
      )
