-- ===== src/Locks/Deadlock/Progress.antt =====
-- How the search of `_detect_cycles` of pokerapp/lock_manager.py goes on.
use poker_telegram_bot.Prelude.{
  ℕ, suc, ◌≤◌, ◌≡◌, refl, ap, ◌∙◌, inl, inr, true, false, not, List, [], ◌∷◌, ◌++◌, length,
  contains, ◌==◌, keep, Bool-cases, ==→eq, arith, tests,
}
use poker_telegram_bot.Locks.Deadlock.{Search, is_reported, report}

-- How many of the names `us` the search has not visited.
abbrev pub open_among : List ℕ → List ℕ → ℕ
open_among us vs = length (keep (λ v. not (contains vs v)) us)

pub open_among_mono :
    (us vs ws : List ℕ)
    → ((v : ℕ) → contains vs v ≡ true → contains ws v ≡ true)
    → open_among us ws ≤ open_among us vs
open_among_mono [] vs ws sub = omega arith
open_among_mono (u ∷ us) vs ws sub =
    let rest = open_among_mono us vs ws sub in
    elim (Bool-cases (contains vs u)) [
      | inl e ↦ ground (arith, rest, e, sub u e)
      | inr e ↦ elim (Bool-cases (contains ws u)) [
        | inl e' ↦ ground (arith, rest, e, e')
        | inr e' ↦ ground (arith, rest, e, e')
      ]
    ]

pub open_among_less :
    (us vs : List ℕ) (m : ℕ)
    → contains us m ≡ true
    → contains vs m ≡ false
    → suc (open_among us (m ∷ vs)) ≤ open_among us vs
open_among_less [] vs m h n = absurd (cc)
open_among_less (u ∷ us) vs m h n = elim (Bool-cases (u == m)) [
  | inl e ↦
      let rest = open_among_mono us vs (m ∷ vs) (λ v k. ground (arith, k)) in
      let same : u ≡ m = ==→eq u m e in
      let out : contains vs u ≡ false = ap (λ x. contains vs x) same ∙ n in
      let on : (m == u) ≡ true = ground (arith, same) in ground (arith, rest, out, on)
  | inr e ↦
      let rest = open_among_less us vs m (rw e at h) n in
      let same : contains (m ∷ vs) u ≡ contains vs u = ground (arith, e) in
      elim (Bool-cases (contains vs u)) [
        | inl e' ↦ ground (arith, rest, same, e')
        | inr e' ↦ ground (arith, rest, same, e')
      ]
]

-- What a part of the search does not undo.
pub record Grown (s s' : Search) : Type 0 where
  pub seen : (v : ℕ) → contains s.visited v ≡ true → contains s'.visited v ≡ true
  pub kept : s'.cycles ≡ [] → s.cycles ≡ []

pub Grown-then : (s t u : Search) → Grown s t → Grown t u → Grown s u
Grown-then s t u a b = record { seen = λ v h. b.seen v (a.seen v h); kept = λ h. a.kept (b.kept h) }

not_nil : (cs : List (List ℕ)) (c : List ℕ) → cs ++ c ∷ [] ≡ [] → ⊥
not_nil [] c h = cc
not_nil (d ∷ cs) c h = cc

pub reported_not_nil : (c : List ℕ) (s : Search) → (report c s).cycles ≡ [] → ⊥
reported_not_nil c s h = elim (Bool-cases (is_reported c s.cycles)) [
  | inl e ↦ by_cycles s.cycles refl e (rw e at h)
  | inr e ↦ not_nil s.cycles c (rw e at h)
]
  where
    by_cycles :
        (cs : List (List ℕ)) → s.cycles ≡ cs → is_reported c s.cycles ≡ true → s.cycles ≡ [] → ⊥
    by_cycles [] e i h = absurd (ground (arith, e))
    by_cycles (d ∷ cs) e i h = cc

pub report_visited : (c : List ℕ) (s : Search) → (report c s).visited ≡ s.visited
report_visited c s = elim (Bool-cases (is_reported c s.cycles)) [
  | inl e ↦ rw e refl
  | inr e ↦ rw e refl
]

pub only : (m w : ℕ) → contains (m ∷ []) w ≡ true → m ≡ w
only m w h = grind tests
