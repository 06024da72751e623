-- ===== src/Locks/Reentrant/Depths.antt =====
-- `ReentrantAsyncLock` of pokerapp/utils/locks.py against a depth for each task.
use mathlib.Core.Path.{subst}
use poker_telegram_bot.Prelude.{
  ℕ, zero, suc, ◌+◌, ◌-◌, ◌≡◌, ◌<◌, refl, sym, ap, ◌∙◌, inl, inr, true, false, Option, none, some,
  leb, ◌==◌, ==→eq, if◌then◌else◌, Bool-cases, arith,
}
use poker_telegram_bot.Locks.Reentrant.Defs.{
  ReentrantLock, new_lock, acquired, waits, acquire, released, ownership_error, decrement_depth,
  release,
}

-- How often each task holds the lock, after calls of any tasks in any order: a call of `acquire`
-- that waits or raises, or a `release` that raises, changes nothing.
abbrev pub bump : ℕ → (ℕ → ℕ) → ℕ → ℕ
bump t depth u = if t == u then depth u + 1 else depth u

abbrev pub lower : ℕ → (ℕ → ℕ) → ℕ → ℕ
lower t depth u = if t == u then depth u - 1 else depth u

pub data Calls : ReentrantLock → (ℕ → ℕ) → Type 0 where
  start : Calls new_lock (λ _. 0)
  acquires :
      {l l' : ReentrantLock} {depth : ℕ → ℕ} (t : ℕ)
      → Calls l depth
      → acquire (some t) l ≡ acquired l'
      → Calls l' (bump t depth)
  releases :
      {l l' : ReentrantLock} {depth : ℕ → ℕ} (t : ℕ)
      → Calls l depth
      → release (some t) l ≡ released l'
      → Calls l' (lower t depth)

-- The lock is free and nobody holds it, or its owner alone holds it, as often as it counts.
pub data Holds (l : ReentrantLock) (depth : ℕ → ℕ) : Type 0 where
  free :
      (l.locked ≡ false)
      → (l.owner_id ≡ none)
      → (l.count ≡ 0)
      → ((u : ℕ) → depth u ≡ 0)
      → Holds l depth
  held :
      (t : ℕ)
      → (l.locked ≡ true)
      → (l.owner_id ≡ some t)
      → (0 < l.count)
      → (depth t ≡ l.count)
      → ((u : ℕ) → (t == u) ≡ false → depth u ≡ 0)
      → Holds l depth

acquire-Holds :
    (t : ℕ) (l l' : ReentrantLock) (depth : ℕ → ℕ)
    → acquire (some t) l ≡ acquired l'
    → Holds l depth
    → Holds l' (bump t depth)
unfolding acquire
acquire-Holds t l l' depth h (free a b c d) =
    held t (ground (arith)) (ground (arith)) (ground (arith)) (ground (arith, d t))
      (λ u n. ground (arith, d u))
acquire-Holds t l l' depth h (held o a b c d e) = elim (Bool-cases (o == t)) [
  | inl same ↦
      held o (ground (arith)) (ground (arith)) (ground (arith)) (ground (arith))
        (λ u n. ground (arith, e u))
  | inr other ↦ absurd (ground (arith))
]

release-Holds :
    (t : ℕ) (l l' : ReentrantLock) (depth : ℕ → ℕ)
    → release (some t) l ≡ released l'
    → Holds l depth
    → Holds l' (lower t depth)
unfolding release
release-Holds t l l' depth h (free a b c d) = absurd (ground (arith))
release-Holds t l l' depth h (held o a b c d e) = elim (Bool-cases (o == t)) [
  | inl same ↦ elim (Bool-cases (leb (l.count - 1) 0)) [
    | inl last ↦ free (ground (arith)) (ground (arith)) (ground (arith)) (λ u. ground (arith, e u))
    | inr more ↦
        held o (ground (arith)) (ground (arith)) (ground (arith)) (ground (arith))
          (λ u n. ground (arith, e u))
  ]
  | inr other ↦ absurd (ground (arith))
]

Calls-Holds : {l : ReentrantLock} {depth : ℕ → ℕ} → Calls l depth → Holds l depth
Calls-Holds start = free refl refl refl (λ _. refl)
Calls-Holds (acquires {l} {l'} {depth} t before h) =
    acquire-Holds t l l' depth h (Calls-Holds before)
Calls-Holds (releases {l} {l'} {depth} t before h) =
    release-Holds t l l' depth h (Calls-Holds before)

-- The lock as its callers may rely on it: only one task holds it; the holder takes it again at
-- once, and anyone else waits while it is held; the holder may release it, and anyone else is told
-- that the lock is not theirs.
pub record Promise (l : ReentrantLock) (depth : ℕ → ℕ) : Type 0 where
  pub one_holder : (t u : ℕ) → 0 < depth t → 0 < depth u → t ≡ u
  pub again :
      (t : ℕ) → 0 < depth t → acquire (some t) l ≡ acquired (record l { count = depth t + 1 })
  pub others_wait : (t u : ℕ) → 0 < depth t → depth u ≡ 0 → acquire (some u) l ≡ waits
  pub others_cannot_release : (u : ℕ) → depth u ≡ 0 → release (some u) l ≡ ownership_error
  pub holder_releases :
      (t : ℕ) → 0 < depth t → (l' : ReentrantLock) × (release (some t) l ≡ released l')

module _ {l : ReentrantLock} {depth : ℕ → ℕ} where
  free-Promise :
      (l.locked ≡ false) → (l.owner_id ≡ none) → ((u : ℕ) → depth u ≡ 0) → Promise l depth
  unfolding acquire release
  free-Promise a b d = record {
    one_holder = λ t u p q. absurd (ground (arith, d t));
    again = λ t p. absurd (ground (arith, d t));
    others_wait = λ t u p q. absurd (ground (arith, d t));
    others_cannot_release = λ u q. ground (arith);
    holder_releases = λ t p. absurd (ground (arith, d t));
  }

  held-Promise :
      (o : ℕ)
      → (l.locked ≡ true)
      → (l.owner_id ≡ some o)
      → (0 < l.count)
      → (depth o ≡ l.count)
      → ((u : ℕ) → (o == u) ≡ false → depth u ≡ 0)
      → Promise l depth
  unfolding acquire release
  held-Promise o a b c d e = record {
    one_holder = λ t u p q. sym (is_holder t p) ∙ is_holder u q;
    again = λ t p.
        subst (λ k. acquire (some k) l ≡ acquired (record l { count = depth k + 1 }))
          (is_holder t p) (ground (arith));
    others_wait = λ t u p q. ground (arith, not_holder u q);
    others_cannot_release = λ u q. ground (arith, not_holder u q);
    holder_releases = λ t p.
        subst (λ k. (l' : ReentrantLock) × (release (some k) l ≡ released l')) (is_holder t p)
          (decrement_depth l, ground (arith));
  }
    where
      is_holder : (t : ℕ) → 0 < depth t → o ≡ t
      is_holder t p = elim (Bool-cases (o == t)) [
        | inl same ↦ ==→eq o t same
        | inr other ↦ absurd (omega (arith, e t other))
      ]

      not_holder : (u : ℕ) → depth u ≡ 0 → (o == u) ≡ false
      not_holder u q = elim (Bool-cases (o == u)) [
        | inr other ↦ other
        | inl same ↦ absurd (ground (arith, d, ==→eq o u same))
      ]

-- Whatever tasks have called `acquire` and `release` in whatever order, the lock keeps its promise
-- for the numbers of times that each task holds it.
pub reentrant_lock-Promise : {l : ReentrantLock} {depth : ℕ → ℕ} → Calls l depth → Promise l depth
reentrant_lock-Promise calls = elim (Calls-Holds calls) [
  | free a b c d ↦ free-Promise a b d
  | held t a b c d e ↦ held-Promise t a b c d e
]

-- `release` called `n` times by one task.
abbrev pub release_times : ℕ → ℕ → ReentrantLock → Option ReentrantLock
release_times zero t l = some l
release_times (suc n) t l = elim (release (some t) l) [
  | released l' ↦ release_times n t l'
  | _ ↦ none
]

count_down :
    (n t : ℕ) (l : ReentrantLock)
    → l.locked ≡ true
    → l.owner_id ≡ some t
    → l.count ≡ suc n
    → release_times (suc n) t l ≡ some new_lock
unfolding release
count_down zero t l a b c =
    let last : release (some t) l ≡ released new_lock = ground (arith) in
    rw (release_times, last) refl
count_down (suc n) t l a b c =
    let more : release (some t) l ≡ released (record l { count = l.count - 1 }) = ground (arith) in
    rw (release_times, more) (count_down n t (record l { count = l.count - 1 }) a b (omega arith))

-- The lock comes free: its holder can release it as often as it holds it, after which it is as new
-- and any task that waited takes it.
pub holder_frees :
    {l : ReentrantLock} {depth : ℕ → ℕ} (t u : ℕ)
    → Calls l depth
    → 0 < depth t
    → (release_times (depth t) t l ≡ some new_lock)
      × (acquire (some u) new_lock
          ≡ acquired (record { locked = true; owner_id = some u; count = 1 }))
unfolding acquire
holder_frees {l} {depth} t u calls p = (frees (Calls-Holds calls), refl)
  where
    frees : Holds l depth → release_times (depth t) t l ≡ some new_lock
    frees (free a b c d) = absurd (omega (arith, d t))
    frees (held o a b c d e) = elim (Bool-cases (o == t)) [
      | inr other ↦ absurd (omega (arith, e t other))
      | inl same ↦
          let mine = ==→eq o t same in
          let n : depth t ≡ suc (l.count - 1) =
            subst (λ k. depth k ≡ suc (l.count - 1)) mine (omega arith) in
          rw n (count_down (l.count - 1) t l a (b ∙ ap some mine) (omega arith))
    ]
