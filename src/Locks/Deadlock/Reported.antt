-- ===== src/Locks/Deadlock/Reported.antt =====
-- The cycles that `_detect_cycles` of pokerapp/lock_manager.py reports.
use poker_telegram_bot.Prelude.{
  ℕ, zero, suc, ◌≡◌, refl, ap, inl, inr, true, false, List, [], ◌∷◌, ◌++◌, length, reverse,
  reverse-append, contains, ◌==◌, All, Bool-cases, ==→eq, arith,
}
use poker_telegram_bot.Locks.Deadlock.{
  Graph, neighbors, Search, up_to, is_reported, report, look, explore, dfs, dfs_if_new, search_from,
  tasks, nodes, detect_cycles,
}

abbrev pub Edge : Graph → ℕ → ℕ → Type 0
Edge g u v = contains (neighbors g u) v ≡ true

-- Each task of the list waits for the next one.
abbrev pub Waits : Graph → List ℕ → Type 0
Waits g [] = Unit
Waits g (x ∷ []) = Unit
Waits g (x ∷ y ∷ xs) = Edge g x y × Waits g (y ∷ xs)

-- The same of a list whose newest task is its first.
abbrev Linked : Graph → List ℕ → Type 0
Linked g [] = Unit
Linked g (x ∷ []) = Unit
Linked g (x ∷ y ∷ xs) = Edge g y x × Linked g (y ∷ xs)

-- A list of tasks, each waiting for the next, that ends with the task that it began with.
pub record IsCycle (g : Graph) (c : List ℕ) : Type 0 where
  pub first : ℕ
  pub between : List ℕ
  pub shape : c ≡ first ∷ between ++ first ∷ []
  pub waits : Waits g c

Waits-end :
    (g : Graph) (xs : List ℕ) (y z : ℕ)
    → Waits g (xs ++ y ∷ [])
    → Edge g y z
    → Waits g ((xs ++ y ∷ []) ++ z ∷ [])
Waits-end g [] y z w e = (e, tt)
Waits-end g (x ∷ []) y z w e = (w.0, (e, tt))
Waits-end g (x ∷ x' ∷ xs) y z w e = (w.0, Waits-end g (x' ∷ xs) y z w.1 e)

Waits-reverse : (g : Graph) (xs : List ℕ) → Linked g xs → Waits g (reverse xs)
Waits-reverse g [] l = tt
Waits-reverse g (x ∷ []) l = tt
Waits-reverse g (x ∷ y ∷ xs) l = Waits-end g (reverse xs) y x (Waits-reverse g (y ∷ xs) l.1) l.0

up_to-end :
    (m : ℕ) (path : List ℕ) → contains path m ≡ true → (xs : List ℕ) × (up_to m path ≡ xs ++ m ∷ [])
up_to-end m [] h = absurd (cc)
up_to-end m (x ∷ path) h = elim (Bool-cases (x == m)) [
  | inl e ↦ ([], (rw e (ap (λ y. y ∷ []) (==→eq x m e))))
  | inr e ↦ let (xs, same) = up_to-end m path (rw e at h) in (x ∷ xs, rw e (ap (λ ys. x ∷ ys) same))
]

Linked-up_to :
    (g : Graph) (m x : ℕ) (path : List ℕ) → Linked g (x ∷ path) → Linked g (x ∷ up_to m path)
Linked-up_to g m x [] l = tt
Linked-up_to g m x (y ∷ path) l = elim (Bool-cases (y == m)) [
  | inl e ↦ rw e (l.0, tt)
  | inr e ↦ rw e (l.0, Linked-up_to g m y path l.1)
]

-- The list that the search reports when it meets `m` on its stack.
closed-IsCycle :
    (g : Graph) (m node : ℕ) (path : List ℕ)
    → Linked g (node ∷ path)
    → Edge g node m
    → contains (node ∷ path) m ≡ true
    → IsCycle g (reverse (up_to m (node ∷ path)) ++ m ∷ [])
closed-IsCycle g m node path l e h =
    let (xs, ends) = up_to-end m (node ∷ path) h in
    record {
      first = m;
      between = reverse xs;
      shape = rw ends (ap (λ ys. ys ++ m ∷ []) (reverse-append xs (m ∷ [])));
      waits = Waits-reverse g (m ∷ up_to m (node ∷ path)) (Linked-up_to g m m (node ∷ path) (e, l));
    }

All-end :
    (g : Graph) (cs : List (List ℕ)) (c : List ℕ)
    → All (IsCycle g) cs
    → IsCycle g c
    → All (IsCycle g) (cs ++ c ∷ [])
All-end g [] c a h = (h, tt)
All-end g (d ∷ cs) c a h = (a.0, All-end g cs c a.1 h)

module _ (visit : ℕ → Search → Search) (path : List ℕ) (m : ℕ) (s : Search) where
  pub look_new : contains s.visited m ≡ false → look visit path m s ≡ visit m s
  unfolding look
  look_new e = rw (look, e) refl

  pub look_on :
      contains s.visited m ≡ true
      → contains path m ≡ true
      → look visit path m s ≡ report (reverse (up_to m path) ++ m ∷ []) s
  unfolding look
  look_on e e' = rw (look, e, e') refl

  pub look_off : contains s.visited m ≡ true → contains path m ≡ false → look visit path m s ≡ s
  unfolding look
  look_off e e' = rw (look, e, e') refl

All-weaker :
    (x : ℕ) (xs ys : List ℕ)
    → All (λ v. contains xs v ≡ true) ys
    → All (λ v. contains (x ∷ xs) v ≡ true) ys
All-weaker x xs [] a = tt
All-weaker x xs (y ∷ ys) a = (ground (arith, a.0), All-weaker x xs ys a.1)

All-contains : (xs : List ℕ) → All (λ v. contains xs v ≡ true) xs
All-contains [] = tt
All-contains (x ∷ xs) = (ground (arith), All-weaker x xs xs (All-contains xs))

module _ (g : Graph) where
  -- What a call of `dfs` below the stack `path` keeps.
  abbrev Reports : List ℕ → (ℕ → Search → Search) → Type 0
  Reports path visit =
      (m : ℕ) (s : Search)
      → Linked g (m ∷ path)
      → All (IsCycle g) s.cycles
      → All (IsCycle g) (visit m s).cycles

  report-IsCycle :
      (c : List ℕ) (s : Search)
      → IsCycle g c
      → All (IsCycle g) s.cycles
      → All (IsCycle g) (report c s).cycles
  report-IsCycle c s h a = elim (Bool-cases (is_reported c s.cycles)) [
    | inl e ↦ rw e a
    | inr e ↦ rw e (All-end g s.cycles c a h)
  ]

  look-IsCycle :
      (visit : ℕ → Search → Search) (node : ℕ) (path : List ℕ) (m : ℕ) (s : Search)
      → Reports (node ∷ path) visit
      → Linked g (node ∷ path)
      → Edge g node m
      → All (IsCycle g) s.cycles
      → All (IsCycle g) (look visit (node ∷ path) m s).cycles
  look-IsCycle visit node path m s r l e a = elim (Bool-cases (contains s.visited m)) [
    | inr new ↦ rw (look_new visit (node ∷ path) m s new) (r m s (e, l) a)
    | inl old ↦ elim (Bool-cases (contains (node ∷ path) m)) [
      | inl on ↦ rw (look_on visit (node ∷ path) m s old on) (
          report-IsCycle (reverse (up_to m (node ∷ path)) ++ m ∷ []) s
            (closed-IsCycle g m node path l e on) a)
      | inr off ↦ rw (look_off visit (node ∷ path) m s old off) a
    ]
  ]

  explore-IsCycle :
      (visit : ℕ → Search → Search) (node : ℕ) (path ms : List ℕ) (s : Search)
      → Reports (node ∷ path) visit
      → Linked g (node ∷ path)
      → All (Edge g node) ms
      → All (IsCycle g) s.cycles
      → All (IsCycle g) (explore visit (node ∷ path) ms s).cycles
  explore-IsCycle visit node path [] s r l es a = a
  explore-IsCycle visit node path (m ∷ ms) s r l es a =
      explore-IsCycle visit node path ms (look visit (node ∷ path) m s) r l es.1
        (look-IsCycle visit node path m s r l es.0 a)

  dfs-IsCycle :
      (n : ℕ) (path : List ℕ) (node : ℕ) (s : Search)
      → Linked g (node ∷ path)
      → All (IsCycle g) s.cycles
      → All (IsCycle g) (dfs n g path node s).cycles
  unfolding dfs
  dfs-IsCycle zero path node s l a = a
  dfs-IsCycle (suc n) path node s l a =
      explore-IsCycle (λ m s'. dfs n g (node ∷ path) m s') node path (neighbors g node)
        (record s { visited = node ∷ s.visited })
        (λ m s' l' a'. dfs-IsCycle n (node ∷ path) m s' l' a') l (All-contains (neighbors g node)) a

  dfs_if_new-IsCycle :
      (n t : ℕ) (s : Search)
      → All (IsCycle g) s.cycles
      → All (IsCycle g) (dfs_if_new n g t s).cycles
  unfolding dfs_if_new
  dfs_if_new-IsCycle n t s a = elim (Bool-cases (contains s.visited t)) [
    | inl old ↦ rw (dfs_if_new, old) a
    | inr new ↦ rw (dfs_if_new, new) (dfs-IsCycle n [] t s tt a)
  ]

  search_from-IsCycle :
      (n : ℕ) (ts : List ℕ) (s : Search)
      → All (IsCycle g) s.cycles
      → All (IsCycle g) (search_from n g ts s).cycles
  unfolding search_from
  search_from-IsCycle n [] s a = a
  search_from-IsCycle n (t ∷ ts) s a =
      search_from-IsCycle n ts (dfs_if_new n g t s) (dfs_if_new-IsCycle n t s a)

  pub detect_cycles-IsCycle : All (IsCycle g) (detect_cycles g)
  unfolding detect_cycles
  detect_cycles-IsCycle =
      search_from-IsCycle (length (nodes g)) (tasks g) (record { visited = []; cycles = [] }) tt
