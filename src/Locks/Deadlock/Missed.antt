-- ===== src/Locks/Deadlock/Missed.antt =====
-- What `_detect_cycles` of pokerapp/lock_manager.py cannot miss.
use mathlib.Core.Path.{subst}
use poker_telegram_bot.Prelude.{
  contains-append_left, contains-append_right, ℕ, zero, suc, ◌≤◌, ◌≡◌, refl, ap, ◌∙◌, inl, inr,
  true, false, List, [], ◌∷◌, ◌++◌, reverse, contains, ◌==◌, Bool-cases, ==→eq, arith,
}
use poker_telegram_bot.Locks.Deadlock.{
  Graph, neighbors, Search, up_to, look, explore, dfs, dfs_if_new, search_from, nodes,
}
use poker_telegram_bot.Locks.Deadlock.Progress.{
  open_among, open_among_mono, open_among_less, Grown, Grown-then, reported_not_nil, report_visited,
  only,
}
use poker_telegram_bot.Locks.Deadlock.Reported.{Edge, look_new, look_on, look_off}

-- A task from which every chain of waits comes to an end.
pub data Ends (g : Graph) : ℕ → Type 0 where
  ends : {v : ℕ} → ((w : ℕ) → Edge g v w → Ends g w) → Ends g v

module _ (g : Graph) where
  -- The tasks that the search has left behind all end, as long as it reports nothing.
  abbrev pub Left : List ℕ → Search → Type 0
  Left path s =
      s.cycles ≡ [] → (v : ℕ) → contains s.visited v ≡ true → contains path v ≡ false → Ends g v

  pub record After (path ms : List ℕ) (s s' : Search) : Type 0 where
    pub grown : Grown s s'
    pub left : Left path s'
    pub all_end : s'.cycles ≡ [] → (w : ℕ) → contains ms w ≡ true → Ends g w

  -- What a call of `dfs` on fuel `n` below the stack `path` does.
  abbrev Visits : ℕ → List ℕ → (ℕ → Search → Search) → Type 0
  Visits n path visit =
      (m : ℕ) (s : Search)
      → contains s.visited m ≡ false
      → contains (nodes g) m ≡ true
      → open_among (nodes g) s.visited ≤ n
      → Left path s
      → After path (m ∷ []) s (visit m s)

  look-After :
      (n : ℕ) (visit : ℕ → Search → Search) (path : List ℕ) (m : ℕ) (s : Search)
      → Visits n path visit
      → contains (nodes g) m ≡ true
      → open_among (nodes g) s.visited ≤ n
      → Left path s
      → After path (m ∷ []) s (look visit path m s)
  look-After n visit path m s v named few l = elim (Bool-cases (contains s.visited m)) [
    | inr new ↦ rw (look_new visit path m s new) (v m s new named few l)
    | inl old ↦ elim (Bool-cases (contains path m)) [
      | inl on ↦
          let none_left = reported_not_nil (reverse (up_to m path) ++ m ∷ []) s in
          rw (look_on visit path m s old on) (record {
            grown = record {
              seen = λ u h. ap (λ vs. contains vs u) (report_visited _ s) ∙ h;
              kept = λ h. absurd (none_left h);
            };
            left = λ h. absurd (none_left h);
            all_end = λ h. absurd (none_left h);
          })
      | inr off ↦ rw (look_off visit path m s old off) (record {
        grown = record { seen = λ u h. h; kept = λ h. h };
        left = l;
        all_end = λ h w k. subst (λ u. Ends g u) (only m w k) (l h m old off);
      })
    ]
  ]

  explore-After :
      (n : ℕ) (visit : ℕ → Search → Search) (path ms : List ℕ) (s : Search)
      → Visits n path visit
      → ((w : ℕ) → contains ms w ≡ true → contains (nodes g) w ≡ true)
      → open_among (nodes g) s.visited ≤ n
      → Left path s
      → After path ms s (explore visit path ms s)
  explore-After n visit path [] s v named few l = record {
    grown = record { seen = λ u h. h; kept = λ h. h };
    left = l;
    all_end = λ h w k. absurd (ground (arith));
  }
  explore-After n visit path (m ∷ ms) s v named few l =
      let first = look-After n visit path m s v (named m (ground (arith))) few l in
      let fewer =
        open_among_mono (nodes g) s.visited (look visit path m s).visited first.grown.seen in
      let rest =
        explore-After n visit path ms (look visit path m s) v (λ w k. named w (ground (arith, k)))
          (omega (arith, fewer)) first.left in
      record {
        grown = Grown-then s (look visit path m s) _ first.grown rest.grown;
        left = rest.left;
        all_end = λ h w k. elim (Bool-cases (m == w)) [
          | inl e ↦ first.all_end (rest.grown.kept h) w (ground (arith, e))
          | inr e ↦ rest.all_end h w (ground (arith, e))
        ];
      }

  neighbors_named : (v w : ℕ) → Edge g v w → contains (nodes g) w ≡ true
  neighbors_named v w e = named g e
    where
      named : (g : Graph) → contains (neighbors g v) w ≡ true → contains (nodes g) w ≡ true
      named [] h = absurd (ground (arith))
      named ((t, owners) ∷ g) h = elim (Bool-cases (t == v)) [
        | inl e ↦ ground (arith, contains-append_left w owners (nodes g) (rw e at h))
        | inr e ↦ ground (arith, contains-append_right w owners (nodes g) (named g (rw e at h)))
      ]

  dfs-After : (n : ℕ) (path : List ℕ) → Visits n path (λ m s. dfs n g path m s)
  unfolding dfs
  dfs-After zero path m s new named few l =
      absurd (omega (arith, open_among_less (nodes g) s.visited m named new))
  dfs-After (suc n) path m s new named few l =
      let fewer = open_among_less (nodes g) s.visited m named new in
      let inner =
        explore-After n (λ k s'. dfs n g (m ∷ path) k s') (m ∷ path) (neighbors g m)
          (record s { visited = m ∷ s.visited }) (dfs-After n (m ∷ path)) (neighbors_named m)
          (omega (arith, fewer))
          (λ h v seen off. l h v (ground (arith, seen, off)) (ground (arith, off))) in
      record {
        grown = record {
          seen = λ v h. inner.grown.seen v (ground (arith, h));
          kept = inner.grown.kept;
        };
        left = λ h v seen off. elim (Bool-cases (m == v)) [
          | inl e ↦ subst (λ u. Ends g u) (==→eq m v e) (ends (inner.all_end h))
          | inr e ↦ inner.left h v seen (ground (arith, e, off))
        ];
        all_end = λ h w k. subst (λ u. Ends g u) (only m w k) (ends (inner.all_end h));
      }

  dfs_if_new-After :
      (n t : ℕ) (s : Search)
      → contains (nodes g) t ≡ true
      → open_among (nodes g) s.visited ≤ n
      → Left [] s
      → After [] (t ∷ []) s (dfs_if_new n g t s)
  unfolding dfs_if_new
  dfs_if_new-After n t s named few l = elim (Bool-cases (contains s.visited t)) [
    | inl old ↦
        rw (dfs_if_new, old)
          (record {
            grown = record { seen = λ u h. h; kept = λ h. h };
            left = l;
            all_end = λ h w k. subst (λ u. Ends g u) (only t w k) (l h t old refl);
          })
    | inr new ↦ rw (dfs_if_new, new) (dfs-After n [] t s new named few l)
  ]

  pub search_from-After :
      (n : ℕ) (ts : List ℕ) (s : Search)
      → ((w : ℕ) → contains ts w ≡ true → contains (nodes g) w ≡ true)
      → open_among (nodes g) s.visited ≤ n
      → Left [] s
      → After [] ts s (search_from n g ts s)
  unfolding search_from
  search_from-After n [] s named few l = record {
    grown = record { seen = λ u h. h; kept = λ h. h };
    left = l;
    all_end = λ h w k. absurd (ground (arith));
  }
  search_from-After n (t ∷ ts) s named few l =
      let first = dfs_if_new-After n t s (named t (ground (arith))) few l in
      let fewer =
        open_among_mono (nodes g) s.visited (dfs_if_new n g t s).visited first.grown.seen in
      let rest =
        search_from-After n ts (dfs_if_new n g t s) (λ w k. named w (ground (arith, k)))
          (omega (arith, fewer)) first.left in
      record {
        grown = Grown-then s (dfs_if_new n g t s) _ first.grown rest.grown;
        left = rest.left;
        all_end = λ h w k. elim (Bool-cases (t == w)) [
          | inl e ↦ first.all_end (rest.grown.kept h) w (ground (arith, e))
          | inr e ↦ rest.all_end h w (ground (arith, e))
        ];
      }
