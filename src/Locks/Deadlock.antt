-- ===== src/Locks/Deadlock.antt =====
-- `detect_deadlock` and `_detect_cycles` of pokerapp/lock_manager.py. Tasks are numbers, and a task
-- stands for its own description. The search's stack, newest task first, is an argument: a call
-- leaves it as it was, and the set of its members with it. The depth of the calls is fuel, one for
-- each name in the graph. A set is a list in the order that it is gone through.
pub mod Reported
mod Progress
pub mod Missed
pub mod Found
pub mod Waiting
use Prim.Native.String.{String}
use text.Mathlib.Text.{◌==◌ as str_eq}
use poker_telegram_bot.Prelude.{
  ℕ, zero, suc, Bool, true, false, not, ◌&&◌, ◌||◌, Option, none, some, List, [], ◌∷◌, ◌++◌, map,
  length, reverse, contains, ◌==◌, if◌then◌else◌,
}
use poker_telegram_bot.Locks.Levels.{LockAcquisition}

abbrev pub Graph : Type 0
Graph = List (ℕ × List ℕ)

-- `graph.get(node, set())`
abbrev pub neighbors : Graph → ℕ → List ℕ
neighbors [] node = []
neighbors ((t, owners) ∷ g) node = if t == node then owners else neighbors g node

pub record Search : Type 0 where
  pub visited : List ℕ
  pub cycles : List (List ℕ)

-- `stack[stack.index(node):]`, newest first.
abbrev pub up_to : ℕ → List ℕ → List ℕ
up_to node [] = []
up_to node (x ∷ path) = if x == node then x ∷ [] else x ∷ up_to node path

abbrev pub same_tasks : List ℕ → List ℕ → Bool
same_tasks [] [] = true
same_tasks (x ∷ xs) (y ∷ ys) = x == y && same_tasks xs ys
same_tasks _ _ = false

abbrev pub is_reported : List ℕ → List (List ℕ) → Bool
is_reported c [] = false
is_reported c (d ∷ ds) = same_tasks c d || is_reported c ds

abbrev pub report : List ℕ → Search → Search
report c s = if is_reported c s.cycles then s else record s { cycles = s.cycles ++ c ∷ [] }

-- The body of the loop over a task's neighbors; `visit` is the call of `dfs`.
unfoldable pub look : (ℕ → Search → Search) → List ℕ → ℕ → Search → Search
look visit path m s = elim (contains s.visited m) [
  | false ↦ visit m s
  | true ↦ elim (contains path m) [ true ↦ report (reverse (up_to m path) ++ m ∷ []) s | false ↦ s ]
]

abbrev pub explore : (ℕ → Search → Search) → List ℕ → List ℕ → Search → Search
explore visit path [] s = s
explore visit path (m ∷ ms) s = explore visit path ms (look visit path m s)

-- `dfs`
unfoldable pub dfs : ℕ → Graph → List ℕ → ℕ → Search → Search
dfs zero g path node s = s
dfs (suc n) g path node s =
    explore (λ m s'. dfs n g (node ∷ path) m s') (node ∷ path) (neighbors g node)
      (record s { visited = node ∷ s.visited })

-- `if node not in visited: dfs(node)`
unfoldable pub dfs_if_new : ℕ → Graph → ℕ → Search → Search
unfolding dfs
dfs_if_new n g t s = elim (contains s.visited t) [ true ↦ s | false ↦ dfs n g [] t s ]

-- The loop over the graph's tasks.
unfoldable pub search_from : ℕ → Graph → List ℕ → Search → Search
unfolding dfs_if_new
search_from n g [] s = s
search_from n g (t ∷ ts) s = search_from n g ts (dfs_if_new n g t s)

abbrev pub tasks : Graph → List ℕ
tasks g = map (λ e. e.0) g

-- Every task that the graph names.
abbrev pub nodes : Graph → List ℕ
nodes [] = []
nodes ((t, owners) ∷ g) = t ∷ owners ++ nodes g

-- `_detect_cycles`
unfoldable pub detect_cycles : Graph → List (List ℕ)
unfolding search_from
detect_cycles g =
    (search_from (length (nodes g)) g (tasks g) (record { visited = []; cycles = [] })).cycles

-- `holder_lookup.get(key)`: the first task that holds the key.
abbrev pub holds : List LockAcquisition → String → Bool
holds [] key = false
holds (a ∷ rest) key = str_eq a.key key || holds rest key

abbrev pub holder_of : List (ℕ × List LockAcquisition) → String → Option ℕ
holder_of [] key = none
holder_of ((t, held) ∷ states) key = if holds held key then some t else holder_of states key

-- The holder on record, or else the owner that the lock object names.
abbrev pub owner_of : List (ℕ × List LockAcquisition) → (String → Option ℕ) → String → Option ℕ
owner_of states lock_owner key = elim (holder_of states key) [
  | some t ↦ some t
  | none ↦ lock_owner key
]

-- `dependency_graph.setdefault(task, set()).add(owner)`
abbrev pub add_owner : ℕ → ℕ → Graph → Graph
add_owner t o [] = (t, o ∷ []) ∷ []
add_owner t o ((u, owners) ∷ g) =
    if u == t
    then (u, (if contains owners o then owners else owners ++ o ∷ [])) ∷ g
    else (u, owners) ∷ add_owner t o g

abbrev pub add_wait : ℕ → Option ℕ → Graph → Graph
add_wait t none g = g
add_wait t (some o) g = if o == t then g else add_owner t o g

-- The loop over the waiting tasks.
unfoldable pub dependency_graph : (String → Option ℕ) → List (ℕ × String) → Graph → Graph
dependency_graph owner [] g = g
dependency_graph owner ((t, key) ∷ waiting) g =
    dependency_graph owner waiting (add_wait t (owner key) g)

-- `detect_deadlock`: the cycles of the snapshot.
unfoldable pub detect_deadlock :
    List (ℕ × List LockAcquisition) → List (ℕ × String) → (String → Option ℕ) → List (List ℕ)
unfolding dependency_graph detect_cycles
detect_deadlock states waiting lock_owner =
    detect_cycles (dependency_graph (owner_of states lock_owner) waiting [])
