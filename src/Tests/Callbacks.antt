-- ===== src/Tests/Callbacks.antt =====
-- Runs over the bookkeeping of button presses.
use poker_telegram_bot.Prelude.{
  Distinct, ℕ, zero, suc, ◌≡◌, ◌<◌, refl, ◌⊎◌, Bool, true, false, some, List, [], ◌∷◌, length,
  contains, arith,
}
use poker_telegram_bot.Entities.{Game}
use poker_telegram_bot.Entities.Callbacks.{IsTracked, Subset, mark_callback_processed}
use poker_telegram_bot.Entities.Callbacks.History.{GameTracked, Remembered, mark_callback_once}
use poker_telegram_bot.Tests.Data.{opening_game}

no_callbacks-Tracked : GameTracked opening_game
no_callbacks-Tracked = record {
  bounded = omega arith;
  order_le_seen = omega arith;
  seen_le_order = omega arith;
  seen_distinct = tt;
  order_distinct = tt;
  within = tt;
}

mark_callback_once_example :
    (b : Bool) × (g' : Game) × (mark_callback_processed opening_game 5 ≡ some (b, g'))
    × (b ≡ true)
    × GameTracked g'
    × (((b ≡ false) × (g'.processed_callbacks ≡ []))
        ⊎ (b ≡ true) × Remembered [] 5 g'.processed_callbacks)
    × (g'.pot ≡ 30)
    × (g'.seats ≡ opening_game.seats)
    × (mark_callback_processed g' 5 ≡ some (false, g'))
mark_callback_once_example = mark_callback_once opening_game 5 no_callbacks-Tracked

-- The ids from `n` on, `k` of them.
abbrev ids : ℕ → ℕ → List ℕ
ids n zero = []
ids n (suc k) = n ∷ ids (suc n) k

length-ids : (n k : ℕ) → length (ids n k) ≡ k
length-ids n zero = refl
length-ids n (suc k) = omega (arith, length-ids (suc n) k)

contains-ids_below : (m n k : ℕ) → m < n → contains (ids n k) m ≡ false
contains-ids_below m n zero h = refl
contains-ids_below m n (suc k) h = ground (arith, contains-ids_below m (suc n) k (omega arith))

ids-Distinct : (n k : ℕ) → Distinct (ids n k)
ids-Distinct n zero = tt
ids-Distinct n (suc k) = (contains-ids_below n (suc n) k (omega arith), ids-Distinct (suc n) k)

Subset-cons : (x : ℕ) (xs ys : List ℕ) → Subset xs ys → Subset xs (x ∷ ys)
Subset-cons x [] ys h = tt
Subset-cons x (z ∷ xs) ys h = (ground (arith, h.0), Subset-cons x xs ys h.1)

Subset-self : (xs : List ℕ) → Subset xs xs
Subset-self [] = tt
Subset-self (x ∷ xs) = (ground arith, Subset-cons x xs xs (Subset-self xs))

ids-Tracked : IsTracked (ids 0 100) (ids 0 100)
ids-Tracked = record {
  bounded = omega arith;
  order_le_seen = omega arith;
  seen_le_order = omega arith;
  seen_distinct = ids-Distinct 0 100;
  order_distinct = ids-Distinct 0 100;
  within = Subset-self (ids 0 100);
}
