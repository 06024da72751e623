-- ===== src/Wallet/Reservations.antt =====
-- The reservations of pokerapp/wallet_service.py under the three Lua scripts.
use poker_telegram_bot.Prelude.{ℕ, ◌≡◌, refl, some, [], ◌∷◌, ◌==◌, if◌then◌else◌, arith}
use poker_telegram_bot.Wallet.{Reservation, Reservations, find, put}

pub find-put :
    (k j : ℕ) (r : Reservation) (rs : Reservations)
    → find j (put k r rs) ≡ (if k == j then some r else find j rs)
find-put k j r [] = refl
find-put k j r ((i, q) ∷ rs) = ground (arith, find-put k j r rs)
