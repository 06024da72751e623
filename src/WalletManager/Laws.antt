-- ===== src/WalletManager/Laws.antt =====
-- Setting money aside and giving it back, in `WalletManagerModel` of pokerapp/pokerbotmodel.py.
use poker_telegram_bot.Prelude.{
  ℕ, ◌+◌, ◌-◌, ◌≤◌, ◌<◌, ◌≡◌, ◌≢◌, refl, ◌⊎◌, inl, inr, some, List, [], ◌∷◌, leb, ◌==◌,
  if◌then◌else◌, arith, Bool-cases,
}
use poker_telegram_bot.WalletManager.{
  Purse, funds, opened, inc, debited, insufficient, dec, hincrby, hget, hdel, authorized_money,
  inc_authorized_money, authorize, cancel,
}

hget-hincrby :
    (k j a : ℕ) (h : List (ℕ × ℕ)) → hget j (hincrby k a h) ≡ hget j h + (if k == j then a else 0)
hget-hincrby k j a [] = ground arith
hget-hincrby k j a ((i, n) ∷ h) = ground (arith, hget-hincrby k j a h)

hget-hdel_ne : (k j : ℕ) (h : List (ℕ × ℕ)) → k ≢ j → hget j (hdel k h) ≡ hget j h
hget-hdel_ne k j [] n = refl
hget-hdel_ne k j ((i, m) ∷ h) n = ground (arith, hget-hdel_ne k j h n)

-- What `authorize` has done for a user who can pay.
pub record SetAside (k a : ℕ) (p q : Purse) : Type 0 where
  pub paid : funds q + a ≡ funds p
  pub kept_aside : authorized_money k q ≡ authorized_money k p + a
  pub balance_kept : q.balance ≡ some (funds q)
  pub other_games : (j : ℕ) → k ≢ j → authorized_money j q ≡ authorized_money j p

-- `authorize` moves the amount out of the balance and into what is set aside under the key, and
-- leaves what is set aside under other keys; if the balance does not cover it, it raises, and
-- neither the funds nor what is set aside has changed.
pub authorize_lem :
    (k a : ℕ) (p : Purse)
    → ((q : Purse) × (a ≤ funds p) × (authorize k a p ≡ debited q) × SetAside k a p q)
      ⊎ ((funds p < a) × (authorize k a p ≡ insufficient (opened p)) × (funds (opened p) ≡ funds p))
unfolding authorize dec
authorize_lem k a p = elim (Bool-cases (leb a (funds p))) [
  | inl enough ↦ inl (
    inc_authorized_money k a (record p { balance = some (funds p - a) }),
    ground arith,
    rw enough,
    record {
      paid = ground arith;
      kept_aside = ground (arith, hget-hincrby k k a p.authorized);
      balance_kept = refl;
      other_games = λ j n. ground (arith, hget-hincrby k j a p.authorized);
    },
  )
  | inr short ↦ inr (ground arith, rw short, refl)
]

-- `cancel` of a game gives back exactly what is set aside under its key, to a user who has a
-- balance, and leaves what is set aside under other keys.
pub cancel_lem :
    (k n : ℕ) (p : Purse)
    → p.balance ≡ some n
    → (funds (cancel k p) ≡ n + authorized_money k p)
      × ((j : ℕ) → k ≢ j → authorized_money j (cancel k p) ≡ authorized_money j p)
unfolding cancel inc
cancel_lem k n p e = (ground (arith, e), λ j d. ground (arith, hget-hdel_ne k j p.authorized d))
