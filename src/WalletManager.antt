-- ===== src/WalletManager.antt =====
-- `WalletManagerModel` of pokerapp/pokerbotmodel.py: a user's balance in Redis, and the money that
-- is set aside for games. The Redis calls are taken to succeed; the Lua script and its fallback do
-- the same. A key of the hash of set-aside money (a game's id, or a chat's id as text) is a number.
-- How long the daily bonus stays claimed is left out.
pub mod Laws
use poker_telegram_bot.Prelude.{
  ℕ, zero, suc, ◌+◌, ◌-◌, Bool, true, false, Option, none, some, List, [], ◌∷◌, ltb, leb, ◌==◌,
  if◌then◌else◌,
}

abbrev pub default_money : ℕ
default_money = 1000

pub record Purse : Type 0 where
  pub balance : Option ℕ
  pub authorized : List (ℕ × ℕ)
  pub daily_bonus : Bool

-- A user without a balance is given the default one.
abbrev pub funds : Purse → ℕ
funds p = elim p.balance [ none ↦ default_money | some n ↦ n ]

-- `value`
abbrev pub opened : Purse → Purse
opened p = record p { balance = some (funds p) }

-- `inc`: Redis counts a missing balance as 0.
unfoldable pub inc : ℕ → Purse → Purse
inc a p = record p { balance = elim p.balance [ none ↦ some a | some n ↦ some (n + a) ] }

-- What a debit does: the purse after it, and whether `UserException` was raised.
pub data Debit : Type 0 where
  debited insufficient : Purse → Debit

-- `dec`; a natural number is never the negative amount that it refuses.
unfoldable pub dec : ℕ → Purse → Debit
dec a p =
    if leb a (funds p)
    then debited (record p { balance = some (funds p - a) })
    else insufficient (opened p)

-- `HINCRBY` and `HGET` on the hash of set-aside money.
abbrev pub hincrby : ℕ → ℕ → List (ℕ × ℕ) → List (ℕ × ℕ)
hincrby k a [] = (k, a) ∷ []
hincrby k a ((j, n) ∷ h) = if j == k then (j, n + a) ∷ h else (j, n) ∷ hincrby k a h

abbrev pub hget : ℕ → List (ℕ × ℕ) → ℕ
hget k [] = 0
hget k ((j, n) ∷ h) = if j == k then n else hget k h

abbrev pub hdel : ℕ → List (ℕ × ℕ) → List (ℕ × ℕ)
hdel k [] = []
hdel k ((j, n) ∷ h) = if j == k then h else (j, n) ∷ hdel k h

-- `authorized_money`
abbrev pub authorized_money : ℕ → Purse → ℕ
authorized_money k p = hget k p.authorized

-- `inc_authorized_money`
abbrev pub inc_authorized_money : ℕ → ℕ → Purse → Purse
inc_authorized_money k a p = record p { authorized = hincrby k a p.authorized }

abbrev pub set_aside : ℕ → ℕ → Debit → Debit
set_aside k a (insufficient p) = insufficient p
set_aside k a (debited p) = debited (inc_authorized_money k a p)

-- `authorize`
unfoldable pub authorize : ℕ → ℕ → Purse → Debit
unfolding dec
authorize k a p = set_aside k a (dec a p)

-- `authorize_all`
unfoldable pub authorize_all : ℕ → Purse → ℕ × Debit
unfolding dec
authorize_all k p = (
  funds p,
  if ltb 0 (funds p) then set_aside k (funds p) (dec (funds p) (opened p)) else debited (opened p),
)

-- `approve`
unfoldable pub approve : ℕ → Purse → Purse
approve k p = record p { authorized = hdel k p.authorized }

-- `cancel`
unfoldable pub cancel : ℕ → Purse → Purse
unfolding inc
cancel k p =
    if ltb 0 (authorized_money k p)
    then record (inc (authorized_money k p) p) { authorized = hdel k p.authorized }
    else p

-- `add_daily`
unfoldable pub add_daily : ℕ → Purse → Option Purse
unfolding inc
add_daily a p = if p.daily_bonus then none else some (inc a (record p { daily_bonus = true }))
