-- ===== src/Trading/Accounts.antt =====
-- trading/src/models/account.rs: the theorems at a concrete account.
use actix_pura.Prelude.{ℕ, zero, suc, if◌then◌else◌, List, [], ◌∷◌, arith}
use actix_pura.Prelude.Int.{◌≤ℤ◌, ℤ, pos, ◌+ℤ◌, ◌-ℤ◌, ltb_ℤ, int_laws}
use actix_pura.Trading.Account.{Account, Position}
use actix_pura.Trading.Funds.{
  exact_limit, sum_amounts, IsBalanced, FundsCall, freezing, depositing, withdrawing, funds_calls,
  funds_calls-IsBalanced,
}

abbrev stake : Position
stake = record { symbol = "AAPL"; quantity = pos 8; avg_price = pos 150; frozen = pos 6 }

abbrev account : Account
account = record {
  id = "client";
  name = "Client";
  balance = pos 1000;
  available = pos 900;
  frozen = pos 100;
  positions = ("AAPL", stake) ∷ [];
  created_at = 0;
  updated_at = 0;
}

account-IsBalanced : IsBalanced account
account-IsBalanced = record { total = omega int_laws; free = omega arith; held = omega arith }

-- The last withdrawal is refused.
abbrev day : List FundsCall
day =
    freezing (pos 400) 1
    ∷ withdrawing (pos 200) 2
    ∷ depositing (pos 50) 3
    ∷ withdrawing (pos 500) 4
    ∷ []

funds_calls-IsBalanced_example :
    IsBalanced (funds_calls day account).1 × ((funds_calls day account).1.balance ≤ℤ exact_limit)
unfolding sum_amounts
funds_calls-IsBalanced_example =
    funds_calls-IsBalanced day account
      (omega arith, (omega arith, (omega arith, (omega arith, tt)))) (omega int_laws)
      account-IsBalanced

-- A division by subtraction, with `k` rounds at most.
abbrev quotient : ℕ → ℤ → ℤ → ℤ
quotient zero x y = pos 0
quotient (suc k) x y = if ltb_ℤ x y then pos 0 else pos 1 +ℤ quotient k (x -ℤ y) y

abbrev share_of : ℤ → ℤ → ℤ
share_of x y = quotient 200 x y
