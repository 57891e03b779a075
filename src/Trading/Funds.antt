-- ===== src/Trading/Funds.antt =====
-- trading/src/models/account.rs: the money of an account over any sequence of calls.
use actix_pura.Prelude.{
  ℕ, ◌≡◌, true, false, List, [], ◌∷◌, All, arith, Bool-cases, inl, inr, refl, ◌∙◌, if◌then◌else◌,
}
use actix_pura.Prelude.Int.{ℤ, pos, ◌+ℤ◌, ◌-ℤ◌, ◌≤ℤ◌, ◌<ℤ◌, ltb_ℤ, int_laws}
use actix_pura.Trading.Account.{Account, freeze_funds, unfreeze_funds, deposit, withdraw}

-- The balance is what is available and what is frozen, and neither is negative.
pub record IsBalanced (a : Account) : Type 0 where
  pub total : a.balance ≡ a.available +ℤ a.frozen
  pub free : pos 0 ≤ℤ a.available
  pub held : pos 0 ≤ℤ a.frozen

-- A call on the account, with its amount and the time.
pub data FundsCall : Type 0 where
  freezing unfreezing depositing withdrawing : ℤ → ℕ → FundsCall

abbrev pub amount_of : FundsCall → ℤ
amount_of (freezing q _) = q
amount_of (unfreezing q _) = q
amount_of (depositing q _) = q
amount_of (withdrawing q _) = q

-- The account after a call, and what the call brought in or took out.
unfoldable pub funds_call : FundsCall → Account → ℤ × Account
funds_call (freezing q now) a = (pos 0, (freeze_funds q now a).1)
funds_call (unfreezing q now) a = (pos 0, (unfreeze_funds q now a).1)
funds_call (depositing q now) a = (q, deposit q now a)
funds_call (withdrawing q now) a =
    let (ok, a') = withdraw q now a in (if ok then pos 0 -ℤ q else pos 0, a')

unfoldable pub funds_calls : List FundsCall → Account → ℤ × Account
funds_calls [] a = (pos 0, a)
funds_calls (c ∷ cs) a =
    let (q, a') = funds_call c a in let (r, a'') = funds_calls cs a' in (q +ℤ r, a'')

fits_of : (a b : ℤ) → ltb_ℤ a b ≡ false → b ≤ℤ a
fits_of a b h = ground arith

freeze_funds-IsBalanced :
    (q : ℤ) (now : ℕ) (a : Account)
    → pos 0 ≤ℤ q
    → IsBalanced a
    → IsBalanced (freeze_funds q now a).1
unfolding freeze_funds
freeze_funds-IsBalanced q now a h v = elim (Bool-cases (ltb_ℤ a.available q)) [
  | inl short ↦ rw short v
  | inr fits ↦ rw fits (record {
    total = rw v.total (omega int_laws);
    free = omega (int_laws, fits_of a.available q fits);
    held = omega (int_laws, v.held);
  })
]

unfreeze_funds-IsBalanced :
    (q : ℤ) (now : ℕ) (a : Account)
    → pos 0 ≤ℤ q
    → IsBalanced a
    → IsBalanced (unfreeze_funds q now a).1
unfolding unfreeze_funds
unfreeze_funds-IsBalanced q now a h v = elim (Bool-cases (ltb_ℤ a.frozen q)) [
  | inl short ↦ rw short v
  | inr fits ↦ rw fits (record {
    total = rw v.total (omega int_laws);
    free = omega (int_laws, v.free);
    held = omega (int_laws, fits_of a.frozen q fits);
  })
]

deposit-IsBalanced :
    (q : ℤ) (now : ℕ) (a : Account) → pos 0 ≤ℤ q → IsBalanced a → IsBalanced (deposit q now a)
unfolding deposit
deposit-IsBalanced q now a h v = record {
  total = rw v.total (omega int_laws);
  free = omega (int_laws, v.free);
  held = omega (int_laws, v.held);
}

withdraw-IsBalanced :
    (q : ℤ) (now : ℕ) (a : Account) → IsBalanced a → IsBalanced (withdraw q now a).1
unfolding withdraw
withdraw-IsBalanced q now a v = elim (Bool-cases (ltb_ℤ a.available q)) [
  | inl short ↦ rw short v
  | inr fits ↦ rw fits (record {
    total = rw v.total (omega int_laws);
    free = omega (int_laws, fits_of a.available q fits);
    held = omega (int_laws, v.held);
  })
]

pub funds_call-IsBalanced :
    (c : FundsCall) (a : Account)
    → pos 0 ≤ℤ amount_of c
    → IsBalanced a
    → IsBalanced (funds_call c a).1
unfolding funds_call
funds_call-IsBalanced (freezing q now) a h v = freeze_funds-IsBalanced q now a h v
funds_call-IsBalanced (unfreezing q now) a h v = unfreeze_funds-IsBalanced q now a h v
funds_call-IsBalanced (depositing q now) a h v = deposit-IsBalanced q now a h v
funds_call-IsBalanced (withdrawing q now) a h v = withdraw-IsBalanced q now a v

zero_right : (a : ℤ) → a ≡ a +ℤ pos 0
zero_right a = omega int_laws

freeze_funds_balance :
    (q : ℤ) (now : ℕ) (a : Account) → (freeze_funds q now a).1.balance ≡ a.balance
unfolding freeze_funds
freeze_funds_balance q now a = ground arith

unfreeze_funds_balance :
    (q : ℤ) (now : ℕ) (a : Account) → (unfreeze_funds q now a).1.balance ≡ a.balance
unfolding unfreeze_funds
unfreeze_funds_balance q now a = ground arith

funds_call_balance :
    (c : FundsCall) (a : Account) → (funds_call c a).1.balance ≡ a.balance +ℤ (funds_call c a).0
unfolding funds_call deposit withdraw
funds_call_balance (freezing q now) a = rw (freeze_funds_balance q now a) (zero_right a.balance)
funds_call_balance (unfreezing q now) a = rw (unfreeze_funds_balance q now a) (zero_right a.balance)
funds_call_balance (depositing q now) a = refl
funds_call_balance (withdrawing q now) a = elim (Bool-cases (ltb_ℤ a.available q)) [
  | inl short ↦ rw short (zero_right a.balance)
  | inr fits ↦ rw fits (omega int_laws)
]

sum_right : (a b c d : ℤ) → b ≡ a +ℤ c → b +ℤ d ≡ a +ℤ (c +ℤ d)
sum_right a b c d h = rw h (omega int_laws)

-- 2^53: an f64 holds every whole number up to here exactly, and so adds and subtracts them.
abbrev pub exact_limit : ℤ
exact_limit = pos 9007199254740992

unfoldable pub sum_amounts : List FundsCall → ℤ
sum_amounts [] = pos 0
sum_amounts (c ∷ cs) = amount_of c +ℤ sum_amounts cs

-- What comes in is at most the amount of the call.
moved-le : (c : FundsCall) (a : Account) → pos 0 ≤ℤ amount_of c → (funds_call c a).0 ≤ℤ amount_of c
unfolding funds_call
moved-le (freezing q now) a h = h
moved-le (unfreezing q now) a h = h
moved-le (depositing q now) a h = omega int_laws
moved-le (withdrawing q now) a h = elim (Bool-cases (withdraw q now a).0) [
  | inl paid ↦ rw paid (omega (int_laws, h))
  | inr refused ↦ rw refused h
]

pub funds_call_room :
    (c : FundsCall) (a : Account) (rest : ℤ)
    → pos 0 ≤ℤ amount_of c
    → a.balance +ℤ (amount_of c +ℤ rest) ≤ℤ exact_limit
    → (funds_call c a).1.balance +ℤ rest ≤ℤ exact_limit
funds_call_room c a rest h room =
    rw (funds_call_balance c a) (omega (int_laws, moved-le c a h, room))

-- Over any sequence of calls with amounts that are whole numbers and not negative, and that come to
-- at most 2^53 with the balance, so that every sum of the calls is exact, the balance of an account
-- stays what is available and what is frozen, neither of which becomes negative, and stays at most
-- 2^53. Calls may be accepted or refused.
pub funds_calls-IsBalanced :
    (cs : List FundsCall) (a : Account)
    → All (λ c. pos 0 ≤ℤ amount_of c) cs
    → a.balance +ℤ sum_amounts cs ≤ℤ exact_limit
    → IsBalanced a
    → IsBalanced (funds_calls cs a).1 × ((funds_calls cs a).1.balance ≤ℤ exact_limit)
unfolding funds_calls sum_amounts
funds_calls-IsBalanced [] a h room v = (v, omega (int_laws, room))
funds_calls-IsBalanced (c ∷ cs) a h room v =
    funds_calls-IsBalanced cs (funds_call c a).1 h.1 (funds_call_room c a (sum_amounts cs) h.0 room)
      (funds_call-IsBalanced c a h.0 v)

-- Over any sequence of calls the balance moves by what was deposited less what was withdrawn; a
-- freeze, an unfreeze or a refused withdrawal does not move it.
pub funds_calls_balance :
    (cs : List FundsCall) (a : Account)
    → (funds_calls cs a).1.balance ≡ a.balance +ℤ (funds_calls cs a).0
unfolding funds_calls
funds_calls_balance [] a = zero_right a.balance
funds_calls_balance (c ∷ cs) a =
    funds_calls_balance cs (funds_call c a).1
    ∙ sum_right a.balance (funds_call c a).1.balance (funds_call c a).0
        (funds_calls cs (funds_call c a).1).0 (funds_call_balance c a)

test_of : (a b : ℤ) → b ≤ℤ a → ltb_ℤ a b ≡ false
test_of a b h = ground arith

sub_add : (a q : ℤ) → a -ℤ q +ℤ q ≡ a
sub_add a q = omega int_laws

add_sub : (a q : ℤ) → a +ℤ q -ℤ q ≡ a
add_sub a q = omega int_laws

-- Freezing an amount that is available and unfreezing it again gives back the account, but for the
-- time of the last change.
pub unfreeze_funds-freeze_funds :
    (q : ℤ) (now later : ℕ) (a : Account)
    → pos 0 ≤ℤ a.frozen
    → q ≤ℤ a.available
    → (freeze_funds q now a).0 ≡ true
      × (unfreeze_funds q later (freeze_funds q now a).1 ≡ (true, record a { updated_at = later }))
unfolding freeze_funds unfreeze_funds
unfreeze_funds-freeze_funds q now later a h fits =
    let free : ltb_ℤ a.available q ≡ false = test_of a.available q fits in
    let held : ltb_ℤ (a.frozen +ℤ q) q ≡ false = test_of (a.frozen +ℤ q) q (omega int_laws) in
    rw free (refl, rw held (rw (sub_add a.available q, add_sub a.frozen q) refl))

-- Withdrawing a negative amount succeeds from any account that is not overdrawn, and raises its
-- balance.
pub withdraw_negative :
    (q : ℤ) (now : ℕ) (a : Account)
    → q <ℤ pos 0
    → pos 0 ≤ℤ a.available
    → ((withdraw q now a).0 ≡ true) × (a.balance <ℤ (withdraw q now a).1.balance)
unfolding withdraw
withdraw_negative q now a neg h = rw (test_of a.available q (omega int_laws)) (refl, omega int_laws)
