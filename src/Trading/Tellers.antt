-- ===== src/Trading/Tellers.antt =====
-- trading/src/actor/account.rs: the transfers of `AccountActor` do what the operations of an account in
-- models/account.rs do, and keep every account balanced.
use actix_pura.Prelude.{
  ℕ, ◌≡◌, refl, String, Option, none, some, List, [], ◌∷◌, unwrap_or, All, Option-cases, inl, inr,
  arith,
}
use mathlib.Core.Path.{subst}
use actix_pura.Prelude.Dict.{lookup, All_lookup, All-insert}
use actix_pura.Prelude.Int.{ℤ, pos, ◌+ℤ◌, ◌≤ℤ◌, int_laws}
use actix_pura.Trading.Account.{Account, freeze_funds, unfreeze_funds, deposit, withdraw}
use actix_pura.Trading.Funds.{
  FundsCall, freezing, unfreezing, depositing, withdrawing, IsBalanced, amount_of, funds_call,
  funds_call-IsBalanced, funds_call_room, exact_limit,
}
use actix_pura.Trading.Teller.{
  Accounts, TransferType, TellerMessage, account_update, fund_transfer, store_account,
  create_account, update_account, transfer, store_transferred, transfer_funds, handle_teller,
  handle_all,
}

abbrev pub message_amount : TellerMessage → ℤ
message_amount (account_update id name balance) = balance
message_amount (fund_transfer id q t) = q

-- The amounts of all the messages.
unfoldable pub sum_messages : List (String × ℕ × TellerMessage) → ℤ
sum_messages [] = pos 0
sum_messages (m ∷ ms) = message_amount m.2 +ℤ sum_messages ms

-- Each account is filed under its identifier and is balanced, and its balance leaves room for an
-- amount below the limit of exact sums.
abbrev pub IsSound : ℤ → String × Account → Type 0
IsSound room e = (e.1.id ≡ e.0) × IsBalanced e.1 × (e.1.balance +ℤ room ≤ℤ exact_limit)

-- No amount is negative.
abbrev pub IsFair : TellerMessage → Type 0
IsFair m = pos 0 ≤ℤ message_amount m

-- The operation of models/account.rs that a transfer stands for.
abbrev pub funds_call_of : TransferType → ℤ → ℕ → Option FundsCall
funds_call_of TransferType.deposit q now = some (depositing q now)
funds_call_of TransferType.withdraw q now = some (withdrawing q now)
funds_call_of TransferType.freeze q now = some (freezing q now)
funds_call_of TransferType.unfreeze q now = some (unfreezing q now)
funds_call_of TransferType.invalid q now = none

-- A transfer of a known kind by the account actor leaves the account as the operation of
-- models/account.rs does: where the one refuses, the other does nothing.
pub transfer-funds_call :
    (t : TransferType) (q : ℤ) (now : ℕ) (a : Account) (c : FundsCall)
    → funds_call_of t q now ≡ some c
    → (funds_call c a).1
      ≡ (elim (transfer t q a) [ none ↦ a | some a' ↦ record a' { updated_at = now } ])
unfolding transfer funds_call freeze_funds unfreeze_funds deposit withdraw
transfer-funds_call TransferType.deposit q now a c e = ground arith
transfer-funds_call TransferType.withdraw q now a c e = ground arith
transfer-funds_call TransferType.freeze q now a c e = ground arith
transfer-funds_call TransferType.unfreeze q now a c e = ground arith
transfer-funds_call TransferType.invalid q now a c e = cc

-- There is such an operation when a transfer goes through.
known :
    (t : TransferType) (q : ℤ) (now : ℕ) (a : Account) {a' : Account}
    → transfer t q a ≡ some a'
    → (c : FundsCall) × (funds_call_of t q now ≡ some c) × (amount_of c ≡ q)
unfolding transfer
known TransferType.deposit q now a e = (depositing q now, refl, refl)
known TransferType.withdraw q now a e = (withdrawing q now, refl, refl)
known TransferType.freeze q now a e = (freezing q now, refl, refl)
known TransferType.unfreeze q now a e = (unfreezing q now, refl, refl)
known TransferType.invalid q now a e = cc

store_account-IsSound :
    (room : ℤ) (a : Account) (d : Accounts)
    → All (IsSound room) d
    → IsBalanced a
    → a.balance +ℤ room ≤ℤ exact_limit
    → All (IsSound room) (store_account a d)
unfolding store_account
store_account-IsSound room a d s v h = All-insert (IsSound room) a.id a d s (refl, v, h)

IsBalanced-renamed :
    (a : Account) (name : String) (now : ℕ)
    → IsBalanced a
    → IsBalanced (record a { name = name; updated_at = now })
IsBalanced-renamed a name now v = record { total = v.total; free = v.free; held = v.held }

-- Less room is left by an amount that is not negative.
IsSound-less :
    (q rest : ℤ) (d : Accounts) → pos 0 ≤ℤ q → All (IsSound (q +ℤ rest)) d → All (IsSound rest) d
IsSound-less q rest [] h s = tt
IsSound-less q rest (e ∷ d) h s =
    ((s.0.0, s.0.1, omega (int_laws, s.0.2, h)), IsSound-less q rest d h s.1)

transfer_funds-IsSound :
    (id : String) (q rest : ℤ) (t : TransferType) (now : ℕ) (d : Accounts)
    → pos 0 ≤ℤ q
    → All (IsSound (q +ℤ rest)) d
    → All (IsSound rest) (transfer_funds id q t now d).1
unfolding transfer_funds store_transferred
transfer_funds-IsSound id q rest t now d h s = elim (Option-cases (lookup id d)) [
  | inl e ↦ rw (e, transfer_funds) (IsSound-less q rest d h s)
  | inr (a, e) ↦
      let (filed, v, room) = All_lookup (IsSound (q +ℤ rest)) id a d s e in
      elim (Option-cases (transfer t q a)) [
        | inl fails ↦
            rw (e, transfer_funds) (rw (fails, store_transferred) (IsSound-less q rest d h s))
        | inr (a', went) ↦
            let (c, is, amount) = known t q now a went in
            let same = transfer-funds_call t q now a c is in
            let balanced = funds_call-IsBalanced c a (rw amount h) v in
            let left = funds_call_room c a rest (rw amount h) (rw amount room) in
            rw (e, transfer_funds)
              (rw (went, store_transferred)
                (store_account-IsSound rest (record a' { updated_at = now }) d
                  (IsSound-less q rest d h s) (subst IsBalanced (rw went at same) balanced)
                  (subst (λ x. x.balance +ℤ rest ≤ℤ exact_limit) (rw went at same) left)))
      ]
]

update_account-IsSound :
    (id : String) (name : Option String) (now : ℕ) (rest : ℤ) (d : Accounts)
    → All (IsSound rest) d
    → All (IsSound rest) (update_account id name now d).1
unfolding update_account
update_account-IsSound id name now rest d s = elim (Option-cases (lookup id d)) [
  | inl e ↦ rw (e, update_account) s
  | inr (a, e) ↦
      let (filed, v, room) = All_lookup (IsSound rest) id a d s e in
      rw (e, update_account)
        (store_account-IsSound rest _ d s (IsBalanced-renamed a (unwrap_or a.name name) now v) room)
]

handle_teller-IsSound :
    (fresh : String) (now : ℕ) (m : TellerMessage) (rest : ℤ) (d : Accounts)
    → IsFair m
    → message_amount m +ℤ rest ≤ℤ exact_limit
    → All (IsSound (message_amount m +ℤ rest)) d
    → All (IsSound rest) (handle_teller fresh now m d).1
unfolding handle_teller create_account
handle_teller-IsSound fresh now (account_update (some id) name balance) rest d h room s =
    update_account-IsSound id (some name) now rest d (IsSound-less balance rest d h s)
handle_teller-IsSound fresh now (account_update none name balance) rest d h room s =
    store_account-IsSound rest _ d (IsSound-less balance rest d h s)
      (record { total = omega int_laws; free = h; held = omega arith }) room
handle_teller-IsSound fresh now (fund_transfer id q t) rest d h room s =
    transfer_funds-IsSound id q rest t now d h s

-- Whatever messages the account actor handles, with amounts that are whole numbers and not negative
-- and that come to at most 2^53 with each balance, so that every sum is exact, every account stays
-- filed under its identifier, its balance the sum of what is available and what is frozen, neither
-- of which is negative, and at most 2^53.
pub handle_all-IsSound :
    (ms : List (String × ℕ × TellerMessage)) (d : Accounts)
    → All (λ m. IsFair m.2) ms
    → sum_messages ms ≤ℤ exact_limit
    → All (IsSound (sum_messages ms)) d
    → All (IsSound (pos 0)) (handle_all ms d)
unfolding handle_all sum_messages
handle_all-IsSound [] d h room s = s
handle_all-IsSound ((fresh, now, m) ∷ ms) d h room s =
    handle_all-IsSound ms (handle_teller fresh now m d).1 h.1 (omega (int_laws, h.0, room))
      (handle_teller-IsSound fresh now m (sum_messages ms) d h.0 room s)
