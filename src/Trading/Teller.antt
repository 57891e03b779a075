-- ===== src/Trading/Teller.antt =====
-- trading/src/actor/account.rs: `AccountActor`, which keeps the accounts and moves their funds. It does
-- so by itself, without the operations of models/account.rs. As there, amounts are the f64 that are
-- whole numbers, which are added and subtracted exactly within 2^53.
use actix_pura.Prelude.{ℕ, String, Option, none, some, List, [], ◌∷◌, if◌then◌else◌, unwrap_or}
use actix_pura.Prelude.Dict.{lookup, insert}
use actix_pura.Prelude.Int.{ℤ, pos, ◌+ℤ◌, ◌-ℤ◌, ltb_ℤ}
use actix_pura.Trading.Account.{Account}

abbrev pub Accounts : Type 0
Accounts = List (String × Account)

-- `AccountUpdateResult` and `FundTransferResult`, without the texts of errors.
pub data TellerResult : Type 0 where
  success : Account → TellerResult
  error : TellerResult

-- The texts "DEPOSIT", "WITHDRAW", "FREEZE" and "UNFREEZE", and any other.
pub data TransferType : Type 0 where
  deposit withdraw freeze unfreeze invalid : TransferType

unfoldable pub store_account : Account → Accounts → Accounts
store_account a d = insert a.id a d

-- `create_account`, with a fresh identifier.
unfoldable pub create_account :
    String → Option String → String → ℤ → ℕ → Accounts → Account × Accounts
create_account fresh id name balance now d =
    let a : Account = record {
      id = unwrap_or fresh id;
      name = name;
      balance = balance;
      available = balance;
      frozen = pos 0;
      positions = [];
      created_at = now;
      updated_at = now;
    } in
    (a, store_account a d)

unfoldable pub update_account : String → Option String → ℕ → Accounts → TellerResult × Accounts
update_account id name now d = elim (lookup id d) [
  | none ↦ (error, d)
  | some a ↦
      let a' = record a { name = unwrap_or a.name name; updated_at = now } in
      (success a', store_account a' d)
]

-- The `match` on the type of the transfer; `none` is the early return of an error.
unfoldable pub transfer : TransferType → ℤ → Account → Option Account
transfer deposit q a = some (record a { balance = a.balance +ℤ q; available = a.available +ℤ q })
transfer withdraw q a =
    if ltb_ℤ a.available q
    then none
    else some (record a { balance = a.balance -ℤ q; available = a.available -ℤ q })
transfer freeze q a =
    if ltb_ℤ a.available q
    then none
    else some (record a { available = a.available -ℤ q; frozen = a.frozen +ℤ q })
transfer unfreeze q a =
    if ltb_ℤ a.frozen q
    then none
    else some (record a { frozen = a.frozen -ℤ q; available = a.available +ℤ q })
transfer invalid q a = none

-- `transfer_funds`, whose last steps store the account.
unfoldable pub store_transferred : ℕ → Option Account → Accounts → TellerResult × Accounts
store_transferred now none d = (error, d)
store_transferred now (some a) d =
    let a' = record a { updated_at = now } in (success a', store_account a' d)

unfoldable pub transfer_funds : String → ℤ → TransferType → ℕ → Accounts → TellerResult × Accounts
transfer_funds id q t now d = elim (lookup id d) [
  | none ↦ (error, d)
  | some a ↦ store_transferred now (transfer t q a) d
]

-- `AccountUpdateMessage` and `FundTransferMessage`.
pub data TellerMessage : Type 0 where
  account_update : Option String → String → ℤ → TellerMessage
  fund_transfer : String → ℤ → TransferType → TellerMessage

-- The handlers, at a time and with a fresh identifier.
unfoldable pub handle_teller : String → ℕ → TellerMessage → Accounts → TellerResult × Accounts
handle_teller fresh now (account_update (some id) name balance) d =
    update_account id (some name) now d
handle_teller fresh now (account_update none name balance) d =
    let (a, d') = create_account fresh none name balance now d in (success a, d')
handle_teller fresh now (fund_transfer id q t) d = transfer_funds id q t now d

-- Messages with the time and the identifier for each.
unfoldable pub handle_all : List (String × ℕ × TellerMessage) → Accounts → Accounts
handle_all [] d = d
handle_all ((fresh, now, m) ∷ ms) d = handle_all ms (handle_teller fresh now m d).1
