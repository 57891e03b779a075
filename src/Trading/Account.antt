-- ===== src/Trading/Account.antt =====
-- trading/src/models/account.rs: accounts and positions. Amounts, quantities and prices are f64 in
-- the source. The model is of those that are whole numbers, on which sums and products are
-- exact as long as they stay within 2^53; fractions, which f64 rounds, are outside of it. The
-- quotient in the average price is a parameter. A time is a number.
use actix_pura.Prelude.{
  ℕ, String, Bool, true, false, Option, none, some, List, [], ◌∷◌, if◌then◌else◌,
}
use actix_pura.Prelude.Dict.{lookup, insert, remove}
use actix_pura.Prelude.Int.{ℤ, pos, ◌+ℤ◌, ◌-ℤ◌, ◌*ℤ◌, ltb_ℤ, leb_ℤ}

pub data PositionSide : Type 0 where
  long short : PositionSide

pub record Position : Type 0 where
  pub symbol : String
  pub quantity : ℤ
  pub avg_price : ℤ
  pub frozen : ℤ

pub record Account : Type 0 where
  pub id : String
  pub name : String
  pub balance : ℤ
  pub available : ℤ
  pub frozen : ℤ
  pub positions : List (String × Position)
  pub created_at : ℕ
  pub updated_at : ℕ

-- `Position::new`
unfoldable pub new_position : String → ℤ → ℤ → Position
new_position symbol quantity price = record {
  symbol = symbol;
  quantity = quantity;
  avg_price = price;
  frozen = pos 0;
}

-- `Position::value`
unfoldable pub value : ℤ → Position → ℤ
value current_price p = p.quantity *ℤ current_price

-- `Position::available`
unfoldable pub available_quantity : Position → ℤ
available_quantity p = p.quantity -ℤ p.frozen

-- `Position::update`, with the division of f64.
unfoldable pub update : (ℤ → ℤ → ℤ) → ℤ → ℤ → Position → Position
update divide change price p =
    let total_cost = p.quantity *ℤ p.avg_price +ℤ change *ℤ price in
    let new_quantity = p.quantity +ℤ change in
    if ltb_ℤ (pos 0) change
    then record p {
      avg_price = if ltb_ℤ (pos 0) new_quantity then divide total_cost new_quantity else pos 0;
      quantity = new_quantity;
    }
    else record p { quantity = new_quantity }

-- `Position::freeze`
unfoldable pub freeze : ℤ → Position → Bool × Position
freeze amount p =
    if ltb_ℤ (available_quantity p) amount
    then (false, p)
    else (true, record p { frozen = p.frozen +ℤ amount })

-- `Position::unfreeze`
unfoldable pub unfreeze : ℤ → Position → Bool × Position
unfreeze amount p =
    if ltb_ℤ p.frozen amount then (false, p) else (true, record p { frozen = p.frozen -ℤ amount })

-- `Account::new`
unfoldable pub new_account : String → String → ℤ → ℕ → Account
new_account id name initial_balance now = record {
  id = id;
  name = name;
  balance = initial_balance;
  available = initial_balance;
  frozen = pos 0;
  positions = [];
  created_at = now;
  updated_at = now;
}

unfoldable pub get_position : String → Account → Option Position
get_position symbol a = lookup symbol a.positions

-- `Account::update_position`
unfoldable pub update_position : (ℤ → ℤ → ℤ) → String → ℤ → ℤ → ℕ → Account → Account
update_position divide symbol change price now a =
    let a' = record a { updated_at = now } in
    elim (lookup symbol a.positions) [
      | some p ↦
          (let p' = update divide change price p in
            let held = insert symbol p' a.positions in
            if leb_ℤ p'.quantity (pos 0)
            then record a' { positions = remove symbol held }
            else record a' { positions = held })
      | none ↦
          if ltb_ℤ (pos 0) change
          then record a' {
            positions = insert symbol (new_position symbol change price) a.positions;
          }
          else a'
    ]

unfoldable pub freeze_funds : ℤ → ℕ → Account → Bool × Account
freeze_funds amount now a = if ltb_ℤ a.available amount then (false, a) else (
  true,
  record a { available = a.available -ℤ amount; frozen = a.frozen +ℤ amount; updated_at = now },
)

unfoldable pub unfreeze_funds : ℤ → ℕ → Account → Bool × Account
unfreeze_funds amount now a = if ltb_ℤ a.frozen amount then (false, a) else (
  true,
  record a { frozen = a.frozen -ℤ amount; available = a.available +ℤ amount; updated_at = now },
)

unfoldable pub deposit : ℤ → ℕ → Account → Account
deposit amount now a = record a {
  balance = a.balance +ℤ amount;
  available = a.available +ℤ amount;
  updated_at = now;
}

unfoldable pub withdraw : ℤ → ℕ → Account → Bool × Account
withdraw amount now a = if ltb_ℤ a.available amount then (false, a) else (
  true,
  record a { balance = a.balance -ℤ amount; available = a.available -ℤ amount; updated_at = now },
)

-- The loop of `total_assets`: a symbol without a current price counts at its average price.
unfoldable pub assets_from : ℤ → List (String × ℤ) → List (String × Position) → ℤ
assets_from total price_map [] = total
assets_from total price_map ((symbol, p) ∷ l) =
    let rest = λ (price : ℤ). assets_from (total +ℤ value price p) price_map l in
    elim (lookup symbol price_map) [ none ↦ rest p.avg_price | some price ↦ rest price ]

unfoldable pub total_assets : List (String × ℤ) → Account → ℤ
total_assets price_map a = assets_from a.balance price_map a.positions
