-- ===== src/Trading/Risk.antt =====
-- trading/src/risk/manager.rs: the checks that an order passes before it is placed. Money is an integer
-- number of the smallest unit, of which 1.0 has `one`; a reason has the numbers of its text.
use actix_pura.Prelude.{
  ℕ, ◌*◌, String, Bool, false, Option, none, some, List, [], if◌then◌else◌, unwrap_or, map_or, not,
}
use Prim.Native.String.{◌++◌}
use actix_pura.Prelude.Dict.{lookup, insert}
use actix_pura.Prelude.Int.{ℤ, pos, ◌+ℤ◌, ◌*ℤ◌, ltb_ℤ}
use actix_pura.Trading.Order.{OrderRequest, OrderSide}
use actix_pura.Trading.Account.{Account, Position, new_account, value, available_quantity}

-- `RiskCheckRequest`
pub record RiskCheckRequest : Type 0 where
  pub order : OrderRequest ℤ
  pub account_id : String

-- `RiskCheckResult`, with the reasons for a rejection.
pub data Reason : Type 0 where
  no_price : String → Reason
  order_value_exceeds : ℤ → ℤ → Reason
  account_not_found : String → Reason
  insufficient_position : String → ℤ → ℕ → Reason
  no_position : String → Reason
  insufficient_funds : ℤ → ℤ → Reason
  position_value_exceeds : ℤ → ℤ → Reason

pub data RiskCheckResult : Type 0 where
  approved : RiskCheckResult
  rejected : Reason → RiskCheckResult

-- `UpdateRiskConfigMessage`
pub record UpdateRiskConfig : Type 0 where
  pub new_order_value : Option ℤ
  pub new_position_value : Option ℤ
  pub new_short_selling : Option Bool

pub record RiskConfig : Type 0 where
  pub max_order_value : ℤ
  pub max_position_value : ℤ
  pub allow_short_selling : Bool
  pub updated_at : ℕ

-- `RiskManager`, less the reference to the account actor.
pub record RiskManager : Type 0 where
  pub node_id : String
  pub config : RiskConfig
  pub price_cache : List (String × ℤ)

-- `RiskConfig::default`
abbrev pub default_risk : ℕ → ℕ → RiskConfig
default_risk one now = record {
  max_order_value = pos (1000000 * one);
  max_position_value = pos (10000000 * one);
  allow_short_selling = false;
  updated_at = now;
}

-- `RiskManager::new`
abbrev pub new_manager : ℕ → ℕ → String → RiskManager
new_manager one now node_id = record {
  node_id = node_id;
  config = default_risk one now;
  price_cache = [];
}

unfoldable pub update_config : ℕ → UpdateRiskConfig → RiskManager → RiskManager
update_config now u m = record m {
  config = record {
    max_order_value = unwrap_or m.config.max_order_value u.new_order_value;
    max_position_value = unwrap_or m.config.max_position_value u.new_position_value;
    allow_short_selling = unwrap_or m.config.allow_short_selling u.new_short_selling;
    updated_at = now;
  };
}

unfoldable pub update_price : String → ℤ → RiskManager → RiskManager
update_price symbol price m = record m { price_cache = insert symbol price m.price_cache }

unfoldable pub get_price : String → RiskManager → Option ℤ
get_price symbol m = lookup symbol m.price_cache

-- The price that the order names, and else the cached one.
abbrev pub price_or : Option ℤ → Option ℤ → Option ℤ
price_or (some p) cached = some p
price_or none cached = cached

unfoldable pub get_price_for_order : OrderRequest ℤ → RiskManager → Option ℤ
unfolding get_price
get_price_for_order o m = price_or o.price (get_price o.symbol m)

-- The checks of a sale, against the position that is there.
unfoldable pub check_sell : RiskConfig → OrderRequest ℤ → Option Position → RiskCheckResult
check_sell c o (some p) =
    if ltb_ℤ (available_quantity p) (pos o.quantity)
    then rejected (insufficient_position o.symbol (available_quantity p) o.quantity)
    else approved
check_sell c o none =
    if not c.allow_short_selling then rejected (no_position o.symbol) else approved

-- The value of the position that is there.
abbrev pub position_value : ℤ → Option Position → ℤ
position_value price p = map_or (pos 0) (value price) p

-- The checks of a purchase, against the money and the position.
unfoldable pub check_buy : RiskConfig → ℤ → ℤ → Account → Option Position → RiskCheckResult
check_buy c price order_value a p =
    if ltb_ℤ a.available order_value
    then rejected (insufficient_funds a.available order_value)
    else if ltb_ℤ c.max_position_value (position_value price p +ℤ order_value)
    then rejected
        (position_value_exceeds (position_value price p +ℤ order_value) c.max_position_value)
    else approved

-- The checks that depend on the side of the order.
unfoldable pub check_side :
    RiskConfig → OrderRequest ℤ → ℤ → ℤ → Account → OrderSide → RiskCheckResult
unfolding check_sell check_buy
check_side c o price order_value a OrderSide.sell = check_sell c o (lookup o.symbol a.positions)
check_side c o price order_value a OrderSide.buy =
    check_buy c price order_value a (lookup o.symbol a.positions)

-- The checks with a price and the answer of `get_account`.
unfoldable pub check_account :
    RiskConfig → OrderRequest ℤ → String → ℤ → Option Account → RiskCheckResult
unfolding check_side
check_account c o account_id price account =
    let order_value = price *ℤ pos o.quantity in
    if ltb_ℤ c.max_order_value order_value
    then rejected (order_value_exceeds order_value c.max_order_value)
    else elim account [
      | none ↦ rejected (account_not_found account_id)
      | some a ↦ check_side c o price order_value a o.side
    ]

-- `get_account`, which makes up an account.
unfoldable pub get_account : ℕ → ℕ → String → Option Account
get_account one now account_id =
    some (new_account account_id ("Account " ++ account_id) (pos (1000000 * one)) now)

-- The checks, with the account that `get_account` gives.
unfoldable pub check_with : Option Account → RiskCheckRequest → RiskManager → RiskCheckResult
unfolding check_account get_price_for_order
check_with account r m = elim (get_price_for_order r.order m) [
  | none ↦ rejected (no_price r.order.symbol)
  | some price ↦ check_account m.config r.order r.account_id price account
]

unfoldable pub check_risk : ℕ → ℕ → RiskCheckRequest → RiskManager → RiskCheckResult
unfolding check_with get_account
check_risk one now r m = check_with (get_account one now r.account_id) r m
