-- ===== src/Trading/Order.antt =====
-- trading/src/models/order.rs. A quantity is an `f64` in the source; a request gives it as a `u64`,
-- and here it is an integer, as its sums and differences are exact up to 2^53. A price stays
-- abstract (`PriceOps`), and a time is a number.
use actix_pura.Prelude.{ℕ, String, Bool, true, false, Option, none, if◌then◌else◌, unwrap_or}
use actix_pura.Prelude.Int.{ℤ, pos, ◌+ℤ◌, ◌-ℤ◌, ltb_ℤ, leb_ℤ}

pub data OrderSide : Type 0 where
  buy sell : OrderSide

pub data OrderType : Type 0 where
  market limit stop_loss stop_limit immediate_or_cancel fill_or_kill : OrderType

pub data OrderStatus : Type 0 where
  new accepted partially_filled filled cancelled rejected expired : OrderStatus

pub record Order (P : Type 0) : Type 0 where
  pub order_id : String
  pub account_id : String
  pub symbol : String
  pub side : OrderSide
  pub order_type : OrderType
  pub quantity : ℤ
  pub price : Option P
  pub stop_price : Option P
  pub status : OrderStatus
  pub filled_quantity : ℤ
  pub created_at : ℕ
  pub updated_at : ℕ

pub record OrderRequest (P : Type 0) : Type 0 where
  pub order_id : Option String
  pub symbol : String
  pub side : OrderSide
  pub price : Option P
  pub quantity : ℕ
  pub client_id : String
  pub order_type : OrderType

-- The arithmetic of `f64` that a price meets: `price > 0.0`, `0.0`, `(price * 100.0) as i64`,
-- `key as f64 / 100.0`, and `>=`.
pub record PriceOps (P : Type 0) : Type 0 where
  pub is_positive : P → Bool
  pub zero_price : P
  pub to_key : P → ℤ
  pub of_key : ℤ → P
  pub at_least : P → P → Bool

-- The status with which an order can be matched and cancelled.
abbrev pub is_live : OrderStatus → Bool
is_live OrderStatus.new = true
is_live OrderStatus.accepted = true
is_live OrderStatus.partially_filled = true
is_live _ = false

-- The status that a filled quantity `f` brings to an order of the quantity `q`.
abbrev pub fill_status : ℤ → ℤ → OrderStatus → OrderStatus
fill_status f q s =
    if leb_ℤ q f
    then OrderStatus.filled
    else if ltb_ℤ (pos 0) f
    then OrderStatus.partially_filled
    else s

module _ {P : Type 0} where
  -- `from_request`, with a fresh identifier and the time.
  unfoldable pub from_request : String → ℕ → OrderRequest P → Order P
  from_request fresh now r = record {
    order_id = unwrap_or fresh r.order_id;
    account_id = r.client_id;
    symbol = r.symbol;
    side = r.side;
    order_type = r.order_type;
    quantity = pos r.quantity;
    price = r.price;
    stop_price = none;
    status = OrderStatus.new;
    filled_quantity = pos 0;
    created_at = now;
    updated_at = now;
  }

  unfoldable pub update_status : OrderStatus → ℕ → Order P → Order P
  update_status s now o = record o { status = s; updated_at = now }

  -- `update_filled_quantity`, which adds to the filled quantity.
  unfoldable pub update_filled_quantity : ℤ → ℕ → Order P → Order P
  update_filled_quantity q now o =
      let f = o.filled_quantity +ℤ q in
      record o { filled_quantity = f; status = fill_status f o.quantity o.status; updated_at = now }

  unfoldable pub can_cancel : Order P → Bool
  can_cancel o = is_live o.status

  unfoldable pub is_active : Order P → Bool
  is_active o = is_live o.status

  unfoldable pub remaining_quantity : Order P → ℤ
  remaining_quantity o = o.quantity -ℤ o.filled_quantity
