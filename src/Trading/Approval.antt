-- ===== src/Trading/Approval.antt =====
-- trading/src/risk/manager.rs: exactly which orders are approved.
use actix_pura.Prelude.{
  ℕ, ◌*◌, ◌≡◌, ◌↔◌, String, Bool, true, Option, none, some, arith, Option-cases, Bool-cases, inl,
  inr,
}
use actix_pura.Prelude.Dict.{lookup}
use Prim.Native.String.{◌++◌}
use actix_pura.Prelude.Int.{ℤ, pos, ◌+ℤ◌, ◌*ℤ◌, ltb_ℤ, ◌≤ℤ◌}
use actix_pura.Trading.Order.{OrderRequest, OrderSide, sell}
use actix_pura.Trading.Account.{Account, Position, new_account, available_quantity}
use actix_pura.Trading.Risk.{
  RiskCheckRequest, approved, RiskConfig, RiskManager, get_price_for_order, check_sell,
  position_value, check_buy, check_side, check_account, get_account, check_with, check_risk,
}

-- What is asked of a sale: a position with enough of it free, or no position and short selling allowed.
abbrev pub SaleAllowed : RiskConfig → OrderRequest ℤ → Option Position → Type 0
SaleAllowed c o (some p) = pos o.quantity ≤ℤ available_quantity p
SaleAllowed c o none = c.allow_short_selling ≡ true

-- What is asked of a purchase: the money is there, and the position stays within its limit.
abbrev pub PurchaseAllowed : RiskConfig → ℤ → ℤ → Account → Option Position → Type 0
PurchaseAllowed c price order_value a p =
    (order_value ≤ℤ a.available) × (position_value price p +ℤ order_value ≤ℤ c.max_position_value)

abbrev pub SideAllowed : RiskConfig → OrderRequest ℤ → ℤ → Account → OrderSide → Type 0
SideAllowed c o price a OrderSide.sell = SaleAllowed c o (lookup o.symbol a.positions)
SideAllowed c o price a OrderSide.buy =
    PurchaseAllowed c price (price *ℤ pos o.quantity) a (lookup o.symbol a.positions)

-- An order that may be placed: its price is known, its value within the limit, and its side is allowed
-- for the account.
abbrev pub Allowed : RiskManager → RiskCheckRequest → Account → Type 0
Allowed m r a =
    (price : ℤ) × (get_price_for_order r.order m ≡ some price)
    × (price *ℤ pos r.order.quantity ≤ℤ m.config.max_order_value)
    × SideAllowed m.config r.order price a r.order.side

sell_iff :
    (c : RiskConfig) (o : OrderRequest ℤ) (p : Option Position)
    → (check_sell c o p ≡ approved) ↔ SaleAllowed c o p
unfolding check_sell
sell_iff c o (some p) = ((λ h. ground arith), (λ h. ground arith))
sell_iff c o none = ((λ h. ground arith), (λ h. ground arith))

buy_iff :
    (c : RiskConfig) (price v : ℤ) (a : Account) (p : Option Position)
    → (check_buy c price v a p ≡ approved) ↔ PurchaseAllowed c price v a p
unfolding check_buy
buy_iff c price v a p = ((λ h. ground arith), (λ h. ground arith))

side_iff :
    (c : RiskConfig) (o : OrderRequest ℤ) (price : ℤ) (a : Account) (side : OrderSide)
    → (check_side c o price (price *ℤ pos o.quantity) a side ≡ approved)
      ↔ SideAllowed c o price a side
unfolding check_side
side_iff c o price a OrderSide.sell = sell_iff c o (lookup o.symbol a.positions)
side_iff c o price a OrderSide.buy =
    buy_iff c price (price *ℤ pos o.quantity) a (lookup o.symbol a.positions)

account_iff :
    (c : RiskConfig) (o : OrderRequest ℤ) (i : String) (price : ℤ) (a : Account)
    → (check_account c o i price (some a) ≡ approved)
      ↔ ((price *ℤ pos o.quantity ≤ℤ c.max_order_value) × SideAllowed c o price a o.side)
account_iff c o i price a = (
  (λ h. elim (Bool-cases over) [
    | inl large ↦ absurd (unfold check_account in ground arith)
    | inr fits ↦
        (ground arith, (side_iff c o price a o.side).0 (unfold check_account in ground arith))
  ]),
  (λ (le, allowed).
      let checked = (side_iff c o price a o.side).1 allowed in
      unfold check_account in ground arith),
)
  where
    over : Bool
    over = ltb_ℤ c.max_order_value (price *ℤ pos o.quantity)

pub approved_iff :
    (m : RiskManager) (r : RiskCheckRequest) (a : Account)
    → (check_with (some a) r m ≡ approved) ↔ Allowed m r a
approved_iff m r a = (
  (λ h. elim (Option-cases (get_price_for_order r.order m)) [
    | inl unknown ↦ absurd (unfold check_with in ground arith)
    | inr (price, known) ↦
        let (le, allowed) =
          (account_iff m.config r.order r.account_id price a).0
            (unfold check_with in ground arith) in
        (price, known, le, allowed)
  ]),
  (λ (price, known, le, allowed).
      let checked = (account_iff m.config r.order r.account_id price a).1 (le, allowed) in
      unfold check_with in ground arith),
)

empty_side :
    (c : RiskConfig) (o : OrderRequest ℤ) (price funds : ℤ) (i name : String) (now : ℕ)
    (side : OrderSide)
    → side ≡ sell
    → SideAllowed c o price (new_account i name funds now) side ↔ (c.allow_short_selling ≡ true)
unfolding new_account lookup
empty_side c o price funds i name now OrderSide.sell e = ((λ h. h), (λ h. h))
empty_side c o price funds i name now OrderSide.buy e = cc

-- With the account that `get_account` makes up, which holds nothing, a sale is approved just if its
-- price is known, its value is within the limit and short selling is allowed, whatever the client
-- holds.
pub sale_approved_iff :
    (one now : ℕ) (m : RiskManager) (r : RiskCheckRequest)
    → r.order.side ≡ sell
    → (check_risk one now r m ≡ approved) ↔ (
        (price : ℤ) × (get_price_for_order r.order m ≡ some price)
        × (price *ℤ pos r.order.quantity ≤ℤ m.config.max_order_value)
        × (m.config.allow_short_selling ≡ true))
unfolding check_risk get_account
sale_approved_iff one now m r sale =
    let name = "Account " ++ r.account_id in
    let funds = pos (1000000 * one) in
    let a = new_account r.account_id name funds now in
    let side = λ (price : ℤ).
      empty_side m.config r.order price funds r.account_id name now r.order.side sale in
    (
      (λ h.
          let (price, known, le, allowed) = (approved_iff m r a).0 h in
          (price, known, le, (side price).0 allowed)),
      (λ (price, known, le, short).
          (approved_iff m r a).1 (price, known, le, (side price).1 short)),
    )
