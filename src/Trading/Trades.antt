-- ===== src/Trading/Trades.antt =====
-- trading/src/execution/engine.rs: the trades that are made of executions have their quantities.
use actix_pura.Prelude.{
  ℕ, suc, ◌≡◌, refl, ap, ◌∙◌, String, List, [], ◌∷◌, ◌++◌, inl, inr, Bool-cases, str_eq, ◌&&◌,
}
use actix_pura.Prelude.Int.{ℤ, pos, ◌+ℤ◌, eq_ℤ, int_laws}
use actix_pura.Trading.Matcher.{Execution}
use actix_pura.Trading.Engine.{
  Trade, Groups, push_group, total_quantity, group_executions, trade_of_group, trades_of_groups,
  create_trade_from_executions,
}

shift : (a b c : ℤ) → a +ℤ (b +ℤ c) ≡ b +ℤ (a +ℤ c)
shift a b c = omega int_laws

module _ {P : Type 0} where
  -- The quantities of all groups, and of all trades.
  unfoldable grouped : Groups P → ℤ
  grouped [] = pos 0
  grouped ((k, es) ∷ l) = total_quantity es +ℤ grouped l

  unfoldable pub traded_quantity : List (Trade P) → ℤ
  traded_quantity [] = pos 0
  traded_quantity (t ∷ ts) = t.quantity +ℤ traded_quantity ts

  total_quantity-snoc :
      (es : List (Execution P)) (e : Execution P)
      → total_quantity (es ++ e ∷ []) ≡ e.quantity +ℤ total_quantity es
  unfolding total_quantity
  total_quantity-snoc [] e = refl
  total_quantity-snoc (x ∷ es) e =
      rw (total_quantity-snoc es e) (shift x.quantity e.quantity (total_quantity es))

  grouped-push_group :
      (k : String × ℤ) (e : Execution P) (l : Groups P)
      → grouped (push_group k e l) ≡ e.quantity +ℤ grouped l
  unfolding grouped push_group total_quantity
  grouped-push_group k e [] = omega int_laws
  grouped-push_group k e ((j, es) ∷ l) = elim (Bool-cases (str_eq k.0 j.0 && eq_ℤ k.1 j.1)) [
    | inl same ↦ rw (same, total_quantity-snoc es e) (omega int_laws)
    | inr other ↦
        rw (other, grouped-push_group k e l) (shift (total_quantity es) e.quantity (grouped l))
  ]

module _ {P : Type 0} (price_key : P → ℤ) (actual_price : ℤ → P) (now : ℕ)
    (trade_uuid : ℕ → String) where
  grouped-group_executions :
      (es : List (Execution P)) (l : Groups P)
      → grouped (group_executions price_key actual_price now trade_uuid es l)
        ≡ total_quantity es +ℤ grouped l
  unfolding group_executions total_quantity
  grouped-group_executions [] l = omega int_laws
  grouped-group_executions (e ∷ es) l =
      let k : String × ℤ = (e.symbol, price_key e.price) in
      rw (grouped-group_executions es (push_group k e l), grouped-push_group k e l) (omega int_laws)

  traded_quantity-trades_of_groups :
      (n : ℕ) (l : Groups P)
      → traded_quantity (trades_of_groups price_key actual_price now trade_uuid n l) ≡ grouped l
  unfolding traded_quantity trades_of_groups grouped trade_of_group
  traded_quantity-trades_of_groups n [] = refl
  traded_quantity-trades_of_groups n ((k, es) ∷ l) =
      ap (λ t. total_quantity es +ℤ t) (traded_quantity-trades_of_groups (suc n) l)

  -- However executions fall into groups by symbol and price, the trades that are made of them have
  -- the quantity of the executions together: nothing is lost and nothing is counted twice.
  pub traded_quantity-create_trade_from_executions :
      (es : List (Execution P))
      → traded_quantity (create_trade_from_executions price_key actual_price now trade_uuid es)
        ≡ total_quantity es
  unfolding create_trade_from_executions grouped
  traded_quantity-create_trade_from_executions es =
      traded_quantity-trades_of_groups 0 _ ∙ grouped-group_executions es [] ∙ omega int_laws
