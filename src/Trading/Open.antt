-- ===== src/Trading/Open.antt =====
-- trading/src/execution/order_book.rs: what holds of all orders of a side, and how many orders there
-- are, as orders come and go.
use actix_pura.Prelude.{
  ℕ, ◌+◌, ◌≤◌, ◌≡◌, refl, ap, ◌∙◌, String, Option, none, some, List, [], ◌∷◌, arith, All,
  All-append, inl, inr, Bool-cases, Option-cases, String-discrete, if_pos, if_neg, ite,
  length-append, unwrap_or,
}
use actix_pura.Prelude.Dict.{lookup, remove, lookup-remove}
use actix_pura.Prelude.Int.{ℤ, eq_ℤ, ltb_ℤ}
use actix_pura.Trading.Order.{Order, OrderSide, buy, sell, PriceOps}
use actix_pura.Trading.Levels.{Levels, push_at, remove_at, orders_at, without_id, keep_level}
use actix_pura.Trading.Book.{
  OrderBook, good_price, place, side_levels, set_side, add_order, remove_order,
}
use actix_pura.Trading.Upkeep.{add_order_cases, add_order_ok}
use actix_pura.Trading.Taking.{size}

module _ {P : Type 0} where
  -- The number of orders of both sides.
  abbrev pub total : OrderBook P → ℕ
  total b = size b.buy_orders + size b.sell_orders

  size-push_at : (k : ℤ) (o : Order P) (l : Levels P) → size (push_at k o l) ≡ size l + 1
  unfolding size push_at
  size-push_at k o [] = refl
  size-push_at k o ((j, os) ∷ l) = elim (Bool-cases (eq_ℤ k j)) [
    | inl e ↦ rw e (omega (arith, length-append {0} os (o ∷ [])))
    | inr ne ↦ elim (Bool-cases (ltb_ℤ k j)) [
      | inl below ↦ rw (ne, below) (omega arith)
      | inr above ↦ rw (ne, above) (omega (arith, size-push_at k o l))
    ]
  ]

  module _ (Q : Order P → Type 0) where
    -- All orders of the levels.
    abbrev pub Every : Levels P → Type 0
    Every [] = Unit
    Every ((k, os) ∷ l) = All Q os × Every l

    pub at-Every : (k : ℤ) (l : Levels P) → Every l → All Q (orders_at k l)
    unfolding orders_at
    at-Every k [] a = tt
    at-Every k ((j, os) ∷ l) a = elim (Bool-cases (eq_ℤ k j)) [
      | inl e ↦ rw e a.0
      | inr ne ↦ rw ne (at-Every k l a.1)
    ]

    without-All : (i : String) (os : List (Order P)) → All Q os → All Q (without_id i os)
    unfolding without_id
    without-All i [] a = tt
    without-All i (o ∷ os) a = elim (String-discrete o.order_id i) [
      | yes p ↦ rw (if_pos _ p) (without-All i os a.1)
      | no p ↦ rw (if_neg _ p) (a.0, without-All i os a.1)
    ]

    keep-Every :
        (k : ℤ) (os : List (Order P)) (l : Levels P)
        → All Q os
        → Every l
        → Every (keep_level k os l)
    keep-Every k [] l h a = a
    keep-Every k (o ∷ os) l h a = (h, a)

    remove_at-Every : (k : ℤ) (i : String) (l : Levels P) → Every l → Every (remove_at k i l)
    unfolding remove_at
    remove_at-Every k i [] a = tt
    remove_at-Every k i ((j, os) ∷ l) a = elim (Bool-cases (eq_ℤ k j)) [
      | inl e ↦ rw e (keep-Every j (without_id i os) l (without-All i os a.0) a.1)
      | inr ne ↦ rw ne (a.0, remove_at-Every k i l a.1)
    ]

    push_at-Every : (k : ℤ) (o : Order P) (l : Levels P) → Q o → Every l → Every (push_at k o l)
    unfolding push_at
    push_at-Every k o [] h a = ((h, tt), tt)
    push_at-Every k o ((j, os) ∷ l) h a = elim (Bool-cases (eq_ℤ k j)) [
      | inl e ↦ rw e (All-append Q os (o ∷ []) a.0 (h, tt), a.1)
      | inr ne ↦ elim (Bool-cases (ltb_ℤ k j)) [
        | inl below ↦ rw (ne, below) ((h, tt), a)
        | inr above ↦ rw (ne, above) (a.0, push_at-Every k o l h a.1)
      ]
    ]

    -- Both sides of a book.
    abbrev pub EveryOrder : OrderBook P → Type 0
    EveryOrder b = Every b.buy_orders × Every b.sell_orders

    removed-Every :
        (t : OrderSide) (k : ℤ) (i : String) (b : OrderBook P)
        → EveryOrder b
        → EveryOrder (set_side t (remove_at k i (side_levels t b)) b)
    removed-Every buy k i b a = (remove_at-Every k i b.buy_orders a.0, a.1)
    removed-Every sell k i b a = (a.0, remove_at-Every k i b.sell_orders a.1)

    pushed-Every :
        (t : OrderSide) (k : ℤ) (o : Order P) (b : OrderBook P)
        → Q o
        → EveryOrder b
        → EveryOrder (set_side t (push_at k o (side_levels t b)) b)
    pushed-Every buy k o b h a = (push_at-Every k o b.buy_orders h a.0, a.1)
    pushed-Every sell k o b h a = (a.0, push_at-Every k o b.sell_orders h a.1)

  module _ (f : PriceOps P) where
    pub remove_order-Every :
        (Q : Order P → Type 0) (i : String) (b : OrderBook P)
        → EveryOrder Q b
        → EveryOrder Q (remove_order f i b).1
    unfolding remove_order
    remove_order-Every Q i b a = elim (Option-cases (lookup i b.orders_by_id)) [
      | inl e ↦ rw (e, remove_order) a
      | inr (o, e) ↦
          rw (e, remove_order)
            (removed-Every Q o.side _ i (record b { orders_by_id = remove i b.orders_by_id }) a)
    ]

    place-Every :
        (Q : Order P → Type 0) (q : Option P) (o : Order P) (b : OrderBook P)
        → Q o
        → EveryOrder Q b
        → EveryOrder Q (place f q o b)
    place-Every Q none o b h a = a
    place-Every Q (some p) o b h a = pushed-Every Q o.side (f.to_key p) o b h a

    pub add_order-Every :
        (Q : Order P → Type 0) (o : Order P) (b : OrderBook P)
        → Q o
        → EveryOrder Q b
        → EveryOrder Q (add_order f o b).1
    add_order-Every Q o b h a = elim (add_order_cases f o b) [
      | inl refused ↦ rw refused a
      | inr (same, active) ↦
          rw (add_order_ok f o b same active) (place-Every Q (good_price f o.price) o b h a)
    ]

    pushed_total :
        (t : OrderSide) (k : ℤ) (o : Order P) (b : OrderBook P)
        → total (set_side t (push_at k o (side_levels t b)) b) ≤ total b + 1
    pushed_total buy k o b = omega (arith, size-push_at k o b.buy_orders)
    pushed_total sell k o b = omega (arith, size-push_at k o b.sell_orders)

    place_total :
        (q : Option P) (o : Order P) (b : OrderBook P) → total (place f q o b) ≤ total b + 1
    place_total none o b = omega arith
    place_total (some p) o b = pushed_total o.side (f.to_key p) o b

    -- One more order at most.
    pub total-add_order : (o : Order P) (b : OrderBook P) → total (add_order f o b).1 ≤ total b + 1
    total-add_order o b = elim (add_order_cases f o b) [
      | inl refused ↦ rw refused (omega arith)
      | inr (same, active) ↦
          rw (add_order_ok f o b same active) (place_total (good_price f o.price) o b)
    ]

    pub set_side_index :
        (t : OrderSide) (l : Levels P) (b : OrderBook P)
        → (set_side t l b).orders_by_id ≡ b.orders_by_id
    set_side_index buy l b = refl
    set_side_index sell l b = refl

    -- The index after a removal: the identifier is gone from it, and no other comes into it.
    index-remove_order :
        (i j : String) (b : OrderBook P)
        → lookup j (remove_order f i b).1.orders_by_id
          ≡ ite (String-discrete i j) none (lookup j b.orders_by_id)
    unfolding remove_order
    index-remove_order i j b = elim (Option-cases (lookup i b.orders_by_id)) [
      | inl gone ↦ rw (gone, remove_order) (ground arith)
      | inr (o, e) ↦
          let b' = record b { orders_by_id = remove i b.orders_by_id } in
          rw (e, remove_order)
            (ap (lookup j) (
                set_side_index o.side
                  (remove_at (f.to_key (unwrap_or f.zero_price o.price)) i (side_levels o.side b'))
                  b')
              ∙ lookup-remove i j b.orders_by_id)
    ]

    pub gone-remove_order :
        (i : String) (b : OrderBook P) → lookup i (remove_order f i b).1.orders_by_id ≡ none
    gone-remove_order i b = ground (arith, index-remove_order i i b)

    pub still_gone :
        (i j : String) (b : OrderBook P)
        → lookup j b.orders_by_id ≡ none
        → lookup j (remove_order f i b).1.orders_by_id ≡ none
    still_gone i j b h = ground (arith, index-remove_order i j b)
