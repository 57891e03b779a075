-- ===== src/Trading/Placing.antt =====
-- trading/src/execution/order_book.rs: adding an order under a new identifier keeps a side of the
-- book resting where the index has it.
use actix_pura.Prelude.{
  ◌≡◌, ◌≢◌, refl, ◌∙◌, String, Option, none, some, List, [], ◌∷◌, All, All-append, inl, inr,
  Bool-cases, String-discrete, if_neg, if_pos,
}
use actix_pura.Prelude.Dict.{lookup, insert, lookup-insert}
use actix_pura.Prelude.Int.{ℤ, pos, ◌≤ℤ◌, eq_ℤ, eq_ℤ→eq, ltb_ℤ}
use actix_pura.Trading.Order.{Order, OrderSide, buy, sell, PriceOps}
use actix_pura.Trading.Levels.{Levels, push_at}
use actix_pura.Trading.Book.{OrderBook, good_price, place, side_levels, set_side, add_order}
use actix_pura.Trading.Upkeep.{
  good_price_eq, add_order_cases, add_order_ok, place_index, add_order-IsValid,
}
use actix_pura.Trading.Resting.{RestsAt, AllRest, key_of}
use actix_pura.Trading.Taking.{IsResting}

module _ {P : Type 0} (f : PriceOps P) where
  insert-RestsAt :
      (d : List (String × Order P)) (s : OrderSide) (k : ℤ) (i : String) (o m : Order P)
      → lookup i d ≡ none
      → RestsAt f d s k m
      → RestsAt f (insert i o d) s k m
  insert-RestsAt d s k i o m fresh (z, (x, e, side, key)) =
      let other : i ≢ m.order_id = λ q. cc in
      (
        z,
        (
          x,
          lookup-insert i m.order_id o d
              ∙ if_neg (String-discrete i m.order_id) other (some o) _
              ∙ e,
          side,
          key,
        ),
      )

  insert-All :
      (d : List (String × Order P)) (s : OrderSide) (k : ℤ) (i : String) (o : Order P)
      (os : List (Order P))
      → lookup i d ≡ none
      → All (RestsAt f d s k) os
      → All (RestsAt f (insert i o d) s k) os
  insert-All d s k i o [] fresh a = tt
  insert-All d s k i o (m ∷ os) fresh a =
      (insert-RestsAt d s k i o m fresh a.0, insert-All d s k i o os fresh a.1)

  insert-AllRest :
      (d : List (String × Order P)) (s : OrderSide) (i : String) (o : Order P) (l : Levels P)
      → lookup i d ≡ none
      → AllRest f d s l
      → AllRest f (insert i o d) s l
  insert-AllRest d s i o [] fresh a = tt
  insert-AllRest d s i o ((k, os) ∷ l) fresh a =
      (insert-All d s k i o os fresh a.0, insert-AllRest d s i o l fresh a.1)

  push-AllRest :
      (d : List (String × Order P)) (s : OrderSide) (k : ℤ) (o : Order P) (l : Levels P)
      → RestsAt f d s k o
      → AllRest f d s l
      → AllRest f d s (push_at k o l)
  unfolding push_at
  push-AllRest d s k o [] h a = ((h, tt), tt)
  push-AllRest d s k o ((j, os) ∷ l) h a = elim (Bool-cases (eq_ℤ k j)) [
    | inl e ↦
        let h' : RestsAt f d s j o = rw (← eq_ℤ→eq k j e) h in
        rw e (All-append (RestsAt f d s j) os (o ∷ []) a.0 (h', tt), a.1)
    | inr ne ↦ elim (Bool-cases (ltb_ℤ k j)) [
      | inl below ↦ rw (ne, below) ((h, tt), a)
      | inr above ↦ rw (ne, above) (a.0, push-AllRest d s k o l h a.1)
    ]
  ]

  -- Placing an order changes the levels of its own side alone.
  place-AllRest :
      (d : List (String × Order P)) (s t : OrderSide) (k : ℤ) (o : Order P) (b : OrderBook P)
      → o.side ≡ t
      → (o.side ≡ s → RestsAt f d s k o)
      → AllRest f d s (side_levels s b)
      → AllRest f d s (side_levels s (set_side t (push_at k o (side_levels t b)) b))
  place-AllRest d buy buy k o b side h a = push-AllRest d buy k o b.buy_orders (h side) a
  place-AllRest d sell sell k o b side h a = push-AllRest d sell k o b.sell_orders (h side) a
  place-AllRest d buy sell k o b side h a = a
  place-AllRest d sell buy k o b side h a = a

  placed-AllRest :
      (d : List (String × Order P)) (s : OrderSide) (q : Option P) (o : Order P) (b : OrderBook P)
      → good_price f o.price ≡ q
      → lookup o.order_id d ≡ some o
      → pos 0 ≤ℤ o.filled_quantity
      → AllRest f d s (side_levels s b)
      → AllRest f d s (side_levels s (place f q o b))
  placed-AllRest d s none o b price found h a = a
  placed-AllRest d s (some p) o b price found h a =
      let key : key_of f o ≡ f.to_key p = rw (good_price_eq f o.price p price) refl in
      place-AllRest d s o.side (f.to_key p) o b refl (λ side. (h, (o, found, side, key))) a

  side_levels_reindex :
      (d : List (String × Order P)) (s : OrderSide) (b : OrderBook P)
      → side_levels s (record b { orders_by_id = d }) ≡ side_levels s b
  side_levels_reindex d buy b = refl
  side_levels_reindex d sell b = refl

  -- An order under an identifier that the index does not have, with nothing negative filled, leaves
  -- each side of the book resting where the index has it, whether it is accepted or not.
  pub add_order-IsResting :
      (s : OrderSide) (o : Order P) (b : OrderBook P)
      → lookup o.order_id b.orders_by_id ≡ none
      → pos 0 ≤ℤ o.filled_quantity
      → IsResting f s b
      → IsResting f s (add_order f o b).1
  add_order-IsResting s o b fresh h r = elim (add_order_cases f o b) [
    | inl refused ↦ rw refused r
    | inr (same, active) ↦
        let d = insert o.order_id o b.orders_by_id in
        let found : lookup o.order_id d ≡ some o =
          lookup-insert o.order_id o.order_id o b.orders_by_id
          ∙ if_pos (String-discrete o.order_id o.order_id) refl (some o) _ in
        record {
          valid = add_order-IsValid f o b r.valid;
          rests =
              rw
                (
                  add_order_ok f o b same active,
                  place_index f (good_price f o.price) o b,
                  side_levels_reindex d s (place f (good_price f o.price) o b),
                )
                (placed-AllRest d s (good_price f o.price) o b refl found h
                  (insert-AllRest b.orders_by_id s o.order_id o (side_levels s b) fresh r.rests));
        }
  ]
