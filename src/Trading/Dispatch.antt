-- ===== src/Trading/Dispatch.antt =====
-- trading/src/execution/engine.rs: `execute_order`, which matches an order with the book of its
-- symbol and then lets the orders that rest there trade with each other.
use actix_pura.Prelude.{
  ℕ, ◌+◌, ◌≤◌, ◌<◌, ◌≡◌, ◌≢◌, refl, ap, ◌∙◌, String, Option, none, some, List, ◌++◌, if◌then◌else◌,
  inl, inr, Bool-cases, Option-cases, arith,
}
use actix_pura.Prelude.Dict.{lookup, insert, lookup-insert_self, lookup-insert_other}
use actix_pura.Prelude.Int.{ℤ, pos, ◌≤ℤ◌}
use actix_pura.Trading.Order.{Order, OrderSide, buy, sell, PriceOps}
use actix_pura.Trading.Book.{OrderBook, empty_book, side_levels}
use actix_pura.Trading.Matcher.{MatchResult, has_matches, merge, match_order}
use actix_pura.Trading.Continuous.{continuous_match}
use actix_pura.Trading.Open.{total}
use actix_pura.Trading.Exchanging.{IsOpen, Remains}
use actix_pura.Trading.Taking.{opposite, size, IsResting}
use actix_pura.Trading.Filling.{match_order_ends}
use actix_pura.Trading.Leaving.{match_order-IsOpen}
use actix_pura.Trading.Settling.{IsSettled, continuous_match_ends}
use actix_pura.Trading.Engine.{
  ExecutionEngine, Notice, get_or_create_order_book, put_order_book, process_match_result,
}

-- What `execute_order` returns and changes: the result, the order, the engine, and the messages.
pub record Executed (P : Type 0) : Type 0 where
  pub result : MatchResult P
  pub order : Order P
  pub engine : ExecutionEngine P
  pub messages : List (String × Notice P)

module _ {P : Type 0} where
  -- Only the book of the symbol changes.
  abbrev pub Others : String → ExecutionEngine P → ExecutionEngine P → Type 0
  Others s g g' = (t : String) → s ≢ t → lookup t g'.order_books ≡ lookup t g.order_books

-- `draw i n` and `trade_uuid i n` are the identifiers that part i of the call draws, where part 0 is
-- the matching of the order and part 1 the continuous matching.
module _ {P : Type 0} (f : PriceOps P) (price_key : P → ℤ) (actual_price : ℤ → P) (now : ℕ)
    (draw trade_uuid : ℕ → ℕ → String) where
  -- The second block: continuous matching, whose result is merged if there are matches.
  unfoldable pub settle_book :
      String
      → MatchResult P
      → Order P
      → List (String × Notice P)
      → OrderBook P × MatchResult P
      → ExecutionEngine P
      → Executed P
  settle_book s r o ns (b, r') g =
      let g' = put_order_book s b g in
      let (_, g'', ns') = process_match_result price_key actual_price now (trade_uuid 1) r' g' in
      if has_matches r'
      then record { result = merge r r'; order = o; engine = g''; messages = ns ++ ns' }
      else record { result = r; order = o; engine = g'; messages = ns }

  unfoldable pub continue_matching :
      ℕ
      → String
      → MatchResult P
      → Order P
      → List (String × Notice P)
      → ExecutionEngine P
      → Option (Executed P)
  continue_matching k s r o ns g =
      let (b, g') = get_or_create_order_book s g in
      elim (continuous_match f now (draw 1) k b) [
        | none ↦ none
        | some c ↦ some (settle_book s r o ns c g')
      ]

  -- `execute_order`; `none` when the fuel runs out, or the matching panics.
  unfoldable pub execute_order : ℕ → Order P → ExecutionEngine P → Option (Executed P)
  execute_order k o g =
      let (b, g') = get_or_create_order_book o.symbol g in
      elim (match_order f now (draw 0) k b o) [
        | none ↦ none
        | some (r, b', o') ↦
            let (_, g'', ns) =
              process_match_result price_key actual_price now (trade_uuid 0) r
                (put_order_book o.symbol b' g') in
            continue_matching k o.symbol r o' ns g''
      ]

  put_order_book-Others :
      (s : String) (b : OrderBook P) (g : ExecutionEngine P) → Others s g (put_order_book s b g)
  unfolding put_order_book
  put_order_book-Others s b g t other = lookup-insert_other s t b g.order_books other

  get_or_create_order_book-Others :
      (s : String) (g : ExecutionEngine P) → Others s g (get_or_create_order_book s g).1
  unfolding get_or_create_order_book
  get_or_create_order_book-Others s g t other = elim (Option-cases (lookup s g.order_books)) [
    | inl e ↦
        rw (get_or_create_order_book, e)
          (lookup-insert_other s t (empty_book s) g.order_books other)
    | inr (b, e) ↦ rw (get_or_create_order_book, e) refl
  ]

  process_match_result_books :
      (u : ℕ → String) (r : MatchResult P) (g : ExecutionEngine P)
      → (process_match_result price_key actual_price now u r g).1.order_books ≡ g.order_books
  unfolding process_match_result
  process_match_result_books u r g = elim (Bool-cases (has_matches r)) [
    | inl e ↦ rw e refl
    | inr e ↦ rw e refl
  ]

  settle_book_books :
      (s : String) (r : MatchResult P) (o : Order P) (ns : List (String × Notice P))
      (b : OrderBook P) (r' : MatchResult P) (g : ExecutionEngine P)
      → (settle_book s r o ns (b, r') g).engine.order_books ≡ insert s b g.order_books
  unfolding settle_book put_order_book
  settle_book_books s r o ns b r' g = elim (Bool-cases (has_matches r')) [
    | inl e ↦ rw e (process_match_result_books (trade_uuid 1) r' (put_order_book s b g))
    | inr e ↦ rw e refl
  ]

  -- When the book of the symbol has its orders rest where the index has them, none overfilled, and
  -- there are more rounds than orders in it, the continuous matching that `execute_order` does last
  -- gives a result: no book but that of the symbol has changed, and that one, whose orders still
  -- rest so, has an empty side, or best prices that do not cross, or a best level whose key does
  -- not come back from its price.
  pub continue_matching_ends :
      (k : ℕ) (s : String) (r : MatchResult P) (o : Order P) (ns : List (String × Notice P))
      (g : ExecutionEngine P)
      → IsOpen f (get_or_create_order_book s g).0
      → total (get_or_create_order_book s g).0 < k
      → (x : Executed P) × (continue_matching k s r o ns g ≡ some x)
        × Others s g x.engine
        × ((b : OrderBook P) × (lookup s x.engine.order_books ≡ some b)
            × IsOpen f b
            × IsSettled f b)
  unfolding continue_matching
  continue_matching_ends k s r o ns g v room =
      let c = get_or_create_order_book s g in
      let (b, r', done, open', settled) = continuous_match_ends f now (draw 1) k c.0 v room in
      let books = settle_book_books s r o ns b r' c.1 in
      (
        settle_book s r o ns (b, r') c.1,
        rw (done, continue_matching) refl,
        (λ t other.
            ap (λ d. lookup t d) books
            ∙ lookup-insert_other s t b c.1.order_books other
            ∙ get_or_create_order_book-Others s g t other),
        (b, ap (λ d. lookup s d) books ∙ lookup-insert_self s b c.1.order_books, open', settled),
      )

  side_rests : (s : OrderSide) (b : OrderBook P) → IsOpen f b → IsResting f s b
  side_rests buy b v = v.buys
  side_rests sell b v = v.sells

  size-le-total : (s : OrderSide) (b : OrderBook P) → size (side_levels s b) ≤ total b
  size-le-total buy b = omega arith
  size-le-total sell b = omega arith

  known_book :
      (s : String) (b : OrderBook P) (g : ExecutionEngine P)
      → lookup s g.order_books ≡ some b
      → get_or_create_order_book s g ≡ (b, g)
  unfolding get_or_create_order_book
  known_book s b g e = rw (e, get_or_create_order_book) refl

  -- An order that is new to the book of its symbol, with nothing negative filled and no more than
  -- it asks for, gets a result from the engine, when that book has its orders rest where the index
  -- has them, none overfilled, and the fuel is more than two above the number of its orders. No
  -- book but that of the symbol has changed then, and that one, whose orders still rest so, has an
  -- empty side, or best prices that do not cross, or a best level whose key does not come back from
  -- its price, so that its orders are not found.
  pub execute_order_ends :
      (k : ℕ) (o : Order P) (g : ExecutionEngine P)
      → IsOpen f (get_or_create_order_book o.symbol g).0
      → lookup o.order_id (get_or_create_order_book o.symbol g).0.orders_by_id ≡ none
      → pos 0 ≤ℤ o.filled_quantity
      → Remains o
      → total (get_or_create_order_book o.symbol g).0 + 2 < k
      → (x : Executed P) × (execute_order k o g ≡ some x)
        × Others o.symbol g x.engine
        × ((b : OrderBook P) × (lookup o.symbol x.engine.order_books ≡ some b)
            × IsOpen f b
            × IsSettled f b)
  unfolding execute_order put_order_book
  execute_order_ends k o g v absent filled remains room =
      let c = get_or_create_order_book o.symbol g in
      let rests = side_rests (opposite o.side) c.0 v in
      let few = size-le-total (opposite o.side) c.0 in
      let (r, b, o', done, _) =
        match_order_ends f now (draw 0) k c.0 o rests remains (omega (arith, few, room)) in
      let (open', more) = match_order-IsOpen f now (draw 0) k c.0 o v absent filled remains done in
      let g1 = put_order_book o.symbol b c.1 in
      let p = process_match_result price_key actual_price now (trade_uuid 0) r g1 in
      let books = process_match_result_books (trade_uuid 0) r g1 in
      let found : lookup o.symbol p.1.order_books ≡ some b =
        ap (lookup o.symbol) books ∙ lookup-insert_self o.symbol b c.1.order_books in
      let known = known_book o.symbol b p.1 found in
      let (x, ends, others, settled) =
        continue_matching_ends k o.symbol r o' p.2 p.1 (rw known open')
          (rw known (omega (arith, more, room))) in
      (
        x,
        rw (done, execute_order) ends,
        (λ t other.
            others t other
            ∙ ap (λ d. lookup t d) books
            ∙ put_order_book-Others o.symbol b c.1 t other
            ∙ get_or_create_order_book-Others o.symbol g t other),
        settled,
      )
