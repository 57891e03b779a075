-- ===== src/Broker/Remembering.antt =====
-- actix-broker/src/broker.rs: over any requests the broker remembers the last message of each type, and
-- files each subscription under the type of its messages.
use mathlib.Core.Path.{subst}
use actix_pura.Prelude.{
  ℕ, ◌≡◌, refl, sym, ap, ◌∙◌, Option, some, List, [], ◌∷◌, ◌==◌, if◌then◌else◌, All, All-append,
  Bool-cases, Option-cases, inl, inr, arith,
}
use actix_pura.Broker.Subscriptions.{
  get, put, Recipient, Subscription, Broker, Mailboxes, add_sub, get_previous_msg, set_msg, offer,
  issue_one, issue_loop, issue_async, subscribe_sync,
}
use actix_pura.Broker.Offering.{get-put}
use actix_pura.Broker.Issuing.{previous-set_msg, some_issued, none_issued}

-- What the broker is asked: `SubscribeAsync`, `SubscribeSync` and `IssueAsync`, of messages of a type.
pub data Request (V : Type 0) : Type 0 where
  subscription subscription_sync : ℕ → Recipient → ℕ → Request V
  issue : ℕ → V → ℕ → Request V

module _ {V : Type 0} where
  unfoldable pub request : Request V → Broker V × Mailboxes V → Broker V × Mailboxes V
  request (subscription t r id) (b, mbs) = (add_sub t r id b, mbs)
  request (subscription_sync t r id) (b, mbs) = ((subscribe_sync t r id b).1, mbs)
  request (issue t v id) w = issue_async t v id w

  unfoldable pub requests : List (Request V) → Broker V × Mailboxes V → Broker V × Mailboxes V
  requests [] w = w
  requests (q ∷ qs) w = requests qs (request q w)

  -- The last message of type `t` that is issued, or `o` if there is none.
  abbrev pub last_issued : ℕ → Option V → List (Request V) → Option V
  last_issued t o [] = o
  last_issued t o (issue s v id ∷ qs) = last_issued t (if t == s then some v else o) qs
  last_issued t o (q ∷ qs) = last_issued t o qs

  pub record IsTyped (b : Broker V) : Type 0 where
    pub filed :
        (t : ℕ) (l : List Subscription) → get t b.sub_map ≡ some l → All (λ s. s.msg_type ≡ t) l

  put-IsTyped :
      (t : ℕ) (l : List Subscription) (b : Broker V)
      → All (λ s. s.msg_type ≡ t) l
      → IsTyped b
      → IsTyped (record b { sub_map = put t l b.sub_map })
  put-IsTyped t l b h v = record {
    filed = λ s m at. elim (Bool-cases (s == t)) [
      | inl same ↦
          let is : s ≡ t = ground arith in
          let got : some l ≡ some m = ground (arith, get-put t s l b.sub_map) in
          let lists : l ≡ m = cc in
          subst (λ x. All (λ u. u.msg_type ≡ x) m) (sym is)
            (subst (All (λ u. u.msg_type ≡ t)) lists h)
      | inr other ↦ v.filed s m (ground (arith, get-put t s l b.sub_map))
    ];
  }

  add_sub-IsTyped :
      (t : ℕ) (r : Recipient) (id : ℕ) (b : Broker V) → IsTyped b → IsTyped (add_sub t r id b)
  unfolding add_sub
  add_sub-IsTyped t r id b v = elim (Option-cases (get t b.sub_map)) [
    | inl e ↦ rw (e, add_sub) (put-IsTyped t _ b (refl, tt) v)
    | inr (l, e) ↦
        rw (e, add_sub) (put-IsTyped t _ b (All-append _ l _ (v.filed t l e) (refl, tt)) v)
  ]

  -- The messages are not touched by the subscriptions.
  add_sub_messages :
      (t : ℕ) (r : Recipient) (id : ℕ) (b : Broker V) → (add_sub t r id b).msg_map ≡ b.msg_map
  unfolding add_sub
  add_sub_messages t r id b = ground arith

  issue_one_keeps :
      (t : ℕ) (v : V) (id : ℕ) (s : Subscription) (w : Broker V × Mailboxes V)
      → IsTyped w.0
      → IsTyped (issue_one t v id s w).0 × ((issue_one t v id s w).0.msg_map ≡ w.0.msg_map)
  unfolding issue_one
  issue_one_keeps t v id s (b, mbs) h =
      let back = add_sub-IsTyped t s.recipient s.subscriber b h in
      let same = add_sub_messages t s.recipient s.subscriber b in
      elim (Bool-cases (s.subscriber == id)) [
        | inl own ↦ rw own (back, same)
        | inr other ↦ elim (Bool-cases (offer v s.recipient mbs).0) [
          | inl kept ↦ rw (other, kept) (back, same)
          | inr lost ↦ rw (other, lost) (h, refl)
        ]
      ]

  issue_loop_keeps :
      (t : ℕ) (v : V) (id : ℕ) (l : List Subscription) (w : Broker V × Mailboxes V)
      → IsTyped w.0
      → IsTyped (issue_loop t v id l w).0 × ((issue_loop t v id l w).0.msg_map ≡ w.0.msg_map)
  unfolding issue_loop issue_one
  issue_loop_keeps t v id [] w h = (h, refl)
  issue_loop_keeps t v id (s ∷ l) w h =
      let (typed, same) = issue_one_keeps t v id s w h in
      let (typed', same') = issue_loop_keeps t v id l (issue_one t v id s w) typed in
      (typed', same' ∙ same)

  set-IsTyped : (t : ℕ) (v : V) (b : Broker V) → IsTyped b → IsTyped (set_msg t v b)
  unfolding set_msg
  set-IsTyped t v b h = record { filed = h.filed }

  previous_same :
      (s : ℕ) (b c : Broker V) → b.msg_map ≡ c.msg_map → get_previous_msg s b ≡ get_previous_msg s c
  unfolding get_previous_msg
  previous_same s b c e = rw e refl

  issue_async_keeps :
      (t : ℕ) (v : V) (id : ℕ) (w : Broker V × Mailboxes V)
      → IsTyped w.0
      → IsTyped (issue_async t v id w).0
        × ((s : ℕ)
            → get_previous_msg s (issue_async t v id w).0
              ≡ (if s == t then some v else get_previous_msg s w.0))
  issue_async_keeps t v id (b, mbs) h = elim (Option-cases (get t b.sub_map)) [
    | inl e ↦ rw (none_issued t v id b mbs e) (set-IsTyped t v b h, λ s. previous-set_msg s t v b)
    | inr (l, e) ↦
        let b' : Broker V = record b { sub_map = put t [] b.sub_map } in
        let (typed, same) = issue_loop_keeps t v id l (b', mbs) (put-IsTyped t [] b tt h) in
        let u = (issue_loop t v id l (b', mbs)).0 in
        rw (some_issued t v id b mbs l e (h.filed t l e)) (
          set-IsTyped t v u typed,
          λ s.
              previous-set_msg s t v u
              ∙ ap (λ x. if s == t then some v else x) (previous_same s u b same),
        )
  ]

  subscribed :
      (t : ℕ) (r : Recipient) (id : ℕ) (b : Broker V)
      → (subscribe_sync t r id b).0 ≡ get_previous_msg t b
  unfolding subscribe_sync
  subscribed t r id b = previous_same t _ b (add_sub_messages t r id b)

  -- Over any requests the broker files each subscription under the type of its messages, and what
  -- it answers to a new subscriber of a type is the last message of that type that was issued,
  -- whatever was issued of other types, and whoever has subscribed; or what it had before, if there
  -- is none.
  pub requests_remember :
      (t : ℕ) (qs : List (Request V)) (w : Broker V × Mailboxes V)
      → IsTyped w.0
      → IsTyped (requests qs w).0
        × ((r : Recipient) (id : ℕ)
            → (subscribe_sync t r id (requests qs w).0).0
              ≡ last_issued t (get_previous_msg t w.0) qs)
  unfolding requests request subscribe_sync
  requests_remember t [] w h = (h, λ r id. subscribed t r id w.0)
  requests_remember t (subscription s r id ∷ qs) (b, mbs) h =
      let (typed, kept) =
        requests_remember t qs (add_sub s r id b, mbs) (add_sub-IsTyped s r id b h) in
      (
        typed,
        λ r' id'.
            kept r' id'
            ∙ ap (λ o. last_issued t o qs) (previous_same t _ b (add_sub_messages s r id b)),
      )
  requests_remember t (subscription_sync s r id ∷ qs) (b, mbs) h =
      let (typed, kept) =
        requests_remember t qs (add_sub s r id b, mbs) (add_sub-IsTyped s r id b h) in
      (
        typed,
        λ r' id'.
            kept r' id'
            ∙ ap (λ o. last_issued t o qs) (previous_same t _ b (add_sub_messages s r id b)),
      )
  requests_remember t (issue s v id ∷ qs) w h =
      let (typed1, previous) = issue_async_keeps s v id w h in
      let (typed, kept) = requests_remember t qs (issue_async s v id w) typed1 in
      (typed, λ r' id'. kept r' id' ∙ ap (λ o. last_issued t o qs) (previous t))
