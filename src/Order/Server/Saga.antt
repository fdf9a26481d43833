-- ===== src/Order/Server/Saga.antt =====
-- The order saga: what CreateOrder leaves behind on every path.
use microservices.Prelude.{
  String, ◌≡◌, refl, ap, ◌∙◌, false, arith, Bool-cases, ◌⊎◌, inl, inr, str_eq,
}
use microservices.Grpc.{
  Platform, Uuid, Code, ContextState, live, failed_precondition, invalid_argument, internal,
}
use microservices.Effect.{World, Result, ok, err, Error, check_live, to_internal, continue, rethrow}
use microservices.Order.{Tables}
use microservices.Order.Repository.{GrpcOrder, create_order, cancel_order}
use microservices.Order.Repository.Atomic.{Stored, create_order_atomic}
use microservices.Order.Repository.Cancel.{migrated_statuses, cancel_order-migrated}
use microservices.Order.Server.{
  Clients, GetCartResponse, cart_error, user_error, payment_error, is_empty, get_cart,
  get_user_email, process_payment, create_order_handler, compensate,
}

Result-cases : {E A : Type 0} (r : Result E A) → ((e : E) × (r ≡ err e)) ⊎ ((a : A) × (r ≡ ok a))
Result-cases (err e) = inl (e, refl)
Result-cases (ok a) = inr (a, refl)

module _ (pf : Platform) (clients : Clients) where
  -- A cart that can be ordered: it has products and a positive total.
  pub record Orderable (user_id : String) (cart : GetCartResponse) : Type 0 where
    pub fetched : clients.get_cart user_id ≡ ok cart
    pub products : is_empty cart.products ≡ false
    pub positive : pf.le_zero cart.total_price ≡ false

  get_cart-cases :
      (user_id : String) (w : World Tables)
      → ((c : Code) × (get_cart pf clients user_id w ≡ (err c, w)))
        ⊎ ((cart : GetCartResponse) × Orderable user_id cart
            × (get_cart pf clients user_id w ≡ (ok cart, w)))
  unfolding get_cart
  get_cart-cases user_id w = elim (Result-cases (clients.get_cart user_id)) [
    | inl (c, e) ↦ inl (cart_error c, rw e refl)
    | inr (cart, e) ↦ elim (Bool-cases (is_empty cart.products)) [
      | inl p ↦ inl (failed_precondition, rw (e, p) refl)
      | inr p ↦ elim (Bool-cases (pf.le_zero cart.total_price)) [
        | inl z ↦ inl (failed_precondition, rw (e, p, z) refl)
        | inr z ↦ inr (cart, record { fetched = e; products = p; positive = z }, rw (e, p, z) refl)
      ]
    ]
  ]

  -- The order that a call stored, its cart, and the state of the world after the storing.
  pub record Placed (user_id : String) (w w1 : World Tables) (g : GrpcOrder) : Type 0 where
    pub cart : GetCartResponse
    pub email : String
    pub orderable : Orderable user_id cart
    pub user : clients.get_user_email user_id ≡ ok email
    pub stored : Stored pf user_id email cart.total_price cart.products w.tables w1.tables g

  abbrev pub payment_of : String → GetCartResponse → GrpcOrder → Result Code String
  payment_of user_id cart g =
      clients.process_payment
        (record { order_id = g.id; user_id = user_id; amount = cart.total_price })

  -- The paths of CreateOrder: it stores nothing; it stores an order that is paid; it stores an order
  -- whose payment fails, and calls CancelOrder.
  pub data Saga (user_id : String) (w : World Tables) (r : Result Code GrpcOrder × World Tables)
      : Type 0 where
    nothing_stored : (c : Code) → r.0 ≡ err c → r.1.tables ≡ w.tables → Saga user_id w r
    paid :
        (w1 : World Tables) (g : GrpcOrder) (p : Placed user_id w w1 g) (payment : String)
        → payment_of user_id p.cart g ≡ ok payment
        → r ≡ (ok g, w1)
        → Saga user_id w r
    unpaid :
        (w1 : World Tables) (g : GrpcOrder) (p : Placed user_id w w1 g) (c : Code)
        → payment_of user_id p.cart g ≡ err c
        → r ≡ (err (payment_error c), (cancel_order pf g.id w1).1)
        → Saga user_id w r

  -- From the storing on: the payment, and the call of CancelOrder.
  abbrev pay :
      String
      → GetCartResponse
      → Result Error GrpcOrder × World Tables
      → Result Code GrpcOrder × World Tables
  pay user_id cart r = continue (rethrow to_internal r) (λ order w'.
      compensate pf clients order (process_payment pf clients order.id user_id cart.total_price w'))

  Stored-place :
      (user_id email : String) (cart : GetCartResponse) (t t' : Tables) {g g' : GrpcOrder}
      → ◌≡◌ {A = Result Error GrpcOrder} (ok g) (ok g')
      → Stored pf user_id email cart.total_price cart.products t t' g'
      → Stored pf user_id email cart.total_price cart.products t t' g
  Stored-place user_id email cart t t' {g} {g'} e s = let same : g ≡ g' = cc (e) in rw same s

  pay-Saga :
      (user_id email : String) (cart : GetCartResponse) (w : World Tables)
      (r : Result Error GrpcOrder × World Tables)
      → Orderable user_id cart
      → clients.get_user_email user_id ≡ ok email
      → ((g : GrpcOrder) × (r.0 ≡ ok g)
          × Stored pf user_id email cart.total_price cart.products w.tables r.1.tables g)
        ⊎ ((e : Error) × (r.0 ≡ err e) × (r.1.tables ≡ w.tables))
      → Saga user_id w (pay user_id cart r)
  unfolding process_payment
  pay-Saga user_id email cart w (err x, w1) o u (inl (g, done, s)) = absurd (ground arith)
  pay-Saga user_id email cart w (ok x, w1) o u (inr (e, bad, same)) = absurd (ground arith)
  pay-Saga user_id email cart w (err x, w1) o u (inr (e, bad, same)) =
      nothing_stored internal refl same
  pay-Saga user_id email cart w (ok g, w1) o u (inl (g', done, s)) =
      let p : Placed user_id w w1 g = record {
        cart = cart;
        email = email;
        orderable = o;
        user = u;
        stored = Stored-place user_id email cart w.tables w1.tables done s;
      } in
      elim (Result-cases (payment_of user_id cart g)) [
        | inl (c, e) ↦ unpaid w1 g p c e (rw e refl)
        | inr (payment, e) ↦ paid w1 g p payment e (rw e refl)
      ]

  create_order_handler_live :
      (user_id : String) (w : World Tables)
      → Saga user_id w (create_order_handler pf clients live user_id w)
  unfolding create_order_handler check_live get_user_email process_payment
  create_order_handler_live user_id w = elim (Bool-cases (str_eq user_id "")) [
    | inl e ↦ nothing_stored invalid_argument (rw e refl) (rw e refl)
    | inr e ↦ elim (get_cart-cases user_id w) [
      | inl (c, k) ↦ nothing_stored c (rw (e, k) refl) (rw (e, k) refl)
      | inr (cart, o, k) ↦ elim (Result-cases (clients.get_user_email user_id)) [
        | inl (c, u) ↦ nothing_stored (user_error c) (rw (e, k, u) refl) (rw (e, k, u) refl)
        | inr (email, u) ↦
            rw (e, k, u)
              (pay-Saga user_id email cart w
                (create_order pf user_id email cart.total_price cart.products w) o u
                (create_order_atomic pf user_id email cart.total_price cart.products w))
      ]
    ]
  ]

  pub create_order_handler-Saga :
      (ctx : ContextState) (user_id : String) (w : World Tables)
      → Saga user_id w (create_order_handler pf clients ctx user_id w)
  unfolding create_order_handler check_live
  create_order_handler-Saga live user_id w = create_order_handler_live user_id w
  create_order_handler-Saga ctx user_id w = nothing_stored (pf.from_context_error ctx) refl refl

  -- A success of CreateOrder: the order and its event are stored, and the payment service accepted
  -- the payment of the cart's total for this order.
  pub create_order_handler-ok :
      (ctx : ContextState) (user_id : String) (w : World Tables) (g : GrpcOrder)
      → (create_order_handler pf clients ctx user_id w).0 ≡ ok g
      → (p : Placed user_id w (create_order_handler pf clients ctx user_id w).1 g)
        × ((payment : String) × (payment_of user_id p.cart g ≡ ok payment))
  create_order_handler-ok ctx user_id w g h = elim (create_order_handler-Saga ctx user_id w) [
    | nothing_stored c e same ↦ cc (e, h)
    | paid w1 g' p payment e r ↦ let same : g ≡ g' = cc (r, h) in rw (r, same) (p, (payment, e))
    | unpaid w1 g' p c e r ↦ cc (r, h)
  ]

  -- With the statuses of the migrations, a call that fails has either stored nothing, or it has
  -- stored an order whose payment failed and left it there, in the status CREATED and with its
  -- event unpublished.
  pub create_order_handler-err :
      (ctx : ContextState) (user_id : String) (w : World Tables) (k : Code)
      (created delivered cancelled : Uuid)
      → w.tables.statuses ≡ migrated_statuses created delivered cancelled
      → (create_order_handler pf clients ctx user_id w).0 ≡ err k
      → ((create_order_handler pf clients ctx user_id w).1.tables ≡ w.tables)
        ⊎ ((w1 : World Tables) × (g : GrpcOrder) × (p : Placed user_id w w1 g) × (c : Code)
            × (payment_of user_id p.cart g ≡ err c)
            × (k ≡ payment_error c)
            × ((create_order_handler pf clients ctx user_id w).1.tables ≡ w1.tables))
  create_order_handler-err ctx user_id w k created delivered cancelled m h =
      elim (create_order_handler-Saga ctx user_id w) [
        | nothing_stored c e same ↦ inl same
        | paid w1 g p payment e r ↦ cc (r, h)
        | unpaid w1 g p c e r ↦ inr (
          w1,
          g,
          p,
          c,
          e,
          cc (r, h),
          ap (λ x. x.1.tables) r
              ∙ (cancel_order-migrated pf g.id w1 created delivered cancelled
                  (p.stored.statuses ∙ m)).1,
        )
      ]
