-- ===== src/Order/Repository/Atomic.antt =====
-- The outbox pattern: an order and its event are stored together or not at all.
use microservices.Prelude.{
  String, ◌≡◌, refl, ap, sym, ◌∙◌, false, Option, none, some, List, [], ◌∷◌, ◌++◌, arith,
  Option-cases, ◌⊎◌, inl, inr,
}
use microservices.Prelude.Rows.{any}
use microservices.Grpc.{Platform, Uuid, Numeric, Float64}
use microservices.Effect.{World, ok, err, Error, failed, invalid, query, require}
use microservices.Effect.Laws.{query-ok, require-ok, bind-ok, transaction-cases}
use microservices.Events.{OrderCreatedEvent}
use microservices.Postgres.{drawn_once}
use microservices.Order.{
  Order, OrderStatus, OutboxEvent, Tables, status_named, new_order, new_event, has_id,
  has_aggregate, unpublished, get_order_status_by_name, create_outbox_event,
  create_order as insert_order,
}
use microservices.Order.Repository.{
  CartProduct, GrpcOrder, order_created_event_name, generate_order_created_event_payload,
  map_repository_to_grpc, create_order_tx, create_order,
}

-- What the insertion of an order does when it succeeds.
pub record Inserted (user : Uuid) (amount : Numeric) (t : Tables) (o : Order) (t' : Tables)
    : Type 0 where
  pub status : OrderStatus
  pub named : status_named "CREATED" t.statuses ≡ some status
  pub row : o ≡ new_order user amount status.id t.pg
  pub new_id : any (has_id o.id) t.orders ≡ false
  pub after : t' ≡ record t { orders = t.orders ++ o ∷ []; pg = drawn_once t.pg }

insert_order-ok :
    (user : Uuid) (amount : Numeric) (t : Tables) (o : Order) (t' : Tables)
    → insert_order user amount t ≡ (ok o, t')
    → Inserted user amount t o t'
unfolding insert_order
insert_order-ok user amount t o t' h = elim (Option-cases (status_named "CREATED" t.statuses)) [
  | inl e ↦ absurd (ground arith)
  | inr (s, e) ↦ record {
    status = s;
    named = e;
    row = ground arith;
    new_id = ground arith;
    after = ground arith;
  }
]

-- What the insertion of an event does when it succeeds.
pub record Queued (aggregate : Uuid) (name : String) (p : OrderCreatedEvent) (t t' : Tables)
    : Type 0 where
  pub event : OutboxEvent
  pub row : event ≡ new_event aggregate name p t.pg
  pub new_aggregate : any (has_aggregate aggregate) t.outbox ≡ false
  pub after : t' ≡ record t { outbox = t.outbox ++ event ∷ []; pg = drawn_once t.pg }

pub create_outbox_event-ok :
    (aggregate : Uuid) (name : String) (p : OrderCreatedEvent) (t : Tables) (u : Unit {0})
    (t' : Tables)
    → create_outbox_event aggregate name p t ≡ (ok u, t')
    → Queued aggregate name p t t'
unfolding create_outbox_event
create_outbox_event-ok aggregate name p t u t' h = record {
  event = new_event aggregate name p t.pg;
  row = refl;
  new_aggregate = ground arith;
  after = ground arith;
}

pub get_order_status_by_name-ok :
    (name : String) (t : Tables) (s : OrderStatus) (t' : Tables)
    → get_order_status_by_name name t ≡ (ok s, t')
    → (status_named name t.statuses ≡ some s) × (t' ≡ t)
unfolding get_order_status_by_name
get_order_status_by_name-ok name t s t' h = ground arith

module _ (pf : Platform) where
  -- The order and its event, as one call of CreateOrder stores them.
  pub record Stored (user_id email : String) (total : Float64) (products : List CartProduct)
      (t t' : Tables) (g : GrpcOrder) : Type 0 where
    pub order : Order
    pub event : OutboxEvent
    pub created : OrderStatus
    pub orders : t'.orders ≡ t.orders ++ order ∷ []
    pub outbox : t'.outbox ≡ t.outbox ++ event ∷ []
    pub statuses : t'.statuses ≡ t.statuses
    pub user : pf.scan_uuid user_id ≡ some order.user_id
    pub amount : pf.scan_money total ≡ some order.total_amount
    pub named : status_named "CREATED" t.statuses ≡ some created
    pub status : order.status ≡ created.id
    pub new_id : any (has_id order.id) t.orders ≡ false
    pub aggregate : event.aggregate_id ≡ order.id
    pub new_aggregate : any (has_aggregate order.id) t.outbox ≡ false
    pub pending : event.status ≡ unpublished
    pub event_name : event.event_name ≡ order_created_event_name
    pub payload :
        event.payload
        ≡ generate_order_created_event_payload
            (pf.uuid_string order.id)
            (pf.uuid_string order.user_id)
            email
            products
    pub reply : map_repository_to_grpc pf order created.name ≡ some g

  assemble :
      (user_id email : String) (total : Float64) (products : List CartProduct) (t t1 t2 : Tables)
      (user : Uuid) (amount : Numeric) (o : Order) (s : OrderStatus) (g : GrpcOrder)
      → pf.scan_uuid user_id ≡ some user
      → pf.scan_money total ≡ some amount
      → Inserted user amount t o t1
      → Queued o.id order_created_event_name
          (generate_order_created_event_payload
            (pf.uuid_string o.id)
            (pf.uuid_string o.user_id)
            email
            products)
          t1
          t2
      → status_named "CREATED" t2.statuses ≡ some s
      → map_repository_to_grpc pf o s.name ≡ some g
      → Stored user_id email total products t t2 g
  assemble user_id email total products t t1 t2 user amount o s g u a i q n m =
      let unchanged : t2.statuses ≡ t.statuses =
        ap (λ x. x.statuses) q.after ∙ ap (λ x. x.statuses) i.after in
      let same : i.status ≡ s = cc (i.named, n, unchanged) in
      record {
        order = o;
        event = q.event;
        created = i.status;
        orders = ap (λ x. x.orders) (q.after) ∙ ap (λ x. x.orders) (i.after);
        outbox = ap (λ x. x.outbox) q.after ∙ ap (λ x. x.outbox ++ q.event ∷ []) i.after;
        statuses = ap (λ x. x.statuses) q.after ∙ ap (λ x. x.statuses) i.after;
        user = u ∙ ap (λ x. some x.user_id) (sym i.row);
        amount = a ∙ ap (λ x. some x.total_amount) (sym i.row);
        named = i.named;
        status = ap (λ x. x.status) i.row;
        new_id = i.new_id;
        aggregate = ap (λ x. x.aggregate_id) q.row;
        new_aggregate = sym (ap (λ x. any (has_aggregate o.id) x.outbox) i.after) ∙ q.new_aggregate;
        pending = ap (λ x. x.status) q.row;
        event_name = ap (λ x. x.event_name) q.row;
        payload = ap (λ x. x.payload) q.row;
        reply = rw same m;
      }

  assemble_between :
      (user_id email : String) (total : Float64) (products : List CartProduct)
      (t0 t t1 t2 t3 : Tables) (user : Uuid) (amount : Numeric) (o : Order) (s : OrderStatus)
      (g : GrpcOrder)
      → t0 ≡ t
      → t3 ≡ t2
      → pf.scan_uuid user_id ≡ some user
      → pf.scan_money total ≡ some amount
      → Inserted user amount t o t1
      → Queued o.id order_created_event_name
          (generate_order_created_event_payload
            (pf.uuid_string o.id)
            (pf.uuid_string o.user_id)
            email
            products)
          t1
          t2
      → status_named "CREATED" t2.statuses ≡ some s
      → map_repository_to_grpc pf o s.name ≡ some g
      → Stored user_id email total products t0 t3 g
  assemble_between user_id email total products t0 t t1 t2 t3 user amount o s g before after u a i q
        n m =
      rw (before, after)
        (assemble user_id email total products t t1 t2 user amount o s g u a i q n m)

  require-ok_tables :
      (o : Option GrpcOrder) (w : World Tables) (g : GrpcOrder)
      → (require o failed w).0 ≡ ok g
      → (o ≡ some g) × ((require o failed w).1.tables ≡ w.tables)
  require-ok_tables none w g h = cc
  require-ok_tables (some x) w g h = (ground arith, refl)

  create_order_tx-Stored :
      (user_id email : String) (total : Float64) (products : List CartProduct) (w : World Tables)
      (g : GrpcOrder)
      → (create_order_tx pf user_id email total products w).0 ≡ ok g
      → Stored user_id email total products w.tables
          (create_order_tx pf user_id email total products w).1.tables
          g
  unfolding create_order_tx
  create_order_tx-Stored user_id email total products w g h =
      let a = bind-ok (require (pf.scan_uuid user_id) invalid) _ w h in
      let b = bind-ok (require (pf.scan_money total) invalid) _ a.mid a.rest in
      let c = bind-ok (query (insert_order a.value b.value)) _ b.mid b.rest in
      let payload =
        generate_order_created_event_payload (pf.uuid_string c.value.id)
          (pf.uuid_string c.value.user_id) email products in
      let d =
        bind-ok (query (create_outbox_event c.value.id order_created_event_name payload)) _ c.mid
          c.rest in
      let e = bind-ok (query (get_order_status_by_name "CREATED")) _ d.mid d.rest in
      let (user, w1) = require-ok (pf.scan_uuid user_id) invalid w a.first in
      let (amount, w2) = require-ok (pf.scan_money total) invalid a.mid b.first in
      let (named, w3) =
        get_order_status_by_name-ok "CREATED" d.mid.tables e.value e.mid.tables
          (query-ok _ d.mid e.first) in
      let (replied, w4) =
        require-ok_tables (map_repository_to_grpc pf c.value e.value.name) e.mid g e.rest in
      assemble_between user_id email total products w.tables b.mid.tables c.mid.tables d.mid.tables
        (create_order_tx pf user_id email total products w).1.tables a.value b.value c.value e.value
        g (ap (λ x. x.tables) (w1 ∙ w2))
        (ap (λ r. r.1.tables) (a.same ∙ b.same ∙ c.same ∙ d.same ∙ e.same) ∙ w4 ∙ w3) user amount
        (insert_order-ok a.value b.value b.mid.tables c.value c.mid.tables
          (query-ok _ b.mid c.first))
        (create_outbox_event-ok c.value.id order_created_event_name payload c.mid.tables d.value
          d.mid.tables (query-ok _ c.mid d.first))
        named replied

  -- CreateOrder stores the order, in the status CREATED, together with one unpublished event that
  -- carries its id and its products; or it fails and has changed no table.
  pub create_order_atomic :
      (user_id email : String) (total : Float64) (products : List CartProduct) (w : World Tables)
      → ((g : GrpcOrder) × ((create_order pf user_id email total products w).0 ≡ ok g)
          × Stored user_id email total products w.tables
              (create_order pf user_id email total products w).1.tables
              g)
        ⊎ ((e : Error) × ((create_order pf user_id email total products w).0 ≡ err e)
            × ((create_order pf user_id email total products w).1.tables ≡ w.tables))
  unfolding create_order
  create_order_atomic user_id email total products w =
      let tx = create_order_tx pf user_id email total products in
      elim (transaction-cases tx w) [
        | inl (same, (e, h)) ↦ inr (e, h, same)
        | inr (fs, g, done, ran, after) ↦ inl (
          g,
          done,
          rw after (
              create_order_tx-Stored user_id email total products
                (record { tables = w.tables; faults = fs }) g ran),
        )
      ]
