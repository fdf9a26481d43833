-- ===== src/Cart/Tests.antt =====
-- Concrete calls of the cart service.
use microservices.Prelude.{◌≡◌, refl, none, some, [], ◌+◌, ◌*◌}
use microservices.Prelude.Rows.{find}
use microservices.Prelude.Int.{pos}
use microservices.Grpc.{Uuid, live}
use microservices.Samples.{platform, server, letters}
use microservices.Effect.{World, ok, query, transaction, check_live}
use microservices.Events.{OrderCreatedEvent, ack}
use microservices.Cart.{
  Cart, Tables, has_user, is_refused, get_cart_by_user_id, create_cart as insert_cart,
  delete_cart_by_user_id, get_cart_products_by_cart_id, add_or_update_product_in_cart,
  get_processed_event, create_processed_event,
}
use microservices.Cart.Server.{
  Env, ProductInfo, AddProductToCartRequest, AddProductToCartResponse, hours, cart_is_expired,
  create_cart, delete_expired_cart_and_create_new_one, get_or_create_cart_by_user_id,
  verify_cart_state, store_product, add_to_cart, add_product_to_cart, clear_cart, delete_cart,
  remove_product_from_cart, get_cart, cart_lines,
}
use microservices.Cart.Consumer.{
  delete_cart_and_create_processed_event_tx, delete_cart_and_create_processed_event,
  handle_order_created_event,
}
use microservices.Cart.Invariants.{IsWellFormed}
use microservices.Cart.Calls.{calls-IsWellFormed}
use microservices.Cart.Deliveries.{Handled, cart_delivery-Handled, cart_delivery_again}
use microservices.Cart.Lookup.{InCart, add_product_to_cart-InCart}

opened : Unit {0}
unfolding is_refused get_cart_by_user_id insert_cart delete_cart_by_user_id
    get_cart_products_by_cart_id add_or_update_product_in_cart get_processed_event
    create_processed_event hours cart_is_expired create_cart delete_expired_cart_and_create_new_one
    get_or_create_cart_by_user_id verify_cart_state store_product add_to_cart add_product_to_cart
    delete_cart_and_create_processed_event_tx get_cart cart_lines
    delete_cart_and_create_processed_event handle_order_created_event query transaction check_live
opened = tt

abbrev mug : ProductInfo
mug = record { id = letters 7; name = "mug"; description = ""; price = 500 }

abbrev env : Env
env = record {
  cart_ttl_hours = "";
  now = 5;
  cached = λ user. none;
  get_products_by_ids = λ ids. ok (λ id. some mug);
  atoi = λ text. some (pos 168);
  float_of = λ q. elim q [ pos n ↦ n | _ ↦ 0 ];
  float_mul = λ x y. x * y;
  float_add = λ x y. x + y;
}

abbrev empty : World Tables
empty = record {
  tables = record { carts = []; products = []; processed = []; pg = server };
  faults = [];
}

abbrev request : AddProductToCartRequest
request = record { user_id = "uu"; product_id = letters 7; quantity = pos 2 }

abbrev response : AddProductToCartResponse
response = record {
  id = letters 101;
  cart_id = letters 100;
  product_id = letters 7;
  quantity = pos 2;
  price = 500;
}

adds : (add_product_to_cart platform env live request empty).0 ≡ ok response
unfolding opened
adds = refl

empty-IsWellFormed : IsWellFormed empty.tables
empty-IsWellFormed = record { users = tt; rows = λ id h. refl }

calls-IsWellFormed_example :
    IsWellFormed (add_product_to_cart platform env live request empty).1.tables
    × IsWellFormed (remove_product_from_cart platform env live "uu" (letters 7) empty).1.tables
    × IsWellFormed (clear_cart platform env live "uu" empty).1.tables
    × IsWellFormed (delete_cart platform env live "uu" empty).1.tables
    × IsWellFormed (get_cart platform env live "uu" empty).1.tables
calls-IsWellFormed_example =
    calls-IsWellFormed platform env live "uu" (letters 7) request empty empty-IsWellFormed

add_product_to_cart-InCart_example :
    (user : Uuid) × (cart : Cart) × (platform.scan_uuid "uu" ≡ some user)
    × (find (has_user user) (add_product_to_cart platform env live request empty).1.tables.carts
        ≡ some cart)
    × InCart platform env cart request
        (add_product_to_cart platform env live request empty).1.tables
        response
add_product_to_cart-InCart_example =
    add_product_to_cart-InCart platform env live request empty response adds

abbrev ordered : OrderCreatedEvent
ordered = record { order_id = letters 4; user_id = "uu"; user_email = "a@b.c"; products = [] }

abbrev filled : World Tables
filled = (add_product_to_cart platform env live request empty).1

empties :
    ((handle_order_created_event platform (some ordered) filled).0 ≡ ack)
    × ((handle_order_created_event platform (some ordered) filled).1.tables.carts ≡ [])
    × ((handle_order_created_event platform (some ordered) filled).1.tables.products ≡ [])
unfolding opened
empties = (refl, refl, refl)

cart_delivery-Handled_example :
    Handled platform ordered 2 4 filled (handle_order_created_event platform (some ordered) filled)
cart_delivery-Handled_example = cart_delivery-Handled platform ordered 2 4 filled refl refl

-- The user has filled a new cart before the order is delivered again.
abbrev refilled : World Tables
refilled = record {
  tables = record filled.tables {
    processed = (handle_order_created_event platform (some ordered) filled).1.tables.processed;
  };
  faults = [];
}

cart_delivery_again_example :
    (handle_order_created_event platform (some ordered) refilled).1.tables ≡ refilled.tables
cart_delivery_again_example =
    cart_delivery_again platform ordered ordered 2 4 filled refilled refl refl refl empties.0 refl
