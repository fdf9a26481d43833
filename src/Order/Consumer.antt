-- ===== src/Order/Consumer.antt =====
-- order-service/internal/events/consumers/stock_update_failed.go
pub mod Laws
use microservices.Prelude.{String, Bool, ◌==◌, if◌then◌else◌, Option, none, some}
use microservices.Grpc.{Platform, Uuid}
use microservices.Effect.{Result, ok, err, World, Error, no_rows, Action, ◌>>=◌, pure, query}
use microservices.Events.{StockUpdateFailedEvent, Delivery, ack, nack_requeue, nack_drop}
use microservices.Order.{
  Order, Tables, get_order_by_id, get_order_status_by_name, update_order_status,
}

-- The consumer's field cancelledOrderStatusID, `none` while it is not valid.
abbrev pub CancelledStatus : Type 0
CancelledStatus = Option Uuid

unfoldable pub init_status : CancelledStatus → Action Tables Error Uuid
init_status (some id) = pure id
init_status none = do status ← query (get_order_status_by_name "CANCELLED"); pure status.id

unfoldable pub cancel_order : Uuid → Uuid → Action Tables Error Order
cancel_order cancelled order = query (update_order_status order cancelled)

abbrev pub settle_cancel : Result Error Order × World Tables → Delivery × World Tables
settle_cancel (ok o, w) = (ack, w)
settle_cancel (err e, w) = (nack_requeue, w)

abbrev pub check_order : Uuid → Uuid → Result Error Order × World Tables → Delivery × World Tables
check_order cancelled order (err no_rows, w) = (ack, w)
check_order cancelled order (err e, w) = (nack_requeue, w)
check_order cancelled order (ok o, w) =
    if o.status == cancelled then (ack, w) else settle_cancel (cancel_order cancelled order w)

module _ (pf : Platform) where
  abbrev pub with_order_id : Uuid → Option Uuid → World Tables → Delivery × World Tables
  with_order_id cancelled none w = (nack_drop, w)
  with_order_id cancelled (some order) w =
      check_order cancelled order (query (get_order_by_id order) w)

  -- The handler, once Start has set the id of the status CANCELLED.
  unfoldable pub handle_stock_update_failed_event :
      Uuid → Option StockUpdateFailedEvent → World Tables → Delivery × World Tables
  handle_stock_update_failed_event cancelled none w = (nack_drop, w)
  handle_stock_update_failed_event cancelled (some event) w =
      with_order_id cancelled (pf.scan_uuid event.order_id) w
