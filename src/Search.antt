-- ===== src/Search.antt =====
-- search-service/internal/events/consumers/product/consumer.go: the index follows the events of the
-- products. The index is the map from document ids to documents that the DocumentStore keeps.
pub mod Refinement
pub mod Documents
pub mod History
pub mod Handler
mod Tests
use microservices.Prelude.{String, Option, none, some, if◌then◌else◌, str_eq, not}
use microservices.Effect.{Result, ok, err, Error, failed, World, Action, query}
use microservices.Events.{
  ProductEvent, Delivery, ack, nack_requeue, nack_drop, product_deleted_routing_key,
}

abbrev pub Index : Type 0
Index = String → Option ProductEvent

abbrev pub put : String → Option ProductEvent → Index → Index
put id doc ix key = if str_eq id key then doc else ix key

-- DocumentStore.Index: a new document, or a new version of one.
unfoldable pub index_document : String → ProductEvent → Index → Result Error (Unit {0}) × Index
index_document id doc ix = (ok tt, put id (some doc) ix)

-- DocumentStore.Delete: the answer for a missing document is 404, which IsError reports.
unfoldable pub delete_document : String → Index → Result Error (Unit {0}) × Index
delete_document id ix = elim (ix id) [
  | none ↦ (err failed, ix)
  | some doc ↦ (ok tt, put id none ix)
]

abbrev pub settled : Result Error (Unit {0}) × World Index → Delivery × World Index
settled (ok u, w) = (ack, w)
settled (err e, w) = (nack_requeue, w)

unfoldable pub index_product : ProductEvent → World Index → Delivery × World Index
index_product event w = settled (query (index_document event.id event) w)

unfoldable pub delete_product : ProductEvent → World Index → Delivery × World Index
delete_product event w = settled (query (delete_document event.id) w)

-- Every routing key but that of a deletion indexes the product. An event, which is texts and a
-- number, can always be marshalled again.
unfoldable pub handle_product_created_event :
    String → Option ProductEvent → World Index → Delivery × World Index
handle_product_created_event key none w = (nack_drop, w)
handle_product_created_event key (some event) w =
    if not (str_eq key product_deleted_routing_key)
    then index_product event w
    else delete_product event w
