-- ===== src/Lib.antt =====
-- Models of the Go services of an e-commerce platform, with their laws.
--
-- The platform consists of services that call each other by gRPC and send messages through RabbitMQ;
-- each owns a PostgreSQL database. A service's database is a record of tables (lists of rows); each
-- statement of its sqlc package is a function from the tables to a result and the tables after it,
-- with the constraints, defaults and triggers of the migrations written out. A handler is a function
-- of the request and a world: the tables, and a schedule of faults that says which of the next calls of
-- the database or of a publication fail, so that a theorem about every world covers every pattern of
-- failures. A transaction restores the tables on an error of its body or of the commit; that a commit
-- may take effect although the client sees an error is not modelled.
--
--   Prelude       names of the libraries, tests on numbers, and tables as lists
--   Grpc          codes, contexts, and the third-party functions as a record of parameters (Platform)
--   Postgres      NOW(), uuid_generate_v4(), and the range of a money column
--   Effect        worlds, statements, transactions, and their laws
--   Events        shared/events: the messages, and what a consumer does with a delivery
--   Web           shared/web/response.go
--   Payment       payment-service/internal/grpc/payment and internal/repository
--   Relay         shared/events/worker: one poll of an outbox, over two interfaces
--   Order         order-service/internal/repository/order.sql.go and outbox_event.sql.go
--   Order.Repository  order-service/internal/repository/postgsql_order_repository.go
--   Order.Server  order-service/internal/grpc/order/create.go (the saga)
--   Order.Consumer  order-service/internal/events/consumers/stock_update_failed.go
--   Order.Relayer   order-service/internal/repository/postgres, with Relay run over it
--   Product       product-service/internal/repository: the statements of the stock consumer
--   Product.Consumer  product-service/internal/events/consumers/order_created_consumer.go
--   Rabbit, Rabbit.Client  shared/rabbitmq: the broker, the network and the clock are a schedule of
--                 answers to dials, waits and calls; a message is written to a connection, and whether
--                 the broker keeps it is another part of the schedule, as nothing asks for confirms
--   Gateway       api-gateway/internal/middlewares and shared/auth: requests, calls, tokens
--   Gateway.Handlers, Gateway.Categories, Gateway.Router  api-gateway/internal/handlers and router
--   Product.Queries, Product.Repository  product-service/internal/repository/products.sql.go
--                 and postgres/product_repository.go: products and the events of their changes
--   Product.Service, Product.Service.Calls  product-service/internal/grpc: the calls, the cache as a
--                 map of entries, and the goroutines that fill it as waiting jobs
--   Product.Relayer  product-service/internal/repository/postgres/outbox_event_message_relayer_repository.go,
--                 with Relay run over it and over the publisher of Rabbit.Client
--   Product.Categories  product-service/internal/grpc/category and product_categories.sql.go
--   Search, Search.Handler  search-service/internal/events/consumers/product and internal/handlers/product
--   Cart          cart-service/internal/repository: the statements
--   Cart.Server   cart-service/internal/grpc
--   Cart.Consumer   cart-service/internal/events/order_created_consumer.go
--   User          user-service/internal/grpc and internal/repository
--   Samples       parameters for concrete runs
--
-- The services meet in the saga of an order: CreateOrder reads the cart, stores the order with an
-- unpublished OrderCreated event, and asks for the payment; the relayer sends the event; the product
-- service takes the stock and, where stock is missing, stores a StockUpdateFailed event, on which the
-- order service cancels the order. UUIDs are numbers, a float64 is its bit pattern, and only the
-- parameters look into either. JSON bodies stand for the values that they encode. A product
-- that changes is announced in the same transaction; the relayer of the product service sends the event
-- through shared/rabbitmq, and the search service indexes it. The gateway makes at most one call of a
-- service for a request, in the name of the user of the token. No definition needs fuel: a loop is over
-- a list, or over the attempts that are left, at most 10 dials in a reconnection of shared/rabbitmq and
-- 3 attempts of a publication.
--
-- Not modelled: generated protobuf code, logging, configuration, the AMQP library itself, tickers, and
-- the loop that starts a goroutine for each delivery.
-- The notification service and the rate limiter are not modelled. The cart and user services look into
-- their caches once; what their goroutines store there is not modelled. The goroutines that fill the
-- caches of the product service are jobs that wait, and run in any order.
pub mod Cart
pub mod Effect
pub mod Events
pub mod Gateway
pub mod Grpc
pub mod Order
pub mod Payment
pub mod Postgres
pub mod Prelude
pub mod Product
pub mod Rabbit
pub mod Relay
pub mod Samples
pub mod Search
pub mod User
pub mod Web
