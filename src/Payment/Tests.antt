-- ===== src/Payment/Tests.antt =====
-- Concrete calls of the payment service.
use microservices.Prelude.{◌≡◌, ◌⊎◌, refl, ap, false, true, List, [], ◌∷◌}
use microservices.Prelude.Int.{pos}
use microservices.Grpc.{
  hundredths, internal, invalid_argument, not_found, live, ContextState, canceled, ctx_canceled,
}
use microservices.Samples.{platform, platform-text, letters, server}
use microservices.Effect.{World, query, check_live, err, ok}
use microservices.Payment.{
  Tables, Payment, PaymentStatus, ProcessPaymentRequest, GrpcPayment, process_payment, get_payment,
  validate_process_payment_request, process_create_and_update_payment, create_db_payment,
  update_db_payment_status, create_payment, get_payment_status_by_name, update_payment_status,
  status_named, is_refused, map_repository_to_grpc, get_payment_by_id,
}
use microservices.Payment.Charges.{process_payment-ok, Recorded}
use microservices.Payment.Safety.{
  process_payment-Blocked, Blocked, process_payment-HasDistinctOrders, HasDistinctOrders,
  process_payment-err, get_payment-process_payment,
}

-- Everything that a call of the service runs through.
opened : Unit {0}
unfolding process_payment get_payment validate_process_payment_request
    process_create_and_update_payment create_db_payment update_db_payment_status create_payment
    get_payment_status_by_name update_payment_status status_named is_refused map_repository_to_grpc
    get_payment_by_id query check_live
opened = tt

abbrev statuses : List PaymentStatus
statuses =
    record { id = 11; name = "PROCESSING" }
    ∷ record { id = 12; name = "SUCCEEDED" }
    ∷ record { id = 13; name = "REJECTED" }
    ∷ []

abbrev tables : Tables
tables = record { payments = []; statuses = statuses; pg = server }

abbrev request : ProcessPaymentRequest
request = record { order_id = "uuuu"; user_id = "uu"; amount = 1050 }

abbrev world : World Tables
world = record { tables = tables; faults = [] }

-- The reply, and the tables after it.
abbrev paid : Payment
paid = record {
  id = 100;
  order_id = 4;
  user_id = 2;
  amount = hundredths (pos 1050);
  status = 12;
  created_at = 5;
}

abbrev reply : GrpcPayment
reply = record {
  id = letters 100;
  order_id = "uuuu";
  user_id = "uu";
  amount = 1050;
  status = letters 12;
  created_at = 5;
}

abbrev after : World Tables
after = record {
  tables = record tables { payments = paid ∷ []; pg = record server { drawn = 1 } };
  faults = [];
}

pays : process_payment platform live request world ≡ (ok reply, after)
unfolding opened
pays = refl

-- The status update fails: the payment stays in PROCESSING.
abbrev second_call_fails : World Tables
second_call_fails = record { tables = tables; faults = false ∷ false ∷ true ∷ [] }

leaves_processing : (process_payment platform live request second_call_fails).0 ≡ err internal
unfolding opened
leaves_processing = refl

other_branches :
    ((process_payment platform ctx_canceled request world).0 ≡ err canceled)
    × ((process_payment platform live (record request { amount = 0 }) world).0
        ≡ err invalid_argument)
    × ((process_payment platform live request after).0 ≡ err internal)
    × ((get_payment platform live "u" after).0 ≡ err not_found)
unfolding opened
other_branches = (refl, refl, refl, refl)

process_payment-ok_example :
    Recorded platform request tables (process_payment platform live request world).1.tables reply
process_payment-ok_example =
    process_payment-ok platform live request world reply (ap (λ r. r.0) pays)

process_payment-Blocked_example : Blocked platform live request after
process_payment-Blocked_example = process_payment-Blocked platform live request after 4 refl refl

process_payment-HasDistinctOrders_example :
    HasDistinctOrders (process_payment platform live request after).1.tables.payments
process_payment-HasDistinctOrders_example =
    process_payment-HasDistinctOrders platform live request after (refl, tt)

process_payment-err_example :
    ((process_payment platform live request second_call_fails).1.tables ≡ tables)
    ⊎ ((ctx' : ContextState) (req' : ProcessPaymentRequest) (w' : World Tables)
        → w'.tables ≡ (process_payment platform live request second_call_fails).1.tables
        → req'.order_id ≡ "uuuu"
        → Blocked platform ctx' req' w')
process_payment-err_example =
    process_payment-err platform live request second_call_fails internal leaves_processing

get_payment-process_payment_example :
    (get_payment platform live reply.id
      (record { tables = (process_payment platform live request world).1.tables; faults = [] })).0
    ≡ ok reply
get_payment-process_payment_example =
    get_payment-process_payment platform live request world reply platform-text (ap (λ r. r.0) pays)
