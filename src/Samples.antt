-- ===== src/Samples.antt =====
-- A platform to run the model on: a UUID is written as that many letters, a float64 is its number
-- of hundredths, and no context error is ever reported as another code than its own.
use Prim.Native.String.{String}
use microservices.Prelude.{ℕ, zero, suc, ◌≡◌, refl, ap, ◌==◌, Option, none, some, ◌+◌}
use microservices.Prelude.Int.{pos}
use microservices.Grpc.{
  Platform, hundredths, Float64, Numeric, Code, canceled, deadline_exceeded, unknown, ContextState,
  ctx_canceled, ctx_deadline_exceeded,
}
use microservices.Postgres.{Pg}

abbrev pub letters : ℕ → String
letters zero = String.[]
letters (suc n) = String.◌∷◌ "u" (letters n)

abbrev count_letters : String → ℕ
count_letters String.[] = 0
count_letters (String.◌∷◌ c s) = suc (count_letters s)

count-letters : (n : ℕ) → count_letters (letters n) ≡ n
count-letters zero = refl
count-letters (suc n) = ap suc (count-letters n)

abbrev to_code : ContextState → Code
to_code ctx_canceled = canceled
to_code ctx_deadline_exceeded = deadline_exceeded
to_code _ = unknown

abbrev to_float : Numeric → Option (Option Float64)
to_float (hundredths (pos n)) = some (some n)
to_float _ = some none

abbrev pub platform : Platform
platform = record {
  scan_uuid = λ s. some (count_letters s);
  uuid_string = letters;
  scan_money = λ x. some (hundredths (pos x));
  le_zero = λ x. x == 0;
  float64_value = to_float;
  from_context_error = to_code;
}

pub platform-text : (u : ℕ) → platform.scan_uuid (platform.uuid_string u) ≡ some u
platform-text u = ap some (count-letters u)

abbrev pub server : Pg
server = record { now = 5; uuids = λ n. 100 + n; drawn = 0 }
