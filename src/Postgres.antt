-- ===== src/Postgres.antt =====
-- The parts of a PostgreSQL server that the SQL texts of the repositories use: NOW(), the UUIDs that
-- uuid_generate_v4() gives, and the range of a money column.
use microservices.Prelude.{ℕ, ◌+◌, Bool, true, false, ◌&&◌, ltb}
use microservices.Prelude.Int.{pos, negsuc}
use microservices.Grpc.{Uuid, Numeric, hundredths, nan}

-- `uuids n` is the n-th UUID that the server generates.
pub record Pg : Type 0 where
  pub now : ℕ
  pub uuids : ℕ → Uuid
  pub drawn : ℕ

abbrev pub uuid_generate_v4 : Pg → Uuid
uuid_generate_v4 pg = pg.uuids pg.drawn

abbrev pub drawn_once : Pg → Pg
drawn_once pg = record pg { drawn = pg.drawn + 1 }

-- NUMERIC(10, 2) NOT NULL CHECK (amount > 0), where PostgreSQL orders NaN above every number.
abbrev pub is_positive_money : Numeric → Bool
is_positive_money (hundredths (pos n)) = ltb 0 n && ltb n 10000000000
is_positive_money (hundredths (negsuc n)) = false
is_positive_money nan = true
