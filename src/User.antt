-- ===== src/User.antt =====
-- user-service: the table of internal/migrations with the statements of repository/users.sql.go, and
-- the handlers of internal/grpc. A lookup of the cache is a parameter; the goroutines that fill the
-- cache after a reply are not modelled.
pub mod Laws
mod Tests
use microservices.Prelude.{
  ℕ, String, Bool, true, false, ◌||◌, Option, none, some, List, [], ◌∷◌, ◌++◌, if◌then◌else◌, ◌==◌,
  str_eq,
}
use microservices.Prelude.Rows.{find, any}
use microservices.Grpc.{
  Platform, Uuid, Code, invalid_argument, not_found, unauthenticated, internal, ContextState,
}
use microservices.Effect.{
  Result, ok, err, Error, no_rows, failed, Action, ◌>>=◌, ◌>>◌, pure, raise, require, guard,
  or_else, query, check_live, one_row, to_internal,
}
use microservices.Postgres.{Pg, uuid_generate_v4, drawn_once}

pub record User : Type 0 where
  pub id : Uuid
  pub username : String
  pub email : String
  pub password : String
  pub created_at : ℕ
  pub updated_at : Option ℕ

pub record Tables : Type 0 where
  pub users : List User
  pub pg : Pg

abbrev pub has_id : Uuid → User → Bool
has_id id u = u.id == id

abbrev pub has_username : String → User → Bool
has_username name u = str_eq u.username name

abbrev pub has_email : String → User → Bool
has_email email u = str_eq u.email email

abbrev pub new_user : String → String → String → Pg → User
new_user username email password pg = record {
  id = uuid_generate_v4 pg;
  username = username;
  email = email;
  password = password;
  created_at = pg.now;
  updated_at = none;
}

-- INSERT INTO users, where the name and the email are unique.
unfoldable pub create_user : String → String → String → Tables → Result Error User × Tables
create_user username email password t =
    if any (has_id (uuid_generate_v4 t.pg)) t.users
      || any (has_username username) t.users
      || any (has_email email) t.users
    then (err failed, t)
    else (
      ok (new_user username email password t.pg),
      record t {
        users = t.users ++ new_user username email password t.pg ∷ [];
        pg = drawn_once t.pg;
      },
    )

unfoldable pub get_user_by_email : String → Tables → Result Error User × Tables
get_user_by_email email t = (one_row (find (has_email email) t.users), t)

unfoldable pub get_user_by_id : Uuid → Tables → Result Error User × Tables
get_user_by_id id t = (one_row (find (has_id id) t.users), t)

-- A message userv1.User.
pub record GrpcUser : Type 0 where
  pub id : String
  pub username : String
  pub email : String
  pub created_at : ℕ
  pub updated_at : Option ℕ

pub record CachedUser : Type 0 where
  pub user : GrpcUser
  pub hashed_password : String

-- What the handlers use of other packages: strings.TrimSpace, and CreateHash and
-- ComparePasswordAndHash of argon2id, where `none` is an error; and the answers of the cache for an
-- email and for an id, where `none` is a missing key or an error.
pub record Env : Type 0 where
  pub trim_space : String → String
  pub create_hash : String → Option String
  pub compare_password_and_hash : String → String → Option Bool
  pub cached_by_email : String → Option CachedUser
  pub cached : String → Option CachedUser

pub record CreateUserRequest : Type 0 where
  pub username : String
  pub email : String
  pub password : String

pub record AuthorizeUserRequest : Type 0 where
  pub email : String
  pub password : String

module _ (pf : Platform) (env : Env) where
  abbrev pub to_grpc_user : User → GrpcUser
  to_grpc_user u = record {
    id = pf.uuid_string u.id;
    username = u.username;
    email = u.email;
    created_at = u.created_at;
    updated_at = u.updated_at;
  }

  unfoldable pub create_user_handler :
      ContextState → CreateUserRequest → Action Tables Code GrpcUser
  create_user_handler ctx req = do
    check_live pf ctx
    hash ← require (env.create_hash (env.trim_space req.password)) internal
    user ←
        or_else (query (create_user (env.trim_space req.username) (env.trim_space req.email) hash))
          to_internal
    pure (to_grpc_user user)

  abbrev pub login_error : Error → Code
  login_error no_rows = unauthenticated
  login_error _ = internal

  unfoldable pub get_user_from_database : String → Action Tables Code User
  get_user_from_database email = or_else (query (get_user_by_email email)) login_error

  unfoldable pub verify_password : String → String → Action Tables Code (Unit {0})
  verify_password password hash = do
    match ← require (env.compare_password_and_hash password hash) internal
    guard match unauthenticated

  abbrev pub authorize_stored : String → String → Action Tables Code GrpcUser
  authorize_stored email password = do
    user ← get_user_from_database email
    verify_password password user.password
    pure (to_grpc_user user)

  abbrev pub authorize_by : Option CachedUser → String → String → Action Tables Code GrpcUser
  authorize_by none email password = authorize_stored email password
  authorize_by (some cached) email password = do
    verify_password password cached.hashed_password
    pure cached.user

  unfoldable pub authorize_user : ContextState → AuthorizeUserRequest → Action Tables Code GrpcUser
  authorize_user ctx req = do
    check_live pf ctx
    authorize_by (env.cached_by_email (env.trim_space req.email)) (env.trim_space req.email)
        (env.trim_space req.password)

  abbrev pub get_error : Error → Code
  get_error no_rows = not_found
  get_error _ = internal

  abbrev pub get_stored_user : String → Action Tables Code GrpcUser
  get_stored_user id = do
    uuid ← require (pf.scan_uuid id) invalid_argument
    user ← or_else (query (get_user_by_id uuid)) get_error
    pure (to_grpc_user user)

  abbrev pub unless_cached :
      Option CachedUser → Action Tables Code GrpcUser → Action Tables Code GrpcUser
  unless_cached none m = m
  unless_cached (some cached) m = pure cached.user

  unfoldable pub get_user_by_id_handler : ContextState → String → Action Tables Code GrpcUser
  get_user_by_id_handler ctx id = do
    check_live pf ctx
    unless_cached (env.cached id) (get_stored_user id)
