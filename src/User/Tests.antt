-- ===== src/User/Tests.antt =====
-- Concrete calls of the user service. A hash is the password itself.
use microservices.Prelude.{
  String, ◌≡◌, refl, ap, Bool, true, Option, none, some, [], str_eq, eq_refl, sym, ◌∙◌,
}
use microservices.Grpc.{live, unauthenticated}
use microservices.Samples.{platform, server, letters}
use microservices.Effect.{World, ok, err, query, check_live}
use microservices.User.{
  Tables, GrpcUser, Env, CreateUserRequest, AuthorizeUserRequest, create_user, get_user_by_email,
  create_user_handler, get_user_from_database, verify_password, authorize_user,
}
use microservices.User.Laws.{LetIn, authorize_user-LetIn, authorize_user-create_user}

opened : Unit {0}
unfolding create_user get_user_by_email create_user_handler get_user_from_database verify_password
    authorize_user query check_live
opened = tt

abbrev env : Env
env = record {
  trim_space = λ text. text;
  create_hash = λ password. some password;
  compare_password_and_hash = λ password hash. some (str_eq password hash);
  cached_by_email = λ email. none;
  cached = λ id. none;
}

abbrev world : World Tables
world = record { tables = record { users = []; pg = server }; faults = [] }

abbrev ann : CreateUserRequest
ann = record { username = "ann"; email = "a@b.c"; password = "secret" }

abbrev reply : GrpcUser
reply = record {
  id = letters 100;
  username = "ann";
  email = "a@b.c";
  created_at = 5;
  updated_at = none;
}

created : (create_user_handler platform env live ann world).0 ≡ ok reply
unfolding opened
created = refl

abbrev known : World Tables
known = record { tables = (create_user_handler platform env live ann world).1.tables; faults = [] }

abbrev login : String → AuthorizeUserRequest
login password = record { email = "a@b.c"; password = password }

let_in : (authorize_user platform env live (login "secret") known).0 ≡ ok reply
unfolding opened
let_in = refl

-- A wrong password and an unknown email get the same answer.
kept_out :
    ((authorize_user platform env live (login "guess") known).0 ≡ err unauthenticated)
    × ((authorize_user platform env live (login "guess") world).0 ≡ err unauthenticated)
unfolding opened
kept_out = (refl, refl)

accepts :
    (password hash : String)
    → ◌≡◌ {A = Option String} (some password) (some hash)
    → ◌≡◌ {A = Option Bool} (some (str_eq password hash)) (some true)
accepts password hash h =
    let e : password ≡ hash = cc in
    ap (λ x. some (str_eq password x)) (sym e) ∙ ap some (eq_refl password)

authorize_user-LetIn_example : LetIn platform env "a@b.c" "secret" known.tables reply
authorize_user-LetIn_example =
    authorize_user-LetIn platform env live (login "secret") known reply let_in

authorize_user-create_user_example :
    (authorize_user platform env live
      (login "secret")
      (record { tables = known.tables; faults = [] })).0
    ≡ ok reply
authorize_user-create_user_example =
    authorize_user-create_user platform env live ann world reply accepts refl created
