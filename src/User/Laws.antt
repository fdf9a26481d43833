-- ===== src/User/Laws.antt =====
-- Who is let in: a login succeeds for the password that created the user, and for no other.
use microservices.Prelude.{
  ◌≡◌, refl, ap, sym, ◌∙◌, String, true, false, Option, none, some, [], ◌∷◌, ◌++◌, arith, eq_refl,
}
use microservices.Prelude.Rows.{find, any}
use microservices.Prelude.Rows.Laws.{find_last}
use microservices.Grpc.{Platform, Code, ContextState, live, internal, unauthenticated}
use microservices.Effect.{
  Result, ok, World, query, require, guard, or_else, to_internal, check_live,
}
use microservices.Effect.Laws.{rethrow-ok, guard-ok, check_live-ok, bind-ok, require-ok, query-ok}
use microservices.User.{
  User, Tables, GrpcUser, CachedUser, Env, CreateUserRequest, AuthorizeUserRequest, has_email,
  new_user, create_user, get_user_by_email, to_grpc_user, create_user_handler,
  get_user_from_database, verify_password, authorize_stored, authorize_by, authorize_user,
  login_error,
}

same_reply : (x y : GrpcUser) → ◌≡◌ {A = Result Code GrpcUser} (ok x) (ok y) → y ≡ x
same_reply x y h = cc

get_user_by_email-ok :
    (email : String) (t : Tables) (u : User) (t' : Tables)
    → get_user_by_email email t ≡ (ok u, t')
    → find (has_email email) t.users ≡ some u
unfolding get_user_by_email
get_user_by_email-ok email t u t' h = ground arith

create_user-ok :
    (username email password : String) (t : Tables) (u : User) (t' : Tables)
    → create_user username email password t ≡ (ok u, t')
    → (find (has_email email) t'.users ≡ some u) × (u.password ≡ password)
unfolding create_user
create_user-ok username email password t u t' h =
    let new = new_user username email password t.pg in
    let free : any (has_email email) t.users ≡ false = ground arith in
    let made : u ≡ new = ground arith in
    let after : t'.users ≡ t.users ++ new ∷ [] = ground arith in
    (
      rw (after, made) (find_last (has_email email) t.users new free (eq_refl email)),
      ap (λ x. x.password) made,
    )

module _ (pf : Platform) (env : Env) where
  verify-match :
      (password hash : String) (w : World Tables) (u : Unit {0})
      → (verify_password pf env password hash w).0 ≡ ok u
      → env.compare_password_and_hash password hash ≡ some true
  unfolding verify_password
  verify-match password hash w u h =
      let a = bind-ok (require (env.compare_password_and_hash password hash) internal) _ w h in
      let (compared, _) =
        require-ok (env.compare_password_and_hash password hash) internal w a.first in
      compared
      ∙ ap some
          (guard-ok a.value unauthenticated a.mid (guard a.value unauthenticated a.mid).1 u
            (λ i. (a.rest i, (guard a.value unauthenticated a.mid).1))).0

  -- The user that a login found, and the hash that its password matches.
  pub data LetIn (email password : String) (t : Tables) (g : GrpcUser) : Type 0 where
    from_cache :
        (c : CachedUser)
        → env.cached_by_email email ≡ some c
        → env.compare_password_and_hash password c.hashed_password ≡ some true
        → g ≡ c.user
        → LetIn email password t g
    from_table :
        (u : User)
        → env.cached_by_email email ≡ none
        → find (has_email email) t.users ≡ some u
        → env.compare_password_and_hash password u.password ≡ some true
        → g ≡ to_grpc_user pf env u
        → LetIn email password t g

  authorize_stored-LetIn :
      (email password : String) (w : World Tables) (g : GrpcUser)
      → env.cached_by_email email ≡ none
      → (authorize_stored pf env email password w).0 ≡ ok g
      → LetIn email password w.tables g
  unfolding get_user_from_database
  authorize_stored-LetIn email password w g c h =
      let a = bind-ok (get_user_from_database pf env email) _ w h in
      let b = bind-ok (verify_password pf env password a.value.password) _ a.mid a.rest in
      let found =
        rethrow-ok (login_error pf env) (query (get_user_by_email email) w) a.value a.mid a.first in
      from_table a.value c
        (get_user_by_email-ok email w.tables a.value a.mid.tables
          (query-ok (get_user_by_email email) w found))
        (verify-match password a.value.password a.mid b.value (ap (λ r. r.0) b.first))
        (same_reply _ g b.rest)

  authorize_by-LetIn :
      (o : Option CachedUser) (email password : String) (w : World Tables) (g : GrpcUser)
      → env.cached_by_email email ≡ o
      → (authorize_by pf env o email password w).0 ≡ ok g
      → LetIn email password w.tables g
  authorize_by-LetIn none email password w g c h = authorize_stored-LetIn email password w g c h
  authorize_by-LetIn (some cached) email password w g c h =
      let b = bind-ok (verify_password pf env password cached.hashed_password) _ w h in
      from_cache cached c
        (verify-match password cached.hashed_password w b.value (ap (λ r. r.0) b.first))
        (same_reply _ g b.rest)

  -- AuthorizeUser lets nobody in whose password does not match the stored hash of the email: the
  -- one of the cache entry if there is one, else the one of the row, whose user is the reply.
  pub authorize_user-LetIn :
      (ctx : ContextState) (req : AuthorizeUserRequest) (w : World Tables) (g : GrpcUser)
      → (authorize_user pf env ctx req w).0 ≡ ok g
      → LetIn (env.trim_space req.email) (env.trim_space req.password) w.tables g
  unfolding authorize_user
  authorize_user-LetIn ctx req w g h =
      let email = env.trim_space req.email in
      let password = env.trim_space req.password in
      let a = bind-ok (check_live pf ctx) _ w h in
      let same = check_live-ok pf ctx w a.mid a.value a.first in
      rw (ap (λ x. x.tables) same)
        (authorize_by-LetIn (env.cached_by_email email) email password a.mid g refl a.rest)

  authorize_found :
      (email password : String) (t : Tables) (u : User)
      → env.cached_by_email email ≡ none
      → find (has_email email) t.users ≡ some u
      → env.compare_password_and_hash password u.password ≡ some true
      → (authorize_by pf env
          (env.cached_by_email email)
          email
          password
          (record { tables = t; faults = [] })).0
        ≡ ok (to_grpc_user pf env u)
  unfolding get_user_from_database verify_password get_user_by_email query
  authorize_found email password t u c found match = rw (c, found, match) refl

  create_user_handler-row :
      (ctx : ContextState) (req : CreateUserRequest) (w : World Tables) (g : GrpcUser)
      → (create_user_handler pf env ctx req w).0 ≡ ok g
      → (u : User) × (env.create_hash (env.trim_space req.password) ≡ some u.password)
        × (find
              (has_email (env.trim_space req.email))
              (create_user_handler pf env ctx req w).1.tables.users
            ≡ some u)
        × (g ≡ to_grpc_user pf env u)
  unfolding create_user_handler
  create_user_handler-row ctx req w g h =
      let a = bind-ok (check_live pf ctx) _ w h in
      let b =
        bind-ok (require (env.create_hash (env.trim_space req.password)) internal) _ a.mid a.rest in
      let insert = create_user (env.trim_space req.username) (env.trim_space req.email) b.value in
      let c = bind-ok (or_else (query insert) to_internal) _ b.mid b.rest in
      let (hashed, _) =
        require-ok (env.create_hash (env.trim_space req.password)) internal a.mid b.first in
      let done = rethrow-ok to_internal (query insert b.mid) c.value c.mid c.first in
      let (found, stored) =
        create_user-ok (env.trim_space req.username) (env.trim_space req.email) b.value b.mid.tables
          c.value c.mid.tables (query-ok insert b.mid done) in
      (
        c.value,
        hashed ∙ ap some (sym stored),
        rw (a.same ∙ b.same ∙ c.same) found,
        same_reply _ g c.rest,
      )

  -- Whoever was created can log in: after CreateUser succeeded, AuthorizeUser with the same email
  -- and password returns the same user, where the comparison accepts a hash of the password, the
  -- cache has no entry for the email, and the database answers.
  pub authorize_user-create_user :
      (ctx : ContextState) (req : CreateUserRequest) (w : World Tables) (g : GrpcUser)
      → ((password hash : String)
          → env.create_hash password ≡ some hash
          → env.compare_password_and_hash password hash ≡ some true)
      → env.cached_by_email (env.trim_space req.email) ≡ none
      → (create_user_handler pf env ctx req w).0 ≡ ok g
      → (authorize_user pf env live
          (record { email = req.email; password = req.password })
          (record { tables = (create_user_handler pf env ctx req w).1.tables; faults = [] })).0
        ≡ ok g
  unfolding authorize_user check_live
  authorize_user-create_user ctx req w g accepts fresh h =
      let (u, hashed, found, same) = create_user_handler-row ctx req w g h in
      authorize_found (env.trim_space req.email) (env.trim_space req.password)
        (create_user_handler pf env ctx req w).1.tables u fresh found
        (accepts (env.trim_space req.password) u.password hashed)
      ∙ ap ok (sym same)
