-- ===== src/Gateway/Laws.antt =====
-- Whose carts and orders a request can reach, and who gets a token.
use microservices.Prelude.{
  ◌≡◌, refl, ap, sym, ◌∙◌, ◌⊎◌, inl, inr, String, Bool, true, false, Option, none, some, [], ◌∷◌,
  if◌then◌else◌,
}
use microservices.Grpc.{ContextState, live, ctx_canceled, ctx_deadline_exceeded, ctx_failed}
use microservices.Effect.{Result, ok, err}
use microservices.Web.{Response}
use microservices.Gateway.{
  Call, user_of, GrpcError, grpc_status, other, Claims, Cookie, cookie, no_cookie, bad_cookie,
  Request, Libraries, Services, Exchange, Handler, after_call, validate_token, with_claims,
  with_cookie, auth_middleware, authorize_user, LoginRequest,
}
use microservices.Gateway.Handlers.{decoded, for_user, authorized, log_in}
use microservices.Gateway.Categories.{if_live}
use microservices.Gateway.Router.{Route}

-- The routes that anybody may use.
abbrev pub is_public : Route → Bool
is_public Route.post_users = true
is_public Route.post_login = true
is_public Route.post_logout = true
is_public Route.get_product = true
is_public Route.get_products = true
is_public Route.get_products_of_category = true
is_public Route.get_categories = true
is_public _ = false

-- The request has a cookie with a token that is valid, for these claims.
pub record HasToken (lib : Libraries) (req : Request) (claims : Claims) : Type 0 where
  pub token : String
  pub sent : req.auth_cookie ≡ cookie token
  pub valid : validate_token lib token ≡ some claims

-- At most one call, and where it is in the name of a user, that of the claims.
pub record Within {Body : Type 0} (mine : String → Type 0) (e : Exchange Body) : Type 0 where
  pub at_most_one : (e.calls ≡ []) ⊎ ((c : Call) × (e.calls ≡ c ∷ []))
  pub named : (c : Call) (user : String) → e.calls ≡ c ∷ [] → user_of c ≡ some user → mine user

module _ {Body : Type 0} (mine : String → Type 0) where
  pub quiet : (e : Exchange Body) → e.calls ≡ [] → Within mine e
  quiet e h = record { at_most_one = inl h; named = λ c user k u. let bad = sym h ∙ k in cc }

  pub once :
      (c : Call) (e : Exchange Body)
      → e.calls ≡ c ∷ []
      → ((user : String) → user_of c ≡ some user → mine user)
      → Within mine e
  once c e h k = record {
    at_most_one = inr (c, h);
    named = λ d user l u.
        let same : c ∷ [] ≡ d ∷ [] = sym h ∙ l in let e : c ≡ d = cc in k user (ap user_of e ∙ u);
  }

  pub anonymous : (c : Call) (r : Response Body) → user_of c ≡ none → Within mine (after_call c r)
  anonymous c r h = once c (after_call c r) refl (λ user u. let bad = sym h ∙ u in cc)

  module _ (lib : Libraries) (services : Services Body) where
    pub decoded-Within :
        {A : Type 0} (req : Request) (r : Result String A) (f : A → Exchange Body)
        → ((a : A) → Within mine (f a))
        → Within mine (decoded lib services req r f)
    decoded-Within req (ok a) f h = h a
    decoded-Within req (err e) f h = quiet _ refl

    pub for_user-Within :
        (claims : Option Claims) (req : Request) (f : String → Exchange Body)
        → ((c : Claims) → claims ≡ some c → Within mine (f c.subject))
        → Within mine (for_user lib services claims req f)
    for_user-Within none req f h = quiet _ refl
    for_user-Within (some c) req f h = h c refl

    pub if_live-Within :
        (o : Option (Response Body)) (e : Exchange Body)
        → Within mine e
        → Within mine (if_live lib services o e)
    if_live-Within none e h = h
    if_live-Within (some r) e h = quiet _ refl

    pub if-Within :
        (b : Bool) (d e : Exchange Body)
        → Within mine d
        → Within mine e
        → Within mine (if b then d else e)
    if-Within true d e h k = h
    if-Within false d e h k = k

    pub authorized-Within :
        (path : String) (l : LoginRequest) (r : Result GrpcError Body)
        → Within mine (authorized lib services path (authorize_user l) r)
    authorized-Within path l (ok b) =
        go (lib.sign_token (services.user b).id (services.user b).email)
      where
        go :
            (o : Option String)
            → Within mine (log_in lib services path (authorize_user l) (services.user b) o)
        go none = anonymous _ _ refl
        go (some token) = once (authorize_user l) _ refl (λ user u. cc)
    authorized-Within path l (err (grpc_status st)) = anonymous _ _ refl
    authorized-Within path l (err (other e)) = anonymous _ _ refl

    pub by_context :
        (h : ContextState → Exchange Body) (c : ContextState)
        → Within mine (h live)
        → Within mine (h ctx_canceled)
        → Within mine (h ctx_deadline_exceeded)
        → Within mine (h ctx_failed)
        → Within mine (h c)
    by_context h live a b c d = a
    by_context h ctx_canceled a b c d = b
    by_context h ctx_deadline_exceeded a b c d = c
    by_context h ctx_failed a b c d = d

    -- A handler behind the check of tokens may act for the subject of the claims.
    with_claims-Within :
        (o : Option Claims) (next : Handler Body) (req : Request)
        → ((c : Claims) → o ≡ some c → Within mine (next (some c) req))
        → Within mine (with_claims lib o next req)
    with_claims-Within none next req h = quiet _ refl
    with_claims-Within (some c) next req h = h c refl

    pub auth_middleware-Within :
        (next : Handler Body) (req : Request)
        → ((c : Claims) → HasToken lib req c → Within mine (next (some c) req))
        → Within mine (auth_middleware lib next req)
    unfolding auth_middleware
    auth_middleware-Within next req h = go req.auth_cookie refl
      where
        go : (k : Cookie) → req.auth_cookie ≡ k → Within mine (with_cookie lib k next req)
        go no_cookie e = quiet _ refl
        go bad_cookie e = quiet _ refl
        go (cookie token) e =
            with_claims-Within (validate_token lib token) next req
              (λ c v. h c (record { token = token; sent = e; valid = v }))
