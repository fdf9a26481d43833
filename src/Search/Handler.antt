-- ===== src/Search/Handler.antt =====
-- search-service/internal/handlers/product/search.go: a search for products by text.
use microservices.Prelude.{
  ℕ, ◌≡◌, refl, ap, inl, inr, true, false, String, List, [], ◌∷◌, str_eq, if◌then◌else◌, Bool-cases,
  eq_iff, text_append, ◌≢◌, zero, suc,
}
use microservices.Prelude.Int.{ℤ, pos, negsuc}
use microservices.Web.{Response, payload, respond_with_error, respond_with_json}
use microservices.Prelude.{some}
use microservices.Events.{ProductEvent}

-- The query that is sent to the search engine.
pub record Query : Type 0 where
  pub from : ℤ
  pub size : ℤ
  pub text : String
  pub fields : List String

-- What Searcher.Search comes to: an error, a response that IsError holds of, a body that does not
-- decode, or the total and the sources of the hits.
pub data Reply : Type 0 where
  unreachable : String → Reply
  refused : ℕ → Reply
  unreadable : String → Reply
  hits : ℤ → List ProductEvent → Reply

abbrev page_size : ℤ → ℤ
page_size (pos zero) = pos 10
page_size (pos (suc n)) = pos (suc n)
page_size (negsuc n) = pos 10

abbrev page_start : ℤ → ℤ
page_start (pos n) = pos n
page_start (negsuc n) = pos 0

-- The texts of the parameters q, size and from; "" for one that is missing.
pub record Parameters : Type 0 where
  pub q : String
  pub size_text : String
  pub from_text : String

-- `atoi` is the value that strconv.Atoi returns, with or without an error; `itoa` is strconv.Itoa.
module _ (atoi : String → ℤ) (itoa : ℕ → String) where
  unfoldable pub search_query : Parameters → Query
  search_query ps = record {
    from = page_start (atoi ps.from_text);
    size = page_size (atoi ps.size_text);
    text = ps.q;
    fields = "name" ∷ "description" ∷ [];
  }

  abbrev answer : String → Reply → Response (List ProductEvent)
  answer path (unreachable e) = respond_with_error path 500 "Failed to execute search query" e
  answer path (refused status) =
      respond_with_error path 500 "Opensearch returned an error"
        (text_append "Status code: " (itoa status))
  answer path (unreadable e) = respond_with_error path 500 "Failed to decode search response" e
  answer path (hits (pos zero) ps) =
      respond_with_error path 404 "No products found" "No results match the search query"
  answer path (hits total ps) = respond_with_json 200 (some ps)

  -- `engine` is Searcher.Search on the index, with the reply's decoding.
  unfoldable pub search_product :
      (Query → Reply) → String → Parameters → Response (List ProductEvent)
  search_product engine path ps =
      if str_eq ps.q ""
      then respond_with_error path 400 "Query parameter 'q' is required"
          "The 'q' parameter cannot be empty"
      else answer path (engine (search_query ps))

-- A query that the engine may be asked: for a text, from a position on, and for at least one hit.
pub record InWindow (query : Query) : Type 0 where
  pub start : ℕ
  pub starts : query.from ≡ pos start
  pub count : ℕ
  pub counts : query.size ≡ pos (suc count)
  pub has_text : query.text ≢ ""

page_size-pos : (z : ℤ) → (n : ℕ) × (page_size z ≡ pos (suc n))
page_size-pos (pos zero) = (9, refl)
page_size-pos (pos (suc n)) = (n, refl)
page_size-pos (negsuc n) = (9, refl)

page_start-pos : (z : ℤ) → (n : ℕ) × (page_start z ≡ pos n)
page_start-pos (pos n) = (n, refl)
page_start-pos (negsuc n) = (0, refl)

module _ (atoi : String → ℤ) (itoa : ℕ → String) where
  search_query-InWindow :
      (ps : Parameters) → str_eq ps.q "" ≡ false → InWindow (search_query atoi itoa ps)
  unfolding search_query
  search_query-InWindow ps h =
      let (start, a) = page_start-pos (atoi ps.from_text) in
      let (count, b) = page_size-pos (atoi ps.size_text) in
      record {
        start = start;
        starts = a;
        count = count;
        counts = b;
        has_text = λ e. let k : str_eq ps.q "" ≡ true = (eq_iff ps.q "").1 e in cc;
      }

  -- Whatever the parameters, a search depends on the engine only at queries for a text that is not
  -- empty, from a position that is not negative, and for at least one hit: two engines that agree
  -- there give the same response.
  pub search_product-InWindow :
      (engine other : Query → Reply) (path : String) (ps : Parameters)
      → ((query : Query) → InWindow query → engine query ≡ other query)
      → search_product atoi itoa engine path ps ≡ search_product atoi itoa other path ps
  unfolding search_product
  search_product-InWindow engine other path ps same = elim (Bool-cases (str_eq ps.q "")) [
    | inl b ↦ rw b refl
    | inr b ↦ rw (b, same (search_query atoi itoa ps) (search_query-InWindow ps b)) refl
  ]

  answer-payload :
      (path : String) (reply : Reply) (status : ℕ) (found : List ProductEvent)
      → answer atoi itoa path reply ≡ payload status found
      → (status ≡ 200) × (total : ℤ) × (total ≢ pos 0) × (reply ≡ hits total found)
  unfolding respond_with_error respond_with_json
  answer-payload path (unreachable e) status found h = cc
  answer-payload path (refused n) status found h = cc
  answer-payload path (unreadable e) status found h = cc
  answer-payload path (hits (pos zero) ps) status found h = cc
  answer-payload path (hits (pos (suc n)) ps) status found h =
      (cc, pos (suc n), λ e. cc, ap (hits (pos (suc n))) cc)
  answer-payload path (hits (negsuc n) ps) status found h =
      (cc, negsuc n, λ e. cc, ap (hits (negsuc n)) cc)

  -- A search that replies products has status 200; its text was not empty, the query that was sent
  -- is for at least one hit from a position on, and the engine answered it with a total other than
  -- 0 and exactly those products.
  pub search_product-hits :
      (engine : Query → Reply) (path : String) (ps : Parameters) (status : ℕ)
      (found : List ProductEvent)
      → search_product atoi itoa engine path ps ≡ payload status found
      → (status ≡ 200)
        × (ps.q ≢ "")
        × InWindow (search_query atoi itoa ps)
        × (total : ℤ) × (total ≢ pos 0)
        × (engine (search_query atoi itoa ps) ≡ hits total found)
  unfolding search_product respond_with_error search_query
  search_product-hits engine path ps status found h = elim (Bool-cases (str_eq ps.q "")) [
    | inl b ↦ let k = rw b at h in cc
    | inr b ↦
        let (ok, total, some_hits, e) =
          answer-payload path (engine (search_query atoi itoa ps)) status found (rw b at h) in
        let window = search_query-InWindow ps b in
        (ok, window.has_text, window, total, some_hits, e)
  ]
