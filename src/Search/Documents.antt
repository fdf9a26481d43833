-- ===== src/Search/Documents.antt =====
-- The view of the product table that the search index implements, as the table changes.
use microservices.Prelude.{
  ◌≡◌, refl, ap, sym, ◌∙◌, inl, inr, Bool, true, false, String, Option, none, some, List, [], ◌∷◌,
  ◌++◌, ◌==◌, ==_iff, Bool-cases, if◌then◌else◌, arith, str_eq, eq_iff,
}
use microservices.Prelude.Rows.{find, any, update, delete}
use microservices.Grpc.{Platform, Uuid}
use microservices.Events.{ProductEvent}
use microservices.Product.{Product}
use microservices.Product.Queries.{has_id}
use microservices.Product.Repository.{Formats, product_to_payload}
use microservices.Search.{Index, put}

pub find_here :
    (t : Product → Bool) (x : Product) (xs : List Product) (y : Product)
    → t x ≡ true
    → find t (x ∷ xs) ≡ some y
    → x ≡ y
find_here t x xs y b h = let k : some x ≡ some y = rw b at h in cc

pub same_branches :
    (a b key : String) (x y rest : Option ProductEvent)
    → a ≡ b
    → x ≡ y
    → (if str_eq a key then x else rest) ≡ (if str_eq b key then y else rest)
same_branches a b key x y rest e k = rw (e, k) refl

module _ (pf : Platform) (formats : Formats) where
  -- The specification: the document of the first row whose id has the text.
  abbrev pub documents : List Product → Index
  documents [] key = none
  documents (p ∷ ps) key =
      if str_eq (pf.uuid_string p.id) key then product_to_payload pf formats p else documents ps key

  -- The index reads as the table.
  abbrev pub IsIndexOf : Index → List Product → Type 0
  IsIndexOf ix ps = (key : String) → ix key ≡ documents ps key

  module _ (reads_back : (u : Uuid) → pf.scan_uuid (pf.uuid_string u) ≡ some u) where
    -- Two ids with one text are one id.
    same_text :
        (u v : Uuid) (key : String)
        → str_eq (pf.uuid_string u) key ≡ true
        → str_eq (pf.uuid_string v) key ≡ true
        → (u == v) ≡ true
    same_text u v key h k =
        let a : pf.uuid_string u ≡ key = (eq_iff (pf.uuid_string u) key).0 h in
        let b : pf.uuid_string v ≡ key = (eq_iff (pf.uuid_string v) key).0 k in
        let o : some u ≡ some v = sym (reads_back u) ∙ ap pf.scan_uuid (a ∙ sym b) ∙ reads_back v in
        let e : u ≡ v = cc in (==_iff u v).1 e

    pub documents-append :
        (ps : List Product) (p : Product) (key : String)
        → any (has_id p.id) ps ≡ false
        → documents (ps ++ p ∷ []) key ≡ (
            if str_eq (pf.uuid_string p.id) key
            then product_to_payload pf formats p
            else documents ps key)
    documents-append [] p key h = refl
    documents-append (q ∷ ps) p key h = elim (Bool-cases (str_eq (pf.uuid_string q.id) key)) [
      | inl b ↦ elim (Bool-cases (str_eq (pf.uuid_string p.id) key)) [
        | inl c ↦ let e = same_text q.id p.id key b c in let bad = rw e at h in cc
        | inr c ↦ rw (b, c) refl
      ]
      | inr b ↦
          let rest : any (has_id p.id) ps ≡ false = ground arith in
          rw b (documents-append ps p key rest)
    ]

    documents-update_other :
        (id : Uuid) (f : Product → Product) (ps : List Product) (key : String)
        → ((q : Product) → (f q).id ≡ q.id)
        → str_eq (pf.uuid_string id) key ≡ false
        → documents (update (has_id id) f ps) key ≡ documents ps key
    documents-update_other id f [] key same h = refl
    documents-update_other id f (q ∷ ps) key same h = elim (Bool-cases (q.id == id)) [
      | inl b ↦
          let e : q.id ≡ id = (==_iff q.id id).0 b in
          let k : str_eq (pf.uuid_string q.id) key ≡ false = rw e h in
          rw (b, same q, k) (documents-update_other id f ps key same h)
      | inr b ↦ rw (b, documents-update_other id f ps key same h) refl
    ]

    documents-update_same :
        (id : Uuid) (f : Product → Product) (ps : List Product) (p : Product) (key : String)
        → ((q : Product) → (f q).id ≡ q.id)
        → str_eq (pf.uuid_string id) key ≡ true
        → find (has_id id) (update (has_id id) f ps) ≡ some p
        → documents (update (has_id id) f ps) key ≡ product_to_payload pf formats p
    documents-update_same id f [] p key same h found = cc
    documents-update_same id f (q ∷ ps) p key same h found = elim (Bool-cases (q.id == id)) [
      | inl b ↦
          let e : q.id ≡ id = (==_iff q.id id).0 b in
          let k : str_eq (pf.uuid_string (f q).id) key ≡ true =
            ap (λ u. str_eq (pf.uuid_string u) key) (same q ∙ e) ∙ h in
          let it =
            find_here (has_id id) (f q) (update (has_id id) f ps) p (rw (same q) b)
              (rw b at found) in
          rw (b, k) (ap (product_to_payload pf formats) it)
      | inr b ↦ elim (Bool-cases (str_eq (pf.uuid_string q.id) key)) [
        | inl c ↦ let e = same_text q.id id key c h in cc
        | inr c ↦ rw (b, c) (documents-update_same id f ps p key same h (rw (b, b) at found))
      ]
    ]

    pub documents-update :
        (id : Uuid) (f : Product → Product) (ps : List Product) (p : Product)
        (doc : Option ProductEvent) (key : String)
        → ((q : Product) → (f q).id ≡ q.id)
        → find (has_id id) (update (has_id id) f ps) ≡ some p
        → product_to_payload pf formats p ≡ doc
        → documents (update (has_id id) f ps) key
          ≡ (if str_eq (pf.uuid_string id) key then doc else documents ps key)
    documents-update id f ps p doc key same found body =
        elim (Bool-cases (str_eq (pf.uuid_string id) key)) [
          | inl b ↦ rw b (documents-update_same id f ps p key same b found ∙ body)
          | inr b ↦ rw b (documents-update_other id f ps key same b)
        ]

    pub documents-delete :
        (id : Uuid) (ps : List Product) (key : String)
        → documents (delete (has_id id) ps) key
          ≡ (if str_eq (pf.uuid_string id) key then none else documents ps key)
    documents-delete id [] key = elim (Bool-cases (str_eq (pf.uuid_string id) key)) [
      | inl b ↦ rw b refl
      | inr b ↦ rw b refl
    ]
    documents-delete id (q ∷ ps) key = elim (Bool-cases (q.id == id)) [
      | inl b ↦
          let e : q.id ≡ id = (==_iff q.id id).0 b in
          rw (b, documents-delete id ps key)
            (removed q.id id key (documents ps key) (product_to_payload pf formats q) e)
      | inr b ↦ elim (Bool-cases (str_eq (pf.uuid_string q.id) key)) [
        | inl c ↦ elim (Bool-cases (str_eq (pf.uuid_string id) key)) [
          | inl d ↦ let e = same_text q.id id key c d in cc
          | inr d ↦ rw (b, c, d) refl
        ]
        | inr c ↦ rw (b, c) (documents-delete id ps key)
      ]
    ]
      where
        removed :
            (u v : Uuid) (key : String) (rest here : Option ProductEvent)
            → u ≡ v
            → (if str_eq (pf.uuid_string v) key then none else rest) ≡ (
                if str_eq (pf.uuid_string v) key
                then none
                else (if str_eq (pf.uuid_string u) key then here else rest))
        removed u v key rest here e = elim (Bool-cases (str_eq (pf.uuid_string v) key)) [
          | inl b ↦ rw b refl
          | inr b ↦ rw (e, b) refl
        ]

    pub put-some :
        (id : String) (doc : Option ProductEvent) (ix : Index) (ps ps' : List Product)
        → IsIndexOf ix ps
        → ((key : String) → documents ps' key ≡ (if str_eq id key then doc else documents ps key))
        → IsIndexOf (put id doc ix) ps'
    put-some id doc ix ps ps' h k key = rw (k key, h key) refl
