-- ===== src/Product/Stock.antt =====
-- The statement UpdateStockBatch row by row: what it takes from which product.
use microservices.Prelude.{
  ℕ, ◌≡◌, refl, ap, ◌⊎◌, inl, inr, ◌+◌, Bool, true, Option, none, some, List, [], ◌∷◌, ◌==◌, ==_iff,
  arith, zero, suc, Option-cases, Bool-cases, sym, ◌∙◌,
}
use microservices.Prelude.Int.{ℤ, pos, negsuc}
use microservices.Prelude.Rows.{select}
use microservices.Events.{OrderItem}
use microservices.Product.{
  Product, Server, Line, cast_line, add_line, json_to_recordset, covers, less, joins, nth_line,
  chosen, line_for, updated, update_rows, is_int,
}

abbrev pub In : {A : Type 0} → A → List A → Type 0
In x [] = ⊥
In x (y ∷ ys) = (x ≡ y) ⊎ In x ys

-- `a` is `b` less a signed quantity.
abbrev pub IsLess : ℕ → ℤ → ℕ → Type 0
IsLess a (pos n) b = a + n ≡ b
IsLess a (negsuc n) b = a ≡ b + (n + 1)

-- A product row before and after a batch: the same, or with its stock less the quantity of an item
-- of the batch that names the product.
pub data Taken (server : Server) (items : List OrderItem) (p p' : Product) : Type 0 where
  kept : p' ≡ p → Taken server items p p'
  took :
      (item : OrderItem)
      → In item items
      → server.cast_uuid item.product_id ≡ some p.id
      → p'.id ≡ p.id
      → IsLess p'.stock_quantity item.quantity p.stock_quantity
      → Taken server items p p'

-- Two tables of the same length, compared row by row.
abbrev pub Rowwise : (Product → Product → Type 0) → List Product → List Product → Type 0
Rowwise R [] [] = Unit
Rowwise R (p ∷ ps) (q ∷ qs) = R p q × Rowwise R ps qs
Rowwise R _ _ = ⊥

pub Rowwise-refl :
    (R : Product → Product → Type 0)
    → ((p : Product) → R p p)
    → (ps : List Product) → Rowwise R ps ps
Rowwise-refl R r [] = tt
Rowwise-refl R r (p ∷ ps) = (r p, Rowwise-refl R r ps)

nth_line-In : (n : ℕ) (line : Line) (lines : List Line) → In (nth_line n line lines) (line ∷ lines)
nth_line-In zero line lines = inl refl
nth_line-In (suc n) line [] = inl refl
nth_line-In (suc n) line (next ∷ lines) = inr (nth_line-In n next lines)

In-path : (x y : Line) (lines : List Line) → x ≡ y → In x lines → In y lines
In-path x y lines e i = rw e at i

chosen-In : (n : ℕ) (lines : List Line) (line : Line) → chosen n lines ≡ some line → In line lines
chosen-In n [] line h = cc
chosen-In n (first ∷ lines) line h =
    let e : nth_line n first lines ≡ line = cc in
    In-path (nth_line n first lines) line (first ∷ lines) e (nth_line-In n first lines)

select-In :
    (q : Line → Bool) (lines : List Line) (line : Line)
    → In line (select q lines)
    → In line lines × (q line ≡ true)
select-In q [] line i = elim i [ ]
select-In q (first ∷ lines) line i = elim (Bool-cases (q first)) [
  | inl b ↦ elim (rw b at i) [
    | inl e ↦ (inl e, rw e b)
    | inr rest ↦ let (k, h) = select-In q lines line rest in (inr k, h)
  ]
  | inr b ↦ let (k, h) = select-In q lines line (rw b at i) in (inr k, h)
]

covers-IsLess : (stock : ℕ) (q : ℤ) → covers stock q ≡ true → IsLess (less stock q) q stock
covers-IsLess stock (pos n) h = ground arith
covers-IsLess stock (negsuc n) h = refl

joins-fits :
    (p : Product) (line : Line)
    → joins p line ≡ true
    → (p.id ≡ line.product_id)
      × IsLess (less p.stock_quantity line.quantity) line.quantity p.stock_quantity
unfolding joins
joins-fits p line h = elim (Bool-cases (p.id == line.product_id)) [
  | inl b ↦
      ((==_iff p.id line.product_id).0 b, covers-IsLess p.stock_quantity line.quantity (rw b at h))
  | inr b ↦ cc (rw b at h)
]

cast_line-some :
    (server : Server) (item : OrderItem) (line : Line)
    → cast_line server item ≡ some line
    → (server.cast_uuid item.product_id ≡ some line.product_id) × (item.quantity ≡ line.quantity)
cast_line-some server item line h = elim (Bool-cases (is_int item.quantity)) [
  | inl b ↦ elim (Option-cases (server.cast_uuid item.product_id)) [
    | inl e ↦ let bad = rw (b, e) at h in cc
    | inr (id, e) ↦
        let same : ◌≡◌ {A = Option Line}
            (some (record { product_id = id; quantity = item.quantity })) (some line) =
          rw (b, e) at h in
        let l : ◌≡◌ {A = Line} (record { product_id = id; quantity = item.quantity }) line = cc in
        (e ∙ ap (λ (x : Line). some x.product_id) l, ap (λ (x : Line). x.quantity) l)
  ]
  | inr b ↦ let bad = rw b at h in cc
]

add_line-some :
    (o : Option Line) (os : Option (List Line)) (lines : List Line)
    → add_line o os ≡ some lines
    → (line : Line) × (rest : List Line) × (o ≡ some line)
      × (os ≡ some rest)
      × (lines ≡ line ∷ rest)
add_line-some none os lines h = cc
add_line-some (some line) none lines h = cc
add_line-some (some line) (some rest) lines h = (line, rest, refl, refl, cc)

json_to_recordset-In :
    (server : Server) (items : List OrderItem) (lines : List Line) (line : Line)
    → json_to_recordset server items ≡ some lines
    → In line lines
    → (item : OrderItem) × In item items × (cast_line server item ≡ some line)
unfolding json_to_recordset
json_to_recordset-In server [] lines line h i = let e : lines ≡ [] = cc in elim (rw e at i) [ ]
json_to_recordset-In server (item ∷ items) lines line h i =
    let (first, rest, c, cs, e) =
      add_line-some (cast_line server item) (json_to_recordset server items) lines h in
    elim (rw e at i) [
      | inl same ↦ (item, inl refl, rw same c)
      | inr later ↦
          let (x, k, cx) = json_to_recordset-In server items rest line cs later in (x, inr k, cx)
    ]

module _ (server : Server) (items : List OrderItem) (lines : List Line)
    (cast : json_to_recordset server items ≡ some lines) where
  updated-Taken :
      (now : ℕ) (p : Product) → Taken server items p (updated now p (line_for server lines p))
  unfolding line_for
  updated-Taken now p = elim (Option-cases (chosen (server.choice p.id) (select (joins p) lines))) [
    | inl e ↦ rw e (kept refl)
    | inr (line, e) ↦
        let (i, j) = select-In (joins p) lines line (chosen-In (server.choice p.id) _ line e) in
        let (item, k, c) = json_to_recordset-In server items lines line cast i in
        let (id, q) = cast_line-some server item line c in
        let (same, fits) = joins-fits p line j in
        rw e (took item k (id ∙ ap some (sym same)) refl (rw q fits))
  ]

  -- What a batch does to the table.
  pub update_rows-Taken :
      (now : ℕ) (ps : List Product)
      → Rowwise (Taken server items) ps (update_rows server now lines ps)
  unfolding update_rows
  update_rows-Taken now [] = tt
  update_rows-Taken now (p ∷ ps) = (updated-Taken now p, update_rows-Taken now ps)
