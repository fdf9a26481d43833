-- ===== src/Prelude/Rows/Laws.antt =====
-- How the conditions of a table's statements interact.
use mathlib.Core.Path.{◌≡◌, refl, ap}
use mathlib.Core.Logic.{inl, inr}
use mathlib.Core.Bool.{Bool, true, false, ◌||◌}
use mathlib.Core.Option.{none, some}
use mathlib.Core.List.{List, [], ◌∷◌, ◌++◌}
use native.Mathlib.Omega.{arith}
use microservices.Prelude.Tests.{if◌then◌else◌, Bool-cases}
use microservices.Prelude.Rows.{find, any, update}

module _ {ℓ} {A : Type ℓ} where
  pub any-append : (p : A → Bool) (xs ys : List A) → any p (xs ++ ys) ≡ (any p xs || any p ys)
  any-append p [] ys = refl
  any-append p (x ∷ xs) ys = ground (arith, any-append p xs ys)

  pub find-append :
      (p : A → Bool) (xs ys : List A) → any p xs ≡ false → find p (xs ++ ys) ≡ find p ys
  find-append p [] ys h = refl
  find-append p (x ∷ xs) ys h = ground (arith, find-append p xs ys)

  -- An update whose condition no row meets.
  pub update_none : (p : A → Bool) (f : A → A) (xs : List A) → any p xs ≡ false → update p f xs ≡ xs
  update_none p f [] h = refl
  update_none p f (x ∷ xs) h = ground (arith, update_none p f xs)

  pub update-append :
      (p : A → Bool) (f : A → A) (xs ys : List A)
      → update p f (xs ++ ys) ≡ update p f xs ++ update p f ys
  update-append p f [] ys = refl
  update-append p f (x ∷ xs) ys = ap (λ zs. (if p x then f x else x) ∷ zs) (update-append p f xs ys)

  -- A condition that the update does not touch.
  pub any-update :
      (q p : A → Bool) (f : A → A) (xs : List A)
      → ((x : A) → q (f x) ≡ q x)
      → any q (update p f xs) ≡ any q xs
  any-update q p f [] h = refl
  any-update q p f (x ∷ xs) h = ground (arith, h x, any-update q p f xs h)

  -- A row appended with a new key is the one that an update by the key changes, and finds.
  pub update_last :
      (p : A → Bool) (f : A → A) (xs : List A) (y : A)
      → any p xs ≡ false
      → p y ≡ true
      → update p f (xs ++ y ∷ []) ≡ xs ++ f y ∷ []
  update_last p f xs y h k = rw (update-append, update_none p f xs h, k) refl

  pub find_last :
      (p : A → Bool) (xs : List A) (y : A)
      → any p xs ≡ false
      → p y ≡ true
      → find p (xs ++ y ∷ []) ≡ some y
  find_last p xs y h k = rw (find-append p xs (y ∷ []) h, k) refl

  -- The first row of a condition, after an update of all its rows.
  pub find-update :
      (p : A → Bool) (f : A → A) (xs : List A) (y : A)
      → ((x : A) → p (f x) ≡ p x)
      → find p (update p f xs) ≡ some y
      → (x : A) × (find p xs ≡ some x) × (y ≡ f x)
  find-update p f [] y keep h = cc
  find-update p f (x ∷ xs) y keep h = elim (Bool-cases (p x)) [
    | inl e ↦ (x, rw e refl, ground (arith, keep x))
    | inr e ↦
        let (z, found, same) = find-update p f xs y keep (ground (arith, keep x)) in
        (z, rw e found, same)
  ]

  pub find-update-some :
      (p : A → Bool) (f : A → A) (xs : List A) (x : A)
      → ((y : A) → p (f y) ≡ p y)
      → find p xs ≡ some x
      → find p (update p f xs) ≡ some (f x)
  find-update-some p f [] x keep h = cc
  find-update-some p f (y ∷ xs) x keep h = ground (arith, keep y, find-update-some p f xs x keep)

  -- A condition for which no row is found is one that no row meets.
  pub any-none : (q : A → Bool) (xs : List A) → find q xs ≡ none → any q xs ≡ false
  any-none q [] h = refl
  any-none q (x ∷ xs) h = ground (arith, any-none q xs)

  -- A condition that some row meets is one for which a row is found.
  pub any-find : (q : A → Bool) (xs : List A) (x : A) → find q xs ≡ some x → any q xs ≡ true
  any-find q [] x h = cc
  any-find q (y ∷ xs) x h = ground (arith, any-find q xs x)

  pub find-any : (q : A → Bool) (xs : List A) → find q xs ≡ none → any q xs ≡ true → ⊥
  find-any q [] h k = cc
  find-any q (x ∷ xs) h k = elim (Bool-cases (q x)) [
    | inl b ↦ let bad = rw b at h in cc
    | inr b ↦ find-any q xs (rw b at h) (rw b at k)
  ]
