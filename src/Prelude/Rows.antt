-- ===== src/Prelude/Rows.antt =====
-- A table as the list of its rows, in the order of their ids: the first row that fits, an update of
-- the rows that fit, the rows that fit, and a sum over them.
pub mod Ids
use invoice_service.Prelude.Tests.{if◌then◌else◌}
use invoice_service.Prelude.Int.{ℤ, pos, ◌+ℤ◌, +ℤ_assoc, +ℤ_zero, zero_+ℤ}
use mathlib.Core.Path.{◌≡◌, refl, sym}
use mathlib.Core.Bool.{Bool, true}
use mathlib.Core.Option
use mathlib.Core.Option.{Option, none, some}
use mathlib.Core.List.{List, [], ◌∷◌, ◌++◌, map}
use native.Mathlib.Omega.{arith}

module _ {A : Type 0} where
  unfoldable pub find_row : (A → Bool) → List A → Option A
  find_row p [] = none
  find_row p (r ∷ rs) = if p r then some r else find_row p rs

  -- UPDATE … WHERE p
  unfoldable pub update_rows : (A → Bool) → (A → A) → List A → List A
  update_rows p g [] = []
  update_rows p g (r ∷ rs) = (if p r then g r else r) ∷ update_rows p g rs

  -- SELECT … WHERE p
  unfoldable pub filter_rows : (A → Bool) → List A → List A
  filter_rows p [] = []
  filter_rows p (r ∷ rs) = let rest = filter_rows p rs in if p r then r ∷ rest else rest

  -- COALESCE(SUM(f), 0) … WHERE p
  unfoldable pub sum_where : (A → Bool) → (A → ℤ) → List A → ℤ
  sum_where p f [] = pos 0
  sum_where p f (r ∷ rs) = (if p r then f r else pos 0) +ℤ sum_where p f rs

  pub find_row-fits : (p : A → Bool) (rs : List A) (r : A) → find_row p rs ≡ some r → p r ≡ true
  unfolding find_row
  find_row-fits p [] r e = cc
  find_row-fits p (x ∷ rs) r e = ground (arith, find_row-fits p rs r)

  pub find_row-snoc_none :
      (p : A → Bool) (rs : List A) (x : A)
      → find_row p rs ≡ none
      → find_row p (rs ++ x ∷ []) ≡ (if p x then some x else none)
  unfolding find_row
  find_row-snoc_none p [] x e = refl
  find_row-snoc_none p (r ∷ rs) x e = ground (arith, find_row-snoc_none p rs x)

  pub find_row-snoc_some :
      (p : A → Bool) (rs : List A) (x r : A)
      → find_row p rs ≡ some r
      → find_row p (rs ++ x ∷ []) ≡ some r
  unfolding find_row
  find_row-snoc_some p [] x r e = cc
  find_row-snoc_some p (y ∷ rs) x r e = ground (arith, find_row-snoc_some p rs x r)

  -- An update that leaves the test alone changes what is found, and not where.
  pub find_row-update :
      (p u : A → Bool) (g : A → A) (rs : List A)
      → ((r : A) → p (g r) ≡ p r)
      → find_row p (update_rows u g rs) ≡ Option.map (λ r. if u r then g r else r) (find_row p rs)
  unfolding find_row update_rows
  find_row-update p u g [] keeps = refl
  find_row-update p u g (r ∷ rs) keeps = ground (arith, keeps r, find_row-update p u g rs keeps)

  pub sum_where-snoc :
      (p : A → Bool) (f : A → ℤ) (rs : List A) (x : A)
      → sum_where p f (rs ++ x ∷ []) ≡ sum_where p f rs +ℤ (if p x then f x else pos 0)
  unfolding sum_where
  sum_where-snoc p f [] x = rw (+ℤ_zero, zero_+ℤ)
  sum_where-snoc p f (r ∷ rs) x = rw (sum_where-snoc p f rs x) (sym (+ℤ_assoc _ _ _))

pub sum_where-map :
    {A B : Type 0} (p : B → Bool) (f : B → ℤ) (g : A → B) (xs : List A)
    → sum_where p f (map g xs) ≡ sum_where (λ x. p (g x)) (λ x. f (g x)) xs
unfolding sum_where
sum_where-map p f g [] = refl
sum_where-map p f g (x ∷ xs) = rw (sum_where-map p f g xs) refl
