-- ===== src/Prelude/Every.antt =====
-- A predicate of every row of a list.
use invoice_service.Prelude.Rows.{filter_rows}
use invoice_service.Prelude.Tests.{Bool-cases}
use mathlib.Core.Logic.{inl, inr}
use mathlib.Core.Bool.{Bool}
use mathlib.Core.List.{List, [], ◌∷◌, ◌++◌, map}

module _ {A : Type 0} where
  abbrev pub Every : (A → Type 0) → List A → Type 0
  Every P [] = Unit
  Every P (x ∷ xs) = P x × Every P xs

  pub Every-all : (P : A → Type 0) (xs : List A) → ((x : A) → P x) → Every P xs
  Every-all P [] h = tt
  Every-all P (x ∷ xs) h = (h x, Every-all P xs h)

  pub Every-mono :
      (P Q : A → Type 0) (xs : List A) → ((x : A) → P x → Q x) → Every P xs → Every Q xs
  Every-mono P Q [] h e = tt
  Every-mono P Q (x ∷ xs) h e = (h x e.0, Every-mono P Q xs h e.1)

  pub Every-both :
      (P Q R : A → Type 0) (xs : List A)
      → ((x : A) → P x → Q x → R x)
      → Every P xs
      → Every Q xs
      → Every R xs
  Every-both P Q R [] h p q = tt
  Every-both P Q R (x ∷ xs) h p q = (h x p.0 q.0, Every-both P Q R xs h p.1 q.1)

  pub Every-filter_rows :
      (P : A → Type 0) (keep : A → Bool) (xs : List A) → Every P xs → Every P (filter_rows keep xs)
  unfolding filter_rows
  Every-filter_rows P keep [] e = tt
  Every-filter_rows P keep (x ∷ xs) e = elim (Bool-cases (keep x)) [
    | inl t ↦ rw t (e.0, Every-filter_rows P keep xs e.1)
    | inr f ↦ rw f (Every-filter_rows P keep xs e.1)
  ]

pub Every-map :
    {A B : Type 0} (P : B → Type 0) (f : A → B) (xs : List A)
    → Every (λ x. P (f x)) xs
    → Every P (map f xs)
Every-map P f [] e = tt
Every-map P f (x ∷ xs) e = (e.0, Every-map P f xs e.1)

pub Every-unmap :
    {A B : Type 0} (P : B → Type 0) (f : A → B) (xs : List A)
    → Every P (map f xs)
    → Every (λ x. P (f x)) xs
Every-unmap P f [] e = tt
Every-unmap P f (x ∷ xs) e = (e.0, Every-unmap P f xs e.1)

pub Every-first : {A : Type 0} (P : A → Type 0) (xs ys : List A) → Every P (xs ++ ys) → Every P xs
Every-first P [] ys e = tt
Every-first P (x ∷ xs) ys e = (e.0, Every-first P xs ys e.1)
