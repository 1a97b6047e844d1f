-- ===== src/SubmissionCreate/Picked.antt =====
-- Some rows of a list, in its order, each once.
use invoice_service.Prelude.{List, [], ◌∷◌}
use invoice_service.Prelude.Every.{Every}

pub data Picked {A : Type 0} : List A → List A → Type 0 where
  picked_none : Picked [] []
  picked_here : {x : A} {xs ys : List A} → Picked xs ys → Picked (x ∷ xs) (x ∷ ys)
  picked_over : {y : A} {xs ys : List A} → Picked xs ys → Picked xs (y ∷ ys)

module _ {A : Type 0} where
  pub nothing-Picked : (ys : List A) → Picked [] ys
  nothing-Picked [] = picked_none
  nothing-Picked (y ∷ ys) = picked_over (nothing-Picked ys)

  pub Picked-Every : (P : A → Type 0) {xs ys : List A} → Picked xs ys → Every P ys → Every P xs
  Picked-Every P picked_none e = tt
  Picked-Every P (picked_here h) e = (e.0, Picked-Every P h e.1)
  Picked-Every P (picked_over h) e = Picked-Every P h e.1
