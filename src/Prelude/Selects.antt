-- ===== src/Prelude/Selects.antt =====
-- What a query selects: the rows of a table that satisfy a predicate, each as often as it stands there.
use invoice_service.Prelude.Tests.{if◌then◌else◌, Bool-cases}
use invoice_service.Prelude.Rows.{filter_rows}
use invoice_service.Prelude.Every.{Every}
use Prim.Native.Nat.{ℕ, ◌+◌}
use mathlib.Core.Path.{◌≡◌, refl}
use mathlib.Core.Logic.{◌↔◌, inl, inr}
use mathlib.Core.Bool.{Bool, true, false, ◌&&◌}
use mathlib.Core.List.{List, [], ◌∷◌}
use native.Mathlib.Omega.{arith}

-- A conjunction of tests, as the product of what they decide.
pub &&_iff :
    {P Q : Type 0} (a b : Bool) → ((a ≡ true) ↔ P) → ((b ≡ true) ↔ Q) → ((a && b) ≡ true) ↔ (P × Q)
&&_iff true b p q = (λ e. (p.0 refl, q.0 e), λ h. q.1 h.1)
&&_iff false b p q = (λ e. absurd (ground arith), λ h. p.1 h.0)

module _ {A : Type 0} where
  -- How many rows pass a test.
  unfoldable pub count_where : (A → Bool) → List A → ℕ
  count_where p [] = 0
  count_where p (r ∷ rs) = (if p r then 1 else 0) + count_where p rs

  -- Every row of `listed` satisfies `Fits`, and a test that only such rows pass counts as many rows
  -- there as in the table.
  pub record Selects (Fits : A → Type 0) (rows listed : List A) : Type 0 where
    pub all_fit : Every Fits listed
    pub same_rows :
        (p : A → Bool) → ((r : A) → p r ≡ true → Fits r) → count_where p listed ≡ count_where p rows

  module _ (Fits : A → Type 0) (fits : A → Bool)
      (decides : (r : A) → (fits r ≡ true) ↔ Fits r) where
    filter_rows-all_fit : (rows : List A) → Every Fits (filter_rows fits rows)
    unfolding filter_rows
    filter_rows-all_fit [] = tt
    filter_rows-all_fit (r ∷ rows) = elim (Bool-cases (fits r)) [
      | inl t ↦ rw t ((decides r).0 t, filter_rows-all_fit rows)
      | inr f ↦ rw f (filter_rows-all_fit rows)
    ]

    module _ (p : A → Bool) (only : (r : A) → p r ≡ true → Fits r) where
      none_else : (r : A) → fits r ≡ false → p r ≡ false
      none_else r f = elim (Bool-cases (p r)) [
        | inl t ↦ absurd (ground (arith, (decides r).1 (only r t)))
        | inr e ↦ e
      ]

      count_where-filter_rows :
          (rows : List A) → count_where p (filter_rows fits rows) ≡ count_where p rows
      unfolding count_where filter_rows
      count_where-filter_rows [] = refl
      count_where-filter_rows (r ∷ rows) = elim (Bool-cases (fits r)) [
        | inl t ↦ rw (t, count_where-filter_rows rows) refl
        | inr f ↦ rw (f, none_else r f, count_where-filter_rows rows) (omega arith)
      ]

    pub filter_rows-Selects : (rows : List A) → Selects Fits rows (filter_rows fits rows)
    filter_rows-Selects rows = record {
      all_fit = filter_rows-all_fit rows;
      same_rows = λ p only. count_where-filter_rows p only rows;
    }
