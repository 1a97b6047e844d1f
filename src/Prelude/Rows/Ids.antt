-- ===== src/Prelude/Rows/Ids.antt =====
-- Ids drawn from a sequence: no two rows share one, and the sequence has given out no later one.
use invoice_service.Prelude.Tests.{◌==◌, ==_iff, Bool-cases, if◌then◌else◌}
use invoice_service.Prelude.Int.{ℤ, pos, ◌+ℤ◌, +ℤ_swap, +ℤ_under}
use invoice_service.Prelude.Rows.{find_row, update_rows, sum_where}
use Prim.Native.Nat.{ℕ, suc, ◌<◌}
use mathlib.Core.Path.{◌≡◌, refl}
use mathlib.Core.Logic.{◌≢◌, inl, inr}
use mathlib.Core.Bool.{Bool}
use mathlib.Core.Option.{none, some}
use mathlib.Core.List.{List, [], ◌∷◌, ◌++◌}
use native.Mathlib.Omega.{arith}

module _ {A : Type 0} where
  abbrev pub Lacks : (A → ℕ) → ℕ → List A → Type 0
  Lacks id i [] = Unit
  Lacks id i (r ∷ rs) = (id r ≢ i) × Lacks id i rs

  abbrev pub WellNumbered : (A → ℕ) → ℕ → List A → Type 0
  WellNumbered id next [] = Unit
  WellNumbered id next (r ∷ rs) = (id r < next) × Lacks id (id r) rs × WellNumbered id next rs

module _ {A : Type 0} (id : A → ℕ) where
  pub Lacks-snoc :
      (i : ℕ) (rs : List A) (x : A) → Lacks id i rs → id x ≢ i → Lacks id i (rs ++ x ∷ [])
  Lacks-snoc i [] x h ne = (ne, tt)
  Lacks-snoc i (r ∷ rs) x h ne = (h.0, Lacks-snoc i rs x h.1 ne)

  pub WellNumbered-snoc :
      (n : ℕ) (rs : List A) (x : A)
      → WellNumbered id n rs
      → id x ≡ n
      → WellNumbered id (suc n) (rs ++ x ∷ [])
  WellNumbered-snoc n [] x h e = (omega arith, tt, tt)
  WellNumbered-snoc n (r ∷ rs) x h e =
      (omega arith, Lacks-snoc (id r) rs x h.1 (omega arith), WellNumbered-snoc n rs x h.2 e)

  module _ (p : A → Bool) (g : A → A) (keeps : (r : A) → id (g r) ≡ id r) where
    Lacks-update : (i : ℕ) (rs : List A) → Lacks id i rs → Lacks id i (update_rows p g rs)
    unfolding update_rows
    Lacks-update i [] h = tt
    Lacks-update i (r ∷ rs) h = (ground (arith, keeps r), Lacks-update i rs h.1)

    updated_id : (r : A) → id (if p r then g r else r) ≡ id r
    updated_id r = ground (arith, keeps r)

    pub WellNumbered-update :
        (n : ℕ) (rs : List A) → WellNumbered id n rs → WellNumbered id n (update_rows p g rs)
    unfolding update_rows
    WellNumbered-update n [] h = tt
    WellNumbered-update n (r ∷ rs) h =
        rw (updated_id r) (h.0, Lacks-update (id r) rs h.1, WellNumbered-update n rs h.2)

  Lacks-found :
      (i : ℕ) (p : A → Bool) (rs : List A) (r : A)
      → Lacks id i rs
      → find_row p rs ≡ some r
      → id r ≢ i
  unfolding find_row
  Lacks-found i p [] r h e = cc
  Lacks-found i p (x ∷ rs) r h e = ground (arith, Lacks-found i p rs r h.1)

  -- The sequence has not given out its next id.
  pub next_is_free :
      (n : ℕ) (rs : List A) → WellNumbered id n rs → find_row (λ x. id x == n) rs ≡ none
  unfolding find_row
  next_is_free n [] h = refl
  next_is_free n (r ∷ rs) h = ground (arith, next_is_free n rs h.2)

  -- Rows that are found and share an id are one row.
  pub found_once :
      (n : ℕ) (p q : A → Bool) (rs : List A) (r s : A)
      → WellNumbered id n rs
      → find_row p rs ≡ some r
      → find_row q rs ≡ some s
      → id r ≡ id s
      → r ≡ s
  unfolding find_row
  found_once n p q [] r s h e f same = cc
  found_once n p q (x ∷ rs) r s h e f same = ground (
    arith,
    found_once n p q rs r s h.2,
    Lacks-found (id x) p rs r h.1,
    Lacks-found (id x) q rs s h.1,
  )

  sum_where-update-Lacks :
      (p : A → Bool) (f : A → ℤ) (g : A → A) (i : ℕ) (rs : List A)
      → Lacks id i rs
      → sum_where p f (update_rows (λ x. id x == i) g rs) ≡ sum_where p f rs
  unfolding sum_where update_rows
  sum_where-update-Lacks p f g i [] h = refl
  sum_where-update-Lacks p f g i (r ∷ rs) h = ground (arith, sum_where-update-Lacks p f g i rs h.1)

  module _ (p : A → Bool) (f : A → ℤ) (g : A → A) (i : ℕ) where
    abbrev part : A → ℤ
    part r = if p r then f r else pos 0

    hit :
        (rs : List A) (x r : A)
        → Lacks id i rs
        → x ≡ r
        → part (g x) +ℤ sum_where p f (update_rows (λ y. id y == i) g rs) +ℤ part r
          ≡ part x +ℤ sum_where p f rs +ℤ part (g r)
    hit rs x r h e = rw (e, sum_where-update-Lacks p f g i rs h) (+ℤ_swap _ _ _)

    -- The update of one row by its id moves a sum by that row's part in it.
    pub sum_where-update :
        (n : ℕ) (rs : List A) (r : A)
        → WellNumbered id n rs
        → find_row (λ x. id x == i) rs ≡ some r
        → sum_where p f (update_rows (λ x. id x == i) g rs) +ℤ part r
          ≡ sum_where p f rs +ℤ part (g r)
    unfolding sum_where update_rows find_row
    sum_where-update n [] r h e = cc
    sum_where-update n (x ∷ rs) r h e = elim (Bool-cases (id x == i)) [
      | inl same ↦ rw same (hit rs x r (rw ((==_iff (id x) i).0 same) at h.1) (ground arith))
      | inr other ↦
          rw other (
            +ℤ_under (part x) _ (part r) _ (part (g r))
              (sum_where-update n rs r h.2 (ground arith)))
    ]

  -- A row that is found by any test is found by its id.
  pub found_own :
      (n : ℕ) (p : A → Bool) (rs : List A) (r : A)
      → WellNumbered id n rs
      → find_row p rs ≡ some r
      → find_row (λ x. id x == id r) rs ≡ some r
  unfolding find_row
  found_own n p [] r h e = cc
  found_own n p (x ∷ rs) r h e =
      ground (arith, found_own n p rs r h.2, Lacks-found (id x) p rs r h.1)
