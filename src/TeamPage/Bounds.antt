-- ===== src/TeamPage/Bounds.antt =====
-- `pageLimitOffset`: its bounds, and that the pages tile a list.
use native.Mathlib.Nat.{mod-eq_of_lt}
use invoice_service.Prelude.{
  ℕ, zero, suc, ◌≡◌, ◌<◌, ◌+◌, ◌-◌, ◌*◌, ◌%◌, ◌∙◌, refl, sym, ap, arith, inl, inr, true, some, List,
  [], ◌∷◌, ◌++◌, ltb, Bool-cases,
}
use invoice_service.Prelude.Int.{ℤ, pos, negsuc, ◌-ℤ◌, neg}
use invoice_service.TeamPage.{
  wrap, signed, times, not_negative, page_limit_offset, drop_rows, take_rows, page_of,
}

not_negative-neg : (n : ℕ) → not_negative (neg (pos n)) ≡ 0
unfolding neg
not_negative-neg n = ground arith

not_negative-signed : (half u : ℕ) → 0 < half → not_negative (signed half u) < half
unfolding neg
not_negative-signed half u h = elim (Bool-cases (ltb u half)) [
  | inl t ↦ rw t (ground arith)
  | inr e ↦ rw (e, not_negative-neg (2 * half - u)) h
]

offset_bound : (half : ℕ) (z : ℤ) → 0 < half → not_negative (wrap half z) < half
unfolding wrap
offset_bound half (pos n) h = not_negative-signed half (n % (2 * half)) h
offset_bound half (negsuc n) h = not_negative-signed half (2 * half - 1 - n % (2 * half)) h

-- The values of the signed type.
abbrev pub IsInt : ℕ → ℤ → Type 0
IsInt half (pos n) = n < half
IsInt half (negsuc n) = n < half

-- For a page filter of w-bit signed integers, 2 ^ (w - 1) being more than 100, the limit is positive,
-- and the limit and the offset are representable, so neither is negative: also where the multiplication
-- overflows.
pub page_limit_offset-bounds :
    (half : ℕ) (page limit : ℤ)
    → 100 < half
    → IsInt half page
    → IsInt half limit
    → let (l, o) = page_limit_offset half (some (record { page = page; limit = limit })) in
      (0 < l) × (l < half) × (o < half)
unfolding page_limit_offset
page_limit_offset-bounds half page (negsuc n) h fits_page fits = (omega arith, h, omega arith)
page_limit_offset-bounds half page (pos zero) h fits_page fits = (omega arith, h, omega arith)
page_limit_offset-bounds half page (pos (suc n)) h fits_page fits =
    (omega arith, fits, offset_bound half (times (wrap half (page -ℤ pos 1)) (suc n)) (omega arith))

wrap-small : (half n : ℕ) → n < half → wrap half (pos n) ≡ pos n
unfolding wrap
wrap-small half n h =
    let small : ltb n half ≡ true = ground arith in
    rw (mod-eq_of_lt {n = n} {m = 2 * half} (omega arith), small) refl

before_page : (q : ℕ) → pos (suc q) -ℤ pos 1 ≡ pos q
unfolding ◌-ℤ◌
before_page q = ground arith

page_offset :
    (half q n : ℕ)
    → q < half
    → q * suc n < half
    → page_limit_offset half (some (record { page = pos (suc q); limit = pos (suc n) }))
      ≡ (suc n, q * suc n)
unfolding page_limit_offset
page_offset half q n small fits =
    rw (before_page q, wrap-small half q small, wrap-small half (q * suc n) fits) refl

zero_plus : (m : ℕ) → zero + m ≡ m
zero_plus m = omega arith

suc_plus : (n m : ℕ) → suc n + m ≡ suc (n + m)
suc_plus n m = omega arith

module _ {A : Type 0} where
  take_rows-none : (n : ℕ) → take_rows {A = A} n [] ≡ []
  unfolding take_rows
  take_rows-none zero = refl
  take_rows-none (suc n) = refl

  take_rows-drop_rows :
      (n m : ℕ) (xs : List A)
      → take_rows n xs ++ take_rows m (drop_rows n xs) ≡ take_rows (n + m) xs
  unfolding take_rows drop_rows
  take_rows-drop_rows zero m xs = ap (λ (k : ℕ). take_rows k xs) (sym (zero_plus m))
  take_rows-drop_rows (suc n) zero [] = sym (take_rows-none (suc n + zero))
  take_rows-drop_rows (suc n) (suc m) [] = sym (take_rows-none (suc n + suc m))
  take_rows-drop_rows (suc n) m (x ∷ xs) =
      ap (λ (ys : List A). x ∷ ys) (take_rows-drop_rows n m xs)
      ∙ ap (λ (k : ℕ). take_rows k (x ∷ xs)) (sym (suc_plus n m))

  -- The rows of the first q pages and then those of page q + 1 are the first (q + 1) · limit rows of
  -- the sorted list, so that the pages neither overlap nor leave out a row. The limit is positive, and
  -- the offset of the page does not overflow.
  pub pages_tile :
      (half q n : ℕ) (xs : List A)
      → q < half
      → q * suc n < half
      → take_rows (q * suc n) xs
          ++ page_of
              (page_limit_offset half (some (record { page = pos (suc q); limit = pos (suc n) })))
              xs
        ≡ take_rows (q * suc n + suc n) xs
  pages_tile half q n xs small fits =
      rw (page_offset half q n small fits) (take_rows-drop_rows (q * suc n) (suc n) xs)
