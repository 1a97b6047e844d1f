-- ===== src/InvoiceManage/Readjust.antt =====
-- `Get` and then `ReadjustAmount`: what the invoices table holds afterwards.
use mathlib.Core.Path.{subst}
use invoice_service.Prelude.{
  ℕ, ◌≡◌, ◌≢◌, ◌⊎◌, refl, sym, ap, arith, inl, inr, Bool, true, false, List, [], ◌∷◌, ◌++◌, map,
  ◌==◌, ==_iff, ==_refl, if◌then◌else◌, Bool-cases,
}
use invoice_service.Prelude.Int.{ℤ, pos, ◌+ℤ◌, ◌-ℤ◌, int_laws}
use invoice_service.Prelude.Rows.{update_rows, filter_rows, sum_where}
use invoice_service.Prelude.Rows.Ids.{Lacks, WellNumbered, Lacks-snoc}
use invoice_service.Prelude.Every.{Every, Every-both}
use invoice_service.Models.Enums.{Amount}
use invoice_service.Models.Shop.{Invoice, InvoiceStatus, not_final, not_paid, paid, cancel}
use invoice_service.Store.{Db, ok, calm, execute, statement}
use invoice_service.InvoiceManage.{ReadjustAmountPayload, cancelled, save_invoice, under, sweep}

abbrev pub is_paid : InvoiceStatus → Bool
is_paid paid = true
is_paid _ = false

-- An unpaid invoice is cancelled, another one stays as it is.
abbrev pub settled : Invoice → Invoice
settled i = elim i.status [
  | not_final ↦ cancelled i
  | not_paid ↦ cancelled i
  | paid ↦ i
  | cancel ↦ i
]

abbrev pub paid_total : List Invoice → Amount
paid_total = sum_where (λ i. is_paid i.status) (λ i. i.amount)

abbrev pub with_invoices : List Invoice → Db → Db
with_invoices rows d = record d { shop = record d.shop { invoices = rows } }

abbrev id_of : Invoice → ℕ
id_of i = i.id

update_rows-lacking :
    (i : ℕ) (c : Invoice) (rows : List Invoice)
    → Lacks id_of i rows
    → update_rows (λ r. r.id == i) (λ r. c) rows ≡ rows
unfolding update_rows
update_rows-lacking i c [] h = refl
update_rows-lacking i c (r ∷ rows) h = ground (arith, update_rows-lacking i c rows)

update_rows-one :
    (c r : Invoice) (done rest : List Invoice)
    → Lacks id_of r.id done
    → Lacks id_of r.id rest
    → update_rows (λ x. x.id == r.id) (λ x. c) (done ++ r ∷ rest) ≡ done ++ c ∷ rest
unfolding update_rows
update_rows-one c r [] rest h k = rw (==_refl r.id, update_rows-lacking r.id c rest k) refl
update_rows-one c r (x ∷ done) rest h k = ground (arith, update_rows-one c r done rest)

-- A row moves from the rest to what is done.
moved_over : (done rest : List Invoice) (r : Invoice) → done ++ r ∷ rest ≡ (done ++ r ∷ []) ++ rest
moved_over [] rest r = refl
moved_over (x ∷ done) rest r = ap (λ (xs : List Invoice). x ∷ xs) (moved_over done rest r)

others : (i : ℕ) (rest : List Invoice) → Lacks id_of i rest → Every (λ r. i ≢ r.id) rest
others i [] h = tt
others i (r ∷ rest) h = (λ e. h.0 (sym e), others i rest h.1)

abbrev Apart : List Invoice → List Invoice → Type 0
Apart done rest = Every (λ r. Lacks id_of r.id done) rest

Apart-snoc :
    (done rest : List Invoice) (c : Invoice)
    → Apart done rest
    → Lacks id_of c.id rest
    → Apart (done ++ c ∷ []) rest
Apart-snoc done rest c apart alone =
    Every-both _ _ _ rest (λ r h other. Lacks-snoc id_of r.id done c h other) apart
      (others c.id rest alone)

Status-cases :
    (s : InvoiceStatus) → (s ≡ paid) ⊎ ((s ≡ cancel) ⊎ ((s ≡ not_final) ⊎ (s ≡ not_paid)))
Status-cases paid = inl refl
Status-cases cancel = inr (inl refl)
Status-cases not_final = inr (inr (inl refl))
Status-cases not_paid = inr (inr (inr refl))

less_both : (a x s : ℤ) → a -ℤ x -ℤ s ≡ a -ℤ (x +ℤ s)
less_both a x s = omega int_laws

less_none : (a : ℤ) → a ≡ a -ℤ pos 0
less_none a = omega int_laws

plus_none : (a s : ℤ) → a -ℤ s ≡ a -ℤ (pos 0 +ℤ s)
plus_none a s = omega int_laws

settled-paid : (r : Invoice) → r.status ≡ paid → settled r ≡ r
settled-paid r h = rw h refl

settled-cancel : (r : Invoice) → r.status ≡ cancel → settled r ≡ r
settled-cancel r h = rw h refl

settled-not_final : (r : Invoice) → r.status ≡ not_final → settled r ≡ cancelled r
settled-not_final r h = rw h refl

settled-not_paid : (r : Invoice) → r.status ≡ not_paid → settled r ≡ cancelled r
settled-not_paid r h = rw h refl

-- One turn of the loop on an invoice of the pair, by its status.
module _ (pay : ReadjustAmountPayload) (i : Invoice) (is : List Invoice) (amount : Amount) (e : Db)
    (from_fits : (i.from_team_id == pay.from_id) ≡ true)
    (to_fits : (i.to_team_id == pay.to_id) ≡ true) where
  turn_paid :
      i.status ≡ paid
      → sweep pay (i ∷ is) amount (calm e) ≡ under i (sweep pay is (amount -ℤ i.amount) (calm e))
  unfolding sweep
  turn_paid h = rw (from_fits, to_fits, h) refl

  turn_cancel :
      i.status ≡ cancel
      → sweep pay (i ∷ is) amount (calm e) ≡ under i (sweep pay is amount (calm e))
  unfolding sweep
  turn_cancel h = rw (from_fits, to_fits, h) refl

  abbrev TurnOpen : Type 0
  TurnOpen =
      sweep pay (i ∷ is) amount (calm e)
      ≡ under (cancelled i) (sweep pay is amount (calm (save_invoice (cancelled i) e)))

  turn_not_final : i.status ≡ not_final → TurnOpen
  unfolding sweep execute statement
  turn_not_final h = rw (from_fits, to_fits, h) refl

  turn_not_paid : i.status ≡ not_paid → TurnOpen
  unfolding sweep execute statement
  turn_not_paid h = rw (from_fits, to_fits, h) refl

abbrev pub IsBetween : ReadjustAmountPayload → Invoice → Type 0
IsBetween pay i = (i.from_team_id ≡ pay.from_id) × (i.to_team_id ≡ pay.to_id)

abbrev pub settle_if : (Invoice → Bool) → Invoice → Invoice
settle_if q r = if q r then settled r else r

module _ (pay : ReadjustAmountPayload) (q : Invoice → Bool) (d : Db) (next : ℕ) where
  abbrev pub IsSwept : List Invoice → List Invoice → Amount → Type 0
  IsSwept done rest amount =
      sweep pay (filter_rows q rest) amount (calm (with_invoices (done ++ rest) d)) ≡ (
        (map settled (filter_rows q rest), ok (amount -ℤ paid_total (filter_rows q rest))),
        calm (with_invoices (done ++ map (settle_if q) rest) d),
      )

  pub sweep-IsSwept :
      (rest done : List Invoice) (amount : Amount)
      → Every (λ r. q r ≡ true → IsBetween pay r) rest
      → Apart done rest
      → WellNumbered id_of next rest
      → IsSwept done rest amount
  unfolding sweep filter_rows sum_where execute statement
  sweep-IsSwept [] done amount between apart unique = rw⁻¹ (less_none amount) refl
  sweep-IsSwept (r ∷ rest) done amount between apart unique = elim (Bool-cases (q r)) [
    | inl t ↦
        let (same_from, same_to) = between.0 t in
        let from_fits : (r.from_team_id == pay.from_id) ≡ true =
          (==_iff r.from_team_id pay.from_id).1 same_from in
        let to_fits : (r.to_team_id == pay.to_id) ≡ true =
          (==_iff r.to_team_id pay.to_id).1 same_to in
        let left : (c : Invoice) → c.id ≡ r.id → (x : Amount) → IsSwept (done ++ c ∷ []) rest x =
          λ c same x.
            sweep-IsSwept rest (done ++ c ∷ []) x between.1
              (Apart-snoc done rest c apart.1
                (subst (λ (i : ℕ). Lacks id_of i rest) (sym same) unique.1))
              unique.2 in
        let now_at : List Invoice → Db = λ rows. with_invoices (done ++ rows) d in
        elim (Status-cases r.status) [
          | inl is_p ↦
              rw
                (
                  t,
                  turn_paid pay r (filter_rows q rest) amount (now_at (r ∷ rest)) from_fits to_fits
                      is_p,
                  settled-paid r is_p,
                  ap is_paid is_p,
                  moved_over done rest r,
                  moved_over done (map (settle_if q) rest) r,
                  left r refl (amount -ℤ r.amount),
                  less_both amount r.amount (paid_total (filter_rows q rest)),
                )
                refl
          | inr (inl is_p) ↦
              rw
                (
                  t,
                  turn_cancel pay r (filter_rows q rest) amount (now_at (r ∷ rest)) from_fits
                      to_fits is_p,
                  settled-cancel r is_p,
                  ap is_paid is_p,
                  moved_over done rest r,
                  moved_over done (map (settle_if q) rest) r,
                  left r refl amount,
                  plus_none amount (paid_total (filter_rows q rest)),
                )
                refl
          | inr (inr (inl is_p)) ↦
              rw
                (
                  t,
                  turn_not_final pay r (filter_rows q rest) amount (now_at (r ∷ rest)) from_fits
                      to_fits is_p,
                  settled-not_final r is_p,
                  ap is_paid is_p,
                  update_rows-one (cancelled r) r done rest apart.0 unique.1,
                  moved_over done rest (cancelled r),
                  moved_over done (map (settle_if q) rest) (cancelled r),
                  left (cancelled r) refl amount,
                  plus_none amount (paid_total (filter_rows q rest)),
                )
                refl
          | inr (inr (inr is_p)) ↦
              rw
                (
                  t,
                  turn_not_paid pay r (filter_rows q rest) amount (now_at (r ∷ rest)) from_fits
                      to_fits is_p,
                  settled-not_paid r is_p,
                  ap is_paid is_p,
                  update_rows-one (cancelled r) r done rest apart.0 unique.1,
                  moved_over done rest (cancelled r),
                  moved_over done (map (settle_if q) rest) (cancelled r),
                  left (cancelled r) refl amount,
                  plus_none amount (paid_total (filter_rows q rest)),
                )
                refl
        ]
    | inr e ↦
        rw (e, moved_over done rest r, moved_over done (map (settle_if q) rest) r)
          (sweep-IsSwept rest (done ++ r ∷ []) amount between.1
            (Apart-snoc done rest r apart.1 unique.1) unique.2)
  ]
