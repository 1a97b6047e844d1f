-- ===== src/SubmissionCreate/Claiming.antt =====
-- `CreateSubmission`: a submission of all that is owed goes through.
use mathlib.Core.List.{append-nil, append_assoc}
use Prim.Native.String.{String}
use invoice_service.Prelude.{
  ℕ, ◌≡◌, ◌∙◌, refl, sym, arith, inl, inr, Bool, true, false, List, [], ◌∷◌, ◌++◌, Bool-cases,
}
use invoice_service.Prelude.Int.{
  ℤ, pos, ◌+ℤ◌, ◌≤ℤ◌, ◌<ℤ◌, ltb_ℤ, eqb_ℤ, +ℤ_zero, zero_+ℤ, +ℤ_assoc, eq_of_parts, int_laws,
  +ℤ_parts,
}
use invoice_service.Prelude.Rows.{sum_where}
use invoice_service.Prelude.Rows.Ids.{WellNumbered}
use invoice_service.Prelude.Every.{Every}
use invoice_service.Models.Enums.{Time, Amount}
use invoice_service.Models.Shop.{Invoice, InvoiceStatus, not_paid}
use invoice_service.Store.{Db, Result, ok, calm, query, execute, statement}
use invoice_service.Submissions.{Agent, with_shop, amount_of_invoices}
use invoice_service.SubmissionCreate.{
  Chosen, choose, choose_by_status, unless_reached, no_invoices, insert_submission, new_submission,
  create_submission,
}
use invoice_service.SubmissionCreate.Claims.{claim_invoices-calm}
use invoice_service.OweLimit.{elem}
use invoice_service.SubmissionCreate.Chosen.{IsFree, listed, claimed, listed-IsOnly, submitted_with}

-- A free invoice of a positive amount.
abbrev pub IsOwed : List ℕ → Invoice → Type 0
IsOwed active i = IsFree active i × (pos 0 <ℤ i.amount)

not_below : (a : ℤ) → ltb_ℤ a a ≡ false
not_below a = ground arith

module _ (t a s w : ℤ) (all : w ≡ t +ℤ (a +ℤ s)) where
  fits : pos 0 ≤ℤ s → ltb_ℤ w (t +ℤ a) ≡ false
  fits h = rw all (ground (arith, +ℤ_parts t (a +ℤ s), +ℤ_parts a s, +ℤ_parts t a))

  rest_is_zero : eqb_ℤ (t +ℤ a) w ≡ true → s ≡ pos 0
  rest_is_zero h =
      eq_of_parts s (pos 0) (ground (arith, +ℤ_parts t (a +ℤ s), +ℤ_parts a s, +ℤ_parts t a))

  same_total : eqb_ℤ (t +ℤ a) w ≡ true → t +ℤ a ≡ w
  same_total h =
      eq_of_parts (t +ℤ a) w (ground (arith, +ℤ_parts t (a +ℤ s), +ℤ_parts a s, +ℤ_parts t a))

positive_sum : (a s : ℤ) → pos 0 <ℤ a → pos 0 ≤ℤ s → pos 0 <ℤ (a +ℤ s)
positive_sum a s h k = omega int_laws

owed_total :
    (active : List ℕ) (is : List Invoice)
    → Every (IsOwed active) is
    → pos 0 ≤ℤ amount_of_invoices is
unfolding sum_where
owed_total active [] e = omega arith
owed_total active (i ∷ is) e =
    omega (arith, positive_sum i.amount (amount_of_invoices is) e.0.1 (owed_total active is e.1))

nothing_left :
    (active : List ℕ) (is : List Invoice)
    → Every (IsOwed active) is
    → amount_of_invoices is ≡ pos 0
    → is ≡ []
unfolding sum_where
nothing_left active [] e z = refl
nothing_left active (i ∷ is) e z =
    let more : pos 0 <ℤ amount_of_invoices (i ∷ is) =
      positive_sum i.amount (amount_of_invoices is) e.0.1 (owed_total active is e.1) in
    absurd (omega (arith, rw z at more))

claimed_next :
    (active : List ℕ) (wanted total : Amount) (done : List Invoice) (i : Invoice)
    (rest : Chosen → Result Chosen) (status : InvoiceStatus)
    → status ≡ not_paid
    → elem i.id active ≡ false
    → ltb_ℤ wanted (total +ℤ i.amount) ≡ false
    → choose_by_status status active wanted i rest (total, done)
      ≡ unless_reached wanted rest (total +ℤ i.amount, done ++ i ∷ [])
claimed_next active wanted total done i rest status unpaid free below =
    rw (unpaid, free, below) refl

choose-all :
    (active : List ℕ) (is done : List Invoice) (total wanted : Amount)
    → Every (IsOwed active) is
    → wanted ≡ total +ℤ amount_of_invoices is
    → choose active wanted is (total, done) ≡ ok (wanted, done ++ is)
unfolding choose sum_where
choose-all active [] done total wanted e all = rw (all, +ℤ_zero, append-nil done) refl
choose-all active (i ∷ is) done total wanted e all =
    let left = amount_of_invoices is in
    let below = fits total i.amount left wanted all (owed_total active is e.1) in
    let moved : done ++ i ∷ is ≡ (done ++ i ∷ []) ++ is = sym (append_assoc done (i ∷ []) is) in
    claimed_next active wanted total done i (choose active wanted is) i.status e.0.0.0 e.0.0.1 below
    ∙ elim (Bool-cases (eqb_ℤ (total +ℤ i.amount) wanted)) [
      | inl t ↦
          rw
            (
              t,
              nothing_left active is e.1 (rest_is_zero total i.amount left wanted all t),
              same_total total i.amount left wanted all t,
            )
            refl
      | inr f ↦
          rw (f, moved)
            (choose-all active is (done ++ i ∷ []) (total +ℤ i.amount) wanted e.1
              (all ∙ sym (+ℤ_assoc total i.amount left)))
    ]

module _ (conditions : Invoice → Bool) (agent : Agent) (now : Time) (receipt : String)
    (d : Db) where
  abbrev pub all_listed : List Invoice
  all_listed = listed conditions agent now receipt (pos 0) d

  module _ (unique : WellNumbered (λ (i : Invoice). i.id) d.shop.invoice_seq d.shop.invoices)
      (some_listed : no_invoices all_listed ≡ false)
      (owed : Every (IsOwed (claimed conditions agent now receipt (pos 0) d)) all_listed) where
    -- Where no statement fails, the ids of the invoices are unique, the query lists an invoice at
    -- least, and each that it lists is unpaid, of a positive amount and claimed by no open
    -- submission, CreateSubmission of the whole amount succeeds and claims all of them.
    pub create_submission_succeeds :
        create_submission conditions agent now receipt (pos 0) (calm d)
        ≡ (ok tt, calm (with_shop (submitted_with agent now receipt all_listed) d))
    unfolding create_submission query execute statement
    create_submission_succeeds =
        let total = amount_of_invoices all_listed in
        rw
          (
            choose-all (claimed conditions agent now receipt (pos 0) d) all_listed [] (pos 0) total
                owed (sym (zero_+ℤ total)),
            not_below total,
            some_listed,
            claim_invoices-calm d.shop.submission_seq all_listed
                (with_shop
                  (insert_submission (new_submission agent now receipt total d.shop.submission_seq))
                  d)
                (listed-IsOnly conditions agent now receipt (pos 0) d unique),
          )
          refl
