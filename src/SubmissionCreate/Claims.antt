-- ===== src/SubmissionCreate/Claims.antt =====
-- `CreateSubmission`: what the writes of the claimed invoices leave in the tables.
use mathlib.Core.List.{append-nil, append_assoc}
use invoice_service.Prelude.{
  ℕ, ◌≡◌, ◌∙◌, sym, refl, ap, arith, inl, inr, Bool, true, false, List, [], ◌∷◌, ◌++◌, map, ◌==◌,
  ◌||◌, if◌then◌else◌, Bool-cases, ==_iff,
}
use invoice_service.Prelude.Rows.{update_rows}
use invoice_service.Prelude.Rows.Ids.{Lacks, WellNumbered}
use invoice_service.Prelude.Every.{Every, Every-both}
use invoice_service.Models.Shop.{Invoice, SubmissionInvoice}
use invoice_service.OweLimit.{elem}
use invoice_service.Store.{Db, ok, calm, execute, statement}
use invoice_service.Submissions.{with_shop, ids_of_invoices}
use invoice_service.SubmissionCreate.{claim_invoice, claim_invoices}

-- The rows whose ids are among some have a submission afterwards; no other row changes.
abbrev pub claimed_row : List ℕ → Invoice → Invoice
claimed_row ids r = if elem r.id ids then record r { has_submission = true } else r

abbrev pub join_row : ℕ → Invoice → SubmissionInvoice
join_row submission i = record { payment_submission_id = submission; invoice_id = i.id }

-- A row of the id of `i` is `i`.
abbrev pub IsOnly : List Invoice → Invoice → Type 0
IsOnly rows i = Every (λ r. r.id ≡ i.id → r ≡ i) rows

lacking-IsOnly :
    (i : Invoice) (rows : List Invoice)
    → Lacks (λ (r : Invoice). r.id) i.id rows
    → Every (λ r. r.id ≡ i.id → r ≡ i) rows
lacking-IsOnly i [] h = tt
lacking-IsOnly i (r ∷ rows) h = (λ e. absurd (h.0 e), lacking-IsOnly i rows h.1)

apart :
    (x : Invoice) (rows : List Invoice)
    → Lacks (λ (r : Invoice). r.id) x.id rows
    → Every (λ i. x.id ≡ i.id → x ≡ i) rows
apart x [] h = tt
apart x (r ∷ rows) h = (λ e. absurd (h.0 (sym e)), apart x rows h.1)

-- Rows of distinct ids are each the only one of their id.
pub WellNumbered-IsOnly :
    (next : ℕ) (rows : List Invoice)
    → WellNumbered (λ (r : Invoice). r.id) next rows
    → Every (IsOnly rows) rows
WellNumbered-IsOnly next [] h = tt
WellNumbered-IsOnly next (x ∷ rows) h = (
  ((λ e. refl), lacking-IsOnly x rows h.1),
  Every-both _ _ (IsOnly (x ∷ rows)) rows (λ i head rest. (head, rest)) (apart x rows h.1)
      (WellNumbered-IsOnly next rows h.2),
)

-- A row in the middle of the claims: it has a submission where its id is among those claimed.
abbrev marked : (ℕ → Bool) → Invoice → Invoice
marked p r = if p r.id then record r { has_submission = true } else r

marked-id : (p : ℕ → Bool) (r : Invoice) → (marked p r).id ≡ r.id
marked-id p r = elim (Bool-cases (p r.id)) [ inl t ↦ rw t refl | inr f ↦ rw f refl ]

marked-next :
    (p : ℕ → Bool) (i r : Invoice)
    → (r.id ≡ i.id → r ≡ i)
    → (if (marked p r).id == i.id then record i { has_submission = true } else marked p r)
      ≡ marked (λ n. n == i.id || p n) r
marked-next p i r only = elim (Bool-cases (r.id == i.id)) [
  | inl t ↦
      rw (marked-id p r, t)
        (ap (λ (x : Invoice). record x { has_submission = true })
          (sym (only ((==_iff r.id i.id).0 t))))
  | inr f ↦ rw (marked-id p r, f) refl
]

update_rows-marked :
    (p : ℕ → Bool) (i : Invoice) (rows : List Invoice)
    → IsOnly rows i
    → update_rows
        (λ r. r.id == i.id)
        (λ r. record i { has_submission = true })
        (map (marked p) rows)
      ≡ map (marked (λ n. n == i.id || p n)) rows
unfolding update_rows
update_rows-marked p i [] only = refl
update_rows-marked p i (r ∷ rows) only =
    rw (marked-next p i r only.0, update_rows-marked p i rows only.1) refl

marked-ext :
    (p q : ℕ → Bool) (rows : List Invoice)
    → ((n : ℕ) → p n ≡ q n)
    → map (marked p) rows ≡ map (marked q) rows
marked-ext p q [] same = refl
marked-ext p q (r ∷ rows) same = rw (same r.id, marked-ext p q rows same) refl

marked-none : (rows : List Invoice) → rows ≡ map (marked (λ n. false)) rows
marked-none [] = refl
marked-none (r ∷ rows) = ap (λ (rs : List Invoice). r ∷ rs) (marked-none rows)

abbrev pub with_claims : List Invoice → List SubmissionInvoice → Db → Db
with_claims rows joins d =
    with_shop (λ s. record s { invoices = rows; invoice_payment_submissions = joins }) d

later :
    (i : ℕ) (p : ℕ → Bool) (ids : List ℕ) (n : ℕ)
    → (elem n ids || (n == i || p n)) ≡ (elem n (i ∷ ids) || p n)
later i p ids n = ground arith

module _ (id : ℕ) (base : List Invoice) where
  claim_invoices-from :
      (chosen : List Invoice) (p : ℕ → Bool) (e : Db)
      → Every (IsOnly base) chosen
      → e.shop.invoices ≡ map (marked p) base
      → claim_invoices id chosen (calm e) ≡ (
        ok tt,
        calm (
            with_claims
              (map (marked (λ n. elem n (ids_of_invoices chosen) || p n)) base)
              (e.shop.invoice_payment_submissions ++ map (join_row id) chosen)
              e),
      )
  unfolding claim_invoices execute statement
  claim_invoices-from [] p e only rows =
      rw (append-nil e.shop.invoice_payment_submissions, sym rows) refl
  claim_invoices-from (i ∷ is) p e only rows =
      claim_invoices-from is (λ n. n == i.id || p n) (with_shop (claim_invoice id i) e) only.1
        (ap
            (λ (rs : List Invoice).
              update_rows (λ r. r.id == i.id) (λ r. record i { has_submission = true }) rs)
            rows
          ∙ update_rows-marked p i base only.0)
      ∙ rw
          (
            marked-ext _ _ base (later i.id p (ids_of_invoices is)),
            append_assoc e.shop.invoice_payment_submissions (join_row id i ∷ [])
                (map (join_row id) is),
          )
          refl

or_false : (b : Bool) → (b || false) ≡ b
or_false true = refl
or_false false = refl

-- The rows of the invoices that are claimed have a submission, no other row changes, and a row of
-- the join table is added for each.
pub claim_invoices-calm :
    (id : ℕ) (chosen : List Invoice) (e : Db)
    → Every (IsOnly e.shop.invoices) chosen
    → claim_invoices id chosen (calm e) ≡ (
      ok tt,
      calm (
          with_claims
            (map (claimed_row (ids_of_invoices chosen)) e.shop.invoices)
            (e.shop.invoice_payment_submissions ++ map (join_row id) chosen)
            e),
    )
claim_invoices-calm id chosen e only =
    claim_invoices-from id e.shop.invoices chosen (λ n. false) e only (marked-none e.shop.invoices)
    ∙ rw
        (marked-ext (λ n. elem n (ids_of_invoices chosen) || false)
          (λ n. elem n (ids_of_invoices chosen)) e.shop.invoices
          (λ n. or_false (elem n (ids_of_invoices chosen))))
        refl
