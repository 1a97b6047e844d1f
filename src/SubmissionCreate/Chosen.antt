-- ===== src/SubmissionCreate/Chosen.antt =====
-- `CreateSubmission`: which invoices a submission claims.
use mathlib.Core.Path.{subst}
use mathlib.Core.List.{append-nil, append_assoc}
use Prim.Native.String.{String}
use invoice_service.Prelude.{
  ℕ, suc, ◌≡◌, ◌∙◌, ◌⊎◌, refl, sym, ap, arith, inl, inr, Bool, true, false, none, leb, List, [],
  ◌∷◌, ◌++◌, map, Bool-cases,
}
use invoice_service.Prelude.Int.{ℤ, pos, ◌+ℤ◌, ltb_ℤ, eqb_ℤ, eq_of_parts}
use invoice_service.Prelude.Rows.{sum_where, sum_where-snoc, filter_rows}
use invoice_service.Prelude.Rows.Ids.{WellNumbered}
use invoice_service.Prelude.Every.{Every, Every-filter_rows}
use invoice_service.Models.Enums.{Time, Amount}
use invoice_service.Models.Shop.{
  Shop, Invoice, InvoiceStatus, not_final, not_paid, paid, cancel, submitted,
}
use invoice_service.TeamPage.{order_by}
use invoice_service.TeamPage.Sorted.{order_by-Every}
use invoice_service.OweLimit.{elem}
use invoice_service.Store.{
  Db, Error, invalid_payment_amount, no_unpaid_invoices, Result, ok, err, Session, calm, query,
  execute, statement,
}
use invoice_service.Submissions.{Agent, with_shop, ids_of_invoices, amount_of_invoices}
use invoice_service.SubmissionCreate.{
  Chosen, choose, choose_by_status, unless_reached, add_invoice, no_invoices, active_in,
  amount_or_all, insert_submission, new_submission, create_submission,
}
use invoice_service.SubmissionCreate.Picked.{
  Picked, picked_here, picked_over, nothing-Picked, Picked-Every,
}
use invoice_service.SubmissionCreate.Claims.{
  IsOnly, WellNumbered-IsOnly, claimed_row, join_row, claim_invoices-calm,
}

-- An unpaid invoice that no open submission claims.
abbrev pub IsFree : List ℕ → Invoice → Type 0
IsFree active i = (i.status ≡ not_paid) × (elem i.id active ≡ false)

-- What the loop has found: its total is that of the invoices, which are free, and not above the amount
-- where there is one.
abbrev pub IsChosen : List ℕ → Amount → Chosen → Type 0
IsChosen active amount (total, chosen) =
    (total ≡ amount_of_invoices chosen)
    × Every (IsFree active) chosen
    × ((no_invoices chosen ≡ true) ⊎ (ltb_ℤ amount total ≡ false))

Every-snoc :
    {A : Type 0} (P : A → Type 0) (xs : List A) (x : A) → Every P xs → P x → Every P (xs ++ x ∷ [])
Every-snoc P [] x e p = (p, tt)
Every-snoc P (y ∷ ys) x e p = (e.0, Every-snoc P ys x e.1 p)

-- What is found is what was found before, and some of the invoices that were left, each once.
abbrev Adds : List Invoice → Chosen → Chosen → Type 0
Adds left acc found = (picked : List Invoice) × (found.1 ≡ acc.1 ++ picked) × Picked picked left

-- A continuation of the loop that keeps to free invoices among those left.
abbrev Keeps : List ℕ → Amount → List Invoice → (Chosen → Result Chosen) → Type 0
Keeps active amount left rest =
    (acc found : Chosen)
    → IsChosen active amount acc
    → rest acc ≡ ok found
    → IsChosen active amount found × Adds left acc found

Adds-nothing : (left : List Invoice) (acc found : Chosen) → acc ≡ found → Adds left acc found
Adds-nothing left acc found e =
    ([], sym (ap (λ (c : Chosen). c.1) e) ∙ sym (append-nil acc.1), nothing-Picked left)

Adds-over :
    (i : Invoice) (left : List Invoice) (acc found : Chosen)
    → Adds left acc found
    → Adds (i ∷ left) acc found
Adds-over i left acc found (picked, same, h) = (picked, same, picked_over h)

Adds-here :
    (i : Invoice) (left : List Invoice) (total : Amount) (acc found : Chosen)
    → Adds left (total, acc.1 ++ i ∷ []) found
    → Adds (i ∷ left) acc found
Adds-here i left total acc found (picked, same, h) =
    (i ∷ picked, same ∙ append_assoc acc.1 (i ∷ []) picked, picked_here h)

ok-injective : {A : Type 0} (a b : A) → ok a ≡ ok b → a ≡ b
ok-injective a b e = cc

not_ok : {A : Type 0} (x : Error) (a : A) → err x ≡ ok a → ⊥
not_ok x a e = cc

module _ (active : List ℕ) (amount : Amount) where
  unless_reached-Keeps :
      (left : List Invoice) (rest : Chosen → Result Chosen)
      → Keeps active amount left rest
      → Keeps active amount left (unless_reached amount rest)
  unless_reached-Keeps left rest keeps acc found h e = elim (Bool-cases (eqb_ℤ acc.0 amount)) [
    | inl t ↦
        let same = ok-injective acc found (rw t at e) in
        (subst (IsChosen active amount) same h, Adds-nothing left acc found same)
    | inr f ↦ keeps acc found h (rw f at e)
  ]

  with_invoice :
      (i : Invoice) (acc : Chosen)
      → IsFree active i
      → IsChosen active amount acc
      → ltb_ℤ amount (acc.0 +ℤ i.amount) ≡ false
      → IsChosen active amount (acc.0 +ℤ i.amount, acc.1 ++ i ∷ [])
  with_invoice i acc free h fits = (
    rw (sum_where-snoc (λ x. true) (λ (x : Invoice). x.amount) acc.1 i, h.0) refl,
    Every-snoc (IsFree active) acc.1 i h.1 free,
    inr fits,
  )

  add_invoice-Keeps :
      (i : Invoice) (left : List Invoice) (rest : Chosen → Result Chosen)
      → IsFree active i
      → Keeps active amount left rest
      → Keeps active amount (i ∷ left) (add_invoice amount i rest)
  add_invoice-Keeps i left rest free keeps acc found h e =
      elim (Bool-cases (ltb_ℤ amount (acc.0 +ℤ i.amount))) [
        | inl t ↦ absurd (not_ok invalid_payment_amount found (rw t at e))
        | inr f ↦
            let (chosen, adds) =
              unless_reached-Keeps left rest keeps (acc.0 +ℤ i.amount, acc.1 ++ i ∷ []) found
                (with_invoice i acc free h f) (rw f at e) in
            (chosen, Adds-here i left (acc.0 +ℤ i.amount) acc found adds)
      ]

  passed_over :
      (i : Invoice) (left : List Invoice) (rest : Chosen → Result Chosen)
      → Keeps active amount left rest
      → Keeps active amount (i ∷ left) rest
  passed_over i left rest keeps acc found h e =
      let (chosen, adds) = keeps acc found h e in (chosen, Adds-over i left acc found adds)

  choose_by_status-Keeps :
      (i : Invoice) (status : InvoiceStatus) (left : List Invoice) (rest : Chosen → Result Chosen)
      → i.status ≡ status
      → Keeps active amount left rest
      → Keeps active amount (i ∷ left) (choose_by_status status active amount i rest)
  choose_by_status-Keeps i not_final left rest same keeps acc found h e = absurd (not_ok _ found e)
  choose_by_status-Keeps i paid left rest same keeps acc found h e = absurd (not_ok _ found e)
  choose_by_status-Keeps i cancel left rest same keeps acc found h e =
      passed_over i left _ (unless_reached-Keeps left rest keeps) acc found h e
  choose_by_status-Keeps i not_paid left rest same keeps acc found h e =
      elim (Bool-cases (elem i.id active)) [
        | inl t ↦ passed_over i left rest keeps acc found h (rw t at e)
        | inr f ↦ add_invoice-Keeps i left rest (same, f) keeps acc found h (rw f at e)
      ]

  choose-Keeps :
      (invoices : List Invoice) → Keeps active amount invoices (choose active amount invoices)
  unfolding choose
  choose-Keeps [] acc found h e =
      let same = ok-injective acc found e in
      (subst (IsChosen active amount) same h, Adds-nothing [] acc found same)
  choose-Keeps (i ∷ is) acc found h e =
      choose_by_status-Keeps i i.status is (choose active amount is) refl (choose-Keeps is) acc
        found h e

nothing-IsChosen : (active : List ℕ) (amount : Amount) → IsChosen active amount (pos 0, [])
unfolding sum_where
nothing-IsChosen active amount = (refl, tt, inl refl)

not_above :
    (active : List ℕ) (amount : Amount) (found : Chosen)
    → IsChosen active amount found
    → no_invoices found.1 ≡ false
    → ltb_ℤ amount found.0 ≡ false
not_above active amount found (total, free, inl empty) some_found = cc
not_above active amount found (total, free, inr fits) some_found = fits

same_of_ltb : (a b : ℤ) → ltb_ℤ a b ≡ false → ltb_ℤ b a ≡ false → a ≡ b
same_of_ltb a b h k = eq_of_parts a b (ground arith)

-- What a submission of the chosen invoices leaves: it is the next row of its table, submitted, with
-- the total of the invoices as its amount; each of them has a submission, and a row of the join table
-- with the new one; the submission is logged; no other row and no other table changes.
abbrev pub submitted_with : Agent → Time → String → List Invoice → Shop → Shop
submitted_with agent now receipt chosen s = record s {
  payment_submissions =
      s.payment_submissions
      ++ record {
        id = s.submission_seq;
        amount = amount_of_invoices chosen;
        created_by_id = agent.user_id;
        status = submitted;
        completed_by_id = none;
        receipt = receipt;
        created_at = now;
      }
        ∷ [];
  submission_seq = suc s.submission_seq;
  invoices = map (claimed_row (ids_of_invoices chosen)) s.invoices;
  invoice_payment_submissions =
      s.invoice_payment_submissions ++ map (join_row s.submission_seq) chosen;
  submission_logs =
      s.submission_logs
      ++ record {
        status = submitted;
        from = agent.agent_type;
        by_user_id = agent.user_id;
        payment_submission_id = s.submission_seq;
        created_at = now;
      }
        ∷ [];
}

module _ (conditions : Invoice → Bool) (agent : Agent) (now : Time) (receipt : String)
    (amount : Amount) (d : Db) where
  abbrev pub listed : List Invoice
  listed = order_by (λ i j. leb i.created j.created) (filter_rows conditions d.shop.invoices)

  abbrev pub claimed : List ℕ
  claimed = active_in d.shop (ids_of_invoices listed)

  abbrev wanted : Amount
  wanted = amount_or_all amount listed

  -- What a submission has done: it claims some of the invoices that the query lists, each once, and at
  -- least one; they are free; and that is all that changes.
  abbrev pub Submits : Db → Type 0
  Submits after =
      (chosen : List Invoice) × (no_invoices chosen ≡ false)
      × Picked chosen listed
      × Every (IsFree claimed) chosen
      × (after ≡ with_shop (submitted_with agent now receipt chosen) d)

  abbrev run : Result (Unit {0}) × Session
  run = create_submission conditions agent now receipt amount (calm d)

  choose-cases :
      (r : Result Chosen) → ((x : Error) × (r ≡ err x)) ⊎ ((found : Chosen) × (r ≡ ok found))
  choose-cases (ok found) = inr (found, refl)
  choose-cases (err x) = inl (x, refl)

  module _ (unique : WellNumbered (λ (i : Invoice). i.id) d.shop.invoice_seq d.shop.invoices) where
    pub listed-IsOnly : Every (IsOnly d.shop.invoices) listed
    listed-IsOnly =
        order_by-Every _ (IsOnly d.shop.invoices) (filter_rows conditions d.shop.invoices) (
          Every-filter_rows (IsOnly d.shop.invoices) conditions d.shop.invoices
            (WellNumbered-IsOnly d.shop.invoice_seq d.shop.invoices unique))

    -- Where no statement fails and the ids of the invoices are unique, CreateSubmission either refuses
    -- and changes no table, or records one submission of some of the invoices that the query lists,
    -- each once: there is one at least, each is unpaid, and no open submission claims it. The new row
    -- is in state submitted, with their total as its amount; each of them is marked as having a
    -- submission and joined with the new one, a log is added, and nothing else changes.
    pub create_submission-claims :
        ((x : Error) × (run ≡ (err x, calm d)))
        ⊎ ((after : Db) × (run ≡ (ok tt, calm after)) × Submits after)
    unfolding create_submission query execute statement
    create_submission-claims = elim (choose-cases (choose claimed wanted listed (pos 0, []))) [
      | inl (x, refused) ↦ inl (x, rw refused refl)
      | inr (found, chosen) ↦ elim (Bool-cases (ltb_ℤ found.0 wanted)) [
        | inl low ↦ inl (invalid_payment_amount, rw (chosen, low) refl)
        | inr enough ↦ elim (Bool-cases (no_invoices found.1)) [
          | inl empty ↦ inl (no_unpaid_invoices, rw (chosen, enough, empty) refl)
          | inr some_found ↦
              let (kept, (picked, all, h)) =
                choose-Keeps claimed wanted listed (pos 0, []) found
                  (nothing-IsChosen claimed wanted) chosen in
              let from_list : Picked found.1 listed =
                subst (λ (c : List Invoice). Picked c listed) (sym all) h in
              let same : wanted ≡ found.0 =
                same_of_ltb wanted found.0 (not_above claimed wanted found kept some_found)
                  enough in
              let ran =
                claim_invoices-calm d.shop.submission_seq found.1
                  (with_shop
                    (insert_submission
                      (new_submission agent now receipt wanted d.shop.submission_seq))
                    d)
                  (Picked-Every (IsOnly d.shop.invoices) from_list listed-IsOnly) in
              inr (
                with_shop (submitted_with agent now receipt found.1) d,
                rw (chosen, enough, some_found, ran, same ∙ kept.0) refl,
                (found.1, some_found, from_list, kept.1, refl),
              )
        ]
      ]
    ]
