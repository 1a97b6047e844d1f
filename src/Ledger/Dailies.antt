-- ===== src/Ledger/Dailies.antt =====
-- Sums over the daily rollup, for any choice of days and accounts: they are sums over the change log.
-- A day and an account have one row at most.
use mathlib.Core.Path.{ap₂}
use invoice_service.Prelude.{
  ◌≡◌, ◌∙◌, refl, sym, inl, inr, Bool, true, Option, none, some, List, [], ◌∷◌, ◌++◌, arith,
  if◌then◌else◌, Bool-cases, Option-cases,
}
use invoice_service.Prelude.Int.{ℤ, pos, ◌+ℤ◌, +ℤ_under, +ℤ_swap}
use invoice_service.Prelude.Rows.{
  find_row, update_rows, sum_where, find_row-fits, sum_where-snoc, find_row-snoc_none,
  find_row-update,
}
use invoice_service.Models.Enums.{Time, Amount}
use invoice_service.Models.Ledger.{TeamBalanceDailyLog, Account, same_account_iff, on_day}
use invoice_service.Store.{Db}
use invoice_service.Ledger.{Entry, start_of_jakarta_day, with_change, new_daily, put_daily}
use invoice_service.Ledger.Posting.{posted}
use invoice_service.Ledger.Leg.{sum-posted, posted-dailies}
use invoice_service.Ledger.Totals.{account_of_log, new_part}

abbrev pub account_of_daily : TeamBalanceDailyLog → Account
account_of_daily r = record { team = r.team_id; for_team = r.for_team_id; kind = r.balance_type }

-- No later row has the day and the account of a row.
abbrev pub OnePerDay : List TeamBalanceDailyLog → Type 0
OnePerDay [] = Unit
OnePerDay (r ∷ rs) = (find_row (on_day r.day (account_of_daily r)) rs ≡ none) × OnePerDay rs

abbrev pub rolled : (Time → Account → Bool) → List TeamBalanceDailyLog → Amount
rolled p = sum_where (λ r. p r.day (account_of_daily r)) (λ r. r.change_amount)

abbrev pub flown_on : (Time → Account → Bool) → Db → Amount
flown_on p d =
    sum_where (λ l. p (start_of_jakarta_day l.created_at) (account_of_log l)) (λ l. l.change_amount)
      d.logs

pub record IsDaily (d : Db) : Type 0 where
  pub once : OnePerDay d.dailies
  pub rolled_up : (p : Time → Account → Bool) → rolled p d.dailies ≡ flown_on p d

update_rows-none :
    {A : Type 0} (u : A → Bool) (g : A → A) (rs : List A)
    → find_row u rs ≡ none
    → update_rows u g rs ≡ rs
unfolding find_row update_rows
update_rows-none u g [] h = refl
update_rows-none u g (r ∷ rs) h = ground (arith, update_rows-none u g rs)

module _ (day : Time) (k : Account) where
  OnePerDay-snoc :
      (rs : List TeamBalanceDailyLog) (x : TeamBalanceDailyLog)
      → on_day day k x ≡ true
      → OnePerDay rs
      → find_row (on_day day k) rs ≡ none
      → OnePerDay (rs ++ x ∷ [])
  unfolding find_row
  OnePerDay-snoc [] x own once missing = (refl, tt)
  OnePerDay-snoc (r ∷ rs) x own once missing = (
    find_row-snoc_none (on_day r.day (account_of_daily r)) rs x once.0 ∙ ground arith,
    OnePerDay-snoc rs x own once.1 (ground arith),
  )

  module _ (g : TeamBalanceDailyLog → TeamBalanceDailyLog)
      (keeps : (t : Time) (j : Account) (x : TeamBalanceDailyLog) → on_day t j (g x) ≡ on_day t j x)
      (keeps_day : (x : TeamBalanceDailyLog) → (g x).day ≡ x.day)
      (keeps_account : (x : TeamBalanceDailyLog)
        → account_of_daily (g x) ≡ account_of_daily x) where
    still_missing :
        (t : Time) (j : Account) (rs : List TeamBalanceDailyLog)
        → find_row (on_day t j) rs ≡ none
        → find_row (on_day t j) (update_rows (on_day day k) g rs) ≡ none
    still_missing t j rs h =
        find_row-update (on_day t j) (on_day day k) g rs (keeps t j) ∙ rw h refl

    OnePerDay-update :
        (rs : List TeamBalanceDailyLog) → OnePerDay rs → OnePerDay (update_rows (on_day day k) g rs)
    unfolding update_rows
    OnePerDay-update [] once = tt
    OnePerDay-update (r ∷ rs) once = elim (Bool-cases (on_day day k r)) [
      | inl t ↦
          rw (t, keeps_day r, keeps_account r)
            (still_missing r.day (account_of_daily r) rs once.0, OnePerDay-update rs once.1)
      | inr f ↦
          rw f (still_missing r.day (account_of_daily r) rs once.0, OnePerDay-update rs once.1)
    ]

    module _ (p : Time → Account → Bool) where
      abbrev part : TeamBalanceDailyLog → ℤ
      part x = if p x.day (account_of_daily x) then x.change_amount else pos 0

      rolled-update :
          (rs : List TeamBalanceDailyLog) (r : TeamBalanceDailyLog)
          → OnePerDay rs
          → find_row (on_day day k) rs ≡ some r
          → rolled p (update_rows (on_day day k) g rs) +ℤ part r ≡ rolled p rs +ℤ part (g r)
      unfolding sum_where update_rows find_row
      rolled-update [] r once e = cc
      rolled-update (x ∷ rs) r once e = elim (Bool-cases (on_day day k x)) [
        | inl t ↦
            let same : x ≡ r = ground arith in
            let alone : find_row (on_day day k) rs ≡ none =
              ap₂ (λ (day' : Time) (k' : Account). find_row (on_day day' k') rs) (ground arith)
                (sym ((same_account_iff (account_of_daily x) k).0 (ground arith)))
              ∙ once.0 in
            rw (t, update_rows-none (on_day day k) g rs alone, same) (+ℤ_swap _ _ _)
        | inr f ↦
            rw f (
              +ℤ_under (part x) _ (part r) _ (part (g r))
                (rolled-update rs r once.1 (ground arith)))
      ]

module _ (day : Time) (k : Account) (prev new_bal delta : Amount) (now : Time) (d : Db)
    (once : OnePerDay d.dailies) where
  abbrev put : Option TeamBalanceDailyLog → Db
  put found = put_daily found day k prev new_bal delta now d

  abbrev changed : TeamBalanceDailyLog → TeamBalanceDailyLog → TeamBalanceDailyLog
  changed r = with_change (r.change_amount +ℤ delta) new_bal now

  put_daily-OnePerDay : OnePerDay (put (find_row (on_day day k) d.dailies)).dailies
  put_daily-OnePerDay = elim (Option-cases (find_row (on_day day k) d.dailies)) [
    | inl missing ↦ rw missing (
        OnePerDay-snoc day k d.dailies (new_daily day k prev new_bal delta now) (ground arith) once
          missing)
    | inr (r, found) ↦
        rw found (
          OnePerDay-update day k (changed r) (λ t j x. refl) (λ x. refl) (λ x. refl) d.dailies once)
  ]

  module _ (p : Time → Account → Bool) where
    found_part :
        (r : TeamBalanceDailyLog) → on_day day k r ≡ true → p r.day (account_of_daily r) ≡ p day k
    found_part r fits =
        ap₂ p (ground arith) ((same_account_iff (account_of_daily r) k).0 (ground arith))

    put_daily-rolled :
        rolled p (put (find_row (on_day day k) d.dailies)).dailies
        ≡ rolled p d.dailies +ℤ (if p day k then delta else pos 0)
    put_daily-rolled = elim (Option-cases (find_row (on_day day k) d.dailies)) [
      | inl missing ↦ rw missing (
          sum_where-snoc (λ r. p r.day (account_of_daily r)) (λ r. r.change_amount) d.dailies
            (new_daily day k prev new_bal delta now))
      | inr (r, found) ↦ rw found (
          new_part (p day k) _ (rolled p d.dailies) r.change_amount delta (
            rw (found_part r (find_row-fits (on_day day k) d.dailies r found)) at (
              rolled-update day k (changed r) (λ t j x. refl) (λ x. refl) (λ x. refl) p d.dailies r
                once found)))
    ]

pub posted-IsDaily :
    (k : Account) (delta : Amount) (e : Entry) (d : Db) → IsDaily d → IsDaily (posted k delta e d)
posted-IsDaily k delta e d h = record {
  once = rw (posted-dailies k delta e d) (put_daily-OnePerDay _ _ _ _ _ _ d h.once);
  rolled_up = λ p.
      rw
        (
          posted-dailies k delta e d,
          put_daily-rolled (start_of_jakarta_day e.now) k _ _ delta e.now d h.once p,
          h.rolled_up p,
        )
        (sym
          (sum-posted k delta e d (λ l. p (start_of_jakarta_day l.created_at) (account_of_log l))));
}
