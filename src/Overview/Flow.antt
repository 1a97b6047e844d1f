-- ===== src/Overview/Flow.antt =====
-- `totalChangeOverview`: the breakdown by change type and its total.
use invoice_service.Prelude.{◌≡◌, ◌∙◌, sym, true, Option, List, [], ◌∷◌, map, ◌&&◌}
use invoice_service.Prelude.Int.{pos, ◌+ℤ◌, zero_+ℤ, +ℤ_zero, +ℤ_assoc}
use invoice_service.Prelude.Rows.{sum_where, filter_rows}
use invoice_service.Prelude.Every.{Every}
use invoice_service.Prelude.Groups.{keys_of, keys_of-IsCounted, sum_groups}
use invoice_service.Models.Enums.{Time, Amount, BalanceType, same_change, same_change_iff}
use invoice_service.Models.Ledger.{BalanceChangeLog}
use invoice_service.Store.{Db}
use invoice_service.Overview.{Scope, ChangeSumAmount, log_in, change_sum, change_sums, add_up}

-- The flow of a window: the changes logged in it.
abbrev pub flow : Option Scope → BalanceType → Time → Time → Db → Amount
flow f bt start end d = sum_where (log_in f bt start end) (λ l. l.change_amount) d.logs

add_up-map :
    {A : Type 0} (g : A → ChangeSumAmount) (total : Amount) (xs : List A)
    → add_up total (map g xs) ≡ total +ℤ sum_where (λ x. true) (λ x. (g x).amount) xs
unfolding add_up sum_where
add_up-map g total [] = sym (+ℤ_zero total)
add_up-map g total (x ∷ xs) = add_up-map g (total +ℤ (g x).amount) xs ∙ +ℤ_assoc _ _ _

-- The total of the breakdown of some logs is the sum of their changes.
pub add_up-change_sums :
    (logs : List BalanceChangeLog)
    → add_up (pos 0) (change_sums logs) ≡ sum_where (λ l. true) (λ l. l.change_amount) logs
unfolding change_sums
add_up-change_sums logs =
    add_up-map (change_sum logs) (pos 0) (keys_of same_change (λ l. l.change_type) logs)
    ∙ zero_+ℤ _
    ∙ sum_groups same_change (λ l. l.change_type) (λ t. true) (λ l. l.change_amount)
        (keys_of same_change (λ l. l.change_type) logs) logs
        (keys_of-IsCounted same_change same_change_iff (λ l. l.change_type) logs)

module _ (f : Option Scope) (bt : BalanceType) (start end : Time) (d : Db) where
  abbrev pub sums : List ChangeSumAmount
  sums = change_sums (filter_rows (log_in f bt start end) d.logs)

  -- An entry of the breakdown is the flow of its change type.
  abbrev pub IsPart : ChangeSumAmount → Type 0
  IsPart c =
      c.amount
      ≡ sum_where (λ l. log_in f bt start end l && same_change l.change_type c.change_type)
          (λ l. l.change_amount) d.logs

  abbrev pub IsBreakdown : Amount × List ChangeSumAmount → Type 0
  IsBreakdown result = (result.0 ≡ flow f bt start end d) × Every IsPart result.1
