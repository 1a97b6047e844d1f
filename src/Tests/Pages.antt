-- ===== src/Tests/Pages.antt =====
-- The theorems of the balance list at concrete tables.
use invoice_service.Prelude.{
  ℕ, ◌≡◌, ◌<◌, ◌+◌, ◌*◌, true, none, some, List, [], ◌∷◌, ◌++◌, map, arith,
}
use invoice_service.Prelude.Int.{pos}
use invoice_service.Prelude.Selects.{Selects}
use invoice_service.Models.Enums.{payable}
use invoice_service.Models.Ledger.{TeamBalance}
use invoice_service.OweLimit.{GoMap}
use invoice_service.Store.{ok, calm}
use invoice_service.TeamPage.{
  page_limit_offset, take_rows, page_of, Collation, TeamBalanceListFilter, proto_unspecified,
  sort_payable, sort_for_team_ids,
}
use invoice_service.TeamPage.Bounds.{page_limit_offset-bounds, pages_tile}
use invoice_service.TeamPage.Sorted.{IsPayableOf, IsSorted, sort_for_team_ids-payable}
use invoice_service.BalanceList.{TotalChangeItem, item_or_new, total_change_data}
use invoice_service.BalanceList.Totals.{change_total, flow_with, total_change_data-agrees}
use invoice_service.Tests.{traded}

-- Page 50 of 10 rows, in 11-bit integers.
page_limit_offset-bounds_example :
    let (l, o) = page_limit_offset 1_024 (some (record { page = pos 50; limit = pos 10 })) in
    (0 < l) × (l < 1_024) × (o < 1_024)
page_limit_offset-bounds_example =
    page_limit_offset-bounds 1_024 (pos 50) (pos 10) (omega arith) (omega arith) (omega arith)

abbrev eight : List ℕ
eight = 1 ∷ 2 ∷ 3 ∷ 4 ∷ 5 ∷ 6 ∷ 7 ∷ 8 ∷ []

pages_tile_example :
    take_rows (2 * 3) eight
      ++ page_of (page_limit_offset 1_024 (some (record { page = pos 3; limit = pos 3 }))) eight
    ≡ take_rows (2 * 3 + 3) eight
pages_tile_example = pages_tile 1_024 2 2 eight (omega arith) (omega arith)

abbrev any_order : Collation
any_order = record { names = λ s t. true; types = λ s t. true }

abbrev of_first : TeamBalanceListFilter
of_first = record { team_id = 1; for_team_id = 0; team_type = proto_unspecified; page = none }

sort_for_team_ids-payable_example :
    (rows : List TeamBalance) × (sort_for_team_ids any_order 1_024 of_first sort_payable true 0
        300_000_000_000_000
        (calm traded)
      ≡ (
        ok (page_of (page_limit_offset 1_024 of_first.page) (map (λ r. r.for_team_id) rows)),
        calm traded,
      ))
    × Selects (IsPayableOf of_first traded) traded.balances rows
    × IsSorted true rows
sort_for_team_ids-payable_example =
    sort_for_team_ids-payable any_order 1_024 of_first true 0 300_000_000_000_000 traded

total_change_data-agrees_example :
    (out : GoMap TotalChangeItem) × (total_change_data 1
        (2 ∷ 3 ∷ [])
        payable
        0
        300_000_000_000_000
        (calm traded)
      ≡ (ok out, calm traded))
    × ((k : ℕ)
        → ((item_or_new (out k)).total
            ≡ flow_with 1 2 (3 ∷ []) payable 0 300_000_000_000_000 traded k)
          × (change_total (item_or_new (out k)).change
              ≡ flow_with 1 2 (3 ∷ []) payable 0 300_000_000_000_000 traded k))
total_change_data-agrees_example =
    total_change_data-agrees 1 2 (3 ∷ []) payable 0 300_000_000_000_000 traded
