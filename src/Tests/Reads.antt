-- ===== src/Tests/Reads.antt =====
-- The theorems of the overview, the timeline and the reconciliation at concrete tables.
use invoice_service.Prelude.{◌+◌, ℕ, ◌≡◌, ◌≢◌, refl, true, none, some, List, [], ◌∷◌, arith, map}
use invoice_service.Prelude.Int.{neg}
use invoice_service.Prelude.Every.{Every}
use invoice_service.Models.Enums.{Time, Amount, payable, receivable}
use invoice_service.Store.{
  Db, ok, err, calm, time_range_required, team_id_required, data_types_required,
  granularity_required,
}
use invoice_service.Ledger.Accounts.{balance_of}
use invoice_service.Ledger.DoubleEntry.{account, IsLedger}
use invoice_service.OweLimit.{GoMap}
use invoice_service.Reconcile.{reconcile_team_payable, groups, names}
use invoice_service.Reconcile.Convergence.{IsNegligible, gap, reconcile_converges}
use invoice_service.Overview.{
  Scope, OverviewRequest, OverviewDataItem, metric_unspecified, metric_payable, metric_receivable,
  metric_total_payable, payable_item, receivable_item, abs, overview,
}
use invoice_service.Overview.Reports.{
  ever_flown, overview-balances, pair_request, overview-mirrored, item_metric, overview-answers,
  overview-refuses, HasWindow,
}
use invoice_service.TimelineRows.{DateUnit, day}
use invoice_service.Timeline.{
  daily, TimelineRequest, timeline_common, payable_balance_data, receivable_balance_data,
  granularity_unspecified, granularity_unit, team_balance_timeline,
}
use invoice_service.Timeline.Running.{IsAscending}
use invoice_service.Timeline.Answers.{
  balances_request, logged_upto, timeline-reports, HasTeam, timeline-refuses, RefusedWith,
}
use invoice_service.Tests.{traded, traded-IsLedger, owing, owing-IsLedger}

one_not_zero : ◌≢◌ {A = ℕ} 1 0
one_not_zero e = omega arith

two_not_zero : ◌≢◌ {A = ℕ} 2 0
two_not_zero e = omega arith

one_not_two : ◌≢◌ {A = ℕ} 2 1
one_not_two e = omega arith

fine_creditors : Every (λ c. (c ≢ 0) × (c ≢ 1)) (groups 1 owing.shop.invoices)
unfolding groups
fine_creditors = ((two_not_zero, one_not_two), tt)

reconcile_converges_example :
    (count : ℕ) × (d' : Db) × (reconcile_team_payable
        (some 9)
        (λ n. 300_000_000_000_000 + n)
        1
        (calm owing)
      ≡ (ok count, calm d'))
    × IsLedger d'
    × ((c : ℕ) → names c (groups 1 owing.shop.invoices) ≡ true → IsNegligible (gap 1 c d'))
    × (reconcile_team_payable (some 9) (λ n. 400_000_000_000_000 + n) 1 (calm d') ≡ (ok 0, calm d'))
reconcile_converges_example =
    reconcile_converges 9 (λ n. 300_000_000_000_000 + n) (λ n. 400_000_000_000_000 + n) 1 owing
      owing-IsLedger one_not_zero fine_creditors

overview-balances_example :
    overview
      (record {
        filter = none;
        time_range = none;
        metric_type = metric_payable ∷ metric_receivable ∷ [];
      })
      (calm traded)
    ≡ (
      ok (
          payable_item (abs (ever_flown none payable traded))
          ∷ receivable_item (ever_flown none receivable traded)
          ∷ []),
      calm traded,
    )
overview-balances_example = overview-balances none none traded traded-IsLedger

overview-mirrored_example :
    (overview (pair_request 1 2 metric_payable) (calm traded) ≡ (
      ok (payable_item (abs (balance_of (account 1 2 payable) traded.balances)) ∷ []),
      calm traded,
    ))
    × (overview (pair_request 2 1 metric_receivable) (calm traded) ≡ (
      ok (receivable_item (neg (balance_of (account 1 2 payable) traded.balances)) ∷ []),
      calm traded,
    ))
overview-mirrored_example = overview-mirrored traded traded-IsLedger 1 2 one_not_zero two_not_zero

abbrev windowed : OverviewRequest
windowed = record {
  filter = none;
  time_range = some (some 0, some 300_000_000_000_000);
  metric_type = metric_payable ∷ metric_total_payable ∷ [];
}

overview-answers_example :
    (items : List OverviewDataItem) × (overview windowed (calm traded) ≡ (ok items, calm traded))
    × (map item_metric items ≡ windowed.metric_type)
overview-answers_example = overview-answers windowed traded (tt, (tt, tt))

overview-refuses_example :
    overview
      (record {
        filter = none;
        time_range = none;
        metric_type = metric_payable ∷ metric_total_payable ∷ metric_unspecified ∷ [];
      })
      (calm traded)
    ≡ (err time_range_required, calm traded)
overview-refuses_example =
    overview-refuses
      (record {
        filter = none;
        time_range = none;
        metric_type = metric_payable ∷ metric_total_payable ∷ metric_unspecified ∷ [];
      })
      traded (metric_payable ∷ []) (metric_unspecified ∷ []) metric_total_payable refl (tt, tt)
      (λ h. h)

-- A truncation that leaves instants as they are.
abbrev exact : DateUnit → Time → Time
exact unit t = t

abbrev first_team : Scope
first_team = record { team_id = 1; for_team_id = 0 }

daily_known : granularity_unit daily ≡ ok day
unfolding granularity_unit
daily_known = refl

timeline-reports_example :
    (p r : GoMap Amount) × (ids : List ℕ) × (team_balance_timeline exact
        (balances_request exact day daily first_team 100_000_000_000_000 300_000_000_000_000 traded)
        (calm traded)
      ≡ (
        ok (record { series = payable_balance_data p ∷ receivable_balance_data r ∷ []; ids = ids }),
        calm traded,
      ))
    × IsAscending ids
    × Every
        (λ k.
          (p k
            ≡ some (
                logged_upto exact day daily first_team 100_000_000_000_000 300_000_000_000_000
                  traded payable k))
          × (r k
              ≡ some (
                  logged_upto exact day daily first_team 100_000_000_000_000 300_000_000_000_000
                    traded receivable k)))
        ids
timeline-reports_example =
    timeline-reports exact day daily first_team 100_000_000_000_000 300_000_000_000_000 traded
      one_not_zero daily_known (omega arith) traded-IsLedger.daily

abbrev nameless : TimelineRequest
nameless = record {
  filter = some (record { team_id = 0; for_team_id = 2 });
  time_range = none;
  granularity = daily;
  data_types = timeline_common ∷ [];
  sort_desc = true;
}

timeline-refuses_example :
    (¬ HasTeam nameless.filter → RefusedWith exact nameless traded team_id_required)
    × (HasTeam nameless.filter
        → ¬ HasWindow nameless.time_range
        → RefusedWith exact nameless traded time_range_required)
    × (HasTeam nameless.filter
        → HasWindow nameless.time_range
        → nameless.data_types ≡ []
        → RefusedWith exact nameless traded data_types_required)
    × (HasTeam nameless.filter
        → HasWindow nameless.time_range
        → nameless.data_types ≢ []
        → nameless.granularity ≡ granularity_unspecified
        → RefusedWith exact nameless traded granularity_required)
timeline-refuses_example = timeline-refuses exact nameless traded
