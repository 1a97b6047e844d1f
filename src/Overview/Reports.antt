-- ===== src/Overview/Reports.antt =====
-- `Overview`: what the metrics report of the ledger, and which requests are refused.
use invoice_service.Prelude.{
  ℕ, ◌≡◌, ◌≢◌, ◌∙◌, refl, ap, arith, Bool, Option, none, some, List, [], ◌∷◌, ◌++◌, map, ◌&&◌,
}
use invoice_service.Prelude.Int.{ℤ, pos, ◌+ℤ◌, neg, int_laws, zero_+ℤ}
use invoice_service.Prelude.Rows.{sum_where}
use invoice_service.Prelude.Every.{Every}
use invoice_service.Prelude.Groups.{sum_where-cong}
use invoice_service.Models.Enums.{Time, Amount, BalanceType, payable, receivable, same_type}
use invoice_service.Models.Ledger.{Account, same_account}
use invoice_service.Store.{
  Db, Error, invalid_type, time_range_required, ok, err, calm, query, statement,
}
use invoice_service.Overview.Flow.{sums}
use invoice_service.Ledger.Accounts.{balance_of}
use invoice_service.Ledger.Totals.{account_of_log, flown}
use invoice_service.Ledger.DoubleEntry.{account, IsLedger}
use invoice_service.Overview.{
  OverviewMetricType, metric_unspecified, metric_payable, metric_receivable, metric_pending_payment,
  metric_incoming_payment, metric_total_payment, metric_total_payable, metric_total_receivable,
  Scope, OverviewRequest, OverviewDataItem, payable_item, receivable_item, pending_item,
  incoming_item, total_payment_item, total_payable_item, total_receivable_item, in_scope, abs,
  payment_in, add_up, time_window, total_change_overview, overview_item, overview_items, overview,
}

abbrev in_view : Option Scope → BalanceType → Account → Bool
in_view f bt k = same_type k.kind bt && in_scope f k.team k.for_team

-- The changes ever logged in a scope, on one side.
abbrev pub ever_flown : Option Scope → BalanceType → Db → Amount
ever_flown f bt d = flown (in_view f bt) d

module _ (f : Option Scope) (range : Option (Option Time × Option Time)) (d : Db)
    (ledger : IsLedger d) where
  -- On a ledger that keeps its invariant, with no failing statement, the PAYABLE and RECEIVABLE metrics
  -- report the sums of all changes ever logged in the scope on that side: the payable one as a
  -- magnitude, the receivable one as it is.
  pub overview-balances :
      overview
        (record {
          filter = f;
          time_range = range;
          metric_type = metric_payable ∷ metric_receivable ∷ [];
        })
        (calm d)
      ≡ (
        ok (
            payable_item (abs (ever_flown f payable d))
            ∷ receivable_item (ever_flown f receivable d)
            ∷ []),
        calm d,
      )
  unfolding overview overview_items overview_item query statement
  overview-balances =
      rw (ledger.totalled (in_view f payable), ledger.totalled (in_view f receivable)) refl

pair_view :
    (a b : ℕ) (bt : BalanceType)
    → a ≢ 0
    → b ≢ 0
    → (k : Account)
    → in_view (some (record { team_id = a; for_team_id = b })) bt k
      ≡ same_account k (account a b bt)
pair_view a b bt pa pb k = ground arith

behind : (x y : ℤ) → y ≡ x +ℤ y +ℤ neg x
behind x y = omega int_laws

neg_of_zero_sum : (x y : ℤ) → x +ℤ y ≡ pos 0 → y ≡ neg x
neg_of_zero_sum x y e = behind x y ∙ rw e (zero_+ℤ (neg x))

abbrev pub pair_request : ℕ → ℕ → OverviewMetricType → OverviewRequest
pair_request a b metric = record {
  filter = some (record { team_id = a; for_team_id = b });
  time_range = none;
  metric_type = metric ∷ [];
}

module _ (d : Db) (ledger : IsLedger d) (a b : ℕ) (from_team : a ≢ 0) (to_team : b ≢ 0) where
  pair_flown :
      (bt : BalanceType)
      → ever_flown (some (record { team_id = a; for_team_id = b })) bt d
        ≡ balance_of (account a b bt) d.balances
  pair_flown bt =
      sum_where-cong _ (λ l. same_account (account_of_log l) (account a b bt))
        (λ l. l.change_amount) d.logs (λ l. pair_view a b bt from_team to_team (account_of_log l))
      ∙ ledger.replayed (account a b bt)

module _ (d : Db) (ledger : IsLedger d) (a b : ℕ) (from_team : a ≢ 0) (to_team : b ≢ 0) where
  -- On a ledger that keeps its invariant the two teams of a pair see one debt: what `a` is told to owe
  -- `b` is the magnitude of its running balance towards `b`, and what `b` is told to be owed by `a` is
  -- the negation of that balance. Both ids are positive and no statement fails.
  pub overview-mirrored :
      (overview (pair_request a b metric_payable) (calm d)
        ≡ (ok (payable_item (abs (balance_of (account a b payable) d.balances)) ∷ []), calm d))
      × (overview (pair_request b a metric_receivable) (calm d)
          ≡ (ok (receivable_item (neg (balance_of (account a b payable) d.balances)) ∷ []), calm d))
  unfolding overview overview_items overview_item query statement
  overview-mirrored = (
    rw
        (
          ledger.totalled (in_view (some (record { team_id = a; for_team_id = b })) payable),
          pair_flown d ledger a b from_team to_team payable,
        )
        refl,
    rw
        (
          ledger.totalled (in_view (some (record { team_id = b; for_team_id = a })) receivable),
          pair_flown d ledger b a to_team from_team receivable,
          neg_of_zero_sum _ _ (ledger.mirrored a b),
        )
        refl,
  )

abbrev pub HasWindow : Option (Option Time × Option Time) → Type 0
HasWindow (some (some start, some end)) = Unit
HasWindow _ = ⊥

-- The metrics that need no window, and those that need one.
abbrev pub IsAnswerable : Option (Option Time × Option Time) → OverviewMetricType → Type 0
IsAnswerable range metric_unspecified = ⊥
IsAnswerable range metric_total_payment = HasWindow range
IsAnswerable range metric_total_payable = HasWindow range
IsAnswerable range metric_total_receivable = HasWindow range
IsAnswerable range _ = Unit

module _ (d : Db) where
  pub window_of :
      (range : Option (Option Time × Option Time))
      → HasWindow range
      → (w : Time × Time) × (time_window range (calm d) ≡ (ok w, calm d))
  unfolding time_window
  window_of (some (some start, some end)) h = ((start, end), refl)
  window_of (some (some start, none)) h = absurd h
  window_of (some (none, end)) h = absurd h
  window_of none h = absurd h

  pub no_window :
      (range : Option (Option Time × Option Time))
      → ¬ HasWindow range
      → time_window range (calm d) ≡ (err time_range_required, calm d)
  unfolding time_window
  no_window (some (some start, some end)) h = absurd (h tt)
  no_window (some (some start, none)) h = refl
  no_window (some (none, end)) h = refl
  no_window none h = refl

abbrev pub item_metric : OverviewDataItem → OverviewMetricType
item_metric (payable_item v) = metric_payable
item_metric (receivable_item v) = metric_receivable
item_metric (pending_item v) = metric_pending_payment
item_metric (incoming_item v) = metric_incoming_payment
item_metric (total_payment_item v) = metric_total_payment
item_metric (total_payable_item v parts) = metric_total_payable
item_metric (total_receivable_item v parts) = metric_total_receivable

module _ (pay : OverviewRequest) (d : Db) where
  abbrev IsAnswered : OverviewMetricType → Type 0
  IsAnswered m =
      (item : OverviewDataItem) × (overview_item pay m (calm d) ≡ (ok item, calm d))
      × (item_metric item ≡ m)

  answered : (m : OverviewMetricType) → IsAnswerable pay.time_range m → IsAnswered m
  unfolding overview_item query statement total_change_overview
  answered metric_unspecified h = absurd h
  answered metric_payable h = (_, refl, refl)
  answered metric_receivable h = (_, refl, refl)
  answered metric_pending_payment h = (_, refl, refl)
  answered metric_incoming_payment h = (_, refl, refl)
  answered metric_total_payment h =
      let (w, ran) = window_of d pay.time_range h in
      (
        total_payment_item (sum_where (payment_in pay.filter w.0 w.1) (λ p. p.amount) d.payments),
        rw ran refl,
        refl,
      )
  answered metric_total_payable h =
      let (w, ran) = window_of d pay.time_range h in
      let found = sums pay.filter payable w.0 w.1 d in
      (total_payable_item (add_up (pos 0) found) found, rw ran refl, refl)
  answered metric_total_receivable h =
      let (w, ran) = window_of d pay.time_range h in
      let found = sums pay.filter receivable w.0 w.1 d in
      (total_receivable_item (add_up (pos 0) found) found, rw ran refl, refl)

  abbrev AreAnswered : List OverviewMetricType → Type 0
  AreAnswered ms =
      (items : List OverviewDataItem) × (overview_items pay ms (calm d) ≡ (ok items, calm d))
      × (map item_metric items ≡ ms)

  all_answered :
      (ms : List OverviewMetricType) → Every (IsAnswerable pay.time_range) ms → AreAnswered ms
  unfolding overview_items
  all_answered [] h = ([], refl, refl)
  all_answered (m ∷ ms) h =
      let (item, ran, named) = answered m h.0 in
      let (items, rest, names) = all_answered ms h.1 in
      (item ∷ items, rw (ran, rest) refl, rw (named, names) refl)

  -- Where no statement fails, every metric is a known one and the windowed ones have a time range,
  -- `Overview` changes no table and answers with one item for each metric, in the order of the request.
  pub overview-answers :
      Every (IsAnswerable pay.time_range) pay.metric_type
      → ((items : List OverviewDataItem) × (overview pay (calm d) ≡ (ok items, calm d))
          × (map item_metric items ≡ pay.metric_type))
  unfolding overview
  overview-answers = all_answered pay.metric_type

  refused_items :
      (before after : List OverviewMetricType) (m : OverviewMetricType) (e : Error)
      → Every (IsAnswerable pay.time_range) before
      → overview_item pay m (calm d) ≡ (err e, calm d)
      → overview_items pay (before ++ m ∷ after) (calm d) ≡ (err e, calm d)
  unfolding overview_items
  refused_items [] after m e h refused = rw refused refl
  refused_items (b ∷ before) after m e h refused =
      let (item, ran, named) = answered b h.0 in
      rw (ran, refused_items before after m e h.1 refused) refl

-- The error of a metric that is not answered.
abbrev pub refusal : OverviewMetricType → Error
refusal metric_unspecified = invalid_type
refusal _ = time_range_required

module _ (pay : OverviewRequest) (d : Db) where
  refused :
      (m : OverviewMetricType)
      → ¬ IsAnswerable pay.time_range m
      → overview_item pay m (calm d) ≡ (err (refusal m), calm d)
  unfolding overview_item total_change_overview
  refused metric_unspecified h = refl
  refused metric_payable h = absurd (h tt)
  refused metric_receivable h = absurd (h tt)
  refused metric_pending_payment h = absurd (h tt)
  refused metric_incoming_payment h = absurd (h tt)
  refused metric_total_payment h = rw (no_window d pay.time_range h) refl
  refused metric_total_payable h = rw (no_window d pay.time_range h) refl
  refused metric_total_receivable h = rw (no_window d pay.time_range h) refl

  -- Where no statement fails, the first metric that cannot be answered decides the error of the whole
  -- request, whatever comes after it: an unspecified metric is invalid, and a windowed one lacks its
  -- time range.
  pub overview-refuses :
      (before after : List OverviewMetricType) (m : OverviewMetricType)
      → pay.metric_type ≡ before ++ m ∷ after
      → Every (IsAnswerable pay.time_range) before
      → ¬ IsAnswerable pay.time_range m
      → overview pay (calm d) ≡ (err (refusal m), calm d)
  unfolding overview
  overview-refuses before after m split fine bad =
      ap (λ (ms : List OverviewMetricType). overview_items pay ms (calm d)) split
      ∙ refused_items pay d before after m (refusal m) fine (refused m bad)
