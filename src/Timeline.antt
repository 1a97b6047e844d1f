-- ===== src/Timeline.antt =====
-- invoice_v2/team_balance_timeline.go: `TeamBalanceTimeline`, the series of a team's balances. The
-- truncation of instants to periods, DATE_TRUNC of Postgres at Asia/Jakarta, is a parameter.
pub mod Buckets
pub mod Running
pub mod Series
pub mod Answers
use invoice_service.TimelineRows.{
  ChangeKey, ChangeRow, DateUnit, OpenRow, accepted_in, accepted_on, assign, change_key, change_row,
  change_rows, day, in_window, month, of_team, open_row, open_rows, opening, opens, pay_rows, pays,
  same_key, unix, year,
}
use invoice_service.Prelude.{
  ℕ, ◌/◌, ◌&&◌, Bool, true, false, Option, none, some, List, [], ◌∷◌, ◌++◌, map, ltb, leb, ◌==◌,
  if◌then◌else◌,
}
use invoice_service.Prelude.Int.{ℤ, pos, ◌+ℤ◌}
use invoice_service.Prelude.Rows.{filter_rows, sum_where}
use invoice_service.Prelude.Groups.{keys_of}
use invoice_service.Models.Enums.{
  Time, Amount, BalanceType, type_unspecified, payable, receivable, same_type, BalanceChangeType,
  same_change, is_accepted,
}
use invoice_service.Models.Ledger.{BalanceChangeLog, TeamBalanceDailyLog}
use invoice_service.Models.Payment.{InvoicePayment}
use invoice_service.Ledger.{start_of_jakarta_day}
use invoice_service.Lists.{row_count, if_positive}
use invoice_service.OweLimit.{GoMap, no_keys, put}
use invoice_service.Overview.{Scope, ChangeSumAmount, time_window}
use invoice_service.Store.{
  Db, team_id_required, time_range_required, data_types_required, granularity_required,
  invalid_data_type, Result, ok, err, M, pure, raise, guard, query, ◌>>=◌, ◌>>◌, continue,
}

pub data TimeGranularity : Type 0 where
  granularity_unspecified daily monthly yearly : TimeGranularity

pub data TimelineDataType : Type 0 where
  timeline_unspecified timeline_common timeline_payable_balance timeline_receivable_balance
        timeline_payable_change timeline_receivable_change timeline_total_payment :
      TimelineDataType

pub record TimelineRequest : Type 0 where
  pub filter : Option Scope
  pub time_range : Option (Option Time × Option Time)
  pub granularity : TimeGranularity
  pub data_types : List TimelineDataType
  pub sort_desc : Bool

pub record TimelineBucket : Type 0 where
  pub id : ℕ
  pub period_start : Time
  pub payable_balance : Amount
  pub receivable_balance : Amount
  pub payable_change : Amount
  pub receivable_change : Amount
  pub payable_change_break : List ChangeSumAmount
  pub receivable_change_break : List ChangeSumAmount
  pub total_payment : Amount

pub data TimelineData : Type 0 where
  common_data : GoMap Time → TimelineData
  payable_balance_data receivable_balance_data total_payment_data : GoMap Amount → TimelineData
  payable_change_data receivable_change_data : GoMap (Amount × List ChangeSumAmount) → TimelineData

unfoldable pub granularity_unit : TimeGranularity → Result DateUnit
granularity_unit daily = ok day
granularity_unit monthly = ok month
granularity_unit yearly = ok year
granularity_unit granularity_unspecified = err granularity_required

pub record BucketChange : Type 0 where
  pub payable : Amount
  pub receivable : Amount
  pub payable_brk : List ChangeSumAmount
  pub receivable_brk : List ChangeSumAmount

abbrev pub bucket_or_new : Option BucketChange → BucketChange
bucket_or_new none = record {
  payable = pos 0;
  receivable = pos 0;
  payable_brk = [];
  receivable_brk = [];
}
bucket_or_new (some bc) = bc

abbrev pub change_entry : ChangeRow → ChangeSumAmount
change_entry r = record { change_type = r.change_type; amount = r.val; transaction_count = r.cnt }

abbrev pub add_side : BalanceType → ChangeRow → BucketChange → BucketChange
add_side payable r bc = record bc {
  payable = bc.payable +ℤ r.val;
  payable_brk = bc.payable_brk ++ change_entry r ∷ [];
}
add_side receivable r bc = record bc {
  receivable = bc.receivable +ℤ r.val;
  receivable_brk = bc.receivable_brk ++ change_entry r ∷ [];
}
add_side type_unspecified r bc = bc

-- The loop over the change rows, as the map `changes`.
unfoldable pub collect_changes : List ChangeRow → GoMap BucketChange → GoMap BucketChange
collect_changes [] changes = changes
collect_changes (r ∷ rows) changes =
    collect_changes rows
      (put (unix r.t) (add_side r.balance_type r (bucket_or_new (changes (unix r.t)))) changes)

unfoldable pub collect_payments : List (Time × Amount) → GoMap Amount → GoMap Amount
collect_payments [] payments = payments
collect_payments (r ∷ rows) payments = collect_payments rows (put (unix r.0) r.1 payments)

-- bucketSet, from the instants of the change rows and then of the payment rows.
unfoldable pub bucket_set : List Time → GoMap Time → GoMap Time
bucket_set [] set = set
bucket_set (t ∷ ts) set = bucket_set ts (put (unix t) t set)

-- The keys of that map, sorted: a key is in it once.
unfoldable pub add_key : ℕ → List ℕ → List ℕ
add_key k [] = k ∷ []
add_key k (j ∷ js) =
    let rest = add_key k js in if ltb k j then k ∷ j ∷ js else if k == j then j ∷ js else j ∷ rest

unfoldable pub sorted_keys : List Time → List ℕ
sorted_keys [] = []
sorted_keys (t ∷ ts) = add_key (unix t) (sorted_keys ts)

abbrev pub or_zero : Option ℤ → ℤ
or_zero none = pos 0
or_zero (some x) = x

abbrev pub or_no_time : Option Time → Time
or_no_time none = 0
or_no_time (some t) = t

unfoldable pub buckets_from :
    GoMap BucketChange → GoMap Amount → GoMap Time → Amount → Amount → List ℕ → List TimelineBucket
buckets_from changes payments set p r [] = []
buckets_from changes payments set p r (k ∷ ks) =
    let bc = bucket_or_new (changes k) in
    record {
      id = k;
      period_start = or_no_time (set k);
      payable_balance = p +ℤ bc.payable;
      receivable_balance = r +ℤ bc.receivable;
      payable_change = bc.payable;
      receivable_change = bc.receivable;
      payable_change_break = bc.payable_brk;
      receivable_change_break = bc.receivable_brk;
      total_payment = or_zero (payments k);
    }
    ∷ buckets_from changes payments set (p +ℤ bc.payable) (r +ℤ bc.receivable) ks

abbrev pub buckets_of : List OpenRow → List ChangeRow → List (Time × Amount) → List TimelineBucket
buckets_of openings changes payments =
    let ts = map (λ r. r.t) changes ++ map (λ r. r.0) payments in
    let start = opening openings (pos 0, pos 0) in
    buckets_from (collect_changes changes no_keys) (collect_payments payments no_keys)
      (bucket_set ts no_keys) start.0 start.1 (sorted_keys ts)

unfoldable pub reverse_onto : List ℕ → List ℕ → List ℕ
reverse_onto [] ys = ys
reverse_onto (x ∷ xs) ys = reverse_onto xs (x ∷ ys)

abbrev pub ids_of : Bool → List TimelineBucket → List ℕ
ids_of desc buckets =
    if desc then reverse_onto (map (λ b. b.id) buckets) [] else map (λ b. b.id) buckets

-- for _, b := range buckets { out[b.id] = … }
unfoldable pub out_of :
    {A : Type 0} → (TimelineBucket → A) → List TimelineBucket → GoMap A → GoMap A
out_of item [] out = out
out_of item (b ∷ buckets) out = out_of item buckets (put b.id (item b) out)

unfoldable pub timeline_data_for : TimelineDataType → List TimelineBucket → Result TimelineData
timeline_data_for timeline_common buckets =
    ok (common_data (out_of (λ b. b.period_start) buckets no_keys))
timeline_data_for timeline_payable_balance buckets =
    ok (payable_balance_data (out_of (λ b. b.payable_balance) buckets no_keys))
timeline_data_for timeline_receivable_balance buckets =
    ok (receivable_balance_data (out_of (λ b. b.receivable_balance) buckets no_keys))
timeline_data_for timeline_payable_change buckets =
    ok (
      payable_change_data
        (out_of (λ b. (b.payable_change, b.payable_change_break)) buckets no_keys))
timeline_data_for timeline_receivable_change buckets = ok (
    receivable_change_data
      (out_of (λ b. (b.receivable_change, b.receivable_change_break)) buckets no_keys))
timeline_data_for timeline_total_payment buckets =
    ok (total_payment_data (out_of (λ b. b.total_payment) buckets no_keys))
timeline_data_for timeline_unspecified buckets = err invalid_data_type

unfoldable pub all_data : List TimelineDataType → List TimelineBucket → M (List TimelineData)
all_data [] buckets = pure []
all_data (dt ∷ dts) buckets = do
  found ← continue (timeline_data_for dt buckets) pure
  rest ← all_data dts buckets
  pure (found ∷ rest)

pub record TimelineResponse : Type 0 where
  pub series : List TimelineData
  pub ids : List ℕ

abbrev pub team_filter : Option Scope → M Scope
team_filter none = raise team_id_required
team_filter (some f) = if f.team_id == 0 then raise team_id_required else pure f

abbrev pub is_empty : {A : Type 0} → List A → Bool
is_empty [] = true
is_empty (x ∷ xs) = false

unfoldable pub team_balance_timeline :
    (DateUnit → Time → Time) → TimelineRequest → M TimelineResponse
unfolding query time_window
team_balance_timeline date_trunc pay = do
  f ← team_filter pay.filter
  window ← time_window pay.time_range
  guard (is_empty pay.data_types) data_types_required
  unit ← continue (granularity_unit pay.granularity) pure
  let start_day = start_of_jakarta_day window.0
  let end = window.1
  openings ← query (λ d. open_rows (filter_rows (opens f start_day) d.dailies))
  changes ←
      query (λ d. change_rows date_trunc unit (filter_rows (in_window f start_day end) d.logs))
  payments ← query (λ d. pay_rows date_trunc unit (filter_rows (pays f start_day end) d.payments))
  let buckets = buckets_of openings changes payments
  series ← all_data pay.data_types buckets
  pure (record { series = series; ids = ids_of pay.sort_desc buckets })
