-- ===== src/Timeline/Answers.antt =====
-- `TeamBalanceTimeline`: the whole response, and the requests that it refuses.
use invoice_service.Prelude.{
  ℕ, ◌≡◌, ◌≢◌, ◌≤◌, ◌<◌, ◌∙◌, refl, sym, ap, arith, false, Option, none, some, List, [], ◌∷◌, map,
  ◌==◌,
}
use mathlib.Core.Path.{subst}
use invoice_service.Overview.Reports.{HasWindow, window_of, no_window}
use invoice_service.Prelude.Rows.{sum_where}
use invoice_service.Prelude.Every.{Every, Every-both, Every-map, Every-unmap}
use invoice_service.Models.Enums.{
  Time, Amount, BalanceType, payable, receivable, type_unspecified, same_type,
}
use invoice_service.OweLimit.{GoMap, no_keys, put}
use invoice_service.Overview.{Scope, time_window}
use invoice_service.Store.{
  Db, Error, team_id_required, time_range_required, data_types_required, granularity_required, ok,
  err, calm, query, statement,
}
use invoice_service.Ledger.{day_length}
use invoice_service.Ledger.Dailies.{IsDaily}
use invoice_service.TimelineRows.{DateUnit}
use invoice_service.Timeline.{
  TimeGranularity, granularity_unspecified, TimelineDataType, timeline_payable_balance,
  timeline_receivable_balance, TimelineRequest, TimelineBucket, payable_balance_data,
  receivable_balance_data, granularity_unit, out_of, timeline_data_for, all_data, team_filter,
  is_empty, team_balance_timeline,
}
use invoice_service.Timeline.Running.{
  IsAscending, ids-buckets_from, sorted_keys-IsAscending, balance_side,
}
use invoice_service.Timeline.Series.{timeline_buckets, counted_by, timeline-balances}

module _ {A : Type 0} (item : TimelineBucket → A) where
  untouched :
      (m : ℕ) (bs : List TimelineBucket) (out : GoMap A)
      → Every (λ b. m < b.id) bs
      → out_of item bs out m ≡ out m
  unfolding out_of
  untouched m [] out h = refl
  untouched m (b ∷ bs) out h = untouched m bs (put b.id (item b) out) h.1 ∙ ground arith

  -- Every bucket of a strictly ascending series is found under its id.
  pub out_of-found :
      (bs : List TimelineBucket) (out : GoMap A)
      → IsAscending (map (λ b. b.id) bs)
      → Every (λ b. out_of item bs out b.id ≡ some (item b)) bs
  unfolding out_of
  out_of-found [] out asc = tt
  out_of-found (b ∷ bs) out asc = (
    untouched b.id bs (put b.id (item b) out)
          (Every-unmap _ (λ (x : TimelineBucket). x.id) bs asc.0)
        ∙ ground arith,
    out_of-found bs (put b.id (item b) out) asc.1,
  )

module _ (date_trunc : DateUnit → Time → Time) (unit : DateUnit) (granularity : TimeGranularity)
    (f : Scope) (start end : Time) (d : Db) where
  abbrev pub balances_request : TimelineRequest
  balances_request = record {
    filter = some f;
    time_range = some (some start, some end);
    granularity = granularity;
    data_types = timeline_payable_balance ∷ timeline_receivable_balance ∷ [];
    sort_desc = false;
  }

  abbrev buckets : List TimelineBucket
  buckets = timeline_buckets date_trunc unit f start end d

  abbrev pub logged_upto : BalanceType → ℕ → Amount
  logged_upto bt k =
      sum_where (counted_by date_trunc unit f start end d bt k) (λ l. l.change_amount) d.logs

  module _ (team : f.team_id ≢ 0) (known : granularity_unit granularity ≡ ok unit)
      (late : day_length ≤ start) (daily : IsDaily d) where
    has_team : (f.team_id == 0) ≡ false
    has_team = ground arith

    answered : team_balance_timeline date_trunc balances_request (calm d) ≡ (
      ok (record {
        series =
            payable_balance_data (out_of (λ b. b.payable_balance) buckets no_keys)
            ∷ receivable_balance_data (out_of (λ b. b.receivable_balance) buckets no_keys)
            ∷ [];
        ids = map (λ b. b.id) buckets;
      }),
      calm d,
    )
    unfolding team_balance_timeline query statement time_window all_data timeline_data_for
    answered = rw (has_team, known) refl

    ascending : IsAscending (map (λ b. b.id) buckets)
    ascending = subst IsAscending (sym (ids-buckets_from _ _ _ _ _ _)) (sorted_keys-IsAscending _)

    -- The balances of a team's series, where no statement fails: the ids are strictly ascending period starts, the tables stay
    -- as they are, and the payable and the receivable balance under an id are the sums of all changes
    -- logged for the team on that side up to it: those before the start's Jakarta day, and those from
    -- it on and before the end whose period starts no later. The granularity is a known one, the start
    -- is not on the first day of the epoch, and the rollup agrees with the change log.
    pub timeline-reports :
        (p r : GoMap Amount) × (ids : List ℕ) × (team_balance_timeline date_trunc balances_request
            (calm d)
          ≡ (
            ok (record {
              series = payable_balance_data p ∷ receivable_balance_data r ∷ [];
              ids = ids;
            }),
            calm d,
          ))
        × IsAscending ids
        × Every
            (λ k. (p k ≡ some (logged_upto payable k)) × (r k ≡ some (logged_upto receivable k)))
            ids
    timeline-reports = (
      out_of (λ b. b.payable_balance) buckets no_keys,
      out_of (λ b. b.receivable_balance) buckets no_keys,
      map (λ b. b.id) buckets,
      answered,
      ascending,
      Every-map _ (λ (b : TimelineBucket). b.id) buckets
          (Every-both _ _ _ buckets (λ b p r. (p, r))
            (found payable refl (λ b. b.payable_balance) (λ b. refl))
            (found receivable refl (λ b. b.receivable_balance) (λ b. refl))),
    )
      where
        found :
            (bt : BalanceType)
            → same_type bt type_unspecified ≡ false
            → (item : TimelineBucket → Amount) → ((b : TimelineBucket) → balance_side bt b ≡ item b)
            → Every (λ b. out_of item buckets no_keys b.id ≡ some (logged_upto bt b.id)) buckets
        found bt is_side item same =
            Every-both _ _ _ buckets
              (λ b at right. at ∙ ap (λ (x : Amount). some x) (sym (same b) ∙ right))
              (out_of-found item buckets no_keys ascending)
              (timeline-balances date_trunc unit f start end d bt is_side late daily)

abbrev pub HasTeam : Option Scope → Type 0
HasTeam none = ⊥
HasTeam (some f) = f.team_id ≢ 0

module _ (d : Db) where
  filter_of :
      (o : Option Scope) → HasTeam o → (f : Scope) × (team_filter o (calm d) ≡ (ok f, calm d))
  filter_of none h = absurd h
  filter_of (some f) h = (f, ground arith)

  no_filter :
      (o : Option Scope) → ¬ HasTeam o → team_filter o (calm d) ≡ (err team_id_required, calm d)
  no_filter none h = refl
  no_filter (some f) h = ground arith

not_empty : (dts : List TimelineDataType) → dts ≢ [] → is_empty dts ≡ false
not_empty [] h = absurd (h refl)
not_empty (dt ∷ dts) h = refl

module _ (date_trunc : DateUnit → Time → Time) (pay : TimelineRequest) (d : Db) where
  abbrev pub RefusedWith : Error → Type 0
  RefusedWith e = team_balance_timeline date_trunc pay (calm d) ≡ (err e, calm d)

  -- Where no statement fails, a request that names no team is refused, whatever else it lacks; then one without both ends of
  -- the time range, one without data types, and one without a granularity, in this order.
  pub timeline-refuses :
      (¬ HasTeam pay.filter → RefusedWith team_id_required)
      × (HasTeam pay.filter → ¬ HasWindow pay.time_range → RefusedWith time_range_required)
      × (HasTeam pay.filter
          → HasWindow pay.time_range
          → pay.data_types ≡ []
          → RefusedWith data_types_required)
      × (HasTeam pay.filter
          → HasWindow pay.time_range
          → pay.data_types ≢ []
          → pay.granularity ≡ granularity_unspecified
          → RefusedWith granularity_required)
  unfolding team_balance_timeline query time_window granularity_unit
  timeline-refuses = (
    λ lacks. rw (no_filter d pay.filter lacks) refl,
    λ team lacks.
        let (f, found) = filter_of d pay.filter team in
        rw (found, no_window d pay.time_range lacks) refl,
    λ team range empty.
        let (f, found) = filter_of d pay.filter team in
        let (w, window) = window_of d pay.time_range range in rw (found, window, empty) refl,
    λ team range asked none_given.
        let (f, found) = filter_of d pay.filter team in
        let (w, window) = window_of d pay.time_range range in
        rw (found, window, not_empty pay.data_types asked, none_given) refl,
  )
