-- ===== src/Timeline/Series.antt =====
-- `TeamBalanceTimeline`: the running balances of the buckets, against the change log.
use invoice_service.Prelude.{
  ℕ, ◌≡◌, ◌≤◌, ◌∙◌, sym, arith, Bool, false, List, ◌++◌, ◌&&◌, ◌||◌, map, ltb, leb, ◌==◌,
}
use invoice_service.Prelude.Int.{pos, ◌+ℤ◌, zero_+ℤ}
use invoice_service.Prelude.Rows.{sum_where, filter_rows}
use invoice_service.Prelude.Every.{Every, Every-mono, Every-filter_rows, Every-unmap, Every-first}
use invoice_service.Prelude.Groups.{
  sum_groups, sum_where-cong, sum_where-same, sum_where-split, sum_where-filter_rows,
}
use invoice_service.Models.Enums.{
  Time, Amount, BalanceType, type_unspecified, payable, receivable, same_type,
}
use invoice_service.Models.Ledger.{BalanceChangeLog}
use invoice_service.OweLimit.{no_keys}
use invoice_service.Overview.{Scope}
use invoice_service.Store.{Db}
use invoice_service.Ledger.{day_length, start_of_jakarta_day}
use invoice_service.Ledger.Dailies.{IsDaily}
use invoice_service.TimelineRows.{
  DateUnit, unix, of_team, opens, in_window, open_rows, opening, ChangeRow, change_rows, pay_rows,
  pays,
}
use invoice_service.Timeline.{
  collect_changes, bucket_or_new, sorted_keys, buckets_of, TimelineBucket,
}
use invoice_service.Timeline.Buckets.{
  side, side_of, on_side, change_rows-sum, collect_changes-side, opening-total,
}
use invoice_service.Timeline.Running.{
  balance_side, sorted_keys-IsAscending, sorted_keys-IsCounted, buckets_from-IsRunning,
}

-- A day is before the day of `s` exactly when its instants are before that day's start.
seam :
    (s t : Time)
    → day_length ≤ s
    → ltb (start_of_jakarta_day t) (start_of_jakarta_day s) ≡ ltb t (start_of_jakarta_day s)
unfolding start_of_jakarta_day
seam s t late = ground arith

side_first : (a b : Bool) → a && b ≡ b && a
side_first a b = ground arith

one_of :
    (o s b m e u : Bool) → o && s && (b || m && e && u) ≡ b && o && s || m && e && o && (s && u)
one_of o s b m e u = ground arith

not_both : (o s b m e u : Bool) → b && m ≡ false → b && o && s && (m && e && o && (s && u)) ≡ false
not_both o s b m e u h = ground arith

one_side : (t day : Time) → ltb t day && leb day t ≡ false
one_side t day = ground arith

no_change : (bt : BalanceType) (k : ℕ) (x : Amount) → side bt (bucket_or_new (no_keys k)) +ℤ x ≡ x
no_change payable k x = zero_+ℤ x
no_change receivable k x = zero_+ℤ x
no_change type_unspecified k x = zero_+ℤ x

module _ (bt : BalanceType) (is_side : same_type bt type_unspecified ≡ false)
    (rows : List ChangeRow) (paid : List (Time × Amount)) (upto : ℕ) where
  abbrev ts : List Time
  ts = map (λ r. r.t) rows ++ map (λ r. r.0) paid

  abbrev of_side : List ChangeRow
  of_side = filter_rows (λ r. same_type r.balance_type bt) rows

  -- The changes of the keys up to one of them, as a sum over the change rows.
  changes_upto :
      sum_where
        (λ k. leb k upto)
        (λ k. side bt (bucket_or_new (collect_changes rows no_keys k)))
        (sorted_keys ts)
      ≡ sum_where (λ r. same_type r.balance_type bt && leb (unix r.t) upto) (λ r. r.val) rows
  changes_upto =
      sum_where-same (λ k. leb k upto) _ _ (sorted_keys ts)
        (λ k.
          collect_changes-side bt is_side k rows no_keys
          ∙ no_change bt k _
          ∙ sum_where-cong (on_side bt k) (λ r. same_type r.balance_type bt && unix r.t == k)
              (λ r. r.val) rows (λ r. side_first (unix r.t == k) (same_type r.balance_type bt))
          ∙ sym (
              sum_where-filter_rows (λ r. same_type r.balance_type bt) (λ r. unix r.t == k)
                (λ r. r.val) rows))
      ∙ sum_groups (λ i j. i == j) (λ r. unix r.t) (λ k. leb k upto) (λ r. r.val) (sorted_keys ts)
          of_side
          (Every-filter_rows _ _ rows (
            Every-unmap _ (λ (r : ChangeRow). r.t) rows
              (Every-first _ (map (λ r. r.t) rows) _ (sorted_keys-IsCounted ts))))
      ∙ sum_where-filter_rows (λ r. same_type r.balance_type bt) (λ r. leb (unix r.t) upto)
          (λ r. r.val) rows

module _ (date_trunc : DateUnit → Time → Time) (unit : DateUnit) (f : Scope) (start end : Time)
    (d : Db) where
  abbrev start_day : Time
  start_day = start_of_jakarta_day start

  abbrev changes : List ChangeRow
  changes = change_rows date_trunc unit (filter_rows (in_window f start_day end) d.logs)

  abbrev paid : List (Time × Amount)
  paid = pay_rows date_trunc unit (filter_rows (pays f start_day end) d.payments)

  -- The buckets of the response.
  abbrev pub timeline_buckets : List TimelineBucket
  timeline_buckets = buckets_of (open_rows (filter_rows (opens f start_day) d.dailies)) changes paid

  abbrev before : BalanceType → BalanceChangeLog → Bool
  before bt l =
      ltb (start_of_jakarta_day l.created_at) start_day
      && of_team f l.team_id l.for_team_id
      && same_type l.balance_type bt

  abbrev within : BalanceType → ℕ → BalanceChangeLog → Bool
  within bt upto l =
      in_window f start_day end l
      && (same_type l.balance_type bt && leb (unix (date_trunc unit l.created_at)) upto)

  -- The changes that a bucket's balance counts: the team's, before the window, or in it and in a
  -- bucket up to this one.
  abbrev pub counted_by : BalanceType → ℕ → BalanceChangeLog → Bool
  counted_by bt upto l =
      of_team f l.team_id l.for_team_id
      && same_type l.balance_type bt
      && (ltb l.created_at start_day
          || leb start_day l.created_at
            && ltb l.created_at end
            && leb (unix (date_trunc unit l.created_at)) upto)

  module _ (bt : BalanceType) (is_side : same_type bt type_unspecified ≡ false) where
    opened :
        IsDaily d
        → side_of bt
            (opening (open_rows (filter_rows (opens f start_day) d.dailies)) (pos 0, pos 0))
          ≡ sum_where (before bt) (λ l. l.change_amount) d.logs
    opened daily =
        opening-total bt is_side (filter_rows (opens f start_day) d.dailies)
        ∙ sum_where-filter_rows (opens f start_day) (λ r. same_type r.balance_type bt)
            (λ r. r.change_amount) d.dailies
        ∙ daily.rolled_up
            (λ t k. ltb t start_day && of_team f k.team k.for_team && same_type k.kind bt)

    changed :
        (upto : ℕ)
        → sum_where (λ r. same_type r.balance_type bt && leb (unix r.t) upto) (λ r. r.val) changes
          ≡ sum_where (within bt upto) (λ l. l.change_amount) d.logs
    changed upto =
        change_rows-sum date_trunc unit (λ k. same_type k.1 bt && leb (unix k.0) upto)
          (filter_rows (in_window f start_day end) d.logs)
        ∙ sum_where-filter_rows (in_window f start_day end)
            (λ l. same_type l.balance_type bt && leb (unix (date_trunc unit l.created_at)) upto)
            (λ l. l.change_amount) d.logs

    module _ (late : day_length ≤ start) (daily : IsDaily d) where
      joined :
          (upto : ℕ)
          → sum_where (before bt) (λ l. l.change_amount) d.logs
              +ℤ sum_where (within bt upto) (λ l. l.change_amount) d.logs
            ≡ sum_where (counted_by bt upto) (λ l. l.change_amount) d.logs
      joined upto =
          sum_where-split (before bt) (within bt upto) (counted_by bt upto) (λ l. l.change_amount)
            d.logs
            (λ l. rw (seam start l.created_at late) (
              one_of (of_team f l.team_id l.for_team_id) (same_type l.balance_type bt)
                (ltb l.created_at start_day) (leb start_day l.created_at) (ltb l.created_at end)
                (leb (unix (date_trunc unit l.created_at)) upto)))
            (λ l. rw (seam start l.created_at late) (
              not_both (of_team f l.team_id l.for_team_id) (same_type l.balance_type bt)
                (ltb l.created_at start_day) (leb start_day l.created_at) (ltb l.created_at end)
                (leb (unix (date_trunc unit l.created_at)) upto) (one_side l.created_at start_day)))

      -- The balance of a bucket is the sum of all changes logged up to it.
      pub timeline-balances :
          Every
            (λ b. balance_side bt b ≡ sum_where (counted_by bt b.id) (λ l. l.change_amount) d.logs)
            timeline_buckets
      timeline-balances =
          Every-mono _ _ timeline_buckets
            (λ b running.
              running
              ∙ rw (opened daily, changes_upto bt is_side changes paid b.id, changed b.id)
                  (joined b.id))
            (buckets_from-IsRunning _ _ _ bt _ _ (sorted_keys-IsAscending _))
