-- ===== src/Timeline/Buckets.antt =====
-- `TeamBalanceTimeline`: the opening balances and the changes of each bucket, as sums over the rollup
-- and over the change log.
use invoice_service.Prelude.{
  ℕ, ◌≡◌, ◌↔◌, ◌⊎◌, ◌∙◌, refl, sym, ap, arith, inl, inr, Bool, true, false, List, [], ◌∷◌, ◌&&◌,
  map, ◌==◌, ==_iff, ==_refl, ==_comm, if_same, if◌then◌else◌, Bool-cases,
}
use invoice_service.Prelude.Int.{pos, ◌+ℤ◌, +ℤ_zero, +ℤ_assoc}
use invoice_service.Prelude.Rows.{sum_where, sum_where-map}
use invoice_service.Prelude.Every.{Every}
use invoice_service.Prelude.Groups.{keys_of, keys_of-IsCounted, sum_groups, sum_where-none}
use invoice_service.Models.Enums.{
  Time, Amount, BalanceType, type_unspecified, payable, receivable, same_type, same_type_iff,
}
use invoice_service.Models.Ledger.{BalanceChangeLog, TeamBalanceDailyLog}
use invoice_service.OweLimit.{GoMap, put}
use invoice_service.TimelineRows.{
  DateUnit, unix, open_row, open_rows, opening, assign, ChangeRow, ChangeKey, same_key, change_key,
  change_row, change_rows,
}
use invoice_service.Timeline.{BucketChange, bucket_or_new, add_side, collect_changes}

-- The side of a bucket's change, and of the pair of opening balances.
abbrev pub side : BalanceType → BucketChange → Amount
side payable bc = bc.payable
side receivable bc = bc.receivable
side type_unspecified bc = pos 0

abbrev pub side_of : BalanceType → Amount × Amount → Amount
side_of payable both = both.0
side_of receivable both = both.1
side_of type_unspecified both = pos 0

same_key_iff : (a b : ChangeKey) → (same_key a b ≡ true) ↔ (a ≡ b)
same_key_iff (t, bt, ct) (t', bt', ct') = ground arith

module _ (date_trunc : DateUnit → Time → Time) (unit : DateUnit) where
  -- A sum over the change rows is a sum over the logs that they group.
  pub change_rows-sum :
      (w : ChangeKey → Bool) (logs : List BalanceChangeLog)
      → sum_where
          (λ r. w (r.t, r.balance_type, r.change_type))
          (λ r. r.val)
          (change_rows date_trunc unit logs)
        ≡ sum_where (λ l. w (change_key date_trunc unit l)) (λ l. l.change_amount) logs
  unfolding change_rows
  change_rows-sum w logs =
      sum_where-map (λ r. w (r.t, r.balance_type, r.change_type)) (λ r. r.val)
        (change_row date_trunc unit logs) (keys_of same_key (change_key date_trunc unit) logs)
      ∙ sum_groups same_key (change_key date_trunc unit) w (λ l. l.change_amount) _ logs
          (keys_of-IsCounted same_key same_key_iff (change_key date_trunc unit) logs)

-- The rows of a bucket, on one side.
abbrev pub on_side : BalanceType → ℕ → ChangeRow → Bool
on_side bt k r = unix r.t == k && same_type r.balance_type bt

side-add_side :
    (bt kind : BalanceType) (r : ChangeRow) (bc : BucketChange)
    → same_type bt type_unspecified ≡ false
    → side bt (add_side kind r bc) ≡ side bt bc +ℤ (if same_type kind bt then r.val else pos 0)
side-add_side payable payable r bc h = refl
side-add_side payable receivable r bc h = sym (+ℤ_zero _)
side-add_side payable type_unspecified r bc h = sym (+ℤ_zero _)
side-add_side receivable payable r bc h = sym (+ℤ_zero _)
side-add_side receivable receivable r bc h = refl
side-add_side receivable type_unspecified r bc h = sym (+ℤ_zero _)
side-add_side type_unspecified kind r bc h = cc

side_of-assign :
    (bt kind : BalanceType) (val : Amount) (both : Amount × Amount)
    → same_type bt type_unspecified ≡ false
    → side_of bt (assign (kind, val) both) ≡ (if same_type kind bt then val else side_of bt both)
side_of-assign payable payable val both h = refl
side_of-assign payable receivable val both h = refl
side_of-assign payable type_unspecified val both h = refl
side_of-assign receivable payable val both h = refl
side_of-assign receivable receivable val both h = refl
side_of-assign receivable type_unspecified val both h = refl
side_of-assign type_unspecified kind val both h = cc

no_side : (bt : BalanceType) → side_of bt (pos 0, pos 0) ≡ pos 0
no_side payable = refl
no_side receivable = refl
no_side type_unspecified = refl

module _ (bt : BalanceType) (is_side : same_type bt type_unspecified ≡ false) where
  module _ (k : ℕ) where
    abbrev after : ChangeRow → GoMap BucketChange → GoMap BucketChange
    after r changes =
        put (unix r.t) (add_side r.balance_type r (bucket_or_new (changes (unix r.t)))) changes

    added :
        (r : ChangeRow) (changes : GoMap BucketChange)
        → side bt (bucket_or_new (after r changes k))
          ≡ side bt (bucket_or_new (changes k)) +ℤ (if on_side bt k r then r.val else pos 0)
    added r changes = elim (Bool-cases (unix r.t == k)) [
      | inl t ↦
          let same : unix r.t ≡ k = (==_iff (unix r.t) k).0 t in
          rw (same, ==_refl k)
            (side-add_side bt r.balance_type r (bucket_or_new (changes k)) is_side)
      | inr e ↦ rw (e, ==_comm k (unix r.t), e) (sym (+ℤ_zero _))
    ]

    pub collect_changes-side :
        (rows : List ChangeRow) (changes : GoMap BucketChange)
        → side bt (bucket_or_new (collect_changes rows changes k))
          ≡ side bt (bucket_or_new (changes k)) +ℤ sum_where (on_side bt k) (λ r. r.val) rows
    unfolding collect_changes sum_where
    collect_changes-side [] changes = sym (+ℤ_zero _)
    collect_changes-side (r ∷ rows) changes =
        collect_changes-side rows (after r changes) ∙ rw (added r changes) (+ℤ_assoc _ _ _)

  module _ (rows : List TeamBalanceDailyLog) where
    abbrev total : Amount
    total = sum_where (λ r. same_type r.balance_type bt) (λ r. r.change_amount) rows

    abbrev is_bt : BalanceType → Bool
    is_bt k = same_type k bt

    -- What one row of the query leaves, where nothing or the total stood.
    one_row :
        (k : BalanceType) (both : Amount × Amount)
        → side_of bt (assign (open_row rows k) both) ≡ (if is_bt k then total else side_of bt both)
    one_row k both = elim (Bool-cases (is_bt k)) [
      | inl t ↦
          side_of-assign bt k _ both is_side
          ∙ rw t (
              ap
                (λ (j : BalanceType).
                  sum_where (λ r. same_type r.balance_type j) (λ r. r.change_amount) rows)
                ((same_type_iff k bt).0 t))
      | inr e ↦ side_of-assign bt k _ both is_side ∙ rw e refl
    ]

    kept :
        (ks : List BalanceType) (both : Amount × Amount)
        → side_of bt both ≡ total
        → side_of bt (opening (map (open_row rows) ks) both) ≡ total
    unfolding opening
    kept [] both h = h
    kept (k ∷ ks) both h =
        kept ks (assign (open_row rows k) both) (one_row k both ∙ rw h (if_same (is_bt k) total))

    -- The loop leaves the total, or it has met no row of the type.
    assigned :
        (ks : List BalanceType) (both : Amount × Amount)
        → (side_of bt (opening (map (open_row rows) ks) both) ≡ total)
          ⊎ (Every (λ k. is_bt k ≡ false) ks
              × (side_of bt (opening (map (open_row rows) ks) both) ≡ side_of bt both))
    unfolding opening
    assigned [] both = inr (tt, refl)
    assigned (k ∷ ks) both = elim (Bool-cases (is_bt k)) [
      | inl t ↦ inl (kept ks (assign (open_row rows k) both) (one_row k both ∙ rw t refl))
      | inr e ↦ elim (assigned ks (assign (open_row rows k) both)) [
        | inl h ↦ inl h
        | inr (none_of, h) ↦ inr ((e, none_of), h ∙ one_row k both ∙ rw e refl)
      ]
    ]

    pub opening-total : side_of bt (opening (open_rows rows) (pos 0, pos 0)) ≡ total
    unfolding open_rows
    opening-total =
        let ks = keys_of same_type (λ (r : TeamBalanceDailyLog). r.balance_type) rows in
        elim (assigned ks (pos 0, pos 0)) [
          | inl h ↦ h
          | inr (none_of, h) ↦
              h
              ∙ no_side bt
              ∙ sym (sum_where-none is_bt _ ks none_of)
              ∙ sum_groups same_type (λ r. r.balance_type) is_bt (λ r. r.change_amount) ks rows
                  (keys_of-IsCounted same_type same_type_iff (λ r. r.balance_type) rows)
        ]
