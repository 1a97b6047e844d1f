-- ===== src/Timeline/Running.antt =====
-- `TeamBalanceTimeline`: the keys of the buckets in order, and the running balances over them.
use invoice_service.Prelude.{
  ℕ, ◌≡◌, ◌<◌, ◌∙◌, refl, sym, ap, arith, inl, inr, Bool, true, List, [], ◌∷◌, ◌&&◌, map, ltb, leb,
  ◌==◌, ==_iff, Bool-cases,
}
use invoice_service.Prelude.Int.{pos, ◌+ℤ◌, zero_+ℤ, +ℤ_zero, +ℤ_assoc}
use invoice_service.Prelude.Rows.{sum_where}
use invoice_service.Prelude.Every.{Every, Every-mono, Every-both}
use invoice_service.Prelude.Groups.{IsCounted, sum_where-none}
use invoice_service.Models.Enums.{Time, Amount, BalanceType, type_unspecified, payable, receivable}
use invoice_service.OweLimit.{GoMap, elem}
use invoice_service.TimelineRows.{unix}
use invoice_service.Timeline.{
  add_key, sorted_keys, TimelineBucket, BucketChange, bucket_or_new, buckets_from,
}
use invoice_service.Timeline.Buckets.{side, side_of}

-- Strictly ascending.
abbrev pub IsAscending : List ℕ → Type 0
IsAscending [] = Unit
IsAscending (k ∷ ks) = Every (λ j. k < j) ks × IsAscending ks

above-add_key :
    (m k : ℕ) (ks : List ℕ) → m < k → Every (λ j. m < j) ks → Every (λ j. m < j) (add_key k ks)
unfolding add_key
above-add_key m k [] h e = (h, tt)
above-add_key m k (j ∷ js) h e = ground (arith, above-add_key m k js h e.1)

add_key-IsAscending : (k : ℕ) (ks : List ℕ) → IsAscending ks → IsAscending (add_key k ks)
unfolding add_key
add_key-IsAscending k [] h = (tt, tt)
add_key-IsAscending k (j ∷ js) h = elim (Bool-cases (ltb k j)) [
  | inl t ↦
      let below : k < j = ground arith in
      rw t ((below, Every-mono _ _ js (λ i above. omega arith) h.0), h)
  | inr e ↦ elim (Bool-cases (k == j)) [
    | inl same ↦ rw (e, same) h
    | inr other ↦
        rw (e, other) (above-add_key j k js (ground arith) h.0, add_key-IsAscending k js h.1)
  ]
]

pub sorted_keys-IsAscending : (ts : List Time) → IsAscending (sorted_keys ts)
unfolding sorted_keys
sorted_keys-IsAscending [] = tt
sorted_keys-IsAscending (t ∷ ts) =
    add_key-IsAscending (unix t) (sorted_keys ts) (sorted_keys-IsAscending ts)

elem-add_key_new : (k : ℕ) (ks : List ℕ) → elem k (add_key k ks) ≡ true
unfolding add_key
elem-add_key_new k [] = ground arith
elem-add_key_new k (j ∷ js) = ground (arith, elem-add_key_new k js)

elem-add_key_old : (c k : ℕ) (ks : List ℕ) → elem c ks ≡ true → elem c (add_key k ks) ≡ true
unfolding add_key
elem-add_key_old c k [] h = cc
elem-add_key_old c k (j ∷ js) h = ground (arith, elem-add_key_old c k js)

elem-sorted_keys : (ts : List Time) → Every (λ t. elem (unix t) (sorted_keys ts) ≡ true) ts
unfolding sorted_keys
elem-sorted_keys [] = tt
elem-sorted_keys (t ∷ ts) = (
  elem-add_key_new (unix t) (sorted_keys ts),
  Every-mono _ _ ts (λ u. elem-add_key_old (unix u) (unix t) (sorted_keys ts))
      (elem-sorted_keys ts),
)

abbrev same_id : ℕ → ℕ → Bool
same_id i j = i == j

ascending-IsCounted :
    (c : ℕ) (ks : List ℕ) → IsAscending ks → elem c ks ≡ true → IsCounted same_id ks c
unfolding sum_where
ascending-IsCounted c [] asc h w x = cc
ascending-IsCounted c (j ∷ js) asc h w x = elim (Bool-cases (c == j)) [
  | inl t ↦
      rw
        (
          t,
          sum_where-none (λ k. c == k && w k) (λ k. x) js
              (Every-mono _ _ js (λ i above. ground arith) asc.0),
        )
        (+ℤ_zero _ ∙ rw ((==_iff c j).0 t) refl)
  | inr e ↦ rw (e, ascending-IsCounted c js asc.1 (ground arith) w x) (zero_+ℤ _)
]

-- The sorted keys hold the key of every instant once.
pub sorted_keys-IsCounted :
    (ts : List Time) → Every (λ t. IsCounted same_id (sorted_keys ts) (unix t)) ts
sorted_keys-IsCounted ts =
    Every-mono _ _ ts
      (λ t. ascending-IsCounted (unix t) (sorted_keys ts) (sorted_keys-IsAscending ts))
      (elem-sorted_keys ts)

abbrev pub balance_side : BalanceType → TimelineBucket → Amount
balance_side payable b = b.payable_balance
balance_side receivable b = b.receivable_balance
balance_side type_unspecified b = pos 0

balance_side-fields :
    (bt : BalanceType) (b : TimelineBucket)
    → balance_side bt b ≡ side_of bt (b.payable_balance, b.receivable_balance)
balance_side-fields payable b = refl
balance_side-fields receivable b = refl
balance_side-fields type_unspecified b = refl

side_of-add :
    (bt : BalanceType) (both : Amount × Amount) (bc : BucketChange)
    → side_of bt (both.0 +ℤ bc.payable, both.1 +ℤ bc.receivable) ≡ side_of bt both +ℤ side bt bc
side_of-add payable both bc = refl
side_of-add receivable both bc = refl
side_of-add type_unspecified both bc = sym (+ℤ_zero _)

module _ (changes : GoMap BucketChange) (payments : GoMap Amount) (set : GoMap Time) where
  ids-above :
      (m : ℕ) (ks : List ℕ)
      → Every (λ j. m < j) ks
      → (p r : Amount) → Every (λ b. m < b.id) (buckets_from changes payments set p r ks)
  unfolding buckets_from
  ids-above m [] h p r = tt
  ids-above m (k ∷ ks) h p r = (h.0, ids-above m ks h.1 _ _)

  pub ids-buckets_from :
      (ks : List ℕ) (p r : Amount) → map (λ b. b.id) (buckets_from changes payments set p r ks) ≡ ks
  unfolding buckets_from
  ids-buckets_from [] p r = refl
  ids-buckets_from (k ∷ ks) p r = ap (λ (js : List ℕ). k ∷ js) (ids-buckets_from ks _ _)

  module _ (bt : BalanceType) where
    abbrev change_at : ℕ → Amount
    change_at k = side bt (bucket_or_new (changes k))

    abbrev after : ℕ → Amount × Amount → Amount × Amount
    after k both =
        let bc = bucket_or_new (changes k) in (both.0 +ℤ bc.payable, both.1 +ℤ bc.receivable)

    side_of-after :
        (k : ℕ) (both : Amount × Amount)
        → side_of bt (after k both) ≡ side_of bt both +ℤ change_at k
    side_of-after k both = side_of-add bt both (bucket_or_new (changes k))

    -- What the running balance of a bucket is to be, when `both` stood before the keys `ks`.
    abbrev pub IsRunning : Amount × Amount → List ℕ → TimelineBucket → Type 0
    IsRunning both ks b =
        balance_side bt b ≡ side_of bt both +ℤ sum_where (λ k. leb k b.id) change_at ks

    one_more :
        (k : ℕ) (ks : List ℕ) (both : Amount × Amount) (b : TimelineBucket)
        → k < b.id
        → IsRunning (after k both) ks b
        → IsRunning both (k ∷ ks) b
    unfolding sum_where
    one_more k ks both b below running =
        let counted : leb k b.id ≡ true = ground arith in
        running ∙ rw (side_of-after k both, counted) (+ℤ_assoc _ _ _)

    alone :
        (k : ℕ) (ks : List ℕ)
        → Every (λ j. k < j) ks
        → sum_where (λ j. leb j k) change_at (k ∷ ks) ≡ change_at k
    unfolding sum_where
    alone k ks above =
        let counted : leb k k ≡ true = ground arith in
        rw
          (
            counted,
            sum_where-none (λ j. leb j k) change_at ks
                (Every-mono _ _ ks (λ j h. ground arith) above),
          )
          (+ℤ_zero _)

    -- The running balance of a bucket: what stood before, and the changes of the keys up to its own.
    pub buckets_from-IsRunning :
        (both : Amount × Amount) (ks : List ℕ)
        → IsAscending ks
        → Every (IsRunning both ks) (buckets_from changes payments set both.0 both.1 ks)
    unfolding buckets_from
    buckets_from-IsRunning both [] asc = tt
    buckets_from-IsRunning both (k ∷ ks) asc = (
      balance_side-fields bt _
          ∙ side_of-after k both
          ∙ ap (λ (x : Amount). side_of bt both +ℤ x) (sym (alone k ks asc.0)),
      Every-both _ _ _ _ (one_more k ks both) (ids-above k ks asc.0 _ _)
          (buckets_from-IsRunning (after k both) ks asc.1),
    )
