-- ===== src/OweLimit/Rules.antt =====
-- What EvaluateOweLimits answers: the rule that holds for a creditor, and the debt against it.
use invoice_service.Prelude.{
  ℕ, ◌≡◌, ◌∙◌, refl, sym, ap, inl, inr, ◌&&◌, ◌||◌, Bool, true, false, Option, none, some, List, [],
  ◌∷◌, arith, ◌==◌, ==_iff, if◌then◌else◌, Bool-cases,
}
use invoice_service.Prelude.Int.{pos, neg, ltb_ℤ, eqb_ℤ}
use invoice_service.Prelude.Rows.{filter_rows}
use invoice_service.Models.Enums.{Amount, payable}
use invoice_service.Models.Ledger.{TeamBalance, on_account}
use invoice_service.Models.OweLimit.{OweLimitConfiguration}
use invoice_service.OweLimit.{
  GoMap, put, is_default_row, is_for_team, OweLimitAllow, allowed, Limit, new_limit, is_custom,
  apply_cfg, collect,
}

unfoldable pub last_row : {A : Type 0} → (A → Bool) → List A → Option A
last_row p [] = none
last_row p (r ∷ rs) = elim (last_row p rs) [ some x ↦ some x | none ↦ if p r then some r else none ]

pub last_row-filter :
    {A : Type 0} (p q : A → Bool) (rs : List A)
    → ((r : A) → p r ≡ true → q r ≡ true)
    → last_row p (filter_rows q rs) ≡ last_row p rs
unfolding last_row filter_rows
last_row-filter p q [] h = refl
last_row-filter p q (r ∷ rs) h = ground (arith, h r, last_row-filter p q rs h)

pub last_row-filter_and :
    {A : Type 0} (p q both : A → Bool) (rs : List A)
    → ((r : A) → both r ≡ (q r && p r))
    → last_row p (filter_rows q rs) ≡ last_row both rs
unfolding last_row filter_rows
last_row-filter_and p q both [] h = refl
last_row-filter_and p q both (r ∷ rs) h = ground (arith, h r, last_row-filter_and p q both rs h)

-- A creditor's row for this debtor, and its row for every debtor.
abbrev pub custom_for : ℕ → ℕ → OweLimitConfiguration → Bool
custom_for debtor c cfg = cfg.team_id == c && is_custom debtor cfg

abbrev pub default_for : ℕ → OweLimitConfiguration → Bool
default_for c cfg = cfg.team_id == c && is_default_row cfg

abbrev pub either : Option OweLimitConfiguration → Option OweLimitConfiguration → Option Amount
either (some custom) fallback = some custom.threshold
either none (some fallback) = some fallback.threshold
either none none = none

-- The threshold that holds: of the row for this debtor, or else of the default row.
abbrev pub rule : ℕ → ℕ → List OweLimitConfiguration → Option Amount
rule debtor c cfgs = either (last_row (custom_for debtor c) cfgs) (last_row (default_for c) cfgs)

abbrev pub owed : Option TeamBalance → Amount
owed none = pos 0
owed (some b) = neg b.balance

-- The debt of the debtor to the creditor: its PAYABLE is stored negative.
abbrev pub current_debt : ℕ → ℕ → List TeamBalance → Amount
current_debt debtor c balances =
    owed (last_row (on_account (record { team = debtor; for_team = c; kind = payable })) balances)

-- No rule allows any debt, a threshold of 0 is unlimited, and another has to exceed the debt.
abbrev pub decision : Option Amount → Amount → OweLimitAllow
decision none debt = allowed
decision (some threshold) debt = record {
  allow = eqb_ℤ threshold (pos 0) || ltb_ℤ debt threshold;
  threshold = threshold;
  active_amount = debt;
}

-- What is known of a creditor's limit: whether a custom row has set it, and the threshold.
pub data Known : Type 0 where
  nothing : Known
  by_default by_custom : Amount → Known

abbrev pub known : Option Limit → Known
known none = nothing
known (some l) =
    if l.has_custom
    then by_custom l.threshold
    else if l.has_cfg
    then by_default l.threshold
    else nothing

abbrev pub learnt : Option OweLimitConfiguration → Option OweLimitConfiguration → Known → Known
learnt (some custom) fallback k = by_custom custom.threshold
learnt none fallback (by_custom t) = by_custom t
learnt none (some fallback) k = by_default fallback.threshold
learnt none none k = k

-- A custom row counts as a configuration.
abbrev pub Consistent : Option Limit → Type 0
Consistent o = (l : Limit) → o ≡ some l → l.has_custom ≡ true → l.has_cfg ≡ true

module _ (debtor c : ℕ) where
  step : OweLimitConfiguration → GoMap Limit → GoMap Limit
  step cfg limits = put cfg.team_id (apply_cfg debtor cfg (new_limit (limits cfg.team_id))) limits

  abbrev here : Bool → OweLimitConfiguration → Option OweLimitConfiguration
  here b cfg = if b then some cfg else none

  applied-known :
      (cfg : OweLimitConfiguration) (o : Option Limit)
      → known (some (apply_cfg debtor cfg (new_limit o)))
        ≡ learnt (here (is_custom debtor cfg) cfg) (here (is_default_row cfg) cfg) (known o)
  applied-known cfg none = elim (Bool-cases (is_default_row cfg)) [
    | inl t ↦ rw t refl
    | inr f ↦ elim (Bool-cases (is_for_team debtor cfg)) [
      | inl t ↦ rw (f, t) refl
      | inr g ↦ rw (f, g) refl
    ]
  ]
  applied-known cfg (some l) = elim (Bool-cases (is_default_row cfg)) [
    | inl t ↦ elim (Bool-cases l.has_custom) [
      | inl u ↦ rw (t, u) refl
      | inr u ↦ rw (t, u) (ground arith)
    ]
    | inr f ↦ elim (Bool-cases (is_for_team debtor cfg)) [
      | inl t ↦ rw (f, t) refl
      | inr g ↦ rw (f, g) (ground arith)
    ]
  ]

  learnt_nothing : (k : Known) → learnt none none k ≡ k
  learnt_nothing nothing = refl
  learnt_nothing (by_default t) = refl
  learnt_nothing (by_custom t) = refl

  step-known :
      (cfg : OweLimitConfiguration) (limits : GoMap Limit)
      → known (step cfg limits c)
        ≡ learnt
            (here (custom_for debtor c cfg) cfg)
            (here (default_for c cfg) cfg)
            (known (limits c))
  unfolding step
  step-known cfg limits = elim (Bool-cases (cfg.team_id == c)) [
    | inl same ↦
        let e : cfg.team_id ≡ c = (==_iff cfg.team_id c).0 same in
        let at_row : (c == cfg.team_id) ≡ true = ground arith in
        rw (same, at_row)
          (applied-known cfg (limits cfg.team_id)
            ∙ ap
                (λ (n : ℕ).
                  learnt (here (is_custom debtor cfg) cfg) (here (is_default_row cfg) cfg)
                    (known (limits n)))
                e)
    | inr other ↦
        let flip : (c == cfg.team_id) ≡ false = ground arith in
        rw (other, flip) (sym (learnt_nothing (known (limits c))))
  ]

  learnt-then :
      (p q : Bool) (cfg : OweLimitConfiguration) (x y : Option OweLimitConfiguration) (k : Known)
      → learnt x y (learnt (here p cfg) (here q cfg) k)
        ≡ learnt
            (elim x [ some r ↦ some r | none ↦ here p cfg ])
            (elim y [ some r ↦ some r | none ↦ here q cfg ])
            k
  learnt-then p q cfg x y k = ground arith

  pub collect-known :
      (cfgs : List OweLimitConfiguration) (limits : GoMap Limit)
      → known (collect debtor cfgs limits c)
        ≡ learnt
            (last_row (custom_for debtor c) cfgs)
            (last_row (default_for c) cfgs)
            (known (limits c))
  unfolding collect last_row step
  collect-known [] limits = sym (learnt_nothing (known (limits c)))
  collect-known (cfg ∷ cfgs) limits =
      collect-known cfgs (step cfg limits)
      ∙ rw (step-known cfg limits)
          (learnt-then (custom_for debtor c cfg) (default_for c cfg) cfg _ _ _)

  applied-Consistent :
      (cfg : OweLimitConfiguration) (o : Option Limit)
      → Consistent o
      → Consistent (some (apply_cfg debtor cfg (new_limit o)))
  applied-Consistent cfg none h l e u = ground arith
  applied-Consistent cfg (some m) h l e u = ground (arith, h m refl)

  pub collect-Consistent :
      (cfgs : List OweLimitConfiguration) (limits : GoMap Limit)
      → ((i : ℕ) → Consistent (limits i))
      → Consistent (collect debtor cfgs limits c)
  unfolding collect
  collect-Consistent [] limits h = h c
  collect-Consistent (cfg ∷ cfgs) limits h = collect-Consistent cfgs _ λ i.
      elim (Bool-cases (i == cfg.team_id)) [
        | inl same ↦ rw same (applied-Consistent cfg (limits cfg.team_id) (h cfg.team_id))
        | inr other ↦ rw other (h i)
      ]
