-- ===== src/OweLimit.antt =====
-- invoice_v2/check_owe_limit.go and the owe_limit_*.go handlers: how much a debtor team may owe a
-- creditor team. A Go map is a function to `Option`; a NULL column is scanned to the zero value.
pub mod Rules
pub mod Answers
pub mod Rounds
use invoice_service.Prelude.{
  ℕ, suc, ◌&&◌, ◌||◌, Bool, true, false, not, Option, none, some, List, [], ◌∷◌, ◌++◌, ◌==◌,
  if◌then◌else◌,
}
use invoice_service.Prelude.Int.{pos, neg, ltb_ℤ, eqb_ℤ}
use invoice_service.Prelude.Rows.{find_row, update_rows, filter_rows}
use invoice_service.Models.Enums.{Amount, payable, same_type}
use invoice_service.Models.Ledger.{TeamBalance}
use invoice_service.Models.OweLimit.{OweLimitConfiguration}
use invoice_service.Store.{
  Db, teams_must_differ, M, pure, guard, query, execute, ◌>>=◌, ◌>>◌, transaction,
}

abbrev pub elem : ℕ → List ℕ → Bool
elem x [] = false
elem x (y ∷ ys) = x == y || elem x ys

abbrev pub GoMap : Type 0 → Type 0
GoMap A = ℕ → Option A

module _ {A : Type 0} where
  abbrev pub no_keys : GoMap A
  no_keys _ = none

  abbrev pub put : ℕ → A → GoMap A → GoMap A
  put k a m i = if i == k then some a else m i

-- SQL's `is_default = true` and `is_default IS NOT TRUE`, and `for_team_id = ?`.
abbrev pub is_default_row : OweLimitConfiguration → Bool
is_default_row cfg = elim cfg.is_default [ some b ↦ b | none ↦ false ]

abbrev pub is_for_team : ℕ → OweLimitConfiguration → Bool
is_for_team team cfg = elim cfg.for_team_id [ some t ↦ t == team | none ↦ false ]

pub record OweLimitAllow : Type 0 where
  pub allow : Bool
  pub threshold : Amount
  pub active_amount : Amount

abbrev pub allowed : OweLimitAllow
allowed = record { allow = true; threshold = pos 0; active_amount = pos 0 }

pub record Limit : Type 0 where
  pub threshold : Amount
  pub has_custom : Bool
  pub has_cfg : Bool

abbrev pub new_limit : Option Limit → Limit
new_limit none = record { threshold = pos 0; has_custom = false; has_cfg = false }
new_limit (some l) = l

abbrev pub is_custom : ℕ → OweLimitConfiguration → Bool
is_custom debtor cfg = not (is_default_row cfg) && is_for_team debtor cfg

abbrev pub apply_cfg : ℕ → OweLimitConfiguration → Limit → Limit
apply_cfg debtor cfg l =
    if is_custom debtor cfg
    then record { threshold = cfg.threshold; has_custom = true; has_cfg = true }
    else if is_default_row cfg && not l.has_custom
    then record { threshold = cfg.threshold; has_custom = l.has_custom; has_cfg = true }
    else l

unfoldable pub collect : ℕ → List OweLimitConfiguration → GoMap Limit → GoMap Limit
collect debtor [] limits = limits
collect debtor (cfg ∷ cfgs) limits =
    collect debtor cfgs
      (put cfg.team_id (apply_cfg debtor cfg (new_limit (limits cfg.team_id))) limits)

abbrev pub names_debtor : ℕ → List ℕ → OweLimitConfiguration → Bool
names_debtor debtor creditors cfg =
    elem cfg.team_id creditors && (is_for_team debtor cfg || is_default_row cfg)

abbrev pub owes_one_of : ℕ → List ℕ → TeamBalance → Bool
owes_one_of debtor creditors b =
    b.team_id == debtor && (elem b.for_team_id creditors && same_type b.balance_type payable)

unfoldable pub debts : List TeamBalance → GoMap Amount → GoMap Amount
debts [] debt_of = debt_of
debts (b ∷ bs) debt_of = debts bs (put b.for_team_id (neg b.balance) debt_of)

abbrev pub debt_or_zero : Option Amount → Amount
debt_or_zero none = pos 0
debt_or_zero (some debt) = debt

abbrev pub verdict : Option Limit → Amount → OweLimitAllow → OweLimitAllow
verdict none debt was = was
verdict (some l) debt was = if not l.has_cfg then was else record {
  allow = if eqb_ℤ l.threshold (pos 0) then was.allow else ltb_ℤ debt l.threshold;
  threshold = l.threshold;
  active_amount = debt;
}

-- Every creditor has its entry when the verdicts are written, so `none` does not occur.
abbrev pub judged : Option Limit → Amount → Option OweLimitAllow → OweLimitAllow
judged l debt none = verdict l debt allowed
judged l debt (some was) = verdict l debt was

unfoldable pub allow_all : List ℕ → GoMap OweLimitAllow → GoMap OweLimitAllow
allow_all [] result = result
allow_all (c ∷ cs) result = allow_all cs (put c allowed result)

unfoldable pub judge_all :
    List ℕ → GoMap Limit → GoMap Amount → GoMap OweLimitAllow → GoMap OweLimitAllow
judge_all [] limits debt_of result = result
judge_all (c ∷ cs) limits debt_of result =
    judge_all cs limits debt_of
      (put c (judged (limits c) (debt_or_zero (debt_of c)) (result c)) result)

abbrev pub evaluate_some : ℕ → List ℕ → M (GoMap OweLimitAllow)
evaluate_some debtor creditors = do
  cfgs ← query (λ d. filter_rows (names_debtor debtor creditors) d.configs)
  balances ← query (λ d. filter_rows (owes_one_of debtor creditors) d.balances)
  pure (
      judge_all creditors (collect debtor cfgs no_keys) (debts balances no_keys)
        (allow_all creditors no_keys))

unfoldable pub evaluate_owe_limits : ℕ → List ℕ → M (GoMap OweLimitAllow)
evaluate_owe_limits debtor [] = pure no_keys
evaluate_owe_limits debtor (c ∷ cs) = evaluate_some debtor (c ∷ cs)

unfoldable pub check_owe_limit : ℕ → List ℕ → M (GoMap OweLimitAllow)
check_owe_limit team cfg_teams = evaluate_owe_limits team cfg_teams

abbrev pub is_default_of : ℕ → OweLimitConfiguration → Bool
is_default_of team cfg = cfg.team_id == team && is_default_row cfg

abbrev pub is_custom_of : ℕ → ℕ → OweLimitConfiguration → Bool
is_custom_of team for_team cfg =
    cfg.team_id == team && (is_for_team for_team cfg && not (is_default_row cfg))

abbrev pub insert_config : (ℕ → OweLimitConfiguration) → Db → Db
insert_config row d = record d {
  configs = d.configs ++ row d.config_seq ∷ [];
  config_seq = suc d.config_seq;
}

abbrev pub has_config_id : ℕ → OweLimitConfiguration → Bool
has_config_id i cfg = cfg.id == i

abbrev pub with_threshold : Amount → OweLimitConfiguration → OweLimitConfiguration
with_threshold threshold cfg = record cfg { threshold = threshold }

abbrev pub set_threshold : ℕ → Amount → Db → Db
set_threshold i threshold d = record d {
  configs = update_rows (has_config_id i) (with_threshold threshold) d.configs;
}

-- No row: it is created; a row: its threshold is updated.
abbrev pub upsert :
    (ℕ → OweLimitConfiguration) → Amount → Option OweLimitConfiguration → M (Unit {0})
upsert row threshold none = execute (insert_config row)
upsert row threshold (some cfg) = execute (set_threshold cfg.id threshold)

abbrev pub default_row : ℕ → Amount → ℕ → OweLimitConfiguration
default_row team threshold i = record {
  id = i;
  team_id = team;
  is_default = some true;
  for_team_id = none;
  threshold = threshold;
}

abbrev pub custom_row : ℕ → ℕ → Amount → ℕ → OweLimitConfiguration
custom_row team for_team threshold i = record {
  id = i;
  team_id = team;
  is_default = some false;
  for_team_id = some for_team;
  threshold = threshold;
}

unfoldable pub owe_limit_default_set : ℕ → Amount → M (Unit {0})
unfolding query
owe_limit_default_set team threshold = transaction do
  found ← query (λ d. find_row (is_default_of team) d.configs)
  upsert (default_row team threshold) threshold found

unfoldable pub owe_limit_custom_set : ℕ → ℕ → Amount → M (Unit {0})
unfolding query
owe_limit_custom_set team for_team threshold = do
  guard (team == for_team) teams_must_differ
  transaction do
    found ← query (λ d. find_row (is_custom_of team for_team) d.configs)
    upsert (custom_row team for_team threshold) threshold found

unfoldable pub owe_limit_custom_delete : ℕ → ℕ → M (Unit {0})
unfolding execute
owe_limit_custom_delete team for_team = execute (λ d. record d {
  configs = filter_rows (λ cfg. not (is_custom_of team for_team cfg)) d.configs;
})

pub record OweLimitDefault : Type 0 where
  pub configured : Bool
  pub threshold : Amount

abbrev pub default_response : Option OweLimitConfiguration → OweLimitDefault
default_response none = record { configured = false; threshold = pos 0 }
default_response (some cfg) = record { configured = true; threshold = cfg.threshold }

unfoldable pub owe_limit_default_get : ℕ → M OweLimitDefault
unfolding query
owe_limit_default_get team = do
  found ← query (λ d. find_row (is_default_of team) d.configs)
  pure (default_response found)
