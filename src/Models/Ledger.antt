-- ===== src/Models/Ledger.antt =====
-- invoice_models/log.go: the balances, the change log, its order attribution and the daily rollup.
use Prim.Native.String.{String}
use invoice_service.Prelude.{ℕ, ◌≡◌, ◌↔◌, Bool, true, ◌&&◌, arith, ◌==◌}
use invoice_service.Models.Enums.{
  Time, Amount, BalanceType, BalanceChangeType, OrderSystem, same_type,
}

pub record BalanceChangeLog : Type 0 where
  pub id : ℕ
  pub team_id : ℕ
  pub for_team_id : ℕ
  pub change_type : BalanceChangeType
  pub change_amount : Amount
  pub balance_type : BalanceType
  pub balance : Amount
  pub note : String
  pub created_by_id : ℕ
  pub created_at : Time

pub record BalanceChangeOrderSource : Type 0 where
  pub balance_change_log_id : ℕ
  pub order_system : OrderSystem
  pub order_id : ℕ
  pub team_id : ℕ
  pub warehouse_id : ℕ
  pub created_at : Time

pub record TeamBalance : Type 0 where
  pub id : ℕ
  pub team_id : ℕ
  pub for_team_id : ℕ
  pub balance_type : BalanceType
  pub balance : Amount
  pub pending_payment_amount : Amount
  pub created_at : Time
  pub updated_at : Time

pub record TeamBalanceDailyLog : Type 0 where
  pub day : Time
  pub team_id : ℕ
  pub for_team_id : ℕ
  pub balance_type : BalanceType
  pub start_balance : Amount
  pub end_balance : Amount
  pub change_amount : Amount
  pub updated_at : Time
  pub created_at : Time

-- What the statements select rows by: the team, its counterparty and the balance type.
pub record Account : Type 0 where
  pub team : ℕ
  pub for_team : ℕ
  pub kind : BalanceType

abbrev pub same_account : Account → Account → Bool
same_account a b = a.team == b.team && a.for_team == b.for_team && same_type a.kind b.kind

pub same_account_iff : (a b : Account) → (same_account a b ≡ true) ↔ (a ≡ b)
same_account_iff a b = ground arith

-- team_id = ? AND for_team_id = ? AND balance_type = ?
abbrev pub on_account : Account → TeamBalance → Bool
on_account k r =
    same_account (record { team = r.team_id; for_team = r.for_team_id; kind = r.balance_type }) k

abbrev pub logged_on : Account → BalanceChangeLog → Bool
logged_on k r =
    same_account (record { team = r.team_id; for_team = r.for_team_id; kind = r.balance_type }) k

-- day = ? AND team_id = ? AND for_team_id = ? AND balance_type = ?
abbrev pub on_day : Time → Account → TeamBalanceDailyLog → Bool
on_day d k r =
    r.day == d
    && same_account (record { team = r.team_id; for_team = r.for_team_id; kind = r.balance_type }) k
