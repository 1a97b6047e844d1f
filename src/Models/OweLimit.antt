-- ===== src/Models/OweLimit.antt =====
-- The table owe_limit_configurations, db_migrations/00005_harden_owe_limit_configurations.sql.
use invoice_service.Prelude.{ℕ, Bool, Option}
use invoice_service.Models.Enums.{Amount}

-- `is_default` and `for_team_id` are nullable columns.
pub record OweLimitConfiguration : Type 0 where
  pub id : ℕ
  pub team_id : ℕ
  pub is_default : Option Bool
  pub for_team_id : Option ℕ
  pub threshold : Amount
