-- ===== src/Models/Enums.antt =====
-- The enumerations of invoice_iface.v2 as far as the service names their values, and the units.
use invoice_service.Prelude.{ℕ, ◌≡◌, ◌↔◌, Bool, true, false, arith}
use invoice_service.Prelude.Int.{ℤ}

abbrev pub Time : Type 0
Time = ℕ

abbrev pub Amount : Type 0
Amount = ℤ

pub data BalanceType : Type 0 where
  type_unspecified payable receivable : BalanceType

pub data BalanceChangeType : Type 0 where
  change_unspecified adjustment warehouse_fee cod_fee product_fee payment stock_problem :
      BalanceChangeType

pub data OrderSystem : Type 0 where
  system_unspecified legacy v3 : OrderSystem

pub data PaymentStatus : Type 0 where
  status_unspecified pending accepted rejected : PaymentStatus

abbrev pub same_type : BalanceType → BalanceType → Bool
same_type type_unspecified type_unspecified = true
same_type payable payable = true
same_type receivable receivable = true
same_type _ _ = false

abbrev pub is_pending : PaymentStatus → Bool
is_pending pending = true
is_pending _ = false

abbrev pub is_accepted : PaymentStatus → Bool
is_accepted accepted = true
is_accepted _ = false

pub same_type_iff : (a b : BalanceType) → (same_type a b ≡ true) ↔ (a ≡ b)
same_type_iff a b = ground arith

abbrev pub same_change : BalanceChangeType → BalanceChangeType → Bool
same_change change_unspecified change_unspecified = true
same_change adjustment adjustment = true
same_change warehouse_fee warehouse_fee = true
same_change cod_fee cod_fee = true
same_change product_fee product_fee = true
same_change payment payment = true
same_change stock_problem stock_problem = true
same_change _ _ = false

pub same_change_iff : (a b : BalanceChangeType) → (same_change a b ≡ true) ↔ (a ≡ b)
same_change_iff a b = ground arith
