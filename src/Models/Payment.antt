-- ===== src/Models/Payment.antt =====
-- invoice_models/payment.go and invoice_models/exactly_once_log.go.
use Prim.Native.String.{String}
use invoice_service.Prelude.{ℕ, Option}
use invoice_service.Models.Enums.{Time, Amount, PaymentStatus}

pub record InvoicePayment : Type 0 where
  pub id : ℕ
  pub team_id : ℕ
  pub for_team_id : ℕ
  pub document_id : String
  pub amount : Amount
  pub note : String
  pub status : PaymentStatus
  pub created_by_id : ℕ
  pub completed_by_id : Option ℕ
  pub created_at : Time
  pub accepted_at : Option Time
  pub rejected_at : Option Time
  pub updated_at : Time

pub record InvoiceExactlyOnceLog : Type 0 where
  pub id : String
  pub subscription : String
  pub created_at : Time
