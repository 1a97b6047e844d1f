-- ===== src/Models/Shop.antt =====
-- Tables of other services that the handlers read, with the columns that their queries name. A
-- nullable column is an `Option`.
use Prim.Native.String.{String}
use invoice_service.Prelude.{ℕ, Bool, Option, List}
use invoice_service.Models.Enums.{Time, Amount}

pub record Order : Type 0 where
  pub id : ℕ
  pub team_id : ℕ
  pub order_ref_id : String
  pub created_by_id : ℕ
  pub warehouse_fee : Amount
  pub invertory_tx_id : Option ℕ

pub record OrderItem : Type 0 where
  pub order_id : ℕ
  pub product_id : ℕ
  pub owned : Option Bool
  pub count : ℕ
  pub total : Amount
  pub product_name : String

pub record Product : Type 0 where
  pub id : ℕ
  pub team_id : ℕ
  pub name : String

pub record InvTransaction : Type 0 where
  pub id : ℕ
  pub team_id : ℕ
  pub warehouse_id : ℕ

pub record RestockCost : Type 0 where
  pub inv_transaction_id : ℕ
  pub cod_fee : Amount

pub data ProblemType : Type 0 where
  lost_w broken_w other_problem : ProblemType

pub record InvItemProblem : Type 0 where
  pub tx_id : ℕ
  pub tx_item_id : ℕ
  pub problem_type : ProblemType

pub record InvTxItem : Type 0 where
  pub id : ℕ
  pub sku_id : ℕ
  pub total : Amount

pub record Sku : Type 0 where
  pub id : ℕ
  pub team_id : ℕ
  pub product_id : ℕ

pub data InvoiceStatus : Type 0 where
  not_final not_paid paid cancel : InvoiceStatus

-- The constants of db_models.InvoiceType that the service names, the empty text, and the other texts.
pub data InvoiceType : Type 0 where
  no_type ship_fee_type warehouse_adjustment product_adjustment common_adjustment : InvoiceType
  other_invoice_type : String → InvoiceType

pub record Invoice : Type 0 where
  pub id : ℕ
  pub tx_id : Option ℕ
  pub order_id : Option ℕ
  pub from_team_id : ℕ
  pub to_team_id : ℕ
  pub status : InvoiceStatus
  pub amount : Amount
  pub type : InvoiceType
  pub created : Time
  pub need_adj : Bool
  pub has_submission : Bool
  pub hist_id : Option ℕ
  pub paid_at : Option Time
  pub accepted_at : Option Time

pub data SubmissionStatus : Type 0 where
  submitted submission_accepted submission_rejected : SubmissionStatus

pub record PaymentSubmission : Type 0 where
  pub id : ℕ
  pub amount : Amount
  pub created_by_id : ℕ
  pub status : SubmissionStatus
  pub completed_by_id : Option ℕ
  pub receipt : String
  pub created_at : Time

pub record PaymentSubmissionLog : Type 0 where
  pub status : SubmissionStatus
  pub from : String
  pub by_user_id : ℕ
  pub payment_submission_id : ℕ
  pub created_at : Time

pub record PaymentHistory : Type 0 where
  pub id : ℕ
  pub amount : Amount
  pub created_by_id : ℕ
  pub created_at : Time

-- The join table invoice_payment_submission.
pub record SubmissionInvoice : Type 0 where
  pub payment_submission_id : ℕ
  pub invoice_id : ℕ

-- The constants of db_models.TeamType, and the other texts that the column may hold.
pub data TeamType : Type 0 where
  warehouse_team selling_team admin_team root_team : TeamType
  other_team : String → TeamType

pub record Team : Type 0 where
  pub id : ℕ
  pub name : String
  pub type : TeamType

pub record Shop : Type 0 where
  pub teams : List Team
  pub orders : List Order
  pub order_items : List OrderItem
  pub products : List Product
  pub inv_transactions : List InvTransaction
  pub restock_costs : List RestockCost
  pub inv_item_problems : List InvItemProblem
  pub inv_tx_items : List InvTxItem
  pub skus : List Sku
  pub invoices : List Invoice
  pub invoice_seq : ℕ
  pub payment_submissions : List PaymentSubmission
  pub submission_seq : ℕ
  pub submission_logs : List PaymentSubmissionLog
  pub payment_histories : List PaymentHistory
  pub history_seq : ℕ
  pub invoice_payment_submissions : List SubmissionInvoice
