-- ===== src/Lists/Listed.antt =====
-- Which rows the lists ask for, said without the tests of the queries.
use invoice_service.Prelude.{
  ℕ, ◌≡◌, ◌≢◌, ◌≤◌, ◌↔◌, ◌⊎◌, refl, Bool, true, false, Option, none, some, ◌==◌, ◌&&◌, not, arith,
  ==_iff,
}
use invoice_service.Prelude.Selects.{&&_iff}
use invoice_service.Models.Enums.{Time, PaymentStatus, status_unspecified}
use invoice_service.Models.Payment.{InvoicePayment}
use invoice_service.Models.OweLimit.{OweLimitConfiguration}
use invoice_service.OweLimit.{is_default_row}
use invoice_service.Lists.{
  ListPaymentRequest, if_positive, if_status, if_from, if_to, is_outgoing, is_incoming,
  is_custom_row_of,
}

-- An id, a status, a bound of the time that a request leaves open, or asks for.
abbrev pub IsAsked : ℕ → ℕ → Type 0
IsAsked asked x = (asked ≡ 0) ⊎ (x ≡ asked)

abbrev pub IsAskedStatus : PaymentStatus → PaymentStatus → Type 0
IsAskedStatus asked s = (asked ≡ status_unspecified) ⊎ (s ≡ asked)

abbrev pub IsFrom : Option Time → Time → Type 0
IsFrom none t = Unit
IsFrom (some from) t = from ≤ t

abbrev pub IsTo : Option Time → Time → Type 0
IsTo none t = Unit
IsTo (some to) t = t ≤ to

-- Its status and time are those that the request asks for.
abbrev pub IsWithin : ListPaymentRequest → InvoicePayment → Type 0
IsWithin pay p =
    IsAskedStatus pay.status p.status
    × (IsFrom pay.from_time p.created_at × IsTo pay.to_time p.created_at)

-- The payments of the requesting team, to the other one where it is asked for.
abbrev pub IsOutgoing : ListPaymentRequest → InvoicePayment → Type 0
IsOutgoing pay p =
    (p.team_id ≡ pay.team_id) × (IsAsked pay.for_team_id p.for_team_id × IsWithin pay p)

-- The payments to the requesting team, by the other one where it is asked for.
abbrev pub IsIncoming : ListPaymentRequest → InvoicePayment → Type 0
IsIncoming pay p =
    (p.for_team_id ≡ pay.for_team_id) × (IsAsked pay.team_id p.team_id × IsWithin pay p)

-- The rows of the team that are not its default and name a debtor.
abbrev pub IsCustomRowOf : ℕ → OweLimitConfiguration → Type 0
IsCustomRowOf team cfg =
    (cfg.team_id ≡ team) × ((cfg.is_default ≢ some true) × ((t : ℕ) × (cfg.for_team_id ≡ some t)))

pub if_positive_iff : (asked x : ℕ) → (if_positive asked x ≡ true) ↔ IsAsked asked x
if_positive_iff asked x = ground arith

if_status_iff : (asked s : PaymentStatus) → (if_status asked s ≡ true) ↔ IsAskedStatus asked s
if_status_iff asked s = ground arith

if_from_iff : (from : Option Time) (t : Time) → (if_from from t ≡ true) ↔ IsFrom from t
if_from_iff none t = (λ e. tt, λ h. refl)
if_from_iff (some from) t = ground arith

if_to_iff : (to : Option Time) (t : Time) → (if_to to t ≡ true) ↔ IsTo to t
if_to_iff none t = (λ e. tt, λ h. refl)
if_to_iff (some to) t = ground arith

status_and_time_iff :
    (pay : ListPaymentRequest) (p : InvoicePayment)
    → ((if_status pay.status p.status
          && (if_from pay.from_time p.created_at && if_to pay.to_time p.created_at))
        ≡ true)
      ↔ IsWithin pay p
status_and_time_iff pay p =
    &&_iff (if_status pay.status p.status) _ (if_status_iff pay.status p.status) (
      &&_iff (if_from pay.from_time p.created_at) (if_to pay.to_time p.created_at)
        (if_from_iff pay.from_time p.created_at) (if_to_iff pay.to_time p.created_at))

pub is_outgoing-iff-IsOutgoing :
    (pay : ListPaymentRequest) (p : InvoicePayment) → (is_outgoing pay p ≡ true) ↔ IsOutgoing pay p
is_outgoing-iff-IsOutgoing pay p =
    &&_iff (p.team_id == pay.team_id) _ (==_iff p.team_id pay.team_id) (
      &&_iff (if_positive pay.for_team_id p.for_team_id) _
        (if_positive_iff pay.for_team_id p.for_team_id) (status_and_time_iff pay p))

pub is_incoming-iff-IsIncoming :
    (pay : ListPaymentRequest) (p : InvoicePayment) → (is_incoming pay p ≡ true) ↔ IsIncoming pay p
is_incoming-iff-IsIncoming pay p =
    &&_iff (p.for_team_id == pay.for_team_id) _ (==_iff p.for_team_id pay.for_team_id) (
      &&_iff (if_positive pay.team_id p.team_id) _ (if_positive_iff pay.team_id p.team_id)
        (status_and_time_iff pay p))

names_debtor_iff :
    (o : Option ℕ) → ((elim o [ some t ↦ true | none ↦ false ]) ≡ true) ↔ ((t : ℕ) × (o ≡ some t))
names_debtor_iff none = (λ e. absurd (ground arith), λ h. cc)
names_debtor_iff (some t) = (λ e. (t, refl), λ h. refl)

not_default_iff :
    (o : Option Bool) → (not (elim o [ some b ↦ b | none ↦ false ]) ≡ true) ↔ (o ≢ some true)
not_default_iff none = (λ e h. cc, λ h. refl)
not_default_iff (some true) = (λ e h. cc, λ h. absurd (h refl))
not_default_iff (some false) = (λ e h. absurd (ground arith), λ h. refl)

pub is_custom_row_of-iff-IsCustomRowOf :
    (team : ℕ) (cfg : OweLimitConfiguration)
    → (is_custom_row_of team cfg ≡ true) ↔ IsCustomRowOf team cfg
is_custom_row_of-iff-IsCustomRowOf team cfg =
    &&_iff (cfg.team_id == team) _ (==_iff cfg.team_id team) (
      &&_iff (not (is_default_row cfg)) _ (not_default_iff cfg.is_default)
        (names_debtor_iff cfg.for_team_id))
