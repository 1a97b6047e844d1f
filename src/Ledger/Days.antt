-- ===== src/Ledger/Days.antt =====
-- `startOfJakartaDay`: the days that the daily rollup is keyed by.
use invoice_service.Prelude.{◌≡◌, ◌≤◌, ◌<◌, ◌+◌, ◌%◌, arith}
use invoice_service.Models.Enums.{Time}
use invoice_service.Ledger.{start_of_jakarta_day}

-- From the first full day on, the start of the day of an instant is an instant at 17:00 UTC, which is
-- midnight in Jakarta; it is not after the instant, the instant is less than 24 hours after it, and
-- every other instant of those 24 hours has the same start.
pub start_of_jakarta_day_lem :
    (t u : Time)
    → 86_400_000_000_000 ≤ t
    → start_of_jakarta_day t ≤ u
    → u < start_of_jakarta_day t + 86_400_000_000_000
    → (start_of_jakarta_day t % 86_400_000_000_000 ≡ 61_200_000_000_000)
      × (start_of_jakarta_day t ≤ t)
      × (t < start_of_jakarta_day t + 86_400_000_000_000)
      × (start_of_jakarta_day u ≡ start_of_jakarta_day t)
unfolding start_of_jakarta_day
start_of_jakarta_day_lem t u late from to = (omega arith, omega arith, omega arith, omega arith)
