-- ===== src/Models.antt =====
-- The rows that the service stores: invoice_models/*.go and db_migrations/*.sql, with the
-- enumerations of the protobuf schema that they use. Ids of teams, users, orders and rows are
-- natural numbers, an amount of money is an integer number of thousandths of the currency unit,
-- and a time is a number of nanoseconds since the Unix epoch.
pub mod Enums
pub mod Ledger
pub mod Payment
pub mod OweLimit
pub mod Shop
