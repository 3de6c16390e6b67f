-- ===== src/Sql.antt =====
-- What the services rely on of the database that Prisma and PostgreSQL give them. Neither is code
-- of the repository, so both are a parameter: a record of operations on tables with their
-- documented behaviour. A schema names a table's primary key and its other unique column, which
-- may be null (prisma/schema.prisma of each service). `Sql.ListTables` is a value of the record.
mod Defs
mod Derived
pub mod ListTables
pub use Defs.*
pub use Derived.*
