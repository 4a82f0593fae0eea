-- ===== src/Schema.antt =====
-- The data model: apps/server/prisma/schema.prisma and apps/server/src/common/enums.ts.
-- Keys are numbers, in the order in which the database collates them; moments are whole
-- milliseconds; a text is the list of its character codes; a `Float` column is of type `F`.
mod Enums
mod Tables
pub mod Keys
pub mod Queries
pub use Enums.*
pub use Tables.*
