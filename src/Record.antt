-- ===== src/Record.antt =====
-- record/: types, fields, columns, schemas and rows.
pub mod Order
pub mod Types
pub mod TypeInt
pub mod TypeFloat
pub mod TypeChar
pub mod Field
pub mod Column
pub mod Schema
pub mod Row
mod Tests
