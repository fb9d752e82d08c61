-- ===== src/Number.antt =====
-- The numbers of the program. A JavaScript number is modelled by an exact fraction: the program
-- computes with amounts, prices and lots that come from decimal columns, and the rounding of the
-- binary floating point is left out. `toFixed` and `Math.floor` round as the language says.
pub mod Defs
pub mod Order
pub mod Rounding
pub mod Signs
pub mod Decimals
