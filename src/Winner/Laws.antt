-- ===== src/Winner/Laws.antt =====
-- Who wins: Top is about the candidates, Chain about the loop over the rules, First about the order of
-- the positions, Result about the result, Places and Leader about the first row of its table.
pub mod Top
pub mod Chain
pub mod First
pub mod Result
pub mod Places
pub mod Leader
