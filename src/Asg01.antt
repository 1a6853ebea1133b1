-- ===== src/Asg01.antt =====
-- Asg01/assignment1.c.
pub mod Sort
pub mod Words
pub mod Convert
pub mod Chain
mod Tests
