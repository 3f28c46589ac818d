-- ===== src/Mm.antt =====
-- linux-0.11/mm/memory.c: physical pages and page tables.
pub mod Pages
pub mod Tables
