-- ===== src/Allocator.antt =====
-- The words of research/cadcad/allocator/allocator.py: books, modes and risks.
pub mod Assess
pub mod Borrow
pub mod Entry
pub mod Return
pub mod Switch

-- "bookA" and "bookB", which are also the indices 0 and 1 of the code.
pub data BookName : Type 0 where
  book_a book_b : BookName

pub data Mode : Type 0 where
  books arms : Mode

pub data Risk : Type 0 where
  normal high : Risk
