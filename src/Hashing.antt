-- ===== src/Hashing.antt =====
-- The hash tables of triangle_counting/cuckoo_hashing.cpp and triangle_counting/simple_hashing.cpp
-- with the entries of debug_files/hash_table_entry.h. Their base class is not in the repository:
-- `HashToPosition`, which gives an element's address under each hash function, is a parameter.
pub mod Entry
pub mod Cuckoo
pub mod Simple
pub mod Agree
