-- ===== src/Python.antt =====
-- What the scripts use of Python's language and standard library: dicts in insertion order, `sorted`,
-- `str.strip`, `str.split` and `int`.
pub mod Dict
pub mod Sort
pub mod Text
pub mod Csv
pub mod Number
pub mod Float
