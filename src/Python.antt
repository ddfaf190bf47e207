-- ===== src/Python.antt =====
-- What the program takes from Python: exceptions, values of a dynamic type, dictionaries.
pub mod Errors
pub mod Json
pub mod Exec
pub mod Regex
