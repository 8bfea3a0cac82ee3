-- ===== src/Py.antt =====
-- What the program uses of Python: values decoded from JSON, exceptions, text, and effects.
pub mod Value
pub mod Text
pub mod Result
pub mod Effect
