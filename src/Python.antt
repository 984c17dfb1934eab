-- ===== src/Python.antt =====
-- What the source uses of Python itself: values of a plist or of JSON, dictionaries, exceptions
-- and statements that change an object and may raise.
pub mod Values
pub mod Dict
pub mod Exec
pub mod Spec
pub mod Slices
pub mod Fallible
