-- ===== src/Store.antt =====
-- The tables that the MDM endpoints read and write (commandment/models.py, apps/models.py and
-- inventory/models.py), and the database session. A session holds the stored tables and the
-- working ones, which its queries see; `commit` stores the working ones, and what is not committed
-- when a request ends is dropped. An inserted row takes the next number of its table.
pub mod Rows
pub mod Session
pub mod Keys
pub mod Tables
