-- ===== src/Db.antt =====
-- The PostgreSQL store: server/internal/db, with the rows of data/models.go and the statements of
-- data/*.sql.go as functions of the committed tables.
pub mod Models
pub mod Driver
pub mod Sessions
pub mod Workers
pub mod ApiKeys
