-- ===== src/Tournament.antt =====
-- The tournament records of the database (cope/core/models.py, cope/db/repo.py) and the queries and
-- updates of them that the scheduler makes.
pub mod Records
pub mod Store
pub mod Openings
pub mod Status
pub mod Queries
pub mod Inserts
