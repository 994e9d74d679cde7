-- ===== src/Recalc.antt =====
-- The recalculation of the statistics in the background: a queue of requests in the database
-- (burger_stats_recalc_requests, shop_stats_recalc_requests), which every write of a review fills
-- in its own transaction, and the workers that empty it.
pub mod Backoff
pub mod Queue
pub mod System
