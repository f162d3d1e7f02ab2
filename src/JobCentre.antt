-- ===== src/JobCentre.antt =====
-- 9-job-centre: the job queues, the request handler, the connections, and what they promise together.
mod Tests
pub mod Heap
pub mod Queues
pub mod Handler
pub mod Requests
pub mod Centre
