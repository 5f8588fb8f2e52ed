-- ===== src/Hash.antt =====
-- hash/Hash.c: the chained hash table. `Chain` is one bucket, `Table` the table over its buckets.
pub mod Chain
pub mod Table
mod Tests
