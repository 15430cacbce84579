-- ===== src/Lib.antt =====
-- OpenSet, an event database for customer behaviour: the parts of its server that decide what is
-- stored, where it is stored and what a query returns, as executable definitions with their
-- theorems.
--
-- A node of the cluster takes events into SideLog, from which each partition of a table reads them
-- in order; each property value of a customer is kept as a bit in an IndexBits; PartitionMap says
-- which node holds which partition; a query runs on every partition, and Result merges the rows;
-- customers who enter or leave a segment become messages, which MessageBroker queues for web hooks.
--
-- IndexBits models src/indexbits.h and src/indexbits.cpp, the bit index that holds a set of
--   customers, one bit for each linear id; Word is its 64-bit words and the masks of src/dbtypes.h.
--   `bitSet` is `bit_set`, `opAnd` is `op_and`, and so on. A word is a number below 2 ^ 64. LZ4 is a
--   parameter of `store` and `mount` (IndexBits/Storage), of which they rely on one round trip.
-- SideLog models src/sidelog.h, the log of inserted transactions: `add`, `read`, `updateReadHead`,
--   `trimSideLog` and the others under the same names, and the block that moves a log to another
--   node (SideLog/Image, with Bytes for the numbers in memory).
-- PartitionMap models src/internodemapping.h and src/internodemapping.cpp, the map from partitions
--   to the nodes that hold them. Slots is one location with its six records, Document the exchange
--   of the map as JSON.
-- MessageBroker models src/message_broker.h and src/message_broker.cpp, the queues of segment
--   messages and the thread that posts them.
-- Attributes models src/attributes.h, src/attributes.cpp, src/attributeblob.cpp and the key of
--   src/dbtypes.h: the records with the customers of each property value, over IndexBits. The pool
--   is a map from addresses to records.
-- Segment models `SegmentPartitioned_s` of src/tablepartitioned.h and src/tablepartitioned.cpp, over
--   Attributes.
-- Customers models src/customers.h, src/customers.cpp and `PersonData_s` of src/grid.h: the
--   customers of a partition under their numbers and linear ids.
-- Properties models src/properties.h and src/properties.cpp, the properties of a table by index and by
--   name, over NameMap, a map by texts; PropertyMapping models src/property_mapping.h and
--   src/property_mapping.cpp, the columns that a query reads them in.
-- Grid models the rows of a customer in src/grid.h and src/grid.cpp: the end of `insertEvent` is
--   `insert_row`, over the event order of the table and the hash of a row, and `cull` is `cull`.
--   Grid/Codec is the bytes that `commit` writes and `prepare` reads, before LZ4; Grid/Diff
--   is `IndexDiffing`, the values that come and go with the rows.
-- AsyncPool models src/asyncpool.h and src/asyncpool.cpp: the lists of partitions that the workers of a
--   node run, without the threads.
-- QueryIndexing models src/queryindexing.h and src/queryindexing.cpp: the set of customers that a
--   condition selects, by a stack of IndexBits over Attributes. QueryIndexing/Meaning says what a
--   condition means, and what the lookups take for it.
-- Result models src/result.h and src/result.cpp: the rows of a query with their group keys, and the
--   merge of the sorted rows of all partitions (`mergeResultSets` is `merge_result_sets`).
-- Examples holds the theorems at concrete inputs.
--
-- Loops are recursions on lists or on the number of rounds left. Four loops run on fuel that is proved
-- to be enough: the merge of result sets takes a round for each row (Result/Merged), the search for the
-- hash of a text one more than there are customers (Customers/Names), the reading of rows a step for
-- each byte (Grid/Codec/Rows), and the binary search for the place of a row one more than there are
-- rows (Grid/Insert).
-- Locks make an operation of a class one step; what threads do between two operations is a sequence
-- of operations. Memory is never short. A linear id is a natural number, narrowed to 32 bits where a
-- record of Attributes keeps it, and the count of bits that `store` and `clearDirty` ask `population` for
-- wraps as an `int` does, which the theorems on them keep off by a bound of 2 ^ 25 on the words. In the
-- index on attributes a 64-bit value counts from LLONG_MIN, so that NONE is 0 and values compare as
-- their numbers do.
--
-- Not modelled: the compiler and the interpreter of queries, the parsing of events, the handlers of
-- requests, files, and the network.
pub mod Prelude
pub mod AsyncPool
pub mod NameMap
pub mod Properties
pub mod Word
pub mod Bytes
pub mod IndexBits
pub mod PartitionMap
pub mod Attributes
pub mod Customers
pub mod PropertyMapping
pub mod Grid
pub mod QueryIndexing
pub mod MessageBroker
pub mod Segment
pub mod SideLog
pub mod Result
pub mod Examples
