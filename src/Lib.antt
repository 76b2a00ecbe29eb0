-- ===== src/Lib.antt =====
-- Pilosa is a distributed bitmap index. A field's data is split into views and shards; the data of
-- one view in one shard is a fragment, a matrix of rows and columns that is stored in one roaring
-- bitmap. This library models the parts of that stack that compute:
--
--   * Roaring (roaring/roaring.go): array containers, ascending lists of 16-bit values. Search
--     holds `search32`, Array the merges `intersectArrayArray`, `unionArrayArray`,
--     `xorArrayArray` and `intersectionCountArrayArray`, Update `arrayContains`, `arrayAdd`
--     and `arrayRemove`, Difference `differenceArrayArray`, whose output may become a bitmap. Sorted says what an array container is. Run holds
--     the run containers: `runAppendInterval` with `unionRunRun`, `unionArrayRun`, `intersectRunRun`,
--     `intersectArrayRun` and `intersectionCountRunRun`, up to the change to another kind of
--     container, in Update `runAdd`, `binSearchRuns` and `runRemove`, and in Range `runCountRange`;
--     Run.Sets says which values runs stand for. Bitset holds the bitmap containers (`bitmapAdd`,
--     `bitmapContains`, `arrayToBitmap`, `bitmapToArray`, and in Range `bitmapCountRange`),
--     Container `add`, `remove` and `Contains` of a container of any kind; Container.Kinds says what
--     a well-formed container is and which values it has. Intersect holds `intersect` for all pairs
--     of kinds with `runToArray` and `runToBitmap`, IntersectionCount `intersectionCount`, `countRange`
--     and `count`, Union `union` with `bitmapSetRange`. Size counts the values of a set, Common.Shifts has Go's shifts and masks of uint64.
--     Btree the bitmap over `bTreeContainers` (roaring/containers_btree.go):
--     `DirectAdd`, `remove`, `Contains`, `Get`, `Put` and `GetOrCreate`.
--   * Row (row.go): the interface of a `*Row` that the rest of the program uses, as operations with
--     laws about the columns of one shard; across shards only `Union` is used. Roaring.Rows gives it
--     by array containers.
--   * Pql.Token (pql/token.go): the operators of a condition.
--   * Fragment (fragment.go): Bsi and Range hold the bit-sliced integers and their range queries
--     (`rangeOp` and all below it), Extreme `min` and `max`, State the fragment's
--     state with `unprotectedSetBit` and `unprotectedClearBit`, Value the functions `value`,
--     `setValue` and `clearValue`. Storage is the interface of the roaring bitmap under a fragment
--     and of its cache of row counts.
--   * View (view.go): `min` and `rangeOp` of a view, over the answers of its fragments.
--   * Cluster (cluster.go): Nodes holds the sorted node list (`unprotectedNodeByID`,
--     `nodePositionByID`, `addNodeBasicSorted`, `removeNodeBasicSorted`), Placement the nodes that
--     own a partition (`partitionNodes`), Topology the IDs of the topology (`addID`, `removeID`) and
--     the state of the cluster (`determineClusterState`, `receiveNodeState`), Diff the node that a
--     change of the list adds or removes (`diff`), Frags the fragments that a node lacks (`fragsDiff`), Resize
--     a resize job (`newResizeJob`, `run`, `setState`, `markResizeInstructionComplete`), where the
--     sending of instructions is a Boolean input.
--   * Iterator (iterator.go): `bufIterator`, `limitIterator` and `sliceIterator` over the interface
--     of an iterator; Pairs says what an iterator has left.
--   * Field (field.go): Depth holds `bitDepth` and `bitDepthInt64`, Group the `bsiGroup` with
--     `bitDepthMin`, `bitDepthMax`, `baseValue` and `baseValueBetween`, Values the `SetValue` and
--     `Value` of an integer field, down to the fragment.
--   * Executor.RowBsi (executor.go): `executeRowBSIGroupShard`, a condition on an integer field.
--     Pql.Condition (pql/ast.go) holds the condition and `IntSliceValue`.
--
-- Numbers of Go's unsigned types are native numbers, with the wrap-around written out where a sum
-- can reach it. An int64 is an integer of Common.Int; Common.Int64 wraps a result to 64 bits. A Go
-- loop over slices by indices is a recursion on what the indices have left; a counted loop recurs
-- on the rounds left. Two loops run on fuel. The binary search of `search32` has the length of the
-- array as fuel: a lemma beside it says that more fuel than the width of the range changes nothing.
-- The loop of `bitmapToArray` over the ones of a word has 64 rounds, and the proof about its array
-- shows that no bit is left. The loop of `intersectBitmapRun` over the words of a run has as many
-- rounds as the bitmap has words left, which is its own test.
--
-- The changes of a container that Go makes in place, and those that replace it, both return the
-- changed container. The tree of `bTreeContainers` enters by the interface Roaring.Btree.TreeOps.
--
-- A method that changes a fragment returns the new fragment and a value or an error. The roaring
-- bitmap's op log may fail to be written, and then the bitmap is unchanged. The positions of a
-- fragment wrap at 2^64 as they do in Go, so far rows share their positions with near ones; the
-- theorems that tell rows apart take a shard width that is a power of two with an exponent of at
-- most 32, as every build has, and rows below the wrap. `bitmapCountRange`, and what calls it,
-- returns none where Go's index panics. Statistics, logs, locks
-- and the reopening of files are left out.
--
-- Not modelled: the B-tree under the containers, which is another project's code and a parameter,
-- the slice of containers, frozen and mapped containers, the file format, the sources
-- of fragments and the queue of resize jobs, the rest of the executor, the holder, the parser of the query language, the
-- stores on BoltDB, the servers and command lines. The IDs of nodes and the names of
-- fields and views are numbers in place of strings, of which only equality and order are used.
pub mod Common
pub mod Pql
pub mod Row
pub mod Roaring
pub mod Cluster
pub mod Field
pub mod Executor
pub mod View
pub mod Fragment
pub mod Iterator
mod Examples
