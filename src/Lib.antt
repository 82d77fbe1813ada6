-- ===== src/Lib.antt =====
-- A model of the Datalog engine of this repository and the theorems that its data structures and
-- its rule machine satisfy.
--
-- The engine keeps relations of u32 tuples. Rules are compiled to bytecode (src/compiler.h) that
-- the machine of zig/src/vm.zig runs to a fixpoint; while it runs, derived tuples live in tuple
-- sets (src/tupleset.h), list values are handles of a hash-consed store (src/termstore.h), and
-- rules may be checked against a schema (src/schema.h). Headers are in src/, bodies in zig/src/.
--
-- - Base: numbers, lists, options, Boolean tests, machine words, return codes and the allocator.
-- - Probe: linear probing in an open-addressing table, which both hash tables share.
-- - TupleSet (zig/src/tupleset.zig): `ts_init`, `ts_contains`, `ts_add`, `ts_prefix`, `ts_reset`,
--   `ts_free` under their own names. Table and Valid state what the hash table answers, Grow is
--   `ts_hash_grow`, Append and Add are `ts_add`, Contains `ts_contains`, Prefix `ts_prefix`, Reset the rest.
-- - TermStore (zig/src/termstore.zig): `term_cons`, `term_car`, `term_cdr`, `term_append`,
--   `term_length` under their own names. Table, Valid and Cons are the invariant of the hash table
--   and `term_cons`; Lists reads handles as lists, Joined is `term_append`, and Handle
--   is what zig/src/dl.zig makes of them.
-- - Vm (zig/src/vm.zig, src/compiler.h): opcodes, instructions, bindings, `OP_CMP`, `OP_ARITH`;
--   Binding is `bTry` and `bindRowPerm`, Steps the equality and list instructions, Eligible the
--   routing tests of incremental maintenance.
-- - TxnWal (zig/src/txnwal.zig): a log file as bytes. Codec is `txnwalValidateRecord` against the
--   append functions, Scan `txnwalCommittedEnd`, Replay `txnwal_replay` and `txnwal_open_rw`,
--   Torn a record of which only a beginning was written.
-- - Relation (zig/src/relation.zig): a relation over an abstract DAFSA, whose calls are the record
--   `Dafsa` and whose behaviour is the record Laws.IsDafsa. Keys is `encodeKey` and `readColsBe`, Facts
--   the adds and deletes of base and view, Overlay the fold of the write overlay, Views
--   `rel_reset_view`, Reads the reads, Words and Order the order statistics, Prefix `rel_prefix`.
-- - Vrelation (zig/src/vrelation.zig, zig/src/dl.zig): variadic relations and the entries of the
--   relation table; Routes reads and creates by arity.
-- - Permindex (zig/src/permindex.zig, zig/src/dl.zig): the table of permutation indices. Declare is
--   `dl_db_declare_perm`, Maps and Stats the order statistics on permuted columns.
-- - Txn (zig/src/dl.zig): transactions. Commit has `dl_txn_commit`, `dl_cas_revision` and
--   `dl_rev_get`; Appends and Atomic are the log of a commit.
-- - Access (zig/src/dl.zig): `dl_add_fact`, `dl_delete_fact`, `dl_lookup` and the bound order statistics
--   by relation name; Table searches and updates the relation table, Added is `dl_add_fact`.
-- - KeySet: an open-addressing set of nonzero keys, which the sets of numbers share; Cells and Rehash
--   are its invariant, and the move of the keys to a wider table.
-- - SymSet (zig/src/regexwalk.zig, zig/src/relation.zig): `symset_add`, `symset_contains` and their kin;
--   Contents is what a set contains, Filter `rel_filter_col`.
-- - Tokenizer (zig/src/index.zig): `tokenize`; Split has the words of a text in one pass.
-- - IntSet (zig/src/index.zig): `U64Set`, and the sets of ids with their membership index.
-- - Search (zig/src/index.zig): full-text search over the relation of postings, `dl_search_ranked`,
--   `dl_search` and the rest under their own names. Collect is the collection of a set for each term,
--   Meet `intSetIntersect`, Terms the query, Packed, Groups and Counts the counting of sorted postings,
--   Ranking and Ranked the results, Distinct the terms of the query, each once, Top the searches with a limit and
--   those of a version, Live the live relation.
-- - Interner (zig/src/intern.zig): `intern_str`, `intern_str_find`, `intern_str_of` and `ensureFwd`. Valid is
--   the invariant and `lookup`, Added, Assigned and Numbers a new string, RoundTrip the numbers, Rebuilt
--   the cache, Created the first state, Handle (zig/src/dl.zig) the interners of a handle.
-- - Fuzzy (zig/src/regexwalk.zig, zig/src/dl.zig): `lev_distance_cap` and `dl_fuzzy_lookup`. Edits is what
--   the distance counts, Rows and Distance the table, Lookup the enumeration.
-- - Snapshot (zig/src/snapshot.zig, zig/src/dl.zig): the reads of a view, `view_open_cached` and
--   `vcache_drop_version` in Cached, `dl_rank` and `dl_select` in Ranked.
-- - Parser (zig/src/parser.zig): tokens, trees and `parseExpr`, `parseTerm`, `parseFactor`; Print
--   writes an expression as tokens, and Chains, Chained, Operations and Products are how it is read.
-- - Schema (zig/src/schema.zig): `dl_schema_add`, `dl_schema_find`, `dl_colspec_eq`.
-- - Examples: runs on concrete inputs.
--
-- A loop of the source is a recursion on fuel, and `none` means that the fuel ran out. The probing
-- loops have as much fuel as the table has cells, and the invariants keep an empty cell; the
-- doubling loop of `ts_hash_grow` has 32 rounds, enough for 2 ^ 35 cells; a walk along a list has
-- as much fuel as the store has nodes, since a tail is an earlier node; the log's loops have as much as
-- the file has bytes, and each record takes some; a key set has an empty cell, so that probing ends; the
-- tokenizer's loops have as much as the text has bytes, the grouping as there are postings.
--
-- Parameters: the allocator, which refuses a request by its size; the CRC, a u32; the DAFSA library
-- (a git submodule), whose laws the sorted key lists of Examples satisfy; the sort of a tuple set where
-- an index is built, and of postings and results; the first rest that the DAFSA's prefix enumeration
-- gives; the enumeration of the postings of a term, as a reader; what opening a view
-- or a version's interner gives; what declaring the relation "rev" gives; which saves and
-- syncs of files succeed, and which appends, with how many bytes a failed one wrote; for how many rows a
-- copy of a relation has memory, and whether the subtree counts have. Null pointers at the entry points are left out. A relation is modelled as it is once
-- loaded, with its pending overlay. Transactions leave out column kinds and delta capture.
-- The recursion of `prefixDfs` over the transitions of a state is the parameter `suffixes`, the byte strings
-- in the order of that recursion. Counters of type c_int (`cap` and `used` of a set of symbols) and the
-- cap of `lev_distance_cap`, a u32 below 2^32 - 1, are numbers without a bound. The parser's allocations
-- succeed.
--
-- Not modelled: files and locks, the lazy loading of relations, the lexer and the rule grammar, the
-- compiler, sorting of tuple sets, the term store's file, the joins and the fixpoint loop of the
-- machine, the indexing of observations, the manifests and publication of snapshots, the regex and
-- edit-distance automata and walks, the interner's files and content stamp, and the command line.
pub mod Access
pub mod Base
pub mod Fuzzy
pub mod Probe
pub mod KeySet
pub mod SymSet
pub mod IntSet
pub mod Search
pub mod Interner
pub mod Snapshot
pub mod Tokenizer
pub mod TupleSet
pub mod TermStore
pub mod Vm
pub mod Relation
pub mod Vrelation
pub mod Permindex
pub mod Txn
pub mod TxnWal
pub mod Parser
pub mod Schema
pub mod Examples
