-- ===== src/Lib.antt =====
-- Morfx: queries and rewrites of source code by syntax tree nodes, for agents and for the command
-- line. This library models the parts of the program that decide what is selected, what is written
-- and what becomes of a file when a step fails.
--
-- A request names its targets by a selector (core/dsl.go), which is parsed into a query
-- (core/types.go). A language provider (providers/base/provider.go) finds the nodes that the query
-- selects and edits the text at their byte ranges. The server checks an operation, writes the file
-- atomically and logs the write for a rollback (mcp/safety.go, mcp/transaction_log.go). A change
-- may wait in the database as a stage until it is applied (mcp/staging.go). The file processor
-- (core/fileprocessor.go) rewrites many files in a transaction (core/transaction.go) through an
-- atomic writer (core/atomicwriter.go). A recipe (core/recipe.go) is a sequence of such rewrites.
--
-- Files:
-- - Base, Base/Tests, Base/Lists: shared names, tests on numbers, lists. Base/Bytes: Go strings as
--   lists of bytes, and the functions of package strings that the program calls.
-- - Dsl/Query: AgentQuery, mergeBinaryQuery, attachContains; Dsl/Query/Laws: how the queries are
--   shaped. Dsl/Tokens: tokenizeDSL. Dsl/Parser: dslParser and ParseDSL, one function for each
--   method and loop. Dsl/Grammar and Dsl/Selector: the grammar of docs/dsl.md as a relation,
--   restricted as core/dsl.go restricts attributes; Dsl/Parser/Simple, Sound, Complete and Total
--   relate the two, Dsl/Correct states the result.
-- - Edit: sortTargetsDescending, doReplace, doDelete, doInsertBefore, doInsertAfter,
--   doAppendToTarget, getIndentation. Edit/Pieces: a text cut into pieces, the specification;
--   Edit/Sort, Edit/Loops, Edit/Correct: the edits meet it. Edit/Indent: where the indentation
--   goes. Edit/Overlap: nested targets.
-- - Search: nodes, patterns and candidates of providers/base/provider.go; Search/Engine:
--   findTargets and its set operations, with Sets, Walk and Meaning on what a query selects;
--   Search/Cache: providers/base/cache.go, with Coherent on parsers that share it;
--   Search/Confidence: the score of a transformation, with Range; Search/Provider: Query,
--   Transform and Validate, with Sound, Settles, Agrees and Uncached on what they report.
-- - Disk: the calls of package os that the program makes, any of which may fail. Journal:
--   mcp/transaction_log.go, with Journal/Undo on its rollback.
-- - Safety: ValidateOperation, AtomicWrite and its handle, with Safety/Limits, Safety/Atomic,
--   Safety/Rollback, Safety/Undo and Safety/Unnamed on what is accepted and what a write leaves
--   behind.
-- - Recipe: core/recipe.go, over any processor of files: its data and validation, and Recipe/Valid
--   on what is accepted; Recipe/Run: the execution, with Laws and Totals on what it keeps and
--   reports, and Partial on a step that fails behind steps that are applied.
-- - Files: calls shared by package core; Files/Writer: WriteFile of core/atomicwriter.go;
--   Files/Transaction: core/transaction.go; Files/Processor: transformFile and TransformFiles of
--   core/fileprocessor.go, and Processor/Overall its confidence. Files/Quiet and the modules of
--   that name: all of these where no call fails; Transaction/Rollback: a rollback as a function of
--   the files; Processor/Plan, Each and AllOrNothing: what a transformation of many files leaves;
--   Processor/Dry: a dry run; Writer/Keeps and Atomic: what one write leaves, whatever calls fail.
-- - Staging: models/models.go and the interface to the database; Staging/Write: prepareStageWrite
--   of mcp/staging.go, the guard of mcp/transform_finalize.go, ValidateFileIntegrity of
--   mcp/safety.go, with Staging/Write/Undo on the write without a safety manager; Staging/Manager:
--   CreateStage and ApplyStage, with Create, Laws and Atomic on what they leave in the database.
-- - Pagination: applyPagination of mcp/pagination.go; Pagination/Laws: reading a list page by
--   page.
-- - Samples below each part: tests, and the theorems at concrete inputs.
--
-- Fuel: the tokenizer takes one unit for each byte, the parser 5 * n + 5 units for n tokens; both
-- are shown to be enough. The loop that waits for a lock file takes one unit for each round, and
-- one is shown to be enough where the lock is free. A Go string is a list of bytes, an int of the
-- program that is never negative a native number, and an int64 sum wraps around. An error is a
-- constructor with the values that its message shows.
--
-- Not modelled: tree-sitter, JSON, gorm, difflib and the operating system are outside the
-- repository; what a node tells of itself, path.Match, regexp, the arithmetic of float64, the
-- configuration of a language with its test of attributes, the calls of the database, the SHA-256
-- digest, the decoding of a scope and of a number are parameters, and the disk holds the content
-- of regular files without permission bits. Times and random names are arguments. Goroutines run
-- one after the other, but for what they do to the cache of trees during a call of it. The size of
-- a file in an operation is not negative.
pub mod Base
pub mod Dsl
pub mod Edit
pub mod Disk
pub mod Journal
pub mod Safety
pub mod Recipe
pub mod Staging
pub mod Pagination
pub mod Search
pub mod Files
