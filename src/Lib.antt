-- ===== src/Lib.antt =====
-- Chimera.APE: the C++ sources of the orchestrator, which turns a directory of files into a manifest
-- (SQLite), a vector store and a graph of Turtle triples, and searches them.
--
-- The parts and where they are modelled:
--   * Base: the shared names; byte strings are lists of numbers below 256, loops are `while` on fuel.
--   * Chunk: chunk.h, chunk.cpp. Segment is `segment`, Units the split of segments that are too long
--     (`sentence_break`), Assemble the accumulation (`emit`) and `chunk_text`, Html `strip_html`.
--   * Util: util.h, a child each for `to_hex`, `slugify`, `base64_encode` and `chunk_id`; Decimal is
--     the `%d` of the numbers, Strtol `strtol` and `atoi`.
--   * Ttl: ttl.h, ttl.cpp. Escape is `ttl_escape`, Iri the `*_iri` functions, Emit `emit_doc` and
--     `emit_chunk`.
--   * Manifest: manifest.h, manifest.cpp. A table is a list of rows in the order of insertion; Table
--     has the statements, Ops an operation for each method of the class, Transaction the connection.
--   * Walk: walk.h, walk.cpp. Names is `mime_of`, `modality_of` and the extension lists, Glob
--     `glob_match`, Sniff `looks_binary`, Ignore `load_ignore`, Traverse `walk` over a tree.
--   * Hash: hash.cpp, which bytes of a file `triple_tap` feeds to the hashes.
--   * Json: the values of the JSON library. Extract: extract.h, extract.cpp. Parse is
--     `parse_extraction` and `extract_chunk`.
--   * Http: http.h, http.cpp, over what the socket calls return. Dechunk is `dechunk`, Request
--     `http_request`, and Read shows how a response is put together.
--   * Cli: main.cpp and the options of pipeline.h. Render has the command lines of given options.
--   * Supervisor: supervisor.h, supervisor.cpp, the state of one child process.
--   * Organs: organs.h, organs.cpp. Paths is `RuntimePaths`, Clients the requests of the clients and
--     Answers what they read, Lifecycle the class `Organs` and the processes that it starts.
--   * Ingest: ingest.cpp. Visit is the callback of the walk (stages 1 to 3), Document the
--     parts of stages 3b to 7 for one document, Process their order, the loop over the work list and
--     the commit of stage 8, Load the texts that are sent to the graph store, Staging the directory of
--     the texts, Run the whole of `run_ingest` and what it leaves for the next run, at its end or
--     where it is killed (Killed).
--   * Search: search.cpp, the terms and texts that a search sends to the graph store; Context is the
--     choice of the sources, the prompt and the check of the cited sources, Rank the fusion of the
--     rankings, Verify `run_verify` and the text of `run_status`, Vacuum `run_vacuum`. Rows and Cards
--     read the graph server's answers, Crawl what it has around the candidates, Retrieve the rankings
--     of a query, Report the output, Run `run_search` and `run_sparql`.
--   * Tests: runs of the definitions on concrete inputs.
-- The walk's entries go through `Ingest.Visit.visit` into the work list; each document of the list
-- goes through `Ingest.Process.process`, which chunks, embeds and writes it by the operations of
-- Manifest and the texts of Ttl; `commit_work` ends the run.
--
-- State that the code keeps in objects is passed along as a record: `SegmentState`, `AssembleState`,
-- `HtmlState`, `Manifest`, `WalkState`, `RunState`. Offsets and sizes do not leave the range of
-- their machine types for the inputs that fit in memory, so numbers are ℕ; hash values keep their
-- width by `% 2 ^ 8` a byte. The fuel of a loop is the length of what it reads, plus one where the
-- loop is tested once more: every round reads a byte at least. The walk's fuel is the number of
-- directories, that of the batches the number of texts.
--
-- A call that throws is a `Result` where the code tells the exceptions apart, an `Option` elsewhere.
-- The wait for a child has a round for each millisecond of its time as fuel, since a round sleeps at
-- least one. A poll of the health endpoint is taken to return, which `http_get` does not promise.
--
-- Parameters, since they are not among the sources: BLAKE3 and XXH3 (`Hashes`), the JSON
-- library's `parse`, `dump` and texts of exceptions (`JsonLib`, `Server`), floating-point
-- numbers, the contents of files, the results of system calls, the answers of the model server
-- and of the vector store (`Services`), the text of a double, the clock. The clients of Organs
-- and the `Services` of Ingest are not joined: an exception of `dump` ends the run, and the
-- pipeline is modelled where there is none. Not modelled: a statement of SQLite that fails, a run
-- that is killed in the loop over the work list before its text is flushed or while the graph
-- store writes, what is printed, and the vendored libraries. An update that the graph store
-- refuses is taken to leave the graph as it was.
pub mod Base
pub mod Json
pub mod Http
pub mod Cli
pub mod Supervisor
pub mod Organs
pub mod Chunk
pub mod Util
pub mod Ttl
pub mod Manifest
pub mod Walk
pub mod Hash
pub mod Extract
pub mod Ingest
pub mod Search
pub mod Tests
