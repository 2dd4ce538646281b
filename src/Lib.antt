-- ===== src/Lib.antt =====
-- The verification of amigao, a small search engine: a spider of several processes that fills a
-- MariaDB database, and a search server that answers from it.
--
-- The parts, and the files that model them:
--
-- - `Codec`: `crypt` and `decrypt` (src/utils/crypt_string.cc), which every text goes through on its
--   way to the database and back, and `escape_url` and `deescape_url` (src/utils/escape_url.cc) of the
--   search server. A text is a list of bytes; a read behind the end of a string is `none`.
-- - `Url`: `format_url` and `parse_url` (src/utils/format_url.cc, src/utils/parse_url.cc), by which the
--   spider and the parser of pages bring urls to one spelling. The indices of a loop are the suffixes
--   of the text where they stand; a read out of bounds is `none`.
-- - `Pool.Nodes`: `DBPoolList` (src/db/db_pool_list.hpp), a chain of nodes with a counter. `Pool.Defs`:
--   `SqlDBPool` (src/db/sql_db_pool.hpp) on two such lists, run by one thread. `Pool.Locks`: its two
--   mutexes under any number of threads, where each thread is its place in the code and a schedule
--   picks the thread that runs next.
-- - `Sql`: the operations on the database (src/db/sql_db_operation.hpp) as programs that lease
--   connections and send statements: `Sql.Program` the language of these programs, `Sql.Urls` the tables
--   of urls and websites, `Sql.Dicts` the dictionaries and managers' tables, `Sql.Leases` and
--   `Sql.Operations` the connections that they hold, `Sql.Items` the inserts of words, `Sql.Answered`
--   runs against a server, `Sql.Templates`
--   the shape of the statements.
-- - `Clients`: threads that run such programs over one pool, turn by turn: `Clients.Shared` what they hold
--   of it, `Clients.Room` when there is a connection for each, `Clients.Ends` when they keep each other waiting.
-- - `Valuate` and `Weights`: how a page gets into the reverse index
--   (src/strategy/reverse_valuate_strategy.hpp). `Valuate` is `handle`, a program as in `Sql`; `Weights`
--   is `update_weight`, on the text of a word, with its loops in `Weights.Scan`, the list of nodes that a
--   text stands for in `Weights.Nodes`, and the reading of the text by the search in `Weights.Parsed`.
--   `Decimal` has the numbers as texts.
-- - `Spider.Slots`, `Spider.Queue`, `Spider.Pages`: the rings of the shared memory
--   (src/spider/shmctrl.h) with their character arrays. `Spider.Master`: how src/spider/master.cc fills
--   the ring of urls, starts its children and writes the ring out at exit. `Spider.Response` and `Spider.Worker`: a round of
--   src/spider/crawl_worker.cc and of src/spider/parse_worker.cc, from the url to the links that are
--   stored, with every `goto start`, `exit(1)` and access out of bounds as an outcome.
--   `Spider.Crew` is any number of workers over the same rings, files and database.
-- - `Interleaving` has the runs of workers that share a state, for `Clients` and `Spider.Crew`.
-- - `Ini` and `Info`: the parser of settings (src/utils/ini_parser.hpp) and the settings of a pool
--   (src/db/db_info.hpp), whose limits `Pool` obeys. `Html`: `str2html` (src/utils/str2html.cc).
--   `Search`: `PlainSearchResult` (src/strategy/plain_search_result.hpp), and in `Search.Ranking` the
--   paging and the heap sort of src/strategy/plain_search_strategy.hpp. `Search.Query` is its `handle`.
-- - `Server`: the search server (src/http/search_server.cc): what it reads out of a query and the pages that
--   it links; `Server.Page` the texts that it prints, `Server.Tags` their tags, `Server.Round` its loop over
--   the requests, as a program as in `Sql`.
-- - `ParseHtml`: the links, contents and title of a page (src/utils/parse_html.cc).
-- - `Base` holds the shared lists, tests and texts, `Values` the sizes of src/values.h, and `Tests` the
--   inputs of the program's own tests and the theorems at concrete inputs.
--
-- The parts meet in the spider: a worker takes a url from a ring, formats and splits it by `Url`, looks
-- its coded form (`Codec`) up in the database, and every access to the database leases a connection
-- of `Pool`. The valuation and the search send their statements the same way; the one writes the texts of
-- weights that the other reads.
--
-- Bounds and fuel. `get_connection` of the pool runs for a number of rounds, one for each
-- `goto again`; two rounds are enough where it can succeed at all. `drain` of `Spider.Master` runs for
-- as many rounds as the ring has slots. `sink` of `Search.Ranking` goes to a child in every round, so
-- as many rounds as the heap has entries are enough. `insert_into` and `parse_nodes` of `Weights` go to the
-- next bar in every round, so as many rounds as the text has bytes are enough; `find_url_no` of `Sql` has the
-- rounds of its `goto again` as an argument, for the answers of the server can keep it for ever. All
-- other loops follow the text or the list that they read.
-- Numbers are natural numbers, and a subtraction that could be negative has a comment. The settings of
-- `Info` are integers, of which the sum that can overflow an `int` is a fault; the numbers of pages of
-- the server and the products of weights keep the bits of their types. Other counters and indices stay far
-- below the bounds of theirs.
--
-- Parameters. Whether the database server accepts a connection, what the database answers to the
-- spider, how cppjieba cuts a text into words, what a `stringstream` reads out of its text, in which order a hash map is gone through, what the
-- network delivers and the array holds that receives it, the conversion to UTF-8 and, for the workers, the parser of pages are arguments
-- of the definitions that use them. What the server answers to a statement of `Sql.Program` is open.
--
-- Not modelled: the calls of MariaDB, redis, gumbo, iconv and cppjieba, whose code is not here or is
-- a copy of another project's, signals and process creation, printed messages, and the order and the
-- moment at which memory is freed.
pub mod Base
pub mod Clients
pub mod Codec
pub mod Decimal
pub mod Html
pub mod Info
pub mod Ini
pub mod Interleaving
pub mod ParseHtml
pub mod Pool
pub mod Search
pub mod Server
pub mod Spider
pub mod Sql
pub mod Tests
pub mod Url
pub mod Valuate
pub mod Values
pub mod Weights
