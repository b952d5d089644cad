-- ===== src/Lib.antt =====
-- rellaf: a model of the C++ library's text and data layers.
--
-- The program turns annotated SQL patterns and C++ objects into SQL statements, runs them on a
-- pool of MySQL connections, and maps HTTP requests to functions by their paths.
--
-- Parts and files:
-- * include/str.hpp, `split`: Str.antt, with `trim` in Str/Trim.antt. `split_loop` is its `while`, on
--   fuel. The fuel is the length of the text and 2, which is enough since each round moves the position on.
-- * src/var_pattern.h and src/var_pattern.cpp, `SqlPattern::explode`: SqlPattern.antt. `Scan` has the
--   variables of the loop, `round` is one round of it, `run` the loop and `finish` the `switch` behind
--   it. A read outside of a table is `none`. SqlPattern/Render.antt has the text of a list of pieces.
-- * The same files, `UrlPattern`: UrlPattern.antt. `run` and `walk` are the loops of
--   `explode_path_vars` and `fetch_path_vars`. A round of theirs may leave the position where it is;
--   `settle` allows two rounds at one byte and says `none` for more.
-- * The same files, `UrlTrie`: UrlTrie.antt. `put` and `fetch_vars` call `split` and walk over the
--   nodes (`put_at`, `fetch_at`). A node is a value, since no two pointers lead to one node.
--   UrlTrie/Routes.antt reads a tree as a map from routes to names. UrlTrie/Clear.antt has `clear`,
--   with the number of the nodes that it deletes.
-- * include/mysql_escape.h and src/mysql_escape.cpp, `SqlEscape`: MysqlEscape.antt. A `Charset` has
--   the two function pointers; `write` is the loop of both escaping functions, with the size of the
--   buffer; `escape_field` returns `none` where the code writes past its buffer.
--   MysqlEscape/Charsets.antt is the interface that the proofs need of a character set, filled by GBK
--   and UTF-8. MysqlEscape/Instance.antt has `instance`, with the static variable as an argument. The
--   models of the callers get the character set that it returns.
-- * include/enum.h and src/enum.cpp, `Enum`, and include/model_type.h, `ModelTypeEnum`: Enum.antt.
--   `reg_all` registers the items in the order of their declaration, as the members that the macros
--   declare do when an enum is constructed.
-- * src/json/json_to_model.cpp, the conversions: Json.antt has `model_to_json_inner`, and
--   `json_to_model_inner` of a plain; Json/Reading.antt has it of lists and objects, and
--   `json_to_model`. Its fuel is the number of calls inside of each other: one more than the depth of
--   the model is enough (Json/Shape.antt). JsonCpp is the parameter `JsonCpp`; Json/Laws.antt has
--   what is relied on of it.
-- * src/mysql/flist.hpp, `LinkList`: LinkList.antt. A heap maps addresses to nodes, and an operation
--   is `none` if it follows a null or dangling pointer. The clear loop runs `_len` times. The nodes of
--   a list are described as linked runs (LinkList/Segment.antt). The result of `new` is a parameter.
-- * src/mysql/fqueue.hpp, `Queue`: Queue.antt. `Step` is the step relation of the threads: what a call
--   does between two waits holds the mutex and is one step, a signal wakes one sleeping thread, and a
--   wait with a time limit may end at any time. The queue keeps its items as a list.
-- * src/mysql/flatch.hpp, `Latch`: Latch.antt, in the same way. The decrement of the count is a step
--   without the mutex.
-- * include/cast.hpp, `Caster`: Cast.antt. Numbers.antt has `strtol`, `strtoul` and `std::to_string` of
--   the C and C++ libraries, at base 10 and 64 bits; 20 digits hold every number of 64 bits. Floats are
--   bit patterns, and the operations on them are the parameter `Reals`.
-- * include/model.h and src/model.cpp: Plain.antt has `Plain<T>`, with the type `T` as a `Kind`;
--   Model.antt has the classes as one data type of values, since every model owns its parts. A plain
--   has its `_tag`; those of lists and objects are left out, and the tag of an argument stands beside
--   the model where it is read. The
--   copies, moves and clear are in Model/Copy.antt, the operations of `List` in Model/Sequence.antt; a
--   result there is `none` where the code follows a null pointer.
-- * include/sql_builder.h and src/sql_builder.cpp, `SqlBuilder`: SqlBuilder.antt, from the registration
--   of a pattern (`reg_sql`, on `SqlPattern::explode`) to the statement (`prepare_statement`, which
--   escapes by `SqlEscape`). SqlBuilder/Travel.antt has the values of the
--   places; its assertion is compiled out, as CMakeLists.txt does by default. `Outcome`
--   (Outcome.antt) tells false from a crash. SqlBuilder/Statement.antt has the text of each piece on
--   its own. The fuel of `split_loop` is the length of the text.
--   SqlBuilder/Execute.antt has the calls of the executor, whose interface (include/mysql/sql_executor.h)
--   is SqlExecutor.antt. The fuel of its loop is more than the number of the rows.
-- * src/mysql/mysql_simple_result.cpp, `MyResult`: MyResult.antt, which fills that interface. The MySQL
--   client's functions are the parameter `Client`, whose rows `Streams` lists.
-- * src/mysql/mysql_simple_pool.cpp, the pool: MysqlWorker.antt has the worker thread and what it does with a
--   statement, with the MySQL client as the parameter `Mysql`; MysqlPool.antt has `MysqlSimplePool`,
--   whose calls come one after another, with `Call` for calls that wait for ever or crash; MyTxEx.antt
--   has `MyTxEx`; MysqlJoin.antt has the end of a transaction as steps of the two threads. Whether the
--   worker ends, so that the join of a COMMIT returns, is `leaves` of `Memory` in MysqlWorker.antt.
-- * include/brpc/function_mapper.hpp, `FunctionMapper`, and src/brpc/brpc_service.cpp, `entry`:
--   FunctionMapper.antt, with handlers as values of a parameter, which is given the `Controller` and
--   leaves a header and a body of the response; the move of brpc's buffer is a parameter, too. `with_slash` is a fault for an empty
--   text, of which `front` is undefined.
-- * src/brpc/brpc_service.cpp, `bind_api_sign`: ApiSigns.antt, with the two maps of a service, and
--   src/brpc/brpc_dispatcher.cpp, `BrpcDispatcher`: BrpcDispatcher.antt, with the server of brpc as the
--   parameter `Server`. The maps that it goes through are lists in the order of the loop.
-- * include/brpc/brpc_service.h, `prepare_args` and the handlers of the macros: PrepareArgs.antt, with the
--   function of the user as an argument.
-- * include/brpc/http_client.h and src/brpc/http_client.cpp: HttpClient.antt, with the channel of brpc as
--   the parameter `Channel`.
--
-- Bytes are native numbers and texts are lists of them (Prelude/Lists.antt). `std::map` and
-- `std::unordered_map` are association lists (Prelude/Maps.antt).
--
-- Not modelled: the MySQL client, brpc and JsonCpp, which are libraries; logging;
-- assignments of a list or an object to itself; the settings of
-- the MySQL server; the protobuf services.
pub mod Prelude
pub mod Numbers
pub mod Cast
pub mod Plain
pub mod Model
pub mod Str
pub mod SqlPattern
pub mod UrlPattern
pub mod UrlTrie
pub mod MysqlEscape
pub mod Enum
pub mod LinkList
pub mod Outcome
pub mod MysqlWorker
pub mod MysqlPool
pub mod MyTxEx
pub mod MysqlJoin
pub mod FunctionMapper
pub mod ApiSigns
pub mod BrpcDispatcher
pub mod HttpClient
pub mod PrepareArgs
pub mod Json
pub mod Queue
pub mod Latch
pub mod SqlExecutor
pub mod MyResult
pub mod SqlBuilder
