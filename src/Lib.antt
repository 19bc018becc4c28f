-- ===== src/Lib.antt =====
-- mq-kafka: the web console of the code generator, and the delivery of messages.
--
-- The program is a service that passes messages on to Kafka and keeps a log of each until it is
-- delivered, a library for the consumers of the messages, and a code generator that is used by a web
-- console. Modelled are the console's own scripts, the generation of code behind them, the task that
-- sends messages again with its lock, the sending from the client to Kafka, the consumers of a
-- group, and the load balancers. In the following, static/ is
-- code-generator/src/main/resources/static/, data/ is code-generator/src/main/java/com/data/, kafka/
-- is mq-service/src/main/java/com/mq/kafka/, and consumer/ is
-- mq-consumer/src/main/java/com/mq/consumer/kafka/.
--
-- The console. Its frame creates a hash router, registers the pages of its menu and shows the page
-- of the present hash in an inner frame; the pages are scripts of their own that use the tools of
-- common.js, and the sidebar around the menu is run by app.js.
--   Router        static/libs/router.js. `Router` is the object: hashList is an association list in
--                 the order of insertion, an index that is null is `none`. A callback is a value of
--                 any type; `reload` answers with an `Outcome`, which is what the code does then.
--                 Router/Table compares the table with a map, Router/Navigation follows the hash.
--   Tools         static/js/common.js: `alert` and `confirm` as the dialogs they open, isBlank and
--                 hasPermission; Tools/Params is T.p, Tools/Escapes an `unescape` at which its examples
--                 run, Tools/Selection is getSelectedRow and getSelectedRows on the state of a grid.
--   Generator     static/js/generator.js. `Console` is the page's state: the Vue model, what the
--                 script reads and sets of the grid, and what it has sent: requests, alerts, the
--                 address navigated to. Each method of the page is a function on it; the events of
--                 the page are the steps of Generator/Steps. Generator/Browser is a `location.search` for
--                 the examples of Generator/Address.
--   Index         static/js/index.js on a router of Router and on a document; `resize` is its handler
--                 of the window's size.
--   Dom           what the scripts use of jQuery, a parameter with its documented behaviour.
--   Sidebar, Startup, Layout  a reading of static/libs/app.js, the script of the AdminLTE template: its
--                 sidebar, its options and start, its layout. It is a library that was copied, and no
--                 result below is about it.
--
-- The server of the code generator. The page's address is a request of it.
--   Server/Service   `code` of data/controller/GeneratorController.java on the loop over the tables of
--                 data/service/GeneratorService.java; Service/Archive is on what the answer holds,
--                 Service/Classes on the selections that are answered, Service/Request joins the
--                 page's address to it. The database's answers are a `Catalog`.
--   Server/Code   generatorCode of data/utils/GenUtils.java for one table, on a `Zip`, a list of
--                 entries that takes a name once; Code/Files is on the entries of one table.
--   Server/Entities  getTableModel, with a record for each entity of data/entity/; Entities/Keys is on
--                 the columns and the key, Entities/Total on when it returns.
--   Server/Files  getTemplates, getContext, getFileName; Files/Apart tells the names apart.
--   Server/Types  data/utils/DataTypeUtils.java; Types/Classes and Types/Bytes are on its chains.
--   Server/Names  data/utils/StringUtils.java, columnToJava and tableToJava; Names/RoundTrip.
--
-- The compensation of messages.
--   Compensation  kafka/scheduler/KakaMQMessageTask.java, the round of the task on one message, with
--                 kafka/callback/SenderCallback.java, which changes the same logs when Kafka has
--                 answered. A `Store` is what the collections of logs hold of one message.
--                 Compensation/Keeps is on losing messages, Compensation/Bound on the number of
--                 retries, Compensation/Deadline on what becomes of a message. Compensation/Paging is
--                 onWork, a run of the task over the pages of all messages in process, which
--                 mq-mongo-integration/src/main/java/com/mq/mongo/dao/BaseMongoDao.java queries;
--                 Compensation/Whole is on the runs that handle all messages, Compensation/Skips on those
--                 that leave some out.
--   GlobalLock    mq-redis-integration/src/main/java/com/mq/redis/lock/GlobalLock.java and the
--                 scripts of GlobalLockLuaExecuter.java, by which one instance at a time runs the
--                 task. A `System` is the key in Redis, the value that each thread keeps, and the
--                 permits of each process. GlobalLock/Exclusion is on who holds the lock, over any
--                 order of the threads' steps, GlobalLock/Attempts on the loop of tryLock,
--                 GlobalLock/Waiting on that of lock and on how long the task that clears a lock runs,
--                 GlobalLock/Values on the values of GlobalLockValue.java, GlobalLock/Factory on the
--                 table and the tasks of GlobalLockRedisFactory.java (`get_lock`, `remove_lock`,
--                 `run_task`), whose calls and runs come in any order.
--
-- The sending, the consumers, and the balancers that choose a producer or a server.
--   Client        mq-service-api/src/main/java/com/mq/interceptor/KafkaMQClientIntercepter.java, the
--                 advice around a client's call of the service, with MsgHandleUtil.java and
--                 KafkaProcessMsgLogService.java. It acts on the `Store` of Compensation; an
--                 `AdvisedCall` says how the calls in it end. Client/Hands is on what it hands over to
--                 the compensation task, Client/Kept on a message's logs from the client to the end.
--   Producer      kafka/biz/impl/KafkaMQServiceImpl.java on kafka/producer/KafkaProducerManager.java:
--                 the check of a message, and a send with the answer to the caller. It uses the
--                 choice of Balance/Hash and the callback of Compensation.
--   Consumer      consumer/KafkaConsumerManager.java, with offset/GeneralOffsetCommitCallback.java and
--                 partition/HandleRebalance.java below consumer/. `Group` is what the consumers of a
--                 group share and what the thread of each holds; a trace records what came of each
--                 record. `process` is a turn of the loop on a record. Consumer/Offsets is on the
--                 offsets and what lies below them (its step relation in Offsets/Reach),
--                 Consumer/Deliveries on repeated messages, Consumer/Progress on a business error.
--                 Consumer/Workers is the start in consumer/worker/DefaultKafkaMsgWorker.java: `do_configure`,
--                 `validate` and the consumers that are built. No topic list at all (null) is not modelled.
--   Balance       mq-framework/src/main/java/com/mq/balance/WeightLoadBalancer.java: `Balancer` has its
--                 fields, `pass` is a pass of the loop of `get`. Balance/Shares and Balance/Rounds
--                 follow a round of calls, Balance/Fairness counts the choices, Balance/Ends,
--                 Balance/Built and Balance/Stuck are on the end of the loop. Balance/Hash is
--                 HashLoadBalancer.java of the same folder and
--                 mq-web-integration/src/main/java/com/mq/web/feign/rule/KeyHashRobinRule.java.
--   Calls         how a call of a database or a server can end.
--
-- Prelude and Text hold what the parts share: numbers, tests, lists, and texts as lists of the
-- numbers of their UTF-16 code units, with the string methods that the scripts call. Each part has
-- its tests and the examples of its theorems in a module Tests.
--
-- Loops. All loops are structural recursion, but for these. The reloads of the router: `settle`
-- takes fuel, and 2 is enough, since a reload that jumps goes to the index, and a reload there
-- either calls or jumps to the same hash, which the browser does not report. The loop of tryLock:
-- fuel above the timeout is enough, since each round counts a millisecond at least. The loop of
-- lock: fuel above the number of the round that wins is enough. The runs of the task that clears a
-- lock: one for each second of the lock's time and one more, since a second at least lies between
-- two of them. The loop of
-- the balancer's `get`: two rounds more than the present weight are enough, since each round
-- lowers the weight by the divisor, which is above 0 if the weights are. The pages of the task: one
-- more than `last` pages, if the pass behind them finds no more messages than they hold; without new
-- messages, one more than there are messages is enough.
--
-- Taken as given. What the browser reads back from a hash that was written is the parameter
-- `assigned`. A grid is consistent if selrow is null exactly where no row is selected, and no key
-- is empty, as jqGrid keeps it. T.p is modelled for names that stand for themselves in a pattern.
-- `location.search`, `unescape` and the servlet's getParameter are parameters, with their
-- documented behaviour on texts in which nothing is encoded. An address of the router is not
-- "__proto__". MongoDB and Kafka answer as a `World` says: a call can be refused, and it can take
-- effect although it ends in an exception. A round of the task reads the clock once. Redis is a
-- parameter with the documented behaviour of its commands at one key. A call of GlobalLockValue is
-- two steps of its thread, the reading of the clock and the counting. A poll returns the records
-- of a partition in the order of their offsets, from where the thread stands and without leaving
-- one out; the topic and the group are fixed, and a digest is a number. The order in which the
-- database lists the messages is an argument, for each page anew. `BigInteger.gcd` is a parameter
-- that divides its two arguments; no weight is negative, and the hash of a key is an argument. In
-- the generator's server, letters beyond ASCII have no case; commons-lang's capitalizeFully and
-- the rendering of a template are parameters that return a text; the two queries answer. A message
-- that a client sends has a header and a body, as the constructor of KafkaMessage sees to, and a
-- trace of an exception is an argument.
--
-- Not modelled. The libraries that the console loads (jQuery, Vue, Bootstrap, jqGrid, layer), and
-- the widgets of the AdminLTE template in app.js; the settings of jqGrid and
-- jQuery in common.js; the thread pools that run consumers and tasks,
-- and the contents of the work log and of the log of requests; the start of the producers and the
-- integration of databases; of the code generator's server the list of tables, which PageHelper
-- pages, and the text of the templates. They are calls of third-party code, or parts of their own
-- that no part modelled here depends on.
pub mod Prelude
pub mod Text
pub mod Router
pub mod Server
pub mod Tools
pub mod Generator
pub mod Dom
pub mod Index
pub mod Sidebar
pub mod Layout
pub mod Calls
pub mod Startup
pub mod Compensation
pub mod Consumer
pub mod Balance
pub mod Producer
pub mod Client
pub mod GlobalLock
