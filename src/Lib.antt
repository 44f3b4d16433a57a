-- ===== src/Lib.antt =====
-- graphize runs a service as a directed acyclic graph of nodes. A configuration gives the nodes
-- and edges of each graph; at start-up the graph is collected from its root and checked for
-- cycles. For each request a counter per node is set to the number of its inputs; a node runs
-- when its last input has notified it, in a bthread of its own if several become ready. Nodes
-- are computations ("cpu"), or services that wait for a remote answer ("io"), of which the redis
-- service is the largest: it cuts keys into batches, sends them to the nodes of a redis cluster,
-- and goes on when all have come back.
--
-- Frame/Node and Frame/Graph model class Node and class Graph of src/frame/graph.h. A Node* is a
-- number, and the objects are a heap, a function from numbers to records. Graph::init is `init`,
-- its loop `bfs`; Graph::check is `check`, its loops `remove_nodes` and `remove_edges`. Below
-- Frame/Graph stand the edges and reachability (Edges), the collection (Bfs), the loop of the
-- check (Check), what it leaves of the nodes (Kept), what an order excludes (Acyclic) and the
-- answer of the check (Verdict).
--
-- Frame/Run models Graph::run, Node::run, Node::notify and Node::run_output_nodes_if_ready
-- (src/frame/graph.h, src/frame/graph.cpp) with the GraphContext of src/frame/graph_context.h. A
-- request is a system of bthreads; `execute` takes the positions of the bthreads that make the
-- steps, so that it covers every interleaving. The atomic steps are the heads of `run`, the ends
-- of do_service, and the calls of `notify`, each of which does one fetch_sub. Below it stand the
-- books of the counters (Ledger), what bthreads owe and hold (Threads), one step (Turn), the
-- start (Start), what every step keeps (Invariant) and whole executions (Schedule) and their end
-- (Finish). What do_service computes is not modelled there, and what `skip` answers is a
-- parameter.
--
-- Frame/Manager models the part of GraphManager::init (src/frame/graph_manager.cpp) that builds
-- one graph, from a configuration taken as parsed: `create_service_if_not_exist`, the edges to
-- children and parents, and the loop over the nodes. boost::trim and boost::split are
-- parameters, and so are the classes that NodeManager and the registered factories give. Built
-- says what is kept true of the nodes, Created that a new node keeps it, Loops that every loop
-- does so, and Ready leads from there through Graph::init to the assumption of the theorems on
-- executions.
--
-- Frame/Setup models the start: RedisClientManager, GtransportManager and NodeManager
-- (src/frame/client/redis/redis_client_manager.cpp, src/frame/gtransport_manager.cpp,
-- src/frame/node_manager.cpp), GET_SERVICE_FACTORY (src/frame/register.cpp), the loop of
-- GraphManager::init over the graphs, get_graph, and init_graph_frame. The configurations are
-- lists by name, in the order in which they are read. Frame/Cache models ObjectCache
-- (src/frame/objectcache.h) and CacheManager (src/frame/cache_manager.cpp); the calls of
-- shmcache are a record of functions, and what the theorems need of them is named: Keeps, that a
-- value that was set without an error is there until its time is over, and OnlySets, that a set
-- changes nothing but its key and may drop values.
--
-- Server models main (src/main.cpp) and EchoServiceImpl::Echo (src/server/server_impl.cpp),
-- which runs the graph of the name graph1. Server/Serves puts the start and the executions of
-- graphs together: Frame/Graph/Outside says what Graph::init leaves alone,
-- Frame/Manager/Accepted what holds of a graph that it accepts, and Frame/Setup/Accepted that
-- this is still so when all graphs are read.
--
-- Frame/Util models getTagSeqByName and fillMessage of src/frame/util.cpp; the descriptors and
-- the reflection of protobuf are records of functions.
--
-- Redis/Crc and Redis/Slots model the way of a key to a cluster node: ChannelPool::crc16,
-- GetKeySlot and GetKeyNodeIndex (src/frame/client/redis/channel_pool.cpp), NodeInfo::CheckSlot
-- and RedisClient::InitSlotNodeMap (src/frame/client/redis/redis_client.cpp). Characters are
-- bytes, and the sign extension of char is written out. Redis/ConnectPool models class
-- ConnectPool (src/frame/client/redis/connect_pool.h); its build function is a parameter, a
-- connection is the number of the call that built it.
--
-- Redis/NodeText, Redis/NodeLine and Redis/Client model class RedisClient
-- (src/frame/client/redis/redis_client.cpp): the parsing of `cluster nodes`, init_channel_pool,
-- is_channel_pool_changed, the rounds of update_channel_pool over the two ChannelPools, and
-- fetch and multi_fetch with GetConnection and FreeConnection. What comes from outside is the
-- record Env: boost::trim and boost::split, whether channels can be initialised, and the port of
-- a NodeInfo that is not written; the reply of the server is an Answer. A result of `none`
-- stands for the end of the process, or in Fetch for a call through a null pointer. The thread
-- that would call update_channel_pool is commented out in the constructor, so that the rounds
-- are those that it would make; the lines that the pools hold are described in
-- Redis/Client/Masters. multi_fetch makes its command of strings that are destroyed, whose
-- contents are a parameter. `none` is also a loop of InitSlotNodeMap without an end, over a
-- range that ends at 2^32 - 1. The order of the atomic accesses to pool_index is not modelled: a
-- round and a request do not overlap.
--
-- Service/Batches and Service/Latch model the requests of RedisService::do_service
-- (src/service/base/redis_service.cpp): how keys are cut into batches, and the two counters that
-- decide when the service goes on to its end. Service/Fetch models RedisService::init,
-- get_from_cache and make_up_fetch_info_vec; the order in which an unordered_map is gone through
-- is a parameter. Service/Reply models check_suc_rpc_response, where the text of an error is a
-- name for it, Service/Parse the calls of the parse functions, Service/Callback the callbacks of
-- the requests of one fetch, which fill its vector of results, and Service/CacheData
-- merge_cache_data. Service/DoService puts them together: do_service behind
-- make_up_fetch_info_vec, as the events that take its counters down and the end of its thread,
-- with the promise on which the last of them waits for parse_cached_data. Below it stand the
-- events that there are (Trace), what holds between them (Phase), that each of them keeps it
-- (Steps), the merge behind the last (Merged), the steps before it (Quiet), the way to it
-- (Responds) and what follows, whichever thread it is in (Answers). Service/Concurrent models
-- ConcurrentService::do_service (src/service/base/concurrent_service.cpp): slices in bthreads of
-- their own, whose steps come in any order. Service/Rpc models BrpcService and HttpService
-- (src/service/base/brpc_service.cpp, src/service/base/http_service.cpp) with
-- src/frame/call_mothod_util.h, and Service/Rpc/Unsent what they do behind init_graph_frame, by
-- Frame/Setup/Transports. Service/Start models StartService and DoneService
-- (src/service/start_service.cpp, src/service/done.cpp), the services whose contexts
-- (src/frame/graph_context.h, src/common/context.h) hold data: a request is replayed from the
-- nodes that have completed. Service/Start/Reads uses Frame/Run/Contexts, by which every node
-- has a context. Counters of type int are taken not to overflow; a batch size of 0, by which the
-- code divides, is excluded.
--
-- LOG(FATAL) and a CHECK that fails end the process, which is `none`, or bad_id in Graph::run.
-- Where the theorems say when a start fails, in Graph::check, Graph::init and
-- GraphManager::init, it is the `false`, or the value other than 0, that the code returns behind
-- LOG(FATAL); init_graph_frame is then `none`. For a class that is not registered the model goes
-- on as the code behind LOG(FATAL) does, with no node.
--
-- Fuel: `check` gives its loop one round per collected node, which is enough for every graph
-- whose counters count at least its edges; `bfs` gets its fuel as an argument, and one for the
-- root and each edge is enough. `starts` has one round per key. The other loops are structural.
--
-- Common holds what the parts share: the names of the libraries, Boolean tests, lists and signed
-- numbers over the native numbers, chains of results that may be missing (Options), texts as
-- bytes (Texts), maps by name (Maps), and lists compared by how often a number occurs in them
-- (Bag). The files called Examples have the tests and the examples of the results.
--
-- Not modelled: src/frame/ThreadPool.h, an adapted copy of a library of its own; the
-- registration by macros and the process-wide objects; the reading of configuration files; what
-- services do with redis replies; the timestamps of RedisService::do_service, which nothing
-- reads, and fetches with the same id, which share a vector of results; createMessage and
-- message_to_json, which only call protobuf; the unit tests; of main the flags and the log
-- files. brpc, hocon, protobuf and shmcache are not part of the repository.
pub mod Common
pub mod Frame
pub mod Redis
pub mod Server
pub mod Service
