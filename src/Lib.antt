-- ===== src/Lib.antt =====
-- j7f, a library of components for Go services, as a model with its laws.
--
-- The repository is a set of packages that a service picks from. Those modelled here keep state and
-- logic of their own:
--
-- * components/trie/trie.go, a trie of sensitive words. Trie.antt has the nodes and maps, `Add`, `Del`
--   and `ReadAll`; Trie/Query.antt has `Query`, which looks for words in a text and overwrites them, and
--   the white lists, which are tries again. `add_chars` is the loop of `Add`, `cycle_del`, `cycle_read`
--   and `read_range` the recursions of `cycleDel` and `cycleRead`, `scan` and `walk` the outer and the
--   inner loop of `Query`, `in_white_prefix` and `in_white_suffix` the two tests of a white list.
-- * components/dao/shard/shard.go and numkey.go, the shards of a table. Shard.antt has the values of
--   keys, `ModShard` (`mod_find`) and `NumRangeShard` (`range_find`), Shard/Dates.antt the three date
--   shards (`year_find`, `month_find`, `day_find`), Shard/Configs.antt the configuration, the call
--   through the interface (`find_for_key`) and `ParseShard` (`parse_shard`).
-- * components/dao/balancer.go, the weighted round robin over the slaves of a node: Dao/Balancer.antt
--   with `gcd`, `init_balancer` and `get_next_slave`.
-- * components/dao/node.go, a node of databases: Dao.antt has its record and errors, Dao/Conns.antt
--   `NewNode`, the connections, the checks and `GetTable`, Dao/Transactions.antt the transactions.
--   `NewNode` calls `ParseShard` and `InitBalancer`, `GetSlaveConn` calls `getNextSlave`, and `GetTable`
--   finds a shard and calls its `FindForKey`: so do the definitions.
-- * components/errors/errors.go and stack.go, errors with a code and their wrappers: Errors.antt has
--   the errors, `GetResHeader`, `Wrap`, `Cause` and the `Format` methods, Errors/Frames.antt the frames
--   of a stack.
-- * components/mq/producer.go, a producer of messages: Mq/Producer.antt, with the pools of connections,
--   `Publish`, `queryLookupd` and `Close`. config.go, the settings handed to nsq: Mq/Config.antt, with
--   `Struct2Map` of util/reflect.go. consumer.go in Mq/Consumer.antt, api_request.go in Mq/Lookup.antt.
-- * util/etcd_listen/etcd_listen.go, the nodes that etcd tells of and their export to files:
--   EtcdListen.antt, with the events of the watcher (`handle`), and EtcdListen/Groups.antt, with the calls
--   by which a group starts and ends its watch. etcd_watcher.go, which makes these events:
--   EtcdListen/Watcher.antt, with the watched keys and their goroutines (`call`), and what one goroutine
--   tells the listener (`watch`); `handle_all` hands that to `handle`. EtcdListen/Listening.antt has the two
--   together, with `Start` and the reloads: a `step` is a call of the package or of a goroutine.
-- * components/grace/grace.go and server.go, a server that restarts and stops by signals: Grace.antt. A
--   `step` is a signal for `handleSignals`, a timer of `shutdown`, or the end of `StartServ`; the calls that
--   leave the process are effects.
-- * components/service_register, the registration of a service in etcd: ServiceRegister.antt, where
--   `register` and `deregister` give the calls that `Register` and `DeRegister` make. A server of
--   components/grace deregisters by them when it stops.
-- * components/lock/redis.go, a lock of the process and of redis: Lock.antt, with `new_redsync` and the
--   moves of the goroutines in `Lock` and `Unlock`, one access of shared memory at a time.
-- * components/grpc, in five files. Grpc/Streams.antt has the stream of grpc/server/grpc.go, with the
--   goroutine that each `RecvMsg` starts, Grpc/Server.antt the server of grpc/server/server.go, and
--   Grpc/Client.antt the connections of grpc/client/client.go with the stream and the levels of
--   grpc/client/grpc.go, Grpc/Client/Calls.antt the lines that are logged of a call, the interceptors of
--   the client and `Invoke`, and Grpc/Interceptors.antt those of grpc/interceptor, over the errors of Errors.
-- * components/http/server/server.go, the server over gin, with its callbacks and the services that it
--   tells of: Http/Server.antt. controller.go and result.go in Http/Pages.antt; of http/middleware the
--   recovery from a panic in Http/Recovery.antt, json_param.go and errors.go in Http/Params.antt.
-- * components/log/zap.go in Log/Zap.antt, with the defaults of a configuration and the methods of a logger,
--   and internal/log/logger.go in Log/Default.antt.
-- * util/funcs.go in Util.antt, util/helper.go in Util/Host.antt, and types/type_JSON.go in JsonColumn.antt.
--
-- Strconv.antt, Crc.antt, Strings.antt and Strings/Paths.antt have what the code calls of Go's
-- strconv, hash/crc32, strings, bytes and path, Base.antt and the modules below it lists, texts,
-- maps, Boolean tests and 64-bit integers.
--
-- How the code is read. A text is a list of code points in the trie, as in a []rune, and in
-- Http/Recovery, and a list of bytes elsewhere. A panic is `none`, or `panicked` in the node. A
-- value with an error is a pair, and a nil error is `none`. int has 64 bits; conversions between
-- signed and unsigned wrap. Weights are not negative. A `sync.Map` is an association list, visited
-- in its order; its calls do not overlap, so locks have no part. A trie's nodes are owned by one
-- parent, so a change is stored back in it. The random numbers, the time zone, the database driver,
-- the answers of nsq, of the lookup service, of etcd, of grpc and of redis, the symbols of the
-- runtime, the quoting of fmt, the reading of JSON and the ranges of versions are parameters. Where
-- goroutines meet, as in Grace, Lock, EtcdListen/Watcher, EtcdListen/Listening and Grpc/Streams,
-- their order is a list of steps, and a theorem holds for every list.
--
-- Fuel. `scan` has a round for each rune of the text, which is enough since its index grows in
-- every round. `send_tries` and `query_tries` have the three tries of the code. `digits` has
-- twenty rounds, the digits of a uint64, `hex_digits` sixteen. All other recursions are structural.
--
-- Not modelled: overlapping calls of the other components, the tickers of `CheckNode` and
-- `lookupdLoop`, pool sizes and lifetimes of connections, the printing of key ranges; the
-- components that only hand values to a library (viper, gomail), the line of the middleware Logger and
-- what gin does around the handlers, the time of a call in the log of the grpc client, generated code
-- in proto and the copy of redsync in lib.

pub mod Base
pub mod Crc
pub mod Dao
pub mod Errors
pub mod EtcdListen
pub mod Grace
pub mod Grpc
pub mod Http
pub mod JsonColumn
pub mod Lock
pub mod Log
pub mod Mq
pub mod ServiceRegister
pub mod Shard
pub mod Strconv
pub mod Strings
pub mod Trie
pub mod Util
