-- ===== src/Lib.antt =====
-- Verification of AiKv, a server with the Redis protocol (src/ of the repository).
--
-- The program. A connection's task (src/server/) parses a request, and an executor (src/command/mod.rs)
-- calls the command's handler with the arguments and the index of the selected database. Handlers
-- (src/command/*.rs) keep no state: they read and write one storage, which all connections share,
-- through the methods of a storage engine (src/storage/mod.rs). Behind it is the memory adapter, a vector
-- of databases, each a map from keys to values with an optional time of expiration, behind one lock; or
-- the adapter of the aidb crate's databases, which keeps the encoded values, and their times under keys
-- of their own. A script (src/command/script.rs) calls commands over a buffer that is committed at its
-- end. In a cluster (src/cluster/) a command with keys is first checked against the slot of its keys,
-- and a client is sent to the node that serves it.
--
-- The files.
--   Base: the shared names, tests on native numbers, lists measured by them, `i64`, and a stable sort.
--   Text: bytes, UTF-8 decoding and upper case of arguments (`String::from_utf8_lossy`, `to_uppercase`),
--     `parse` and `to_string` of the machine's integers, and little-endian numbers.
--   Error: src/error.rs. Effect: code that reads and writes a state and may fail; what was written before a
--     failure stays. HashMap: the maps of the standard library that the program uses.
--   Glob: the pattern matchers of src/command/key.rs, hash.rs, set.rs and zset.rs.
--   Resp: the values of src/protocol/types.rs, with Serialize for `serialize` and Parser for
--     src/protocol/parser.rs. Its child modules are on reading back what is written.
--   Storage: src/storage/memory_adapter.rs. Value has the values and their serialised form, Adapter the core
--     methods, Expiry those on times and Keyspace those on whole keys and databases, each by the
--     name of its Rust method. View says what a client can see: the live value of each key. Contract,
--     Lifetime, Moves, Batch and Serial hold the methods against it. Codec is what is
--     used of the bincode crate. Disk and its children have src/storage/aidb_adapter.rs over the calls
--     of a database (`Db`): Times the methods on times, Copies those that move keys and Whole those on
--     databases; Access, Reading and Stale are on what is stored. Engine has src/storage/mod.rs.
--   Command: Index has the arguments and indices that the handlers share, Lists the handlers of
--     src/command/list.rs, Strings those of string.rs, Keys of key.rs, Databases of database.rs, Hashes
--     of hash.rs, Sets of set.rs and ZSets of zset.rs, each by the name of its Rust method. Scanning has
--     the options and pages of the SCAN commands, and Floats the operations on `f64` that are used. Their
--     child modules are named for what they are about, and Lists.Race has two handlers whose accesses
--     interleave, as the tasks of src/server/mod.rs let them; Lists.Filled has the list commands in any
--     sequence. Scripts has the buffer of script.rs, and
--     Calls, Collections and Ranked the commands that a script calls.
--   Cluster: src/cluster/commands.rs. The parent has slots, ownership and redirection, Slots the commands
--     that give slots and take them away, Groups those on nodes and groups.
--   Persistence: Aof has src/persistence/aof.rs.
--   Tests: small storages, runs of the handlers on them, and the theorems applied to them.
--
-- How the model stands to the code.
--   A handler is a function of the clock, the arguments and the index of the database, into an effect on
--     the storage. It reads the clock once; a storage method that reads it twice takes both readings,
--     `now` and `later`. The handlers are over the memory adapter.
--   A handler that may panic replies an option, `none` for the panic, and so do the readers of the
--     append-only file, for a declared length that is more than `isize::MAX` bytes.
--   A string is the list of its UTF-8 bytes, and a key is what `from_utf8_lossy` makes of its argument.
--     `to_uppercase` is exact for the comparison with words of ASCII letters.
--   Numbers are natural numbers with the wrap-around written out: `u64` and `i64` additions and products
--     wrap as in a release build, `as i64` is two's complement, `checked_add` fails out of range. The
--     lengths of lists and strings are below 2 ^ 63. The counters of SADD, SREM, HSET, HDEL, ZADD, ZREM
--     and LREM are `i32`: the loops say how often they are raised, and the replies take that as an `i32`
--     (`as_i32`), as a release build wraps it. `f64` is its
--     bit pattern, and its operations are a parameter, `F64`; the theorems on ranks take its comparison
--     for transitive, and total on what equals itself.
--   A map is an association list with one entry for a key; its order stands for the order, not specified by
--     Rust, in which the map is read. A BTreeMap is read sorted.
--   The parser's cursor is the list of the bytes that it has not passed. How a finite `f64` is printed and
--     read is a parameter, `Floats`, and a double counts as one that the wire can carry if its print is read
--     back.
--   The databases of the aidb crate are a parameter, `Db`, each of whose calls may fail; the theorems take
--     them for maps whose calls do not fail (`IsMap`), and the encoding for one that reads back what it
--     has written (`Reads`). The consensus is a parameter, `MetaRaft`, whose calls may fail; the theorem on
--     slots takes it for one that does what its calls are named for (`IsRaft`). The hash of a key is a
--     parameter.
--   Fuel: `to_string` of a number divides by ten at most 20 times, which is enough for every `u64`;
--     `parse_value` and `parse_chunks` take one more than the length of the buffer, which is enough, since
--     each level and each chunk takes a byte; `load_all` one more than the length of the file, which is
--     enough, since each command takes a byte; a client of SCAN one more than the number of matches. The
--     other loops are structural.
--
-- Not modelled: memory, so that the parser goes on where a declared length of an array is too much for
-- `Vec::with_capacity`, and the wrap-around of `pos + len + 2` at the length of a chunk of a streamed
-- string; the poisoning of the lock, which needs a panic of another task; JSON, which stands on
-- serde_json; the Lua virtual machine and the conversion of its values, the cache of scripts and the locks
-- of their keys; the texts of CLUSTER INFO, NODES, SLOTS and SHARDS, the nodes and the consensus of
-- src/cluster/node.rs and raft_service.rs; the RDB file; the server's own commands and the table from names
-- to handlers; opening files and sockets; logs and metrics, which change no reply; and the tool chain,
-- a separate program that builds and deploys the server.
pub mod Base
pub mod Cluster
pub mod Command
pub mod Effect
pub mod Error
pub mod Glob
pub mod HashMap
pub mod Persistence
pub mod Resp
pub mod Storage
pub mod Tests
pub mod Text
