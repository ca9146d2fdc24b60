-- ===== src/Lib.antt =====
-- libnl: the core of the netlink library (lib/) as functions, with the theorems that make it
-- correct.
--
-- The program has these parts. A message (lib/msg.c) is a buffer of fixed size that starts
-- with a struct nlmsghdr; attributes (lib/attr.c) are put behind one another into its payload
-- and read back from it. recvmsgs (lib/nl.c) reads datagrams from a socket, walks over the
-- messages in them and hands each to the callbacks of a struct nl_cb. What the callbacks make
-- of the messages are objects (lib/object.c), which count their references and are compared
-- through a table of functions of their type; a hash table (lib/hashtable.c) finds an object
-- that is identical to a given one. A cache (lib/cache.c) keeps objects of one type in a list
-- and a hash table, and is filled from a dump and kept up to date from notifications. The
-- types of caches are registered under their names (lib/cache_mngt.c), and each may provide a
-- cache to the rest of the library. A socket (lib/socket.c) takes one of the 1024 local ports
-- of its process and numbers its requests; nl_complete_msg fills both into a message, and
-- recvmsgs checks the number of the answer.
--
-- Files:
-- - Prelude and its children: the shared names, Boolean tests and lemmas on lists, on bytes
--   and on the numbers. No code of the library.
-- - Errno: include/netlink/errno.h and nl_syserr2nlerr of lib/error.c. A function that returns
--   0 or a negative code is one into Outcome: success, error e, or bug where the code calls
--   BUG().
-- - Attr: the reading half of lib/attr.c. A pointer to an attribute is the list of bytes from
--   there on. Attr/Stream has the walk by nla_ok and nla_next as a relation, Attr/Parse what
--   nla_parse, nla_validate and nla_find do on it, Attr/Bounds where the attributes found lie
--   in the bytes given. Attr/Payload has the readers of payloads.
-- - Msg: the functions of lib/msg.c on a header that was received; Msg/Buffer those on a
--   struct nl_msg, whose payload is the list of the bytes behind the header up to nm_size;
--   Msg/Buffer/Valid has the invariant of a message, allocation and reserving,
--   Msg/Buffer/Append appending and expanding.
-- - Build: the building half of lib/attr.c. A pointer into a message is an offset from its
--   start. Build/Put has nla_put on all branches, Build/Content the attributes that a message
--   holds, Build/RoundTrip putting against parsing and finding, Build/Nest nested attributes,
--   Build/Limits the length field, Build/Payload and Build/Values numbers and texts put and
--   read back.
-- - Object: comparison and keys in lib/object.c, with struct nl_object_ops of
--   include/netlink-private/object-api.h as a record of functions; Object/Identity and
--   Object/Refs, the latter with the reference counts; Object/Diff the macros ATTR_DIFF by
--   which object types compare.
-- - Hashtable: lib/hashtable.c over references to objects; Hashtable/Lookup has the invariant
--   and the lemmas on a chain, Hashtable/Update the operations against a finite map. Keys and
--   IsHash are the contract between the table and the object types; Hashtable/Objects fills it
--   from lib/object.c, Hashtable/Types for types whose objects say themselves what identifies
--   them.
-- - Recv: recvmsgs of lib/nl.c, one function per step of the body of its loop. Recv/Stream has
--   the walk over a datagram as a relation, Recv/Refine recvmsgs against a loop over messages,
--   Recv/Parts and Recv/Dump the answer to a dump, Recv/Pieces and Recv/Interrupted dumps
--   whose messages may say that they were interrupted, Recv/Sequence the check of sequence
--   numbers.
-- - Socket: the local ports in lib/socket.c. Socket/Walk has the two loops of
--   generate_local_port, Socket/Uses the bitmap as the set of the ports in use, Socket/Ports
--   taking and giving back a port against this set, Socket/Life the port of a socket until it
--   is freed.
-- - Send: nl_complete_msg of lib/nl.c. Send/Complete has what it fills in, Send/Sync a request
--   with its answer.
-- - Cache: lib/cache.c on a memory of objects and caches; Cache/Heap has the memory and the
--   monad of functions that may stop by BUG(), Cache adding, moving and removing, Cache/Scan
--   the functions that go through the objects, Cache/Include notifications, Cache/Pickup the
--   dumps that recvmsgs delivers. Cache/Valid has the invariant of the memory; Cache/Leave and
--   Cache/Enter what it takes for an object to leave and to enter a cache, Cache/Touch for
--   references that others hold; Cache/Remove and Cache/Removal prove it of nl_cache_remove,
--   Cache/Adding and Cache/Added of nl_cache_add. Cache/Search, Cache/Clear, Cache/Sweep,
--   Cache/Resync and Cache/Merged are about searching, clearing and the end of
--   nl_cache_resync.
-- - Cache/Steps has any sequence of changes to caches and of references taken and given back.
-- - Addr: lib/addr.c, and nla_put_addr of lib/attr.c; Addr/Compare what nl_addr_cmp tells,
--   Addr/Carry an address in an attribute.
-- - Route: object types below lib/route. Route/Neigh has neighbours (neigh.c), Route/Routes
--   routes (route_obj.c) with their next hops in Route/Nexthop (nexthop.c, nexthop_encap.c),
--   Route/Links links (link.c, link/api.c): the table of functions of each type, and in the
--   children Contract and Ops what of it the hash table relies on. Route/Neigh/Lost is about
--   rtnl_neigh_set_type, Route/Routes/Same compares a route with itself, and
--   Route/Routes/Metrics is about the metrics of a route.
-- - Mngt: lib/cache_mngt.c; Mngt/Find has the search through the list of types, Mngt/Registry
--   registering and unregistering, Mngt/Provide the caches that types provide.
-- - Handlers: the handles of callbacks of lib/handlers.c; Handlers/Fill has the loops over all
--   types of callbacks, Handlers/Rows what nl_cb_set_all sets, by a table of the default
--   handlers. Recv takes a handle as the functions in it.
-- - Data: lib/data.c; Data/Compare what nl_data_cmp tells.
-- - Tests: concrete messages, tables and datagrams, and the theorems at these inputs.
--
-- Numbers. Lengths and offsets are natural numbers; where the code computes with a signed int
-- that can be negative (the remaining bytes of a walk, the attrlen of nla_put) it is an
-- integer of Prelude/Int. The 16-bit nla_len, the 32-bit nlmsg_len and s_seq_expect and the
-- masks of objects keep their wrap-around, written as a remainder. The loops over the words
-- and bits of the port map take 32 turns each, as in the code. The host is little-endian.
-- Offsets are taken not to overflow an int.
--
-- Fuel. The walks over attributes and messages run on fuel, which is one more than the number
-- of bytes: each attribute takes at least four, each message at least sixteen. So the fuel
-- does not run out before the bytes do. recvmsgs itself recurses on the list of datagrams that
-- the socket will deliver; behind the last one, the read returns a number given as an
-- argument.
--
-- What code that is not there does is an argument: the callbacks of the user are functions on
-- a state of any type, the comparison, keys and attributes of an object type are functions on
-- data of any type, and nl_hash, whose code in lib/hash.c is a copy of another project, is a
-- function of the bytes of a key. The same holds of what the types of links and of
-- encapsulations compare.
--
-- Not modelled: allocation is taken to succeed, so NLE_NOMEM comes from a full message alone;
-- debug output; printing and dumping; cb_active and the overriding of nl_recv and nl_recvmsgs
-- by callbacks; the requests and the loops over groups in nl_cache_refill and nl_cache_resync,
-- the cache manager of lib/cache_mngr.c, sending itself, the system calls of sockets, the
-- parsing and printing of addresses and the utilities of lib/; of the object types below
-- lib/route all but the comparison and the keys of neighbours, routes and links, and those
-- below lib/genl, lib/netfilter, lib/xfrm, lib/idiag and lib/fib_lookup; the command line
-- tools and the bindings. Reading past the end of a list of bytes gives zeros where the code
-- would read other memory.
pub mod Prelude
pub mod Errno
pub mod Attr
pub mod Msg
pub mod Build
pub mod Object
pub mod Hashtable
pub mod Recv
pub mod Socket
pub mod Send
pub mod Data
pub mod Addr
pub mod Cache
pub mod Route
pub mod Mngt
pub mod Handlers
pub mod Tests
