-- ===== src/Lib.antt =====
-- PgBouncer, a connection pooler for PostgreSQL: a verification library.
--
-- Clients connect to the pooler, which lets them take turns on a smaller number of connections to
-- servers. Each socket has a stream buffer (src/sbuf.c) over a read buffer (include/iobuf.h); its
-- handler decides of each packet whether it is forwarded or skipped; packets of the pooler's own
-- are put together by the packet writer (src/pktbuf.c). A new client is checked against the access
-- rules (src/hba.c). A client that has work is linked to a server of its pool; before that the
-- server is given the client's parameter values (src/varcache.c), and the client's named prepared
-- statements are made to exist on it (src/prepare.c). The lists of a pool that a connection stands
-- on follow its state (src/objects.c).
--
-- The files, one folder for each part:
--   Base      what all parts share: Boolean tests on numbers, lists of bytes, C strings
--   Pktbuf    src/pktbuf.c: PktBuf is struct PktBuf; put_char is pktbuf_put_char and so on;
--             Packets has pktbuf_write_generic, _RowDescription, _DataRow and _ExtQuery
--   Iobuf     include/iobuf.h: tag_send is iobuf_tag_send and so on
--   Sbuf      src/sbuf.c, functions by their own names: Sbuf is struct SBuf, process_loop the loop
--             of sbuf_process_pending (Packets); Forward says what a stream comes to, Contract
--             what a handler keeps to, Prepared its functions for it; Responses is a handler that
--             keeps to it, with the decisions of handle_server_work of src/server.c (Session);
--             Loop has sbuf_main_loop, its child Wakeups the callbacks that run it
--   Varcache  src/varcache.c, functions by their own names; a cache is a function from slots
--   Hba       src/hba.c: Token (struct TokParser), StrSet, Names (parse_names), Ident
--             (parse_ident_line), Address, Rules (parse_line), Match (hba_eval)
--   Prepare   src/prepare.c and the queue of outstanding requests of src/objects.c, functions by
--             their own names; Link is a linked client and server
--   Herd      src/objects.c over struct PgSocket, PgPool, PgDatabase and PgGlobalUser (Sockets):
--             change_client_state and change_server_state over the lists; Links has
--             disconnect_server, its child Release disconnect_client, release_server and what they
--             call; Evict has evict_connection and its variants, Launch launch_new_connection;
--             Settings has the pool settings of src/server.c
--   Wire      get_header of src/proto.c; Messages has the readers of Parse, Bind, Describe and Close
--             packets of src/messages.c, functions by their own names
--
-- State is passed explicitly: an operation takes the structure and gives the one afterwards. An
-- Option result is `none` where the process would stop, a null pointer would be followed, a client
-- is disconnected, or a loop has used up its fuel. Integers are natural numbers; unsigned
-- arithmetic is reduced modulo 2 ^ 32 and INT_MAX is written out. Bytes are numbers below 256.
-- Strings and data given to the packet writer are shorter than INT_MAX, so that the int of their
-- length in pktbuf_put_string and pktbuf_put_bytes is exact. connection_count stops at 0 where the
-- int of the source would turn negative, which it does not in a sound world.
--
-- Fuel: the doubling loop of make_room has 32 rounds, which take any positive length past INT_MAX;
-- the loop of parse_names has one round for each character left in the line and one more, and
-- every round takes a comma off the line; parse_namefile has the depth of files that include one
-- another, which the source does not bound. disconnect_client, disconnect_server and
-- release_server call one another; a chain of such calls is at most 4 deep in a sound world, so
-- `run` is given a fuel of 4 or more. What sbuf_continue sets off is not part of a chain. A loop
-- of evictions in launch_new_connection has one round more than there are connections to servers,
-- and each round closes one.
--
-- The loop of sbuf_process_pending has one round more than there are unparsed bytes, and each
-- round takes one at least; the main loop with a bounded count has that many rounds and the one
-- that yields.
--
-- Code that is not the program's own is a parameter: realloc (Allocator), snprintf of numbers and
-- times (Printer), inet_pton and strtoul (Libc), dirname, the lines of a file, pg_quote_literal,
-- the crit-bit tree of libusual (CbTree) and its message buffer (Mbuf, with Reads for what its
-- reads return). What the lists of connections ask of
-- the stream buffer is a parameter (Streams), and so is the allocator of sockets (Opens). The calls
-- that src/objects.c makes of sbuf_continue and dns_connect are left in the list `calls` of the
-- world and not carried out: both may run the handler or open sockets at once, and what they change
-- then is no part of an operation here. For the stream buffer the answers of send and recv,
-- libevent's, the slab and the protocol handler are parameters (Answer, Arrival, Host). A handler
-- that fetches a packet larger than the buffer part by part (ACT_CALL) is run by the loop and is
-- outside the contract, and so are fake responses queued inside a packet. The string pool of
-- libusual is modelled by the content of strings.
--
-- Not modelled: the TLS handshake and the making of connections in src/sbuf.c, sockets and events,
-- logging, running out of memory outside make_room, the freeing of structures, the making of links
-- and of cancel requests in src/objects.c, and the other source files under src/: the protocols of
-- client.c and server.c, the janitor, the admin console, configuration and authentication.
pub mod Base
pub mod Hba
pub mod Herd
pub mod Iobuf
pub mod Pktbuf
pub mod Prepare
pub mod Sbuf
pub mod Varcache
pub mod Wire
