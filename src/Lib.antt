-- ===== src/Lib.antt =====
-- IST-KVS: the key-value store of proj_p2.
--
-- The server keeps a hash table of 26 buckets in memory. Job files with WRITE, READ, DELETE, SHOW, WAIT
-- and BACKUP commands are parsed and run on it by several threads; clients subscribe keys over named
-- pipes and are told of each change. A command sorts its keys, takes the lock of each bucket that it
-- needs, does its work and gives the locks back.
--
-- Which module models what:
--
-- - CString: C strings as lists of bytes, and the functions of the C library that the program uses.
--   `qsort` is the insertion sort of Operations.Sort.
-- - Table: proj_p2/src/server/kvs.h and the list loops of proj_p2/src/server/kvs.c. Table.View reads the
--   table as a map from keys to values, and has its invariant, IsWellFormed.
-- - Machine: the state of a server thread, and the monad of its operations, whose `none` is undefined
--   behaviour: an access through NULL or a freed pointer or out of bounds. Where the code goes on with
--   an unchecked NULL of `strdup`, the model already stops with `none`.
-- - Kvs: proj_p2/src/server/kvs.c, one definition per function.
-- - Locks: lock_write_list, lock_read_list and unlock_list of proj_p2/src/server/operations.c. Locks.System
--   has the threads that take such locks at the same time.
-- - Operations: kvs_init, kvs_terminate, kvs_write, kvs_read and kvs_delete of the same file.
-- - Dump: kvs_show, kvs_backup and delay_to_timespec of the same file, strn_memcpy of server/io.c.
-- - Clients: the sessions of clients of the same file and write_to_resp_pipe of server/io.c; Clients.Session
--   has the table of connected clients, and Clients.Tracking the invariant that ties the table of keys, the lists
--   of the clients and the table of clients together.
-- - Parser: proj_p2/src/server/parser.c, and write_uint of server/io.c in Parser.Digits.
-- - Pipes: the loops read_all, read_string and write_all of proj_p2/src/common/io.c, write_str of server/io.c.
-- - Connections: the buffer between the host thread and the client threads of proj_p2/src/server/main.c.
-- - Requests: the messages of proj_p2/src/client/api.c, and read_connect_message, manage_request and a
--   round of process_client_thread, the connection and the requests of one client, of
--   proj_p2/src/server/main.c.
-- - ClientProgram: proj_p2/src/client, with a child for each of parser.c, api.c (Api, and kvs_connect in
--   Connect) and main.c (Main, and process_notif_thread in Notifications).
-- - FirstDelivery: proj_p1, an earlier version of the server without clients: its kvs.c, operations.c
--   (Operations), parser.c (Parser), and the command loop (Jobs) and the loop over the directory (Directory) of
--   main.c.
-- - Jobs: the command loop of process_thread of proj_p2/src/server/main.c, and its loop over the directory in
--   Jobs.Directory.
-- - Examples: the theorems at concrete inputs.
--
-- What can fail is part of the state: whether the next allocations succeed, whether a lock of a bucket
-- can be taken, given back and initialised. A NUL that the code stores one byte past an array, in
-- read_connect_message and in read_string of the parser, is taken to hit nothing. Writes to the notification pipes and to the output file are
-- recorded in order; the code ignores their failure.
--
-- The recursion is structural but for the loops over the commands of a job file, over the input of the client
-- and over the requests in a client's pipe, which take fuel for their rounds; one round more than there are
-- bytes is enough, two for the client. The loops of parse_write and parse_read_delete take the number of
-- entries that still fit the arrays, which is the bound of the loops in the code. The loops over a pipe go
-- through the results of the single calls, and that of write_uint for as many rounds as its buffer has
-- bytes, which is more than the ten digits of a number below 2 ^ 32.
--
-- Not modelled: the rest of proj_p2/src/server/main.c and of proj_p1/main.c, which starts the threads.
pub mod Prelude
pub mod CString
pub mod Table
pub mod Machine
pub mod Kvs
pub mod Locks
pub mod Operations
pub mod Dump
pub mod Parser
pub mod ClientProgram
pub mod Clients
pub mod Jobs
pub mod Pipes
pub mod Connections
pub mod Requests
pub mod FirstDelivery
pub mod Examples
