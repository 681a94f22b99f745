-- ===== src/Lib.antt =====
-- A model of parts of the MudOS driver, v22pre11, in src/ of the repository: the call_outs, the table of
-- shared strings, the table of objects, the hash that the two tables use, the sockets of LPC programs,
-- the text in which values are saved and restored, the heart beats, the bytes that users send and get,
-- the mappings of LPC programs, and the sorting of arrays.
--
-- The driver keeps each part in static variables. Here such a state is a record, and an operation is a
-- function from the state before to the state behind, beside the value that the C function returns. A
-- pointer chain is a list, in its order, and an array of chains is a function from an index. What an
-- operation does to memory, reference counts and values of other parts is recorded in a list `trace`,
-- the latest first, so that a free or a reference that the code forgets is visible. What other code
-- answers (the allocator, the system's calls on sockets, a called LPC function, the printing of values)
-- is an argument; a called LPC function may change the state at will, and is a function on it.
--
-- src/call_out.c: `CallOut`. Calls stand in 32 slots, by the second at which they are due modulo 32, and
-- a call holds the number of visits to its slot that lie between it and the call in front of it.
--   CallOut/Chain     the entries of a slot: `insert`, `search_chain`, `unlink`, `unlink_all`
--   CallOut/State     the static variables, the free list, `free_call`, `free_called_call`
--   CallOut/Api       `new_call_out`, `time_left`, `find_call_out`, `remove_call_out`, both by handle
--                     too, and `remove_all_call_out`
--   CallOut/Clock     `call_out`: `ticks` is its outer loop, `tick` a round of it, `run_due` the inner
--                     loop, `make_call` the call of one entry, `Apply` what a called function does
--   CallOut/Listing   `get_all_call_outs` and the count of `print_call_out_usage`
--   CallOut/Schedule, CallOut/Agenda, CallOut/Timing, CallOut/Valid: the abstract view. `agenda` gives
--                     each call of a slot the second at which it is due; `IsValid` is the order of the
--                     table
--   CallOut/Search, CallOut/Due, CallOut/New, CallOut/Tick, CallOut/Fired, CallOut/Remove,
--   CallOut/ByName, CallOut/Account: the theorems
-- The configuration is that of src/options.h, with CALLOUT_HANDLES and THIS_PLAYER_IN_CALL_OUT.
-- `run_due` has as fuel the length of the chain and one more: the calls that are due stand first and are
-- made once each, and `new_call_out` and the removals add none in front of them. `ticks` has the seconds
-- to pass and one more. A handle is not bounded: in the source it overflows an int once `unique` is 2 ^ 26. Nor
-- are the sums of times, which are ints in the source.
--
-- src/hash.c: `Hash`. src/stralloc.c: `StringTable`, with the bucket chains of HashChain.
--   StringTable/State the blocks, `make_shared_string`, `ref_string`, `free_string`,
--                     `deallocate_string`, and the counters of STRING_STATS
--   StringTable/Sharing, StringTable/Freeing, StringTable/Sizes: the theorems
-- The fuel of `round_up`, which doubles, is the size asked for and one more. A reference count wraps at
-- 2 ^ 16, as in the source. A string pointer is the address of its block, and is unique.
--
-- src/otable.c: `ObjectTable`. ObjectTable/State has the operations, ObjectTable/Lookup the theorems. That
-- an object is entered that is in the table already is left out.
--
-- src/socket_efuns.c: `Sockets`.
--   Sockets/State     the table `lpc_socks`, the callbacks, `find_new_socket`
--   Sockets/Open      `socket_create`, `socket_bind`, `socket_listen`, `socket_accept`, `socket_connect`
--   Sockets/Transfer  `socket_write`, `call_callback`, `socket_close`, `socket_release`,
--                     `socket_acquire`
--   Sockets/Handlers  the handlers of `select`, and `close_referencing_sockets`
--   Sockets/Fresh, Sockets/Closing, Sockets/Pending, Sockets/HandOver: the theorems
--   Sockets/Messages  a value on its way through both ends of a connection in mode MUD
-- What `save_svalue` writes for a message is an argument of `socket_write`, and the read handler hands
-- on the text for `restore_svalue`; Sockets/Messages puts the text of `Saving` there. The machine is
-- taken to store the least byte of a word first.
--
-- src/object.c: `Saving`. A text is the list of its bytes before the 0 at its end, and a pointer into it
-- is the list of the bytes that follow.
--   Saving/Value      the values, and what is taken of the machine's floats
--   Saving/Size       `svalue_save_size`
--   Saving/Save       `save_svalue`, `save_variable`
--   Saving/Numeric    `parse_numeric`
--   Saving/Scan       `restore_internal_size` and `restore_size`, which have one loop, `scan`
--   Saving/Restore    `restore_string`, `restore_interior_string`, `restore_array`, `restore_class`,
--                     which are one loop, `restore_items`, and `restore_svalue`
--   Saving/Plain      the values that are read back as they were
--   Saving/ZeroFree, Saving/Texts, Saving/Scanning, Saving/Reading, Saving/RoundTrip, Saving/Fits,
--   Saving/Depth: the theorems
-- A real is the bits of a float; how a float is printed and computed is an argument, as is
-- `restore_mapping`. The size of a text is not bounded in `svalue_save_size`; `save_variable` allocates it
-- as the int of the source holds it, modulo 2 ^ 32. `too_deep_save_error` raises an LPC error, so the saving functions give an Option.
-- The loops over digits have the number as fuel; the scan and the restoring have the length of the text
-- and one more, since each turn takes a byte at least.
--
-- src/backend.c: `HeartBeat`. The array of heart beats is a list, and `next` is `heart_beat_index` and
-- 1.
--   HeartBeat/State   `set_heart_beat`, `query_heart_beat`, and `call_heart_beat`: `visit` is the body
--                     of its loop, `beat_round` the loop. What a called function asks of
--                     `set_heart_beat` is an argument, and so is the test of the loop at which the
--                     timer has set its flag
--   HeartBeat/Spec    the round as it is meant: the entries that had their turn, those that wait,
--                     those that came too late, each a list of its own
--   HeartBeat/Positions, HeartBeat/Refine, HeartBeat/Changes, HeartBeat/Lengths, HeartBeat/Rounds:
--   the theorems
-- An LPC error in a called function, which turns off that heart beat and leaves the round, is left out.
-- The fuel of a round is the number of entries, since no call adds one to those that wait.
--
-- src/comm.c: `Telnet`.
--   Telnet/State      `copy_chars`, with one function for each state of the telnet protocol
--   Telnet/Commands   the buffer of commands: `get_user_data` on a telnet connection, `cmd_in_buf`,
--                     `first_cmd_in_buf`, `next_cmd_in_buf`, `telnet_neg`, and what `get_user_command`
--                     does for one user
--   Telnet/Stream, Telnet/Suboptions, Telnet/Bounds, Telnet/Lines: the theorems
-- The bytes of the buffer before `text_start` are left out, since they are used up. A function of the
-- user's object that is called may change the flag SINGLE_CHAR; that it removes the user is left out,
-- and so is an LPC error in it.
-- `take_commands` has the number of lines and one more as fuel.
--
-- src/comm.c: `Output`, the ring of bytes that wait for a user.
--   Output/State      `add_message` and `flush_message`; `send` is an argument, which answers each call
--   Output/Ring, Output/Flush, Output/Stops, Output/Order: the theorems
-- The fuel of `flush_message` is the number of bytes that wait and one more, since each call of `send`
-- that succeeds is taken to take a byte at least. The flag `out_of_band`, snooping, shadows, and the test at the
-- start of `add_message` whether there is a connection are left out.
--
-- src/mapping.c: `Mapping`. A bucket is the list of its nodes, and the table a function from an index.
--   Mapping/Key       what is taken of keys: `hash` is `svalue_to_int` and `same` is `msameval`
--   Mapping/Chain, Mapping/Orders: buckets, with look-ups that go to the first node with a key
--   Mapping/State     `growMap`, `find_for_insert`, `mapping_delete`, `find_in_mapping` and
--                     `add_mapping_pair`
--   Mapping/Whole     the operations on all the nodes: `allocate_mapping`, `copyMapping`,
--                     `add_to_mapping`, `unique_add_to_mapping`, `absorb_mapping`, `add_mapping`,
--                     `load_mapping_from_aggregate`, `map_mapping`, `compose_mapping`,
--                     `mapping_indices`, `mapping_values`, `mapTraverse`
--   Mapping/Filter    `filter_mapping`, with its theorem
--   Mapping/Valid     the table in order, `IsValid`, and growth
--   Mapping/Counted   the nodes counted, with Mapping/Totals
--   Mapping/Load      some buckets left to fill, `Roomy`, with Mapping/Filled
--   Mapping/Success   all three, `IsSound`
--   Mapping/OneByOne  the sums with each new node counted at once
--   Mapping/Grow, Mapping/Insert, Mapping/Update, Mapping/Laws, Mapping/Nodes, Mapping/Merge,
--   Mapping/Union, Mapping/Chains, Mapping/Invariant, Mapping/Sums, Mapping/Changes, Mapping/Making:
--   the theorems
-- `& table_size` is a remainder, since the number of buckets is a power of 2. `MAX_MAPPING_SIZE` is an
-- argument, as it comes from the configuration, and so is the value `const0u`. A callback of
-- `map_mapping` and `filter_mapping` is a function, so that it changes neither mapping. The mappings of
-- `compose_mapping` are two, not one. `mapping_too_large` and the error "Out of memory" are values. The
-- loops of the two sums and of `load_mapping_from_aggregate` are one, `add_counting`, with the variable
-- `count` of the source. `word_keys` is what keys are for every type
-- but reals: 0.0 and -0.0 are the same key, but have other hashes, and `Keys` asks for the same ones. That
-- an allocation fails, `unique_mapping`, `find_string_in_mapping`, the freeing of a mapping and the free
-- list of nodes are left out.
--
-- src/qsort.c: `Sorting`. An array is a function from an index.
--   Sorting/State     `doSwap`, the loop of `qSort`, `qSort`, `quickSort`
--   Sorting/Moves, Sorting/Order, Sorting/Sorted: the theorems
-- The comparison is given the number of its call. The fuel of `q_sort` is the number of elements, since
-- each call has fewer of them.
--
-- How the parts meet: call_outs and sockets hold references to shared strings, objects and function
-- pointers, and call LPC functions, which may come back to any operation; both are told when an object
-- is destructed. The string table and the object table share the hash and the search that moves what it
-- finds to the front of its chain. What `copy_chars` answers a user is recorded as a call of `add_message`, and
-- is not put into the ring of `Output`.
--
-- Not modelled: the compiler, the interpreter, the acceptance of users, the editor, files, arrays,
-- the files of saved objects, memory allocators, and the packages. The debug output, the
-- statistics that are only printed, `check_valid_socket` and `dump_socket_status` are left out as well.
pub mod Prelude
pub mod CallOut
pub mod HashChain
pub mod Hash
pub mod Sorting
pub mod StringTable
pub mod ObjectTable
pub mod HeartBeat
pub mod Saving
pub mod Telnet
pub mod Output
pub mod Mapping
pub mod Sockets
pub mod Tests
