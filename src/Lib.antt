-- ===== src/Lib.antt =====
-- MAC address management in a switch, in four processes that pass messages.
--
-- The management process pi (pi/) takes commands and keeps a database of dynamic and static
-- addresses; the SSC (ssc/) on the supervisor keeps another, forwards commands to the line cards
-- and notices of the line cards to pi, and sends its database to pi when it connects; the SSD
-- (ssd/) on a line card passes messages on with the port numbers converted; the SSA (ssa/) calls
-- the driver. Both databases are hash tables of chains with the address and the VLAN as the key.
--
-- Files
--   Common: names and lemmas that all modules share (Lists, Every, Tests, Words for the xor of the
--     hash).
--   Public: ssa/ss_public.h, which ssc/ss_public.h repeats: entries, constants; Public.Message: the
--     messages, Public.Kinds: their bodies; Public.Compare: memcmp and strncmp on addresses;
--     Public.Hash: hash_function, which pi/hash_tab_oper.c and ssc/ssc_db_manger.c both have.
--   Hlist, MsgList: the interfaces of the list library that the sources include and that is not
--     part of the repository: a chain with its walk, a queue with its items, and what each call
--     does to them. Hlist.Loops: the loops over a chain.
--   Table: find_hash_key, find_hash_key_del, insert_hash_table and del_hash_entry of
--     pi/hash_tab_oper.c; below it Chain (lists of entries), Place (where entries stand), Insert,
--     Delete, Text (deletion by strncmp), Clear (the loops over all chains) and Replay (sequences
--     of operations, as a map from keys to entries).
--   Pi: pi/pi_comm_ssc.c and the queue of pi/hash_tab_oper.c. Db: the database and its start;
--     Local: what commands do to it (pi_update_local_db); Handlers: what messages do to it
--     (deal_info_func); Receive: the queue between the receiving and the handling thread; Show: the
--     functions that print, as the calls of cli_printf; Server: the array of descriptors, with the
--     loop of cli_comm_ssc_init and pi_send_msg_ssc; Cli: pi/cli_mac_command.c, a command as what
--     it sends, prints and changes; Main: main of pi/main.c; Process: the three threads of
--     pi/main.c as steps of one process; Race: the loops of pthread_ds_fun and pi_local_learn_sta,
--     which take no mutex, round by round, and Race.Orders. The others hold proofs: Invariant,
--     Clear, Ports, Learn, Order, Stale; Rows (a listing as rows), Listing and Printing (reading a
--     printed row back); below Server: Places (the free places), Bounds, Overflow, Calm (when the
--     array is overrun) and Clients (who gets a message); Cli.Done (what a command comes to),
--     Main.Unmade (threads that could not be made); below Process: Queue (messages that can be
--     handled), Steps, Writes and Alive.
--   Ssc: Db is ssc/ssc_db_manger.c, with its mutex; Comm and Sync are ssc/ssc_comm_pi.c: the
--     handlers and the synchronisation thread; Process puts the threads together: pthread_deal_func
--     with its connection, the synchronisation threads and the notices, as steps on events; Calls
--     puts calls in a row. The others hold proofs: Store, Blocked, Age, Invariant, Notice (a notice
--     through both processes), Upload and Resync (the synchronisation through both), Remove,
--     Interface and Learn (commands through both), Config (the configuration that pi sends), Torn
--     (a command while it is read); below Process: Kinds (the messages it can handle), Handlers and
--     Alive; Start: ssc/ssc_mac_init.c, the calls of ssc_mac_rookie_init beside the thread that the
--     first of them starts, and Start.Early; Static: the command that adds a static address.
--   Ssd: ssd/ssd_mac_init.c; Ssd.Forward: what the SSA gets.
--   Ssa: ssa/ssa_mac_init.c; Ssa.Driver: the calls of the driver and the constants of its headers,
--     which are not part of the repository; Ssa.Learn and Ssa.Notify hold proofs.
--   System: an address on its way from the chip to pi. System.Wire: pi and an SSC together, with
--     the threads of pthread_ds_fun and the messages that are on their way; below it Sent and Kinds
--     (what each writes can be handled by the other), HostSteps, Steps and Typed. System.Static: a
--     static address on its way from a command to the chip.
--   Tests: the interfaces as plain lists, and the theorems at concrete inputs.
--
-- State and operations. A process is a record of its globals, and an operation is a function from
-- the record to the record, with an Option around it where it may not return or may read a message
-- as another structure than its sender wrote. malloc, thread creation and the platform's port
-- conversions are arguments (Env, Platform, Card), and so is the driver (Chip). The counts are u32
-- and wrap. In pi an operation is one step. Those on the tables, and deal_conf_info, hold the mutex
-- of the database; pi_local_learn_sta, pi_local_set_agetime, pthread_ds_fun, pi_show_mac_count and
-- pi_show_mac_agetime hold none, and are one step all the same, but for Race, which has the reads
-- and writes of the ports one by one. In the SSC the mutex is part of the state, as one path keeps
-- it. pi's handling loop runs on fuel, and fuel greater than the number of waiting messages is
-- enough; all other loops go over a chain, the array of chains or the array of ports. A message
-- body is one of the structures that the senders write, in place of bytes; the two bytes that
-- hash_function leaves unset are an argument, as are the places of arrays on the stack that the
-- senders leave unset.
--
-- What poll, accept, read, write, socket and connect answer are arguments too: a list of answers
-- for the server of pi, events for the SSC. A round of pi's server that touches a place past the
-- array is a fault. A message comes as one read; memory for the received messages is one flag. A
-- handler of the SSC, with what it sends, is one step, and so is each part of a synchronisation
-- thread; in pi, a round of the server, a round of the handling thread and a command are. On the
-- wire a message stands until it is read; a reader may pass messages over, which are those that
-- were lost or written to another descriptor; a message that is offered to a place which its round
-- does not come to is lost as well. System.Wire has one SSC, and no other client of pi that sends.
--
-- Not modelled: the grammar of the commands (pi/cli_mac_command.h), which is written in the macros
-- of a library that is not part of the repository; the functions that only register handlers
-- (ssd_mac_opera_init and its like); races on pi's array of descriptors, which no mutex guards;
-- and, but for Race, the races of the five functions of pi that take no mutex: of pthread_ds_fun
-- with deal_conf_info and with pi_local_set_agetime, of the two functions that write with
-- deal_conf_info, and of the two that print with the thread that handles messages.

pub mod Common
pub mod Public
pub mod Hlist
pub mod MsgList
pub mod Table
pub mod Pi
pub mod Ssc
pub mod Ssd
pub mod Ssa
pub mod System
mod Tests
