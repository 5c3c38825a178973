-- ===== src/Lib.antt =====
-- OpenNAN, an implementation of Neighbor Awareness Networking in C: devices in a cluster keep their
-- clocks together by beacons, wake in common discovery windows, and find each other's services. This
-- library models the protocol's core, the folder src of the repository, by functions that the kernel
-- computes, and proves theorems about them.
--
-- The parts of the program, and the file that models each:
--   * CircularBuffer (src/circular_buffer.c): the frames that wait for the next window. Queue is the
--     bounded queue that it implements, Inv the representation invariant, Items what a buffer holds,
--     Refine the refinement.
--   * LinkedList (src/list.c, src/list.h): the lists of peers, listeners and services, and the loop
--     macros. Laws says what each operation does to the items.
--   * MovingAverage (src/moving_average.h): the ring behind the RSSI of a peer and the error of the
--     clock.
--   * Utils (src/utils.c): addresses, identifiers, random numbers.
--   * Timer (src/timer.c): the clock of the cluster. Synced is about its synchronisation, Windows
--     about the discovery windows, Beacons about the pacing of discovery beacons.
--   * Peer (src/peer.c): the table of known peers. Lookup and Add are about the table as a map from
--     addresses, Clean about the removal of outdated peers, Removal about removal and the table.
--   * Sync (src/sync.c): ranks (Rank), roles (Election), the choice of the anchor master (Selection),
--     its expiration (Expiration), and what every step keeps (Invariant). It reads peers and the
--     clock.
--   * Wire (src/wire.c): the buffers in which frames are read and written.
--   * Event (src/event.c): the listeners that an application registers.
--   * Service (src/service.c): published and subscribed services. Announce is about the time to live
--     of one service, Updates about the loop over the lists after a frame, Frame about one
--     service discovery frame of the whole state, Rounds about several. Defs has the functions in three parts. A received
--     service descriptor is dispatched as an event.
--   * Crc32 (src/crc32.c): the checksum by a table. Bitwise is the definition that the table is for,
--     and Xor the laws of exclusive or that the proof needs.
--   * Ieee80211 (src/ieee80211.c): sequence numbers, and the radiotap and IEEE 802.11 headers. The
--     radiotap library is a submodule, so what is used of it is the record Radiotap; Sample is one
--     for the tests.
--   * State (src/state.h, src/state.c): the state of all parts, and its initialisation.
--   * Rx (src/rx.c, and parts of src/frame.c): Defs and Reads are the reading of attributes,
--     Attributes and Rounds the loop over them, Parsers single attributes, Beacon the handler of
--     beacons, which calls the peers, the clock, the cluster and Sync in turn, and Safety what it
--     keeps. Discovery is the handler of service discovery frames, which calls Service for each
--     descriptor. Frame is the handler of action frames, and `nan_rx`, which calls all of these;
--     Parts, Entry, Keeps and Soundness are about `nan_rx`. Alike and Table are about the table of
--     peers while frames are received; Sample is a beacon for the tests.
--   * Tx (src/tx.c): Attributes, DataPath and Frames are the writers. Stored and RoundTrip are about
--     the attributes of a beacon, BeaconHeader about its header, Beacon about both: what is written
--     is read by Rx. Descriptor and DescriptorStored are about what the writer of a service
--     descriptor stores, DescriptorParse what `nan_parse_sda` reads of it, and DescriptorRoundTrip
--     joins them. FollowUp is about one call of `nan_transmit`, Transmit about several.
--   * Daemon (daemon/core.c): the handlers of the timers and of a received frame, which call Tx, Rx,
--     Sync, Peer and the circular buffer. Frames is about the frames that wait, Windows about the
--     discovery window. Runs has all handlers in any order, Sending is about those that send, and
--     Invariant and PeerTable about all of them.
--     Host is the handler of the host device and HostFrames says what becomes of its frames; Startup
--     is `nan_init` and `main` (daemon/nan.c), Channels what `main` lets through.
--   * Cmd (daemon/cmd.c, and `stdin_ready` of daemon/core.c): the commands of the terminal. Text has
--     the string functions of the C library that they call, Defs the commands, Terminal the line that
--     is read and the two listeners. Tokens and Numbers are about `strtok` and `atoi`, Set, Repeat and
--     Register about single commands, Outcomes and Soundness about all.
--   * Io (daemon/io.c): the setup of the devices. Steps is about one step, Setup about the order.
--   * Netutils (daemon/netutils.c): the requests to the kernel, and in Objects what is released.
--   * Cluster (src/cluster.c) and Channel (src/channel.c): cluster grades, channel frequencies.
--   * Prelude: the shared names, tests, lists over the native numbers, and C's integers.
--
-- How code becomes a model. A struct is a record with the source's fields, a function that changes
-- state returns the new state, and a function `nan_timer_in_dw` of timer.c is `Timer.in_dw`.
-- Unsigned integers are natural numbers with the wrap-around written out; signed ones are `ℤ`, and
-- the `int` expressions of the running average, and the `abs` of the clock's error, are those of
-- two's complement where C leaves an overflow undefined. What libnl returns may differ from call
-- to call. A pointer to a peer or a service is the number `ref` of its block, and a write through
-- it changes the entries with that number. Calls of callbacks and listeners are recorded in order.
-- The results of `malloc`, `rand` and `sha256` are arguments.
--
-- Packed structs are the lists of their octets, bit fields from the lowest bit on, in little-endian
-- order as on the machines that the program is for.
--
-- Fuel. The loop of `nan_peers_clean` removes a peer in each round, so one round more than there are
-- peers is enough. The loop over attributes, and with it `nan_rx`, reads three octets or more in each
-- round but the last, so one round more than there are octets left is enough. The loop that sends
-- the frames of the circular buffer takes one out in each round. `get_rand_num` recurs on the list of
-- the values that `rand` returns.
--
-- Not modelled: the function of src/rx.c on availability attributes, which is commented out;
-- src/attributes.c and most of src/frame.c, which are names to print; src/data_path.c, which is
-- unfinished; of daemon/core.c the setting up of the event loop; of the other files of the daemon
-- `open_tun`, which is a sequence of `ioctl`, the code for macOS, and the text that the commands print;
-- src/sha256.c and src/log.c, which are copies of other projects; the release of memory, and all
-- printing. Where a length would move a pointer of src/wire.c back, after a wrap-around to a negative
-- `int`, the model's position moves on; the code does not use that buffer again.
pub mod Channel
pub mod CircularBuffer
pub mod Cluster
pub mod Cmd
pub mod Crc32
pub mod Daemon
pub mod Event
pub mod Ieee80211
pub mod Io
pub mod LinkedList
pub mod MovingAverage
pub mod Netutils
pub mod Peer
pub mod Prelude
pub mod Rx
pub mod Service
pub mod State
pub mod Sync
pub mod Timer
pub mod Tx
pub mod Utils
pub mod Wire
