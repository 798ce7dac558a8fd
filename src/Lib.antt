-- ===== src/Lib.antt =====
-- mth-apclient: the core of an Archipelago client that is loaded into a game.
--
-- The network thread turns the server's messages into events. Once a tick the coordinator drains
-- them into the room's state; the granter walks the received items and offers each new one to the
-- game, recording it in the save once it is applied; the bridge turns collected slots into location
-- checks, recorded in the save and sent over the link, and sends the recorded ones again after a
-- reconnect. Small gates decide when the client may act: whether it may connect at all, when a death
-- is broadcast, when a save slot is taken over and flushed.
--
-- Base: numbers, integers, lists, texts, sorted sets of integers, and decimal integers as a stream
--   prints and reads them.
-- Ids (src/mth/core/ap/ap_ids.hpp): the id segments and their tables. Vanilla has the game's own
--   items, Progressive the progressive ones, Blocks the rest and the location ids, Locks the area lock groups; Segments has
--   their theorems. The names are those of the source in snake case, kItemBase as item_base.
-- Ap/Events (src/mth/core/ap/slot_data.hpp, ap_events.hpp): the events and what they carry.
-- Ap/State (src/mth/core/ap/ap_state.cpp, ap_state.hpp): ApState, a function for each method; Cursor,
--   Stream and Locations have its theorems.
-- Ap/Coordinator (src/mth/core/ap/ap_coordinator.cpp): tick, with the callbacks as parameters.
-- Ap/SaveState (src/mth/core/ap/ap_save_state.cpp): the durable state and its text format.
-- Bridge (src/mth/core/rando_bridge.cpp): RandoBridge; Dedup, Delivery, Removed and Durable have its
--   theorems. It reads ApState and writes ApSaveState, as the class does through its references.
-- Granter (src/mth/core/inbound_granter.cpp): InboundGranter::tick, with Receipts for what is offered
--   and recorded; Moves takes a tick apart into moves, Logs counts the effects, and
--   Once and Recorded have the theorems.
-- Gates: Death (src/mth/core/death_broadcast_gate.hpp), Startup (src/mth/core/ap_gate.cpp), Resend
--   (src/mth/core/connect_resend_gate.hpp), Takeover (src/mth/core/save/takeover_state.cpp) and
--   Burrow (src/mth/core/burrow_boundary.hpp), each with its theorems beside it or below it.
-- Caps (src/mth/core/stat_cap_state.cpp, upgrade_state.cpp, wallet_cap_state.cpp) and Goal
--   (src/mth/core/kear_completion.hpp, goal_state.hpp): what is derived from the received items.
-- Logs (src/mth/core/log_ring.cpp): the ring of log lines.
-- Zip (src/mth/core/save/zip_archive.cpp): the container's writer and reader on bytes. `Zlib` is what
--   its calls of zlib give; a text of 4 GB and more, of which zlib is handed a part, is left out.
-- Bundle (src/mth/core/save/ap_save_bundle.cpp, ap_save_store.cpp): a run's container on disk. Names
--   are the file names, Disks the calls on files, Write the writer thread's work, Containers what a
--   load reads, Sessions the operations of the store. The queue is drained where `flush` waits for
--   it, in the order in which it was filled; a write that the thread begins earlier sees the same
--   writer and the same disk. An address is never given out again, while `make_shared` may reuse one
--   that no payload holds.
-- Signatures (src/mth/core/sig_scan.cpp): the search for a signature in a region of code.
-- ItemQueue (src/mth/features/item_granter.cpp, src/mth/core/item_granter_interface.hpp): the queue
--   of items for the game; its hooks are left out.
-- Logins (src/mth/core/login_prefs.cpp): the login's preferences and their text.
-- SlotData (src/mth/core/ap/slot_data.cpp, fountain_lamps.hpp, goal_state.hpp): the parse of the slot data
--   over `JsonLibrary`, the interface of the JSON library; Bounds and Defaults have its theorems.
-- Broadcast (src/mth/core/broadcast.cpp): relevance and colors of the room's messages.
-- Link (src/mth/net/ap_link_apclient.cpp, deathlink.cpp, src/mth/core/ap/connect_target.hpp): the net
--   thread. A command is what the game thread enqueues, Callbacks what the client calls, Handlers
--   what each call does, Loop a round of `run` and the steps of both threads. Monitor is an observer of the pushed
--   events, with which the object agrees after every step (Agreement, Handled, Followed). Stream,
--   Receipts, Rounds and Permission have the theorems; Receipts composes the thread with the
--   coordinator's tick. What the client answers comes with each callback, and what it throws with
--   each poll.
-- Traps (src/mth/core/trap_state.cpp, src/mth/features/trap_hooks.cpp): the modifiers that are forced
--   on for a while, over the interface `Game` of the platform and its seconds. Countdowns is
--   TrapState; Tracked, Runs, Apart and Kept have the theorems.
-- Examples: the theorems on small inputs.
--
-- A method that changes an object is a function from the object to the object, with the result beside
-- it where there is one. A std::set is a sorted list, a std::string the list of its bytes, an int an
-- integer; counters that only rise, one step a tick, are taken not to wrap. Where the text of the
-- save is read, every value is within 32 bits, as the stream demands. Two loops run on fuel: the
-- record loop of the save on one more than the length of the text, which is enough since a round
-- reads at least one character, and the digits of a number on one more than the number, which is
-- enough since a round divides by ten.
--
-- Not modelled: logging; the client library behind the network thread and the JSON library, whose
-- answers are parameters; the hooks into the game and the platform layer, which are the parameters
-- Effects, Callbacks and Game; the banners' timing; drawing; the windows and console of the client;
-- the application's wiring of the parts; the stop of the network thread. Locks guard single reads and writes of the room's texts; the
-- save's writer thread works on what the game's thread queued for it and waits for; the network
-- thread meets the game's at its two queues, at the three atomics of deathlink and at the connected
-- flag. A step of a run is a whole poll, command or call. What the game's thread can see inside one
-- of them is the order of the pushes and of the stores of the connected flag, which ApLink records
-- as its accesses, so that a theorem can speak of each moment between two; the pieces of the
-- accesses to the atomics of deathlink stand as definitions of their own. Everything else here runs
-- on the game's thread.
pub mod Base
pub mod Ids
pub mod Ap
pub mod Bridge
pub mod Granter
pub mod Gates
pub mod Caps
pub mod Goal
pub mod Zip
pub mod Logs
pub mod Examples
pub mod Bundle
pub mod Signatures
pub mod SlotData
pub mod Link
pub mod Traps
pub mod Broadcast
pub mod Logins
pub mod ItemQueue
