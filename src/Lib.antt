-- ===== src/Lib.antt =====
-- Melodi: the protocol core of a message network over LoRa radio, from src/proto of the repository,
-- and the policy, the peers and the transmit queue of the kernel module, from src/kernel/core.
-- The kernel modules and the tools share these files: src/kernel/core includes airtime.c, replay.c,
-- ordering.c, reliability.c, mapping.c and wire.c, and src/kernel/usb includes radio.c.
--
-- How the parts interact: a message is cut into fragments, each a data frame of the wire format
-- (Wire). A frame is sent when the airtime window (Airtime) admits its duration, which Radio.Duration
-- estimates, and reaches the modem as a transmit request in the protocol between the host and the
-- radio (Radio). A received frame is decoded (Wire), its counter is checked against the replay window
-- (Replay), its fragments are acknowledged and retransmitted (Reliability), and ordered messages are
-- held until their turn (Ordering). The locators in a frame come from the NodeIds (Mapping).
-- In the kernel a message is let through by the policy (Policy), which knows peers by their NodeIds
-- (NodeId, Peers), and its frames wait in the queue, with a reservation taken before the message is cut
-- (Queue). The USB driver binds a radio when its descriptors are those of a known board (UsbContract).
--
-- The files:
--   * Base: tests, results, arrays, machine words and the laws of their bits.
--   * Replay, for src/proto/replay.c: Window is struct melodi_replay_window with `reset`, `seen` and
--     `mark`; History is the specification, the list of all counters that were accepted.
--   * Airtime, for src/proto/airtime.c: Window is the structure with `reset`, `advance` and `admit`
--     (its second half is `charge`).
--   * Ordering, for src/proto/ordering.c: State is the structure with `reset`, `next`, `admit` and
--     `poll`. The proofs number the messages by positions without end; `marker_of` is the marker of
--     a position.
--   * Reliability, for src/proto/reliability.c: State is the structure with `start`, `ack`, `poll`.
--   * Wire, for src/proto/wire.c and wire.h: Octets has the big-endian fields, Common the header of
--     all frames, and Data, Claim, Ack, Auth and Control the structure, the encoder and the decoder of
--     each kind of frame. `encode_x` and `decode_x` are melodi_wire_encode_x and melodi_wire_decode_x.
--   * Radio, for src/proto/radio.c and radio.h: Stream has the framing (`encode`, `feed`, `checksum`),
--     Configure, Info, Status, Transmit, Receive and Report the messages, Segment the segments of a
--     frame, Duration the estimate of the time on air.
--   * Mapping, for src/proto/mapping.c: Blake2s the hash, Locator the locator of a node
--     (`map_native_locator`, `map_native_locator_available`), Collision the set of nodes
--     (`resolve_collision_set`), Sorted its order.
--   * UsbContract, for src/kernel/usb/contract.c: `contract_validate` and `firmware_supported`, with
--     Boards for the table of the boards it takes.
--   * Slots: the loops over arrays of entries with an `active` flag. `scan` is the loop that remembers
--     the first inactive entry; Index and Update have its laws, and Keyed the interface of an array
--     that stands for a map, which the two tables of the policy fill.
--   * NodeText, for src/proto/nodeid.c: `nodeid_validate`, `nodeid_format` and `nodeid_parse`, with
--     Canonical and RoundTrip for the text of a NodeId.
--   * NodeId, for melodi_node_id_valid of src/kernel/core/main.c.
--   * Peers, for struct melodi_peer of src/kernel/core/internal.h and, from src/kernel/core/discovery.c,
--     melodi_peer_session_reset_locked (`session_reset`) and, in Conflicts,
--     melodi_conflicts_recompute_locked (`recompute`).
--   * Policy, for src/kernel/core/policy.c: each melodi_policy_x is the function x, which returns the
--     device, the calls it makes of other files and its status. Lookup reads the tables as the map
--     `Rules`, Rules has the requests and their effect on the map, Refinement, Results and Blocked the
--     proofs.
--   * Queue, for src/kernel/core/queue.c: the records, Scheduler for the choice of the next frame
--     (`oldest_control`, `pick_priority`, `data_frame`, and `select` for the choice in
--     melodi_queue_work, `burst_after` for its count), with Least, Rounds, Fairness, Liveness and
--     Selection; Reservations and Reserve for the operations on reservations (`reserve`, `capacity`, `reservation_cancel`, `reservation_seal` and
--     so on), with Accounts, Granted, Ledger, Sealing and Once.
--
-- Conventions: a buffer is the list of its octets, and a pointer with its length is one list. A
-- function that returns 0 or a negative errno returns `ok` of what it leaves in its output pointers
-- or `err`; one that changes a structure also returns the new structure. What a decoder leaves behind
-- when it fails is not modelled. Unsigned arithmetic wraps round where it is written with `u8`, `u16`,
-- `u32` or `u64`; elsewhere the fields are too small to reach the bound. A signed 16-bit field is its
-- word in two's complement. A test for a NULL pointer has no counterpart.
--
-- Bounds and fuel: the loops of Ordering run on 32 rounds, since a bitmap of 32 digits is used up
-- after them (Ordering.Loops); the search of Airtime runs over the 360 buckets, as in the source; the
-- loop of Airtime.Window `expire` runs as often as the source's counter; the carries of the checksum
-- are added in at most three rounds, which 32 bits allow;
-- the loop of BLAKE2s `update` runs twice for each octet at most (Mapping.Blake2s.Rounds); the searches
-- of Mapping run over all rounds up to 2 ^ 32 - 1, as in the source;
-- the loop of Queue.Scheduler over the priorities runs over the 15 slots of the cycle, and that of
-- Peers.Conflicts over the peers; `emit` of NodeText runs as often as there are bits, of which each
-- round takes five.
--
-- Parameters: the point tests of the cipher library (`key_check` in NodeId) and of libsodium
-- (`point_check` in NodeText), the hash `siphash` of the kernel in Queue.Reservations, whether memory is to be had (`allocated` in Queue.Reserve) and what
-- melodi_discovery_announce returns (`announced` in Policy.Rules).
--
-- Not modelled: the locks and timers of the kernel, since each operation modelled runs under one lock;
-- of queue.c, sending, expiry, the cancelling of a group and the rest of melodi_queue_work; of
-- discovery.c, announcing and the handshake; src/kernel/core/data.c, netlink.c and the rest of main.c;
-- src/kernel/usb but for radio.c and contract.c; src/proto/genl.c; src/tools, which are input and output;
-- and the copy of Monocypher in src/kernel/core/crypto.
pub mod Airtime
pub mod Base
pub mod Mapping
pub mod NodeId
pub mod NodeText
pub mod Ordering
pub mod Peers
pub mod Policy
pub mod Queue
pub mod Radio
pub mod Reliability
pub mod Replay
pub mod Slots
pub mod UsbContract
pub mod Wire
