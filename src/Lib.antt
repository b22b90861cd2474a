-- ===== src/Lib.antt =====
-- Verification library of embassy-nrf7002, a driver for the nRF7002 Wi-Fi coprocessor.
--
-- The program. The host writes packed commands into the coprocessor's shared memory and reads
-- packed events from it. `src/station.rs` is the connection state machine of one station
-- interface: it sends the control commands one after another, applies the firmware's control and
-- data events, and says when the controlled port is open for traffic. `src/data.rs` is the data
-- path: it lays out the packet RAM, owns the transmit tokens and the receive descriptors, parses
-- the data events and converts received frames to Ethernet. `src/wpa2.rs` is the WPA2 supplicant: it
-- answers the EAPOL-Key frames of the four-way handshake and of the group rekey, and asks its caller
-- to install the keys that they agree on. The first two stand on `src/protocol.rs` (packed
-- messages), `src/control.rs` (control requests and events), `src/device.rs` (queues), and
-- `src/memory.rs` (RPU memory).
--
-- The files.
--   Base: the shared names. Base/Tests holds Boolean tests and the word sizes, Base/Lists the lists
--     with native indices, Base/Results the outcome of fallible code (`Ok`, `Err` or a panic),
--     Base/Bytes the little-endian readers with the panics of slice indexing, Base/Actions the
--     methods that change a state and may fail, Base/Post what holds of a returned value.
--   Protocol: src/protocol.rs, over the bounded writer of src/codec.rs (Writer; its child Appends says
--     when a write succeeds). Types has the types and the numbers of commands, Message the frame of a
--     host message, Umac the header of a UMAC message, Commands the commands of interface, scan and
--     deauthentication, SystemInit the system initialization command (its settings in Config), Queues
--     the queue map, DataHeader the header of the data path. `UmacHeader::parse` is
--     `parse_umac_header`, `HpqmInfo::parse` is `parse_hpqm_info`, `DataHeader::parse` is
--     `parse_data_header`, and `SystemInitConfig::validate` is `validate_system_init`.
--   Control: src/control.rs. Types has the requests and events, Encode the headers and the parts that
--     commands share, Commands the encoders, Parse the parser of events. An encoder's `out` buffer is
--     given by its length, and the encoder returns the bytes that it wrote at the buffer's start.
--     Lengths says how many bytes a body takes, Packet what the whole message is.
--   Memory/Address: src/memory.rs, the translation of RPU addresses to the host window and the
--     checks on ranges.
--   Memory/Rpu: the operations of `Rpu` over the trait `Bus` of src/bus.rs, a record taken as a
--     parameter. Flat is a bus that is a memory of bytes, Chunks and Transfers follow `read` and `write`
--     on it, and Polls follows `poll_register` on any bus.
--   Firmware: src/firmware.rs. Bundle has the parser of the firmware bundle, Trust the policies over
--     SHA-256, a function taken as a parameter, Loader the loader over the record of accesses to the
--     RPU. `FirmwareBundle::parse` is `parse_bundle`; the poll for a boot signature has 100 rounds, as
--     in the source. Loader/OverBus fills the record with the operations of Memory/Rpu.
--   Station: src/station.rs. Types has the enums and `StationController` (without the encoding
--     buffer `command`, whose content no operation reads back). Core has the timers, guards and
--     transitions, Events and its children the handlers of control and data events, Port the record
--     of encoders and of `send_control_reliable`, which Commands takes as a parameter, Commands
--     the public commands. Runs has the steps and the histories. The functions have the names of
--     the methods; a handler's continuation after an early return is a function of its own. Encoders
--     fills the record with the modelled encoders.
--   Data: src/data.rs. Layout has `DataPath` and the slots, Tokens the transmit tokens, Command the
--     TX command, Transmit and Receive the asynchronous operations over the record of device
--     operations in Port, Events the parsers, Convert the frame conversion. The const generics RX
--     and TX are arguments; `RxEventRef::parse` is `parse_rx_event`, `TxDoneEventRef::parse` is
--     `parse_tx_done_event`.
--   Wpa2: src/wpa2.rs. Types has the errors, transactions and `Wpa2Supplicant` (buffers with a length
--     are lists), Crypto the record of functions that stands for the cryptographic crates, Frame the
--     parser and the fields of a frame, Keys the key derivation, unwrap and search for the group key,
--     Rsn the checks on the information element, Response the frames that are sent, State, Messages,
--     Completion and Supplicant the state machine. Invariant, Replay and Histories follow it through
--     whole histories, Verified says which frame a key comes from, NoPanic that it returns.
--
-- Conventions. Numbers are natural numbers; where the source wraps, the modulus is written out, and
-- a signed integer is kept as its bit pattern. `usize` has 32 bits. Loops run by structural
-- recursion on the number of rounds left; the search for the group key and the key expansion have as
-- many rounds as bytes, which is shown to be enough. An `async` operation is one
-- transaction on the state of its owner and of the device: the source holds `&mut` to both.
--
-- Not modelled: the contents of an output buffer after an error; src/system.rs; queues and
-- fragments of src/device.rs; the framing of src/bus.rs; the clearing of key bytes when their
-- owner is dropped; the runtimes above the components.
pub mod Base
pub mod Protocol
pub mod Control
pub mod Memory
pub mod Firmware
pub mod Data
pub mod Station
pub mod Wpa2
