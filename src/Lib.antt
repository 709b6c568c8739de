-- ===== src/Lib.antt =====
-- ts-cli, a voice-chat client: the core of its protocol library, the jitter buffer and the ring of its
-- audio library, and two parts of its client.
--
-- A server packet comes from the socket as bytes, is taken apart by the packet codec, gets its
-- generation from the stream's packet sequence, and is fed (decrypted) to the receive window of its
-- command stream, which reorders, reassembles and decompresses commands for the command parser. A
-- command that is sent goes the other way: writer, fragmenter, packet codec, and the reliable queue,
-- which keeps each packet until it is acknowledged. Voice packets go through the voice codec to a
-- jitter buffer. The session's transport joins these parts: it encrypts and sends, answers pings and
-- commands, and its timers send again, and ping the server while nothing is heard. Parsed commands
-- become typed messages, which the stores of channels and clients apply. Each packet is counted by the
-- connection's statistics.
--
-- Files, and the code that they model:
--   Prelude             shared: tests on numbers, lists, results (code that throws), ordered maps (std::map)
--   Binary              protocol/src/binary_reader.cpp (BinaryReader), binary_writer.cpp (BinaryWriter)
--   Packet              protocol/include/protocol/packet: headers, PacketType, PacketFlags, limits
--   Packet/Codec        protocol/src/packet/codec.cpp, init_codec.cpp, server_packet.cpp
--   Packet/Sequence     protocol/src/packet/sequence.cpp: PacketSequence, ResolveGeneration, SequenceKey
--   Packet/SequenceState  protocol/src/packet/sequence_state.cpp: PacketSequenceState
--   Packet/Fragmenter   protocol/src/packet/command_fragmenter.cpp: CommandFragmenter::Plan
--   QuickLz             protocol/src/compression/quick_lz.cpp: QuickLzDecoder
--   Reliability/Window  protocol/src/reliability/command_receive_window.cpp: CommandReceiveWindow
--   Reliability/Queue   protocol/src/reliability/reliable_command_queue.cpp: ReliableCommandQueue
--   Command             protocol/src/command/parser.cpp, writer.cpp: CommandParser, CommandWriter
--   Voice               protocol/src/voice/voice_codec.cpp: VoiceWireCodec
--   Message             protocol/src/message: typed messages, from rows of parameters and to commands
--   State/Clients       protocol/src/state/client_store.cpp: ClientStore
--   State/Channels      protocol/src/state/channel_store.cpp: ChannelStore, with its tree
--   Statistics          protocol/src/connection_statistics.cpp: LossTracker, the windows, ConnectionStatistics
--   Actions             shared: member functions that change an object and may throw
--   Transport           protocol/src/session_transport.cpp: SessionTransport; Operations: its calls in any order
--   Crypto              protocol/src/crypto/session_crypto.cpp, aes_eax.cpp: SessionCrypto, AesEax
--   Ring                audio/include/audio/spsc_ring.hpp: SpscRing, as a step relation of two threads
--   HashCash            protocol/src/crypto/hash_cash.cpp: HashCash
--   Talkers             client/src/runtime/talker_activity.cpp: TalkerActivity
--   Targets             client/src/cli/target_resolver.cpp: TargetResolver
--   Jitter              audio/src/voice_jitter_buffer.cpp: VoiceJitterBuffer
--   Tests               the theorems at concrete inputs
--
-- An operation is a function of the same name from the state to the new state, with the outcome. What
-- throws returns a Result, whose errors are named for the messages; where the code changes state
-- before it throws, the changed state stands beside the result. Bytes are native numbers; arithmetic
-- on size_t, uint64_t and uint16_t wraps where the code's does. The keys of a std::map are kept in
-- order by Prelude/OrderedMap.
--
-- Fuel: the loop of Plan has the size of the command and one more, the drain loop of Feed the size of
-- the queue and one more, QuickLZ's loops the size of the output and one more, the loop of Push the
-- number of frames that are kept, the recursion of AppendTree the number of channels and one more, the
-- decimal text of a number 20 digits, and the search of FindOffset the number of 64-bit offsets from
-- its start on. Theorems say that this is enough: no result is an out_of_fuel, Push leaves 32 frames
-- at most, and a decimal text reads back as its number.
--
-- What the session's transport does is a function from its state to the outcome and the state as it is
-- left, also where it throws (Actions). SessionCrypto is a record of functions that it takes as an
-- argument, which Crypto/session_crypto fills, and each call has its time. Transport::Send is taken to
-- return, and what it is given is logged; the log tells a packet that is sent for the first time, with
-- its sequence, from one that is sent again.
--
-- A time is a number of nanoseconds from the start of the steady clock. The messages' own copies of
-- ParseUnsigned and ParseBoolean are the same code, and one definition each. The ring's threads take
-- the atomic steps of TryEmplace and TryPop in any order; a load of the other thread's index may be
-- stale.
--
-- Not modelled: sockets, cryptographic algorithms (SHA-1 and Base64 are arguments of HashCash; CMAC,
-- AES in counter mode and SHA-256 those of Crypto), identities, the handshake, sessions above their
-- transport, configuration, logging, the audio engine and the rest of the two clients, which stand on
-- platform libraries, or on the parts above; and what is computed in floating-point numbers: rates,
-- ping times (RecordRtt) and loss fractions of the statistics, and the message SetConnectionInfo,
-- which sends them.
pub mod Prelude
pub mod Actions
pub mod Binary
pub mod Packet
pub mod QuickLz
pub mod Reliability
pub mod Command
pub mod Talkers
pub mod Targets
pub mod Transport
pub mod Crypto
pub mod Voice
pub mod Jitter
pub mod HashCash
pub mod Message
pub mod Ring
pub mod State
pub mod Statistics
pub mod Tests
