-- ===== src/Lib.antt =====
-- A model of fleximq, the message protocol of this repository, and what is proved of it.
--
-- The program. crates/protocol defines messages on the wire: a base header of 34 bytes (version,
-- type, client, 16 reserved bytes, header length, payload length), a MessagePack header and a
-- MessagePack payload. It parses them from byte streams, builds and validates them, and gives
-- codecs to tokio's framing. crates/transport opens streams to which these codecs are put, and
-- crates/peer joins a broker over such a stream.
--
-- The files. Common: words of 8, 32 and 64 bits, results with a panic beside the error, tests and
-- lists over the native numbers.
--   Protocol/Constants, Protocol/Errors: crates/protocol/src/lib.rs and errors.rs.
--   Protocol/Types: MessageType, StatusCode, Header with its parts, BaseHeader, of types.rs.
--   Protocol/External: what the code calls and does not implement, as records of operations and
--     laws: nom's parsers (`Nom`), the buffers of bytes (`Buffers`), rmp_serde (`Serde`), `dyn Any`
--     (`Castable`). Protocol/External/Reference has functions that satisfy them.
--   Protocol/Parser/Base: parse_base_header and parse_base_header_nom of parser.rs; Base/RoundTrip
--     and Base/Soundness compare them with the bytes that RawMessage::to_bytes writes.
--   Protocol/Parser/Frame: parse_message_bytes. Protocol/Parser/Peek: peek_message_info.
--   Protocol/Parser/Stream: MessageParser; Extract is about one message, Batch about many of them,
--     Bounds about the buffer, Corrupt about bytes that are no message, Oversized about messages over the
--     limits, Wrapped about sizes that wrap around to a small sum, and NoPanic about all the parsers.
--     Stream/Inbox says what a caller may rely on, without the buffer, and Stream/Refines
--     compares it.
--   Protocol/Parser/Validate: validate_message_structure; Rules describes it without its tables,
--     and Causes says what its errors mean.
--   Protocol/Message: Message of message.rs; Raw: RawMessage; Typed: payload_as and TypedMessage, with
--     Typed/Accesses about the accessors in any order and Typed/Copies about TypedMessage;
--     Response: create_response.
--   Protocol/Codec: codec.rs, with Utils. Codec/Reading has callers of `encode` and `decode` such as
--     tokio's framing; Outgoing, Ready and Drain are about what they send and receive, and EndToEnd
--     puts them together; Codec/Bounds is about what a codec holds.
--   Protocol/Builder: builder.rs, with the specialised builders in Kinds.
--   Protocol/Exchange: a request and its answer, through the builder, two codecs and create_response.
--   Transport/Errors: crates/transport/src/error.rs; Context is about the texts it adds.
--   Transport/Traits: the records of traits.rs. Transport/Io: what the transports use of std::io, url
--     and tokio's byte streams (`Url`, `Socket`, a result under a timeout). Transport/Words: the
--     methods of `str` that stdio.rs uses.
--   Transport/Tcp: crates/transport/src/tcp.rs, its streams and frames, with RoundTrip about two
--     streams that are joined, Frames about many frames on them, and Late about a read that times out;
--     Tcp/Connect: connecting and listening, with Sound.
--   Transport/Ipc: ipc.rs and ipc/unix.rs, over the files; Bound is about paths and listeners.
--     Ipc/Windows: ipc/windows.rs, over named pipes.
--   Transport/WebSocket: the streams of websocket.rs, with Reading; WebSocket/Connect: its urls,
--     connecting and listening.
--   Transport/Stdio: stdio.rs, over processes, with Stdio/Close; Started is about connect, Closing
--     about close.
--   Transport/Channel: crates/transport/src/channel.rs, the registry of waiting endpoints; Pairing is
--     about clients that connect in turn, Race about two that connect at the same time, and
--     Clients about any number of them.
--   Transport/Manager: crates/transport/src/manager.rs, over lru's cache as a parameter; Frequency is
--     about the counts that it reports. Manager/Expiry and Cleanup are about entries that expire;
--     Manager/Entries is about the order in which the cache keeps its entries, with Kept about
--     their number, and Described has what the calls of the manager do to them, as a list;
--     Manager/Registry and Found about the transports that are registered, over the five above.
--     Manager/Choice is about the order in which the map of transports is iterated.
--     Manager/Ratios: the ratios of CacheStats, over floating point numbers.
--   Transport/Polls: tokio's polls; Transport/Streams: the trait of streams with what implements it,
--     of traits.rs, message.rs and the transports.
--     Transport/Messages: the codecs of message.rs.
--   Peer/Handshake: Peer::from_stream of crates/peer/src/peer.rs; Join is about the message that
--     it sends, and Wait about its loop.
--   Peer/Connect: Peer::connect, the manager and the handshake together; Refused is about its result.
--   Peer/Shared: crates/peer/src/lib.rs and server.rs, the stream that two halves share behind a lock,
--     as a step relation; Blocked is about a half that waits, Pair about two peers over one connection.
--     Shared/Ends: the trait of its ends, and what implements it in peer.rs, server.rs and client.rs.
--   Examples: the theorems applied to concrete messages.
--
-- The correspondence. A struct is a record and an enum a data type. A method that changes its
-- receiver returns its result and the new receiver; one that fills a cache through `&self` does so
-- too. `Result` has a third case for a panic. Bytes are numbers in a list; u32 and u64 casts and
-- the sums that wrap around in a release build are remainders. usize is not bounded: the lengths
-- that the code adds are lengths of buffers in memory. `as usize` of a u64 is the identity, as on
-- the 64-bit targets. A MessagePack value is of a type `V`, and the map of additional header
-- fields is the list of its entries.
--
-- The fuel. `parse_all` loops while messages come out of the buffer; each takes 34 bytes at least,
-- and the length of the buffer plus one is fuel enough for every buffer. The loop of the handshake
-- has no bound in the code: its fuel is an argument, and each item of the stream takes one unit.
--
-- Not modelled: the texts of Display, log lines and the serde attributes, and new_transport of the
-- manager, which only coerces a pointer. They are input and output, or code of libraries. The constants of
-- the transport crate are used by nothing.
pub mod Common
pub mod Protocol
pub mod Transport
pub mod Peer
pub mod Examples
