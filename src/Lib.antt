-- ===== src/Lib.antt =====
-- chwire: a ClickHouse client for the native TCP protocol and for HTTP.
--
-- Bytes travel between a socket and columns of values. On the way out, a BufferWriter
-- (native/io.ts) collects varints, strings and words; the StreamingWriter (tcp_client/writer.ts)
-- builds packets with it and flushes them, and encodeBlock (compression.ts) wraps the payload of a
-- data packet in checksummed, compressed blocks. On the way in, a BufferReader reads the same
-- encodings from a buffer, decodeBlock and decodeBlocks take the blocks apart, and a BlockBuffer
-- gathers the chunks of a stream until a block is whole. On a TCP connection the StreamingReader
-- (tcp_client/reader.ts) does so for values, exceptions and compressed blocks, and waits for
-- chunks.
--
-- A payload is a block of the Native format (native/index.ts): columns, each with its name, its
-- type and what the codec of the type (native/codecs/) makes of it. A codec of a composite type
-- encodes its parts by the codecs of the parts. A block that breaks off leaves a partial state,
-- from which it is resumed when more bytes have come: streamDecodeNative gathers the chunks of a
-- response in a BlockBuffer, decodes what is whole, keeps the partial state of the rest and, after
-- an underflow, holds the next attempt back.
--
-- Which file models what (paths from the repository's root):
--   Prelude        the shared names: lists, options, tests on numbers, bits, results, text
--   Io/VarInt      native/io.ts: varIntSize, writeVarInt, readVarInt, readVarInt64
--   Io/Utf8        native/io.ts: writeUtf8, decodeUtf8Slice
--   Io/Writer      native/io.ts: class BufferWriter
--   Io/Reader      native/io.ts: class BufferReader
--   Io/BlockBuffer native/io.ts: class BlockBuffer
--   Compression    compression.ts: concat, readUInt32LE, encodeBlock, decodeBlock, decodeBlocks
--   Params         params.ts: extractParamTypes, serializeParams
--   Native/Serialization  native/serialization.ts, and the serialization kinds of
--                  native/codecs/base.ts
--   Native/Column  native/columns.ts: the column classes, their lengths
--   Native/Codec   native/codecs/base.ts: interface Codec; readOffsets of native/codecs/composite.ts;
--                  Codec/Parts has what the composite codecs share
--   Native/Sparse  native/codecs/base.ts: readSparse and BaseCodec's decode
--   Native/Codecs  native/codecs/scalar.ts: NumericCodec, StringCodec (Codecs/Text), BigIntCodec
--                  and DecimalCodec (Codecs/BigInt and Codecs/Decimal, on what Codecs/Fixed says of
--                  values of a fixed size), with toBigIntInRange's range check and toValidDecimal
--                  of native/coercion.ts;
--                  native/codecs/composite.ts: ArrayCodec, NullableCodec, MapCodec, TupleCodec
--   Native/TypeName  native/codecs/base.ts: parseTypeList, extractTypeArgs
--   Native/Literal native/codecs/base.ts: escapeString, wrapQuoted
--   Native/Enum    native/types.ts: parseQuotedString, parseEnumDefinition; Enum/Values has
--                  EnumCodec's values and literals (native/codecs/scalar.ts) and EnumColumn
--   Native/Registry  native/codecs/registry.ts: getCodec and its cache
--   Native/Block   native/index.ts: decodeNativeBlockWithReader, decodeNativeBlock
--   Native/Stream  native/index.ts: streamDecodeNative, as steps: a chunk arrives, or a loop makes a
--                  round
--   Native/Encode  native/index.ts: encodeNative; native/table.ts: validateColumnLengths
--   Framing        framing.ts: parseRecords; Framing/Events has parseSseEvent, parseJsonPacket
--   Tcp/Writer     tcp_client/writer.ts: class StreamingWriter, with the packet ids, versions and
--                  revisions of tcp_client/types.ts in Tcp/ClientPacketId, Tcp/Version, Tcp/With
--   Tcp/Reader     tcp_client/reader.ts: class StreamingReader, with the socket's events in Tcp/Wait
--   Examples       the theorems at concrete inputs
--
-- A function has the name of the source's, in this library's spelling; the methods of a class are
-- functions on a record with its fields. A byte, a code unit and an index are natural numbers, and
-- a typed array is the list of its elements, as long as its capacity. A method that mutates returns
-- the new state. What can throw returns a Result, or an Outcome that also holds the state at the
-- throw; the errors are told apart by their JavaScript class. Words wrap by `% 2 ^ w`; a signed
-- word is an integer in two's complement. A string is the list of its UTF-16 code units.
--
-- Loops run on fuel that is enough: a varint loop ends with its fifth or tenth byte, the writers'
-- loops divide by 128 and have the value as fuel, the loop over blocks moves by 25 bytes or more
-- and has the length of the input.
-- The loop over the offsets of a sparse column has one round more than the column has rows, since
-- a round that goes on adds a row; the loop over the block information has one round more than the
-- buffer has bytes.
--
-- The loops of streamDecodeNative are steps of a relation and have no fuel.
--
-- A scanner of a query moves forward in every round and has one more round than the query is long
-- as fuel.
--
-- The loops over an enum's definition and over the records of a response take a character in every
-- round, and have one round more than the text is long.
--
-- Parameters: the platform's UTF-8 codec (Io/Utf8), CityHash128, LZ4 and Zstandard (Compression),
-- the codecs that turn parameters into literals (Params), getCodec and the first capacity of the
-- encoder's writer (Native/Block, Native/Encode), createCodec (Native/Registry), the conversions of
-- values that are no typed array, no string or no bigint (Native/Codecs), what a sparse read of a
-- composite column builds from values, and TextDecoder, JSON.parse and the base64 decoder
-- (Framing). Their laws are hypotheses, and Examples/Platform has an instance of each.
--
-- Not modelled: sockets, fetch and the asynchronous scheduling around them, the codecs of the other
-- types, the dispatch on type names, the width, precision and scale in a decimal type's name, the
-- construction of columns from values and access to single values, the loading of the compression
-- libraries, the LZ4 frame format of HTTP uploads, generated settings, the command line.
pub mod Prelude
pub mod Io
pub mod Compression
pub mod Params
pub mod Native
pub mod Framing
pub mod Tcp
pub mod Examples
