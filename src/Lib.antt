-- ===== src/Lib.antt =====
-- A verification library for the HTTP, WebSocket and FTP server: its HTTP/2 connections (RFC 9113),
-- the HPACK codec (RFC 7541) that they use for headers, the buffered reader and the byte orders of
-- integers that they are read with, and its number parser.
--
-- The parts, from the bottom up:
--   * Hpack/Integer: decode_hpack_variable_integer and encode_hpack_variable_integer of
--     src/http/hpack.c. A position in a buffer is the list of the bytes from there on. A shift that
--     leaves `int` and a read behind the end of the buffer are the outcome `fault`.
--   * Hpack/DynamicTable: the cyclic buffer of src/http/dynamic_hpack_table.c. `Table` is
--     HpackHeaderDynamicTable, and the array of `capacity` slots is a list; hpack_dynamic_table_at,
--     _size, _free, _insert_at_start and _pop_at_end keep their names without the prefix. The moves
--     of a growing and of a shrinking table are definitions of their own (copy_behind,
--     move_from_end, move_from_start).
--   * Hpack/TableState: HpackDynamicTableState of src/http/hpack.c, its insertion with eviction, and
--     the change of its maximum size. The compress and the decompress state hold nothing else, so
--     set_hpack_state_setting stands for the setter of either. `fit` and `table_insertion` are
--     RFC 7541, 4.3 and 4.4, on plain lists.
--   * Hpack/Huffman: src/http/hpack_huffman.c, the decoder as a walk through the bits of the input.
--   * Hpack/Decompress: the decoder of src/http/hpack.c, from hpack_get_table_entry_at to
--     http2_hpack_decompress_data. It changes the table state of Hpack/TableState and calls
--     Hpack/Integer and Hpack/Huffman. The two literal representations without table insertion have
--     the same code, parse_literal_field, which the third one begins with as well.
--   * Hpack/Compress: the encoder of src/http/hpack.c. Compress.antt has the literal representations:
--     the never indexed and the incremental functions of each variant share a body (variant1_no_huffman,
--     variant1_huffman, variant2_no_huffman, variant2_huffman) over the first byte (0x10 or 0x40) and
--     the bits of its prefix (4 or 6), and have its C names as instances.
--     Compress/Lookup.antt has find_in_tables, and Compress/Fields.antt the choice of a representation
--     and the loops over the headers.
--   * Hpack/RoundTrip: the encoder and the decoder together.
--   * Serialization: src/generic/serialize.c, for a host of either byte order.
--   * BufferedReader: src/utils/buffered_reader.c, on a descriptor that is the list of what its reads
--     meet: chunks of bytes, of which a read takes as many as it asked for at most, and errors. The
--     read of a connection that is not secure is that of src/generic/secure.c. An open reader is one
--     whose cursor is in its buffer (IsOpen).
--   * Http2: src/http/v2.h and src/http/v2.c. Types.antt has the frames, settings and codes, and
--     Context.antt the state of a connection with its stream map, which is a list of pairs.
--     Send.antt has the functions that send a frame: the result is what is written to the connection.
--     Parse and its files have a function for each parser of a frame. The parsers of padded frames
--     repeat the code of the padding, which is read_padding_length and read_padding here; a read of
--     the buffered reader is read_or, and the report of an error to the peer is connection_error.
--     Streams.antt has a function for each case of process_http2_frame_for_stream (process_data,
--     process_headers, ...), Streams/Connection.antt the frames of the connection, process_http2_frame
--     and the loop of parse_http2_request up to the finished stream, and Streams/Start.antt the
--     exchange of SETTINGS. Streams/Steps.antt is the specification of what a frame may do to the
--     stream map: `Changes` are the steps of the handlers, and the reset of a stream by RST_STREAM.
--     Fragments.antt has http2_send_headers and http2_send_data.
--   * NumberParsing: src/utils/number_parsing.c.
--   * Prelude: what all of them share; Outcome is the result of a C function.
--
-- Bounds and fuel. `size_t`, `uint64_t` and `uint8_t` are natural numbers with their wrap-around
-- written out. The eviction loops have fuel for one round more than the table has entries, and each
-- round pops one; the loop of http2_hpack_decompress_data has fuel for as many rounds as the input has
-- bytes, and each round takes one at least. The loop of parse_http2_request has fuel for one round more
-- than the reader has bytes, and each round takes nine at least; the loops that send a buffer in
-- frames have fuel for one round more than it has bytes, and the loops of the buffered reader for one
-- or two rounds more than the bytes they ask for, or than those that are to come. Running out of fuel
-- would be `none` and `stuck`; so is the loop of http2_send_headers at the frame size 6, below the least
-- of the protocol, where the code does not end. The host of Http2 is little endian.
--
-- What the code takes from elsewhere is a parameter. `External` has the generated tables (the static
-- table, its lookup, the list of common keys, the Huffman tree and codes), the equality of the string
-- library, and whether the allocator grants the growth of a dynamic table. `IsLookup` is what the
-- lookup and the equality are documented to do. A growth that is granted has 2 ^ 62 entries at most,
-- since an entry has more than two bytes.
--
-- Undefined behaviour is `fault`: an access out of bounds, a shift or a sum that leaves `int`; so is the
-- access to a node of the Huffman tree as one of another kind. The assertions of the code are left out,
-- as the release build leaves them out. A push promise is parsed with a read of four bytes from a view
-- of one, which is `fault` also where the bytes behind the view are in the buffer of the reader.
--
-- What is not modelled. The build is a release build (NDEBUG, no DYNAMIC_HPACK_TABLE_FORTIFIED).
-- Allocations other than the growth of a dynamic table succeed, and the freeing of memory is no step
-- of its own. The reader of Http2 is the list of the bytes still to come of a BufferedReader, and a
-- write to the connection succeeds. A connection over TLS, whose reads are calls of its library, is
-- not a descriptor of BufferedReader. Of HTTP/2, the request that a finished stream is turned into,
-- the magic bytes of the preface and the upgrade from HTTP/1 (h2c) are left out. The rest of the server (HTTP/1, routes,
-- sockets, threads, TLS, WebSocket, FTP, JSON, compression of bodies) is not in this library.
pub mod Prelude
pub mod Serialization
pub mod Hpack
pub mod BufferedReader
pub mod Http2
pub mod NumberParsing
