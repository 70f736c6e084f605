-- ===== src/Lib.antt =====
-- AirTree: a compressed count tree over floating-point data. Each value becomes a short code that
-- names a bin of the number line; a trie counts the bins, is stored with a header, merged and
-- queried. This library models the encodings that everything else stands on, the header of a
-- stored trie, the tries of one dimension with codes of 13 and 16 bits, the bytes that they are
-- stored as, and the merge of stored tries of one dimension. Its modules, with paths from the root
-- of the repository:
--
-- - Common: machine words, bit fields, Boolean tests and lists, for the other modules. An unsigned
--   number is a number; `<<` is `shl w` and cuts off at the width, `>>` is `shr`. A signed number
--   is its two's complement pattern where it can be negative. Common.Fields has the rows of
--   `result |= (value << shift)`; such a row starting from 0 is also what `a | b | c` computes.
-- - Tle: airtree-core/src/common/TLE.cpp, TLE.hpp. The class of a value in three bits
--   (setTLEComponents), the prefix bits of the normal classes, the bounds of the special ones, and
--   deconstructTLE. Tle.Dims is airtree-core/src/common/NDims.cpp.
-- - Special: airtree-core/include/airtree/core/common/SpecialCounts.hpp. The counters of the
--   values that stay outside the trie. A function that changes them returns them.
-- - Encoding: airtree-core/include/airtree/core/common/InternalEncoding.hpp. The codes of 8 to 20
--   bits of a `double` or a `float`, given as its bit pattern. The masked number of a value is its
--   exponent's distance from the bias, then its fraction; M counts the leading zeros of the masked
--   number, up to a cap, and P holds the bits behind the first one. A bin (Encoding.Bins) is the
--   interval of masked numbers with the same M and P.
-- - Reconstruct: airtree-core/src/common/Reconstruct.cpp. From a code back to a number, the lower
--   edge of its bin (Reconstruct.Edge).
-- - Chunks: airtree-core/src/common/BitCodec.cpp, ChunkTypes.hpp. The codes of several dimensions
--   as one index and back. An input out of range gives 0.
-- - Config: airtree-core/include/airtree/core/common/ConfigWire.hpp, src/common/ConfigWire.cpp,
--   src/api/AirTreeGenerator.cpp. The registry of the configurations and the choice of one by
--   options.
-- - Header: airtree-core/src/common/AirTreeHeader.cpp, AirTreeHeader.hpp. The header in front of a
--   stored trie: Header.Bytes reads, writes and patches little-endian numbers, Header.Crc is the
--   checksum. An access outside the buffer, undefined in the code, is the error `out_of_bounds`.
--   The header is made, serialized in front of the payload, and finalized when the payload's
--   length is known.
-- - Populated: airtree-core/include/airtree/core/common/Populated.hpp. The bitset of a node's
--   populated bins.
-- - SetBits: airtree-core/include/airtree/core/serdes/BooleanArray.hpp, forEachSetBit: the bins of
--   a bitset in the order of the loops, as a list (SetBits.Order: it ascends).
-- - Mask: airtree-core/src/serdes/BooleanArray.cpp. The bitset as bytes (readPopulatedMask,
--   writePopulatedMask).
-- - Count: airtree-core/src/serdes/Count.cpp. The width of the counts of a node (minimumBits), and
--   in Count.Codec the functions that write, read and skip the counts of the bins of a mask. Both
--   the writer and the reader are compared with the number of which the counts are the digits
--   (Count.Number).
-- - Node: airtree-core/src/serdes/Node.cpp, EOF.cpp, include/airtree/core/serdes/Node.hpp. A node is
--   its mask and its counts; the end marker closes a trie.
-- - Trie1d: airtree-core/include/airtree/core/schema/trie1d/1DxT.hpp and 1DxF.hpp,
--   src/schema/trie1d/1DxT.cpp and 1DxF.cpp. The tries of 13-bit and of 16-bit codes: insertion of
--   an array, roll-up of the counts, observations. The files have the same functions but for the
--   indices and the number of counters, which are a Filing. The cast of the input to doubles is the
--   caller's: an array is the list of the doubles' bit patterns.
-- - Wire1d: airtree-core/src/serdes/trie1d/1DxT.cpp and 1DxF.cpp, and execSerialization and
--   generate of src/schema/trie1d/1DxT.cpp and 1DxF.cpp. The trie of one dimension as a buffer, in
--   depth-first order, and back. The two files have the same text but for the number of counters of
--   level 1, which is an argument.
-- - Merge: airtree-merge/src/NWayMerge.cpp. The merge of any number of buffers, read by cursors that
--   move on together. Merge.Trees has the tries as trees, of any levels, and what it means to merge
--   these; Merge.Whole is the refinement of that merge by the code, Merge.Adds says what it is, and
--   Merge.AirTrees has mergeAirTrees, and Merge.Arrays joins it to the generation of tries.
--
-- A value flows through them so: isSpecialCase or setTLEComponents class it; special values are
-- counted aside; the others are coded by a createInternal function and counted in a trie; with
-- several dimensions the codes are combined into one index and the classes into one combined code.
-- Reading a trie goes the other way: deconstructTLE, reverse_combine and reConstruct.
--
-- A trie is stored by writing its header, its nodes and the end marker and finalizing the header;
-- merging reads such buffers and writes one.
--
-- Exceptions, null pointers and the result `false` are `none`, the exceptions of the header a
-- `HeaderError`; where both occur, the result is a `Result` of an `Option`. The loops run over a
-- number of dimensions, bits, bytes, bins or values that is known before them, or over the set bits
-- of a mask, so that they need no fuel, but for these. The one of minimumBits has 33 rounds, and a
-- uint32_t is 0 after 32 halvings. The loop over the set bits of a word has 64 rounds, and each
-- clears a bit; countr_zero looks at 64 bits. The loop that moves whole bytes out of the bit buffer
-- has 8 rounds, and the buffer has at most 39 bits. The one that refills the buffer byte by byte has
-- as many rounds as a count has bits. The recursions follow the levels of a trie. Log lines are not
-- modelled. `double` and `float` are their bit patterns; no floating-point arithmetic is modelled,
-- and the code uses none here. The compiler builtin __builtin_clz is defined on the words where its
-- result is specified; on 0, where it is not, the code does not use its result. A `size_t` that
-- counts bytes of a buffer is not cut off. The special counters are `int`s, here numbers, exact
-- while none overflows. A `uint32_t` that is shifted by 32 or more, undefined in the code, is `none`.
--
-- The merge of two buffers, to which mergeAirTrees comes back for configurations of several
-- dimensions, is an argument of its model.
--
-- Not modelled: the trie of 20-bit codes up to its serialization
-- (airtree-core/src/schema/trie1d/1DxP.cpp, src/serdes/trie1d/1DxP.cpp), the tries of more
-- dimensions and their interleaved codes (airtree-core/src/schema, src/serdes,
-- src/common/BitInterleave.cpp), the merge of two buffers (airtree-merge/src), and query, reader,
-- export, the command line and the benchmarks, which read or write files or build on those; the
-- functions on whole arrays of counts and Booleans that the tries no longer use; the inline
-- assembly of airtree-core/src/common/Conversion.cpp.
pub mod Common
pub mod Chunks
pub mod Tle
pub mod Special
pub mod Encoding
pub mod Reconstruct
pub mod Config
pub mod Header
pub mod Populated
pub mod Trie1d
pub mod Mask
pub mod Count
pub mod SetBits
pub mod Node
pub mod Wire1d
pub mod Merge
