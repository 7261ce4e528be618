-- ===== src/Lib.antt =====
-- Verification of Code Vault, a C++ library of portable streams, strings, messages and servers.
--
-- The parts that are modelled, from the lowest up. A VStream (source/streams/vstream.cpp) moves bytes
-- and can copy between streams; VMemoryStream (source/streams/vmemorystream.cpp) is the stream with a
-- buffer in memory that grows. VBinaryIOStream (source/streams/vbinaryiostream.cpp) lies over a raw
-- stream and reads and writes integers, counts and strings in network byte order
-- (source/vtypes/vtypes.cpp, vtypes.h). VCodePoint (source/containers/vcodepoint.cpp) converts between
-- Unicode values, UTF-8 and UTF-16, and VHex (source/toolbox/vhex.cpp) between bytes and digits.
-- VDuration (source/containers/vinstant.cpp) is a time span, with infinities.
-- VTextIOStream (source/streams/vtextiostream.cpp) reads and writes text by lines. VBento
-- (source/containers/vbento.cpp) writes trees of named values on a binary stream, and as text that its
-- parser reads character by character. VString (source/containers/vstring.cpp) parses the integers in
-- the text of a duration. A VMessage (source/server/vmessage.cpp) keeps its data in a memory stream;
-- VMessageQueue (source/server/vmessagequeue.cpp) hands messages between threads, in a VCompactingDeque
-- (source/containers/vcompactingdeque.h).
--
-- Which file models which part:
--   Base: shared names, lists, integers, bits, and the results of code that can fail.
--   Heap: operator new[], malloc, delete[] and free, on blocks that pointers lead to.
--   Streams: needSizeConversion, copyMemory, newNewBuffer, mallocNewBuffer (in Copy, the chunk loop).
--   Streams/Memory: VMemoryStream. A World is a stream and the heap; each method is a function on it.
--     Invariant has IsValid, which _assertInvariant and the ownership rules ask for, and the data that
--     a stream holds; Growth, Expand, Ready, Access, Seek and Truncate the operations against those data;
--     Lifecycle construction, copies, assignment, destruction and comparison; Upper the contract that
--     the stream keeps towards the layer above.
--   Streams/Raw: that contract, RawStream with IsSource and IsSink, and readGuaranteed.
--   Streams/Order: bytes of integers in memory and on the wire. Streams/Binary: VBinaryIOStream.
--   Streams/Transfer: streamCopy, one function for each of its four cases. Streams/Buffered:
--     VWriteBufferedStream (source/streams/vwritebufferedstream.cpp), a memory stream that flushes to a raw
--     stream (Session), or to a memory stream (ToMemory). Streams/Copier: VStreamCopier
--     (source/streams/vstreamcopier.cpp), a copy in chunks.
--   CodePoint: VCodePoint (Utf8, Sequences, Utf16, and Scan for the walks over a buffer).
--   Text: readLine of VTextIOStream over a raw stream whose `available` is a parameter (Lines its rounds,
--     ReadLine a whole line, Limits where it goes wrong), and writeLine (Write, RoundTrip);
--     CodePoint/Streamed the characters that it reads.
--   Bento: the data types of VBento (source/containers/vbento.cpp, vbento.h). Bento/Value: values on a
--     stream, over the binary streams; Format the bytes they stand as, Lengths how many, Laws writing
--     and reading, Shrink that reading takes bytes. Bento/Node: attributes and nodes; Format the bytes
--     of a tree, RoundTrip, Termination, and Unknown for data types that the reader does not know.
--     Bento/Text: VBentoTextNodeParser, on the code points of a text; Text/Values the classes that
--     newObjectFromBentoTextValues finds; Text/Writer the text format, with what the parser makes of it
--     in Steps, Readable, Classes, Tokens, Attributes and Nodes, and of whole texts in RoundTrip and Settled;
--     Converted the values whose conversion from text is modelled.
--   Duration: VDuration (source/containers/vinstant.cpp, vinstant.h), Spec its sums against those of numbers
--     with infinities, Arithmetic how its operations go together;
--     Duration/Text its text, with parseDouble as a parameter (Suffixes, Units, RoundTrip).
--   Strings: the parsing of integers by VString (source/containers/vstring.cpp), Integers of digits,
--     RoundTrip of the decimal form of a number, Overflow of one of nineteen digits.
--   Hex: VHex; Hex/Print the dump, whose output is the list of its lines.
--   Messages: VMessage; Messages/Deque and Messages/Queue the queue, with threads as lists of events,
--     postMessage, getNextMessage and releaseAllMessages.
--   The files Tests hold examples.
--
-- Conventions. A function that can throw returns a Result; Failure names the exception, and `fault`
-- stands for undefined behaviour, such as a read out of bounds, and `endless` for a loop whose fuel has run
-- out. A raw stream takes all the bytes of a write or throws. Sizes and offsets are natural numbers,
-- taken to stay below 2^63, as a buffer of that size cannot be had; integers on the wire have their
-- width and wrap, and a byte is below 256. What the C++ run time decides is the parameter Platform: the
-- width of size_t, when memory runs out, and the bytes in a new block. There is memory for strings, and for the
-- values and nodes that VBento reads.
--
-- Bounds and fuel. The loop that doubles a buffer size is given the required size as fuel, and reaches
-- it before (Growth); the chunk loops of copyMemory and operator== as many rounds as there are bytes,
-- with at least one byte a round; so too streamCopy and countUTF8CodePoints. The loop over copyChunk
-- takes one round more than there are bytes. readLine has
-- two rounds more than there are bytes available, as a pending character takes one and the end of the
-- stream another. releaseAllMessages is given the length of the queue. A Bento tree is read on fuel for
-- its depth: for a tree that was written the depth is enough (Bento/Node/RoundTrip), for any stream one
-- more than its bytes (Termination). The parser of Bento text is a recursion on the text, and needs no
-- fuel. A decimal form is made on fuel for nineteen digits, as a Vs64 needs.
-- The labels of a dump have at most 20 digits, as 64 bits need.
--
-- Not modelled: floating point, instants, the conversions of Bento text into numbers, times and
-- figures, its XML output, text streams beyond readLine and writeLine, VString beyond what the above
-- uses, files, sockets, threads and their semaphores, settings, the server classes, logging and
-- assertions.
pub mod Base
pub mod Bento
pub mod Heap
pub mod Streams
pub mod CodePoint
pub mod Duration
pub mod Hex
pub mod Messages
pub mod Strings
pub mod Text
