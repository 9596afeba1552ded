-- ===== src/Lib.antt =====
-- Low-latency transfer of market data. A producer publishes frames to a shared-memory ring; the
-- sender reads them, packs them into Data packets and gives these to a network port; the receiver
-- admits packets, drops stale ones and publishes their frames to a ring of its own; a consumer reads
-- a ring and measures what arrives.
--
-- The parts, in the order in which data passes through them:
-- * Ring models harness/include/shm_ring.h. `Region` is the mapped memory, `attach`, `publish` and
--   `read` the methods of `shm::Ring`. Every atomic access is one step: a read takes what the region
--   holds at each of its loads (`Snapshots`), and the stores of a publication are functions of their
--   own, so that an overlap of the two is a value. The abstract view is the list of all frames ever
--   published; `IsRing` says that a region of 2^k slots holds the last 2^k of them. Ring.Writer has
--   the stores of a publication as a step relation, the copy byte after byte; Ring.Loads and
--   Ring.Interleaved put the loads of a read between any of these steps; Reader.Watched and
--   Consumer.Watched have the readers of a ring at which a producer is at work.
-- * Segment models harness/include/shm_segment.h as the system calls that it makes.
-- * Message models harness/include/message_raw.hpp and harness/include/message_compact.hpp. The
--   transport needs `seq_id` and `frame_size` of a header only; `Profile` is that interface,
--   `IsProfile` its laws, and `raw` and `compact` are its two implementations. Message.Raw.Layout
--   and Message.Compact.Layout have the messages as they lie in memory.
-- * Producer models harness/src/producer.cpp: the choice of the message, the loop of `main` with its
--   rate control, in Producer.Compact and Producer.Raw the functions that build the messages, and in
--   Producer.Options and Producer.Program the options and `main` around its loop.
-- * Reader models src/sender_shm_reader.cpp: `try_read` copies, validates and classifies a frame.
-- * Builder models src/raw_data_packet_builder.cpp, with `writeSizeofTBE` in Bytes. Pointers into
--   the packet are offsets in the list of its bytes.
-- * Sender models the loop of `run_sender` in src/sender_main.cpp: `sender_turn` is a pass of the
--   outer loop, `fill_batch` the inner loop, `run_sender` the run over any passes. What a pass meets
--   (stop flag, ring contents, result of the allocation and of the transmission) is its argument
--   `Turn`.
-- * Materializer models src/dpdk/data_packet_materializer.cpp: the Ethernet, IPv4 and UDP headers in
--   front of the image. DPDK's constants, checksum and trim are the record `Dpdk`, their documented
--   behaviour is `IsDpdk`.
-- * Parser models src/dpdk/ingress_packet_parser.cpp, Receiver.Writer src/receiver_shm_writer.cpp,
--   and Receiver the loop of `run_receiver` in src/receiver_main.cpp.
-- * Ports models src/dpdk/dpdk_port_info.cpp, src/dpdk/dpdk_rx_port.cpp and src/dpdk/dpdk_tx_port.cpp:
--   a port is the list of its calls to DPDK, whose answers are a parameter.
-- * Config models src/config.cpp: the parser of the endpoints' command line, from `argv[1]` on, with
--   strings as lists of character codes and `inet_pton` as a parameter.
-- * Entry models `main` of src/sender_main.cpp and src/receiver_main.cpp and the start-up in
--   `run_sender` and `run_receiver`, around the loops of Sender and Receiver; Statistics models what
--   they print when their loops have ended.
-- * Consumer models harness/src/consumer.cpp, with the options in Consumer.Options and `main`
--   around its loop in Consumer.Program; Consumer.Course is what the loop does, said as a relation:
--   which frames it takes, and whether it ends by its limit, by idling, or is still running.
--   Metrics has the accumulator of harness/include/metrics.h, its report and, in Metrics.Csv, the
--   file of its samples. Output has the decimal numbers of `fprintf`. Options has what the options
--   of producer and consumer share: `std::stoull`, and the ways in which a program is left.
-- * Pipeline composes sender and receiver: one packet, a run over a link that loses packets
--   (Pipeline.Channel), the headers on the wire (Pipeline.Wire) and the two programs as a whole
--   (Pipeline.Programs); Pipeline.Live composes producer and consumer at work at the same time.
-- Base has the lemmas on lists, bytes in memory and machine integers that these share.
--
-- Numbers are natural numbers with the wrap-around of their C++ type written out; the counters wrap
-- modulo 2^64. The hypotheses `< 2 ^ 64` on a history or on a sequence number bound runs that no
-- deployment reaches.
--
-- The inner loop of the sender has fuel 61, since 1450 bytes of payload hold 60 frames of at least 24
-- bytes. The digits of a number `n` have fuel `n + 1`, which is more than
-- there are. No other definition runs on fuel. Loops that the world ends, by a signal or by what it
-- delivers, run over the list of what their passes meet. Such a list may end before the loop does: the
-- consumer's `main` then has no end, and what the sender's loop leaves says so in `ended`.
--
-- DPDK is a parameter. Its conversions of byte order are the record `ByteOrder`, with the documented
-- behaviour in `IsHostOrder`; allocation, memory of packets and transmission are fields of `Turn`;
-- received packets are lists of `Mbuf`; devices and the EAL are `Environment`, `Host` and `Runtime`.
-- The readings of the clock are arguments. Arithmetic on `double` is the records `Double`, for the
-- producer's messages, and `Floating`, for the report and the rate.
--
-- Not modelled: what the system calls behind a segment do (`Host` and `Surroundings` have the memory
-- that they map), the consumer's `print_report`, and the messages on `stderr` before and inside the
-- loops. The stores to a ring are seen in the order of the program; of the plain accesses of the two
-- copies, which `memcpy` may order in another way, no other order is modelled.
pub mod Base
pub mod Bytes
pub mod Segment
pub mod Statistics
pub mod Ring
pub mod Message
pub mod Builder
pub mod Parser
pub mod Receiver
pub mod Reader
pub mod Sender
pub mod Config
pub mod Options
pub mod Output
pub mod Materializer
pub mod Metrics
pub mod Consumer
pub mod Producer
pub mod Ports
pub mod Entry
pub mod Pipeline
mod Tests
