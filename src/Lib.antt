-- ===== src/Lib.antt =====
-- Packetry, a USB analyser: the decoder of packets and what it rests on.
--
-- The program takes packets with their times from a capture device or a file. `Decoder`
-- (src/decoder.rs) validates each packet (src/usb.rs), groups packets to transactions and
-- transactions to transfers of an endpoint, and writes all of it to the streams and indexes of a
-- capture (src/capture.rs), from which a reader for the user interface takes it. Small maps are
-- vectors of optional values (src/vec_map.rs).
--
-- The files:
-- - Base: shared types and lemmas. A call is a `Result`: a value, an error, a panic, or `hang`,
--   which stands for fuel used up. In Usb/Descriptors, a round of the
--   iterator moves on by a byte at least, or it is repeated forever, so that as much fuel as there
--   are bytes, and one more for the loop over descriptors, is enough for each run that ends.
-- - VecMap: `VecMap` of src/vec_map.rs, with `EndpointKey` of src/decoder.rs.
-- - Usb: src/usb.rs. Pid, Crc and Validate have `PID`, `crc5` and `validate_packet`; Fields the
--   bitfields and `SetupFields`; Descriptors `DescriptorIterator` and `Configuration::from_bytes`.
--   WellFormed describes the valid packets independently. Samples and Tests hold test data.
-- - Capture: Bitfield has `Endpoint` and `TransferIndexEntry`, Device has `DeviceData`, Writer has
--   `CaptureWriter` and `EndpointWriter`, and Reader has the reads of a stream that is a list, with
--   `packet` and `packet_time` of src/capture.rs.
-- - Decoder: src/decoder.rs. Status has `transaction_status`, Transfer has `extract_payload`,
--   `transfer_status` and `apply_effect`, with Transfer/Control for the transactions of a control
--   transfer; State has the decoder's state and the monad of its
--   methods; Items and Packets have the methods. Closed says what each method keeps when each
--   single assignment keeps it; Log uses it for the packets, which Log/OnStream has on a stream.
-- - Storage: what the streams of a capture are made of. Stream has the writer and the reader's
--   access of src/stream.rs, over a platform of memory, files and mappings: Keep and Swap are about
--   what the writer keeps, Handles about what stays readable, Append, Access and Start about the
--   stream as a list of bytes, and Whole about appends outside of that. Items has the values of src/data_stream.rs and the offsets of
--   src/id.rs, Index the bisections of src/index_stream.rs, and Compact the segments of
--   src/compact_index.rs, over lists in place of streams: Range has `get_range` and `target_range`,
--   and Search the bisection. Memory is a platform for examples.
-- - Traffic: the rest of `CaptureReader` of src/capture.rs. Transactions has `Transaction` and what
--   is read of its packets, Transfers the data of transfers and control transfers, Items and Devices
--   the two lists of items that the user interface shows, Connectors the lines in front of them and
--   the times, and Text the bytes in descriptions.
-- - Backend: the stream of packets of src/backend/cynthion.rs. Pieces is about bytes that
--   come in pieces, and Sent about what a device sends.
--
-- Numbers are natural numbers; a field of a packed record has its width written out. Identifiers
-- are positions. A shared `Arc` of device data is an entry of the capture's map of devices, as
-- the decoder alone writes to it. In Capture and Decoder, a stream or an index is the list of what
-- was written to it: so a packet has a byte or more, and no more than a block of 2 MB, since an
-- append of nothing or of more than a block can leave a stream of other bytes. CRC-16 is a parameter, since the `crc` crate
-- computes it; so are the operating system's files, memory and mappings, and the cache of mappings
-- of the `lrumap` crate. The loops of Storage also take fuel: a pass of a bisection leaves out a
-- block and a pass of `get_range` reads a value, and that much fuel is given.
--
-- Not modelled: the iterator of the compact index and `timestamped_packets`, readers that run while
-- an append is under way, the text of descriptions, the user interface, the rest of the capture
-- device and capture files.
pub mod Base
pub mod VecMap
pub mod Usb
pub mod Capture
pub mod Decoder
pub mod Storage
pub mod Backend
pub mod Traffic
