-- ===== src/Lib.antt =====
-- dumphfdl is a receiver of HFDL, the data link of aircraft on short wave. Its demodulator yields
-- frames of octets; the decoder checks and parses them layer by layer, keeps a cache of the
-- aircraft that have logged on and a table of ground stations, and passes what it finds to
-- formatters and outputs. This library models the receiver from the symbols of a channel to the
-- octets of a frame, and the decoder from a frame to the parsed tree and to the state that the
-- frame changes.
--
-- The parts, with the functions they model:
--
-- - Hfdl: the demodulator of a channel, src/hfdl.c, from the symbols behind the equalizer on. Framer
--   and Channel are the states of hfdl_decoder_thread and what one symbol does, Deinterleaver and
--   Descrambler the two components of that name, Decode is decode_user_data and dispatch_pdu, and
--   Dsp gathers what is used of liquid-dsp and libfec. The other modules hold proofs.
-- - Crc: crc16_ccitt of src/crc.c, the table-driven checksum.
-- - Pdu: hfdl_pdu_fcs_check of src/pdu.c, and the header data that the layers share.
-- - Mpdu: mpdu_parse and parse_lpdu_list of src/mpdu.c. It splits a frame into LPDUs and calls
--   lpdu_parse for each.
-- - Spdu: spdu_parse of src/spdu.c, the squitters of ground stations.
-- - Lpdu: lpdu_parse and its field parsers of src/lpdu.c. A logon or a logoff changes the aircraft
--   cache; what follows the LPDU's fields goes to hfnpdu_parse.
-- - Hfnpdu: hfnpdu_parse and its field parsers of src/hfnpdu.c, and acars_parse of src/acars.c. A
--   part of a system table is stored, and may complete the table.
-- - AcCache: src/ac_cache.c, two caches that map a frequency and an aircraft ID to an address and
--   back. Cache: src/cache.c, the expiring cache that both are made of.
-- - Systable: src/systable.c, systable_store_pdu and the reassembly of systable_process_pdu_set,
--   systable_decode with its helpers, and systable_is_newer; its Stations is the validation of a
--   table that is read and the array of its stations, and its Lookup what is looked up there. Update is
--   the configuration that a received table becomes, and Process systable_process_pdu_set, with what
--   it replaces in Replacing.
-- - Position: src/position.c, lpdu_position_info_extract and hfnpdu_position_info_extract.
-- - Fmtr: src/fmtr-json.c, src/fmtr-text.c and src/fmtr-basestation.c, up to what printf is given.
-- - Kvargs: src/kvargs.c, the parser of option strings.
-- - Decoder: the decoder thread of src/pdu.c, between the demodulators and the outputs. It has each
--   PDU of its queue parsed by mpdu_parse or spdu_parse and serves the formatters.
-- - Outputs: of src/output-common.c, the queues between the decoder and the outputs and their
--   shutdown; its Thread is the thread of an output.
-- - OutputFile: src/output-file.c, the driver that writes to files and rotates them.
-- - Json: the calls of la_json_* of libacars in order, and what it is that they build a well-formed
--   document. Format: the formatters of src/util.c that the others share. The module Format of
--   Hfnpdu, Lpdu, Mpdu, Spdu and Systable is the JSON formatter of that source file, and the module
--   Nesting the proof that its calls fit together.
-- - AcData: src/ac_data.c, what is known of an aircraft, from a database behind a cache.
-- - Block: src/block.c, the connections between the blocks that process samples.
-- - Util: the conversions of src/util.c and src/util.h that the parsers use; its Hexdump is hexdump.
--
-- A number is a natural number, with the wrap-around of its C type written out where it can be
-- reached. A buffer is a list of octets and a pointer into it a position. A function that reads
-- memory returns an Option: none is a read outside the buffer, or something else that C leaves
-- undefined, or a failed ASSERT, and a theorem named after Safe says that it does not happen. An
-- error that the source returns is a value of the result. State is passed explicitly: a parser takes
-- the world and returns it, and so does a formatter of the decoder thread. What
-- time(NULL) returns is an argument of the operation that calls it.
--
-- Code outside the repository is a parameter. LaHash states what is used of la_hash of libacars,
-- with an association list as an instance; Services gathers what the parsers call besides one
-- another, and leaves open what the world is made of; Hfdl.Dsp names the calls of liquid-dsp and
-- libfec with their documented behaviour; Position.Calendar states what gmtime and timegm of the C
-- library do; AcData.Sqlite has the calls of SQLite, and Format.Lookups what the formatters
-- look up; Systable.Stations.Libconfig and Systable.Lookup.Values have the functions of
-- libconfig that look into a setting, and Systable.Update.Writer those that build and write a
-- configuration. Tests.Instance puts the aircraft cache and the system table behind Services for
-- concrete runs.
--
-- A loop with a bound is a recursion on it: six frequencies of a frequency data message, the LPDU
-- counts of an MPDU. The loop of systable_decode runs on fuel, one more than the length of the
-- message, which is enough because each station takes seven octets or more; to run out of fuel
-- would be a fault, and the theorem on systable_decode excludes it. The loop of an output thread is
-- counted in rounds, with a theorem that finitely many are enough; a thread that takes entries from
-- a queue is a recursion on the entries.
--
-- A symbol of the demodulator is an element of a type of its own, and a correlation, which the source
-- compares with thresholds as a float, is a multiple of 1 / 127 that never meets a threshold exactly.
--
-- Not modelled: the signal processing of src/hfdl.c before a symbol and the levels, frequencies and
-- timestamps that it measures, the inputs, the drivers of the network outputs, the text formatters,
-- and the counters of src/statsd.c. The parsing of a system table file is libconfig's. Memory
-- management and locks are left out: every call in the model happens under the lock that the source
-- takes.
pub mod Common
pub mod LaHash
pub mod Cache
pub mod AcCache
pub mod Hfdl
pub mod Crc
pub mod Util
pub mod Pdu
pub mod Services
pub mod Hfnpdu
pub mod Lpdu
pub mod Mpdu
pub mod Spdu
pub mod Systable
pub mod Position
pub mod Kvargs
pub mod Outputs
pub mod OutputFile
pub mod Decoder
pub mod Json
pub mod Format
pub mod AcData
pub mod Block
pub mod Fmtr
pub mod Tests
