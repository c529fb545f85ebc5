-- ===== src/Lib.antt =====
-- gnss_parser: a driver for u-blox GNSS receivers and the library of GNSS types and formulas that it
-- is built on.
--
-- Bytes come in on the serial port, where a reader cuts them into UBX messages; the message
-- processor checks the checksum of each and decodes it with bit-field reads into observations,
-- ephemerides and solutions. The parameters and the configuration of the receiver come from files,
-- and at the start the receiver is configured and has to acknowledge. RTCM corrections come in over
-- TCP or from an NTRIP caster, to which the driver reports its position, are scanned for frames by
-- their CRC, published, and sent on to the receiver. A registry of state machines tells which of
-- these streams are alive.
--
-- The files and what they model:
-- - Serial: read_exact, wait_for_event and read_loop of ublox_driver/src/serial/serial_handler.cpp.
--   What the operating system answers to a wait and a read is a list of events; a stop is an event.
--   `sync` is the inner loop of read_loop. Serial/Write is write_all, with a list of answers to its
--   waits and writes, and Serial/Port the port with its start, stop and close.
-- - Ubx/Checksum and Ubx/Frame: check_checksum, set_checksum, verifyMsg and check_ack of
--   ublox_driver/src/gnss_message_parser (ublox_message_processor.cpp and its _helper.cpp).
--   Ubx/Frame/Spec is the wire format, with sums of its own, and Ubx/Frame/Sums leads those of the
--   code to them.
-- - Ubx/Bits: getbitu and setbitu of the helper file, over `uint32_t` values; Ubx/Bits/Signed: the
--   signed and split fields, where an `int` is the 32-bit word that holds it; Ubx/Bits/Layout:
--   messages laid out as fields.
-- - Ubx/Signals: ubx_sys, ubx_sig and sig_idx of the helper file.
-- - Processor: the state of UbloxMessageProcessor. Processor/Subframes is parse_subframe and the
--   four decode_*_subframe of the helper file with test_glostr, Processor/Observations
--   parse_meas_msg and sig_freq, Processor/Solutions parse_time_pulse and parse_pvt,
--   Processor/Publish process_data and the filters of
--   ublox_driver/src/gnss_communication_wrapper/ros_handler.cpp. Processor/Rows, Processor/Steps,
--   Processor/Invariant, Processor/Runs and Processor/Beidou hold lemmas on the tables of the state,
--   over one message and over many.
-- - Config: build_config_msg of the helper file, with its table of items in Config/Items.
-- - Ephem: Ephem and GloEphem of gnss_comm/include/gnss_comm/gnss_constant.hpp, and the
--   decode_*_ephem of the helper file in Ephem/Gps, Ephem/Bds, Ephem/Gal and Ephem/Glo.
--   Ephem/Gps/Broadcast is the layout of the GPS subframes; it takes the table of the accuracies,
--   `ura_of`, and the test for the value -128 from the code's model.
-- - Crc: crc24q of the helper file, with its table in Crc/Table, and ComputeRtcmCrc24q of
--   ublox_driver/src/gnss_communication_wrapper/ublox_driver.cpp.
-- - Rtcm: logRtcmFrames, drainRtcmLogBuffer and the two header readers of ublox_driver.cpp. A round
--   of the loop is a function of the buffer; Rtcm/Frames has the transport frame of the standard.
-- - Registry: StateMachineRegistry of
--   ublox_driver/src/gnss_communication_wrapper/state_machine_registry.cpp, whose maps are ordered
--   lists of pairs and whose clock is an argument.
-- - Gnss/Satellites: sat_no and satsys of gnss_comm/src/gnss_utility.cpp, with sat2str and str2sat
--   in Gnss/Satellites/Names.
-- - Gnss/Time: the calendar, the weeks of GPS, Galileo and BeiDou time and the leap seconds of the
--   same file.
-- - Params: ublox_driver/src/params/params.cpp. Params/Text holds its text functions, Params/Center
--   ParseUCenterConfig on the text of a file, and Params/Load LoadUbloxDriverParams with its readers
--   of nodes, over the operations of yaml-cpp and of the file system that it uses. Params/Checked,
--   Params/Missing, Params/Records and Params/Hex are about what is loaded, missing keys, the bytes
--   of a message and the text of a line.
-- - Tcp: ublox_driver/src/rtcm/tcp_client.cpp, with readLoop in Tcp/Loop. A step takes the client
--   with the answers to come and gives the client behind it, and a result unless a call has no
--   answer yet. Tcp/Keeps carries a predicate over every step; Tcp/States, Tcp/Data, Tcp/Until and
--   Tcp/Stops are about the connection state callbacks, the data, readUntil and a stop. Tcp/Owner is
--   startRead, close and the registration of callbacks.
-- - Ntrip: ublox_driver/src/rtcm/ntrip_client.cpp, whose onConnected is the parameter of the TCP
--   client. Ntrip/Base64 has a decoder, Ntrip/Header and Ntrip/Handshake the response and what comes
--   with it, Ntrip/Quiet what the handshake leaves alone.
-- - Driver: ublox_driver/src/gnss_communication_wrapper/ublox_driver.cpp without its RTCM frames:
--   Driver/Gga the GGA sentences and sendNtripGga, with a receiver in Driver/Gga/Receiver,
--   Driver/Startup configureReceiverAtStartup and handleConfigAck, Driver/Setup what the constructor
--   makes and starts.
-- - Prelude: Boolean tests, lists over native numbers, bit operations, texts as bytes, maps,
--   integers.
--
-- Numbers and bounds. Bytes, 16-bit and 32-bit values are natural numbers with the wrap-around
-- written out. A read past a list gives 0 where the C++ has no defined value; the theorems on such
-- reads state their bounds. Values that C++ holds in a `size_t` (lengths of buffers) are unbounded.
--
-- A `double` of seconds is a whole number of ticks of 2^-32 ms, which the time pulse counts in; the
-- rounding of the double is not in the model. A parameter of an ephemeris is the integer of the
-- message with its scale, and an observed value that is only handed on is the number of its bits.
--
-- A null pointer that the code writes through is a result of its own, `null_write` or `crashed`. A
-- write past the buffer of a satellite, which in the code goes on in the next satellite's, leaves a
-- buffer of more than 380 bytes, and one past the buffers of read_loop and of the configuration is
-- the result `overflow`, which the bytes that arrive or are written decide.
--
-- Fuel. `sync` has one round for each byte at hand and one more, since each round but the last takes
-- a byte. `read_loop` takes its number of rounds as an argument; a round for each message and one
-- more are enough. `drain` has one round for each byte of its buffer and one more, and more change
-- nothing. `read_until_in` and `read_loop_in` of Tcp have one round more than there are answers of
-- the kind that each round takes; the read of the records of a u-center line has a round for each
-- byte and one more.
--
-- What an operating system, yaml-cpp or a file gives is a list of answers or a record of operations,
-- without conditions, but for the theorem on missing keys: it takes that `YAML::Node()` is a defined
-- node of no other kind, as yaml-cpp has it; the rounding of half-way values by
-- `std::setprecision(1)` is a parameter. Angles and lengths of a GGA sentence are integers, whose
-- other digits no rounding of a `double` can change.
--
-- Not modelled: positioning, orbits and atmosphere, which are floating-point numerics; ROS messages,
-- nodes and bags; log output; the scheduling of threads and timers; the RINEX text.
pub mod Prelude
pub mod Crc
pub mod Gnss
pub mod Registry
pub mod Serial
pub mod Ubx
pub mod Rtcm
pub mod Ephem
pub mod Processor
pub mod Config
pub mod Params
pub mod Tcp
pub mod Ntrip
pub mod Driver
