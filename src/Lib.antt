-- ===== src/Lib.antt =====
-- InmarScope: a receiver for Inmarsat aero and STD-C/EGC traffic. Samples of a radio go into ring
-- buffers, channel decoders turn them into symbols, frames and packets, and the decoded messages
-- go into logs that the user interface, the web map and the message store read.
--
-- The parts and their modules:
--
--   Prelude      names of the libraries, Boolean tests, lists over the native numbers, text
--   Double       the operations of `double` that the code uses, as an interface, and an instance
--                with decimal fractions for examples
--   Dsp.IqRing   src/dsp/iq_ring.h, `IqRing`: the ring from which spectra take the latest samples
--                (`push`, `available`, `latest`, `clear`)
--   Egc.Uw       src/decode/egc/egc_decoder.cpp, `UWFinder`: `push`, `detect`; Uw.Stream has the
--                loop of `EgcDecoder::process` that feeds it
--   Egc.Packet   the same file: `packetLength`, `egcCrc`, `crcOk`, `addressLength`
--   Egc.Format   `snprintf` and buffers that several calls fill; a buffer records a call past its end
--   Egc.Fields, Egc.Names
--                the readers of fields (`readMesId`, `downlinkMHz`, ...) and the names of codes
--                (`serviceName`, `lesLabel`, `ia5Text`, `servicesText`, `tdmSlots`, ...)
--   Egc.Interleave, Egc.Scramble
--                `depermute`, `deinterleave` and `descramble`: the order of the symbols of a frame and
--                the scrambling of its bytes
--   Egc.Decoder  the state of `EgcDecoder::Impl`, `emitTerminal` and `emitEgc`
--   Egc.Previews, Egc.Aa
--                `handleAaPacket`: the texts of a packet and the assembly of LES messages
--   Egc.Frame    `decodeFrame`: the walk over a frame, the branches (Frame.Handlers), and messages in
--                two packets
--   Dsp.Ddc      src/dsp/ddc.h, `Ddc`: the choice of the decimation and of the stages
--   Manager      src/decode/decoder_manager.cpp, `DecoderManager`: its decoders in sub-bands on
--                workers; `addDecoder` (Manager.Adding), `removeDecoder` (Removing), `autoMonitor` and
--                the queries (Monitor), the other methods (Control), and those that change the state
--                as steps, with any change of the table of aircraft and the log of calls (Runs).
--                A `Decoder` is the fields that the manager reads and writes
--   Voice        src/voice/voice_ops.cpp: `retuneActive`, `retunePreserving`, and `updateVoiceFollow`
--                and `tuneToVoice` (Voice.Follow) on the two managers
--   BandPlan     src/decode/band_plan.cpp: `loadBandPlan` from the JSON value on (BandPlan.Loading),
--                `bandPlanGroups` and `bandPlanLabel` (BandPlan.Groups). jansson is a parameter
--   Wav          src/sdr/iq_recorder.cpp, `IqRecorder` (Wav.Recorder), and
--                src/sdr/wav_file_source.cpp, `WavFileSource` (Wav.Source): the opening of a file and the
--                loop that plays it, without its pace. Floats are the numbers of Double as well
--   FlightMap    src/web/flight_map_data.cpp: `flightMapLookupIds` (FlightMap),
--                `parseFlightMapPositions` (Positions) and the rows of `flightMapJson` (Rows)
--   Log.Country  the country of an aircraft, which both of these ask for
--   Log          src/decode/message_log.h. Log.Types has the structs, Log.Bounded the vectors with a
--                greatest size, Log.OrdMap `std::map`, and a module each for `MessageLog` and
--                `CassignLog` (Messages), `EgcLog` (Egc), `LesLog` (Les), `MesLog` (Terminals),
--                `ChannelTable` (Channels), `AircraftTable` (Aircraft), `LesFreqTable` (LesFreqs)
--                and `VoiceCallLog` (Voice)
--   Icao         src/decode/icao_country.cpp: the table, `icaoCountry`, `ccToFlag`,
--                `isMilitaryIcao`
--   Version      src/update/version_check.cpp: `cmpVersion`, and `jsonString` and the states of
--                `VersionCheck` (Check)
--
-- Conventions. A method of a class with a mutex is one step, since it holds it from its first access
-- to the state to its return; the readers without a lock (`hasArchive`, `MesLog::size`) read one
-- field. The methods of the logs that also store read `store_` and call the store before they take the
-- mutex: the model takes the call and the change as one step, so it is for calls that do not
-- overlap with others on the same log, and for a store that is set before. An object is a record of
-- its fields and a method gives the new record. A call of the
-- message store is a value in a list, in the order of the calls, and the time of such a call is an
-- argument. A `size_t` or `uint64_t` counter wraps at 2^64; an `int` that only grows by one for each
-- message is left unbounded; an `int` with -1 for "none" is an Option. `int` and floating-point
-- fields that the code only moves are of any type. `double` is a parameter with no laws.
-- `std::string` is the list of its bytes.
--
-- Bounds and fuel. The binary search takes one round for each entry of the table and one to stop,
-- since every round drops an entry. The walk over the chunks of a WAV file takes the length of the
-- file, the windows of a band plan the number of the channels, and a playback any number of rounds
-- above that of the samples. The other loops are structural. The theorems on the ring are
-- for fewer than 2^64 samples in all, and that on segments for at most 2000, where the log drops
-- nothing. `decode_from` takes rounds: one for each byte of a frame and one more are enough for a
-- frame with no message in several packets, and Egc.Frame.Ends shows for which messages no number
-- is. The inner call for a message that came in several packets works on a copy of the buffer, and
-- the program on the buffer itself: the two agree while the message holds no packet of type 0xBD.
--
-- Not modelled: the demodulators and all other signal processing in floating point, the user
-- interface, devices, sockets, files and the database, which are I/O, and the libraries under
-- third_party/. A read past the end of a list gives 0 where the source's is undefined.
pub mod Prelude
pub mod Double
pub mod Dsp
pub mod Egc
pub mod Log
pub mod Icao
pub mod Manager
pub mod Voice
pub mod BandPlan
pub mod Wav
pub mod FlightMap
pub mod Version
