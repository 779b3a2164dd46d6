-- ===== src/Log.antt =====
-- The logs and tables of src/decode/message_log.h. Each method holds the mutex, so that it is one
-- step on the record of the fields. A method that calls the message store returns the calls beside
-- the new record; `std::time` is an argument. An `int` for which the program uses -1 is an option.
pub mod Country
pub mod Bounded
pub mod OrdMap
pub mod Types
pub mod Messages
pub mod Egc
pub mod Les
pub mod Terminals
pub mod Channels
pub mod Aircraft
pub mod LesFreqs
pub mod Voice
