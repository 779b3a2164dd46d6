-- ===== src/Egc.antt =====
-- The Inmarsat-C / EGC decoder of src/decode/egc/, one module for each stage of the chain.
pub mod Packet
pub mod Uw
pub mod Format
pub mod Scramble
pub mod Interleave
pub mod Fields
pub mod Names
pub mod Previews
pub mod Decoder
pub mod Aa
pub mod Frame
