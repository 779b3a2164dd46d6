-- ===== src/Dsp.antt =====
-- Signal buffers of src/dsp/.
pub mod IqRing
pub mod Ddc
