-- ===== src/Egc/Format.antt =====
-- What src/decode/egc/egc_decoder.cpp uses of `snprintf`, and its buffers.
use inmar_scope.Prelude.{
  ℕ, zero, suc, ◌+◌, ◌-◌, ◌/◌, ◌%◌, [], ◌∷◌, ◌++◌, Bool, false, ◌||◌, ltb, ◌==◌, if◌then◌else◌,
  length, take, Text, codes,
}

-- A digit, in upper case.
abbrev pub digit : ℕ → ℕ
digit n = if ltb n 10 then n + 48 else n + 55

-- The last `k` digits of a number.
abbrev pub digits : ℕ → ℕ → ℕ → Text
digits base zero n = []
digits base (suc k) n = digits base k (n / base) ++ digit (n % base) ∷ []

-- Without the zeros in front.
abbrev pub no_zeros : Text → Text
no_zeros [] = codes "0"
no_zeros (c ∷ s) = if c == 48 then no_zeros s else c ∷ s

-- `%d` and `%u` of a number below 10^10, as an `int` or a `uint32_t` is.
abbrev pub dec : ℕ → Text
dec n = no_zeros (digits 10 10 n)

-- `%02d`
abbrev pub dec2 : ℕ → Text
dec2 n = if ltb n 10 then 48 ∷ dec n else dec n

-- `snprintf` into a buffer of its own: one byte is for the end of the string.
abbrev pub snprintf : ℕ → Text → Text
snprintf size s = take (size - 1) s

-- A buffer filled from `pos` on by several calls; `pos` counts what each call would have written.
-- A call with `pos` past the end gets a size that has wrapped: `overrun` says that there was one.
pub record Buffer : Type 0 where
  pub size : ℕ
  pub chars : Text
  pub pos : ℕ
  pub overrun : Bool

abbrev pub new_buffer : ℕ → Buffer
new_buffer size = record { size = size; chars = []; pos = 0; overrun = false }

-- `bp += snprintf(buf + bp, sizeof(buf) - bp, ...)`
abbrev pub print_to : Buffer → Text → Buffer
print_to b s = record b {
  chars = b.chars ++ take (b.size - b.pos - 1) s;
  pos = b.pos + length s;
  overrun = b.overrun || ltb b.size b.pos;
}
