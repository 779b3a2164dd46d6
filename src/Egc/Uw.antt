-- ===== src/Egc/Uw.antt =====
-- The frame synchroniser of src/decode/egc/egc_decoder.cpp: it finds the unique word in the last
-- symbols. A symbol is 0 or 1; the register holds the newest symbol first.
pub mod Polarity
pub mod Spacing
pub mod Stream
mod Tests
use inmar_scope.Prelude.{
  ℕ, zero, suc, ◌+◌, ◌-◌, ◌*◌, min, bit_xor, Bool, ◌||◌, List, [], ◌∷◌, Option, none, some, map,
  ltb, leb, ◌==◌, if◌then◌else◌, get_or, take, replicate,
}

abbrev pub uw_frame_len : ℕ
uw_frame_len = 10368

abbrev pub tolerance : ℕ
tolerance = 25

abbrev pub nrm_pol : List ℕ
nrm_pol =
    0 ∷ 0 ∷ 0 ∷ 0 ∷ 0 ∷ 1 ∷ 1 ∷ 1 ∷ 1 ∷ 1 ∷ 1 ∷ 0 ∷ 1 ∷ 0 ∷ 1 ∷ 0 ∷ 1 ∷ 1 ∷ 0 ∷ 0 ∷ 1 ∷ 1 ∷ 0 ∷ 1
    ∷ 1 ∷ 1 ∷ 0 ∷ 1 ∷ 1 ∷ 0 ∷ 1 ∷ 0 ∷ 0 ∷ 1 ∷ 0 ∷ 0 ∷ 1 ∷ 1 ∷ 1 ∷ 0 ∷ 0 ∷ 0 ∷ 1 ∷ 0 ∷ 1 ∷ 1 ∷ 1 ∷ 1
    ∷ 0 ∷ 0 ∷ 1 ∷ 0 ∷ 1 ∷ 0 ∷ 0 ∷ 0 ∷ 1 ∷ 1 ∷ 0 ∷ 0 ∷ 0 ∷ 0 ∷ 1 ∷ 0 ∷ []

abbrev pub rev_pol : List ℕ
rev_pol = map (λ b. if b == 0 then 1 else 0) nrm_pol

pub record UwFrame : Type 0 where
  pub frame : List ℕ
  pub reversed_polarity : Bool
  pub ber : ℕ

pub record UwFinder : Type 0 where
  pub reg : List ℕ
  pub symbol_count : ℕ

-- The constructor.
pub new : UwFinder
new = record { reg = replicate (uw_frame_len * 2) 0; symbol_count = uw_frame_len - 1 }

-- The loop of `detect` for one polarity, over the word from bit `pp` on. The loop counts `sp` down
-- from 10367 by 162 while it is not negative, which is 64 rounds; with `left` rounds to go, `sp`
-- is `left * 162 - 1`.
pub errors_from : List ℕ → ℕ → ℕ → List ℕ → ℕ
errors_from pol zero pp reg = 0
errors_from pol (suc left) pp reg =
    let sp = suc left * 162 - 1 in
    bit_xor (get_or pol pp 0) (get_or reg sp 0)
    + bit_xor (get_or pol pp 0) (get_or reg (sp - 1) 0)
    + errors_from pol left (pp + 1) reg

unfoldable pub errors : List ℕ → List ℕ → ℕ
unfolding errors_from
errors pol reg = errors_from pol 64 0 reg

-- `detect` gives whether a word is there, the two error counts and the polarity flag.
pub record Detection : Type 0 where
  pub found : Bool
  pub n_uw : ℕ
  pub r_uw : ℕ
  pub rev : Bool

pub detect : List ℕ → Detection
detect reg =
    let n = errors nrm_pol reg in
    let r = errors rev_pol reg in
    record { found = leb n tolerance || leb r tolerance; n_uw = n; r_uw = r; rev = leb r tolerance }

-- `for (auto& b : f.frame) b ^= 1`
pub flip : List ℕ → List ℕ
flip = map (λ b. bit_xor b 1)

-- The frame that `push` puts out when `detect` has found the word.
pub found_frame : List ℕ → Detection → UwFrame
found_frame reg d =
    let f = take uw_frame_len reg in
    record {
      frame = if d.rev then flip f else f;
      reversed_polarity = d.rev;
      ber = min d.n_uw d.r_uw;
    }

-- `memmove` drops the oldest symbol.
pub shift_in : ℕ → List ℕ → List ℕ
shift_in sym reg = sym ∷ take (uw_frame_len * 2 - 1) reg

-- The frame is what `push` appends to `out`, if any.
pub push : UwFinder → ℕ → UwFinder × Option UwFrame
push u sym =
    let reg' = shift_in sym u.reg in
    let count' = u.symbol_count + 1 in
    let d = detect reg' in
    if ltb count' uw_frame_len
    then (record { reg = reg'; symbol_count = count' }, none)
    else if d.found
    then (record { reg = reg'; symbol_count = 0 }, some (found_frame reg' d))
    else (record { reg = reg'; symbol_count = count' }, none)
