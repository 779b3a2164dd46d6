-- ===== src/Egc/Frame/Multiframe.antt =====
-- A message in two packets of a frame.
use inmar_scope.Prelude.{
  if_true, ℕ, zero, suc, ◌+◌, ◌-◌, ◌≤◌, ◌<◌, ◌≡◌, ◌⊎◌, refl, ap, ◌∙◌, List, [], ◌∷◌, ◌++◌, true,
  false, ◌&&◌, ◌||◌, ltb, leb, ◌==◌, length, take, drop, replicate, arith, length-append,
  length-replicate, append-nil, drop_all, length-drop,
}
use inmar_scope.Double.{Double}
use inmar_scope.Egc.Decoder.{Links, Decoder, emit_egc}
use inmar_scope.Egc.Fields.{read_bytes}
use inmar_scope.Egc.Packet.{byte_at, packet_length, crc_ok}
use inmar_scope.Egc.Frame.Branches.{packet_be, packet_bd}
use inmar_scope.Egc.Frame.{
  write_at, message_length, begin_multiframe, fill_multiframe, finish_multiframe, end_multiframe,
  next, packet,
}

pub length-read_bytes : (f : List ℕ) (start n : ℕ) → length (read_bytes f start n) ≡ n
unfolding read_bytes
length-read_bytes f start zero = refl
length-read_bytes f start (suc n) = ap suc (length-read_bytes f (start + 1) n)

take-append : (xs ys : List ℕ) → take (length xs) (xs ++ ys) ≡ xs
take-append [] ys = refl
take-append (x ∷ xs) ys = ap (λ l. x ∷ l) (take-append xs ys)

-- The bytes at the start of an empty buffer.
write_at_start : (xs buf : List ℕ) → write_at buf 0 xs ≡ xs ++ drop (length xs) buf
unfolding write_at
write_at_start xs buf =
    let z : 0 + length xs ≡ length xs = omega arith in ap (λ (k : ℕ). xs ++ drop k buf) z

-- The bytes that fill up the buffer.
write_at_rest :
    (xs ys old : List ℕ)
    → length xs + length old ≤ length xs + length ys
    → write_at (xs ++ old) (length xs) ys ≡ xs ++ ys
unfolding write_at
write_at_rest xs ys old h =
    rw
      (
        take-append xs old,
        drop_all (length xs + length ys) (xs ++ old) (omega (arith, length-append {0} xs old)),
      )
      (append-nil (xs ++ ys))

-- The message that the packet at `pos` of `f` begins and the one at `at` of `g` goes on with.
abbrev pub joined : List ℕ → ℕ → ℕ → List ℕ → ℕ → ℕ → List ℕ
joined f pos plen g at glen = read_bytes f (pos + 2) (plen - 4) ++ read_bytes g (at + 2) (glen - 2)

module _ {D : Type 0} where
  begin_lem :
      (f : List ℕ) (pos plen : ℕ) (s : Decoder D)
      → 4 < plen
      → plen ≤ message_length f pos + 4
      → begin_multiframe f pos plen s ≡ record s {
        mfa_data =
            write_at (replicate (message_length f pos) 0) 0 (read_bytes f (pos + 2) (plen - 4));
        mfa_expected = message_length f pos;
        mfa_filled = plen;
        mfa_active = true;
      }
  unfolding begin_multiframe
  begin_lem f pos plen s lo hi =
      let mlen = message_length f pos in
      let some_length : (mlen == 0) ≡ false = ground arith in
      let copied : (ltb 4 plen && leb plen (mlen + 4)) ≡ true = ground arith in
      rw (some_length, copied) refl

  fill_lem :
      (g : List ℕ) (at glen : ℕ) (s : Decoder D)
      → 2 < glen
      → 4 ≤ s.mfa_filled
      → s.mfa_filled + (glen - 2) ≤ length s.mfa_data + 4
      → fill_multiframe g at glen s ≡ record s {
        mfa_data = write_at s.mfa_data (s.mfa_filled - 4) (read_bytes g (at + 2) (glen - 2));
        mfa_filled = s.mfa_filled + (glen - 2);
      }
  unfolding fill_multiframe
  fill_lem g at glen s long begun room =
      let takes : (ltb 0 (glen - 2) && leb (s.mfa_filled + (glen - 2)) (length s.mfa_data + 4))
          ≡ true =
        ground (arith, room) in
      let inside : ltb s.mfa_filled 4 ≡ false = ground (arith, begun) in rw (takes, inside) refl

-- The buffer after both packets.
buffer_lem :
    (xs ys : List ℕ) (n k : ℕ)
    → n ≡ length xs
    → k ≡ length xs + length ys
    → write_at (write_at (replicate k 0) 0 xs) n ys ≡ xs ++ ys
buffer_lem xs ys n k en ek =
    rw (en, write_at_start xs (replicate k 0))
      (write_at_rest xs ys (drop (length xs) (replicate k 0)) (
        omega (
          arith,
          length-drop {0} (length xs) (replicate {A = ℕ} k 0),
          length-replicate {0} {A = ℕ} k 0,
        )))

length-blank : (xs : List ℕ) (n : ℕ) → length xs ≤ n → length (write_at (replicate n 0) 0 xs) ≡ n
length-blank xs n h = rw (write_at_start xs (replicate n 0)) (
    omega (
      arith,
      length-append {0} xs (drop (length xs) (replicate n 0)),
      length-drop {0} (length xs) (replicate {A = ℕ} n 0),
      length-replicate {0} {A = ℕ} n 0,
    ))

module _ {D : Type 0} (f g : List ℕ) (pos plen at glen : ℕ) (s : Decoder D) where
  pub fill-begin :
      4 < plen
      → 2 < glen
      → plen - 4 + (glen - 2) ≡ message_length f pos
      → fill_multiframe g at glen (begin_multiframe f pos plen s) ≡ record s {
        mfa_data = joined f pos plen g at glen;
        mfa_expected = message_length f pos;
        mfa_filled = message_length f pos + 4;
        mfa_active = true;
      }
  fill-begin lo gl e =
      let first = read_bytes f (pos + 2) (plen - 4) in
      let rest = read_bytes g (at + 2) (glen - 2) in
      let mlen = message_length f pos in
      let n1 : length first ≡ plen - 4 = length-read_bytes f (pos + 2) (plen - 4) in
      let n2 : length rest ≡ glen - 2 = length-read_bytes g (at + 2) (glen - 2) in
      let total : length first + length rest ≡ mlen = omega arith in
      let begun : Decoder D = record s {
        mfa_data = write_at (replicate mlen 0) 0 first;
        mfa_expected = mlen;
        mfa_filled = plen;
        mfa_active = true;
      } in
      let buffer : write_at (write_at (replicate mlen 0) 0 first) (plen - 4) rest ≡ first ++ rest =
        buffer_lem first rest (plen - 4) mlen (omega arith) (omega arith) in
      let filled : plen + (glen - 2) ≡ mlen + 4 = omega arith in
      ap (fill_multiframe g at glen) (begin_lem f pos plen s lo (omega arith))
      ∙ fill_lem g at glen begun gl (omega arith)
          (omega (arith, length-blank first mlen (omega arith)))
      ∙ rw (buffer, filled) refl

read_bytes-head :
    (f : List ℕ) (start n : ℕ) (ys : List ℕ)
    → 0 < n
    → byte_at (read_bytes f start n ++ ys) 0 ≡ byte_at f start
unfolding read_bytes
read_bytes-head f start zero ys h = absurd (omega arith)
read_bytes-head f start (suc n) ys h = refl

-- A complete EGC message in the buffer.
finish_egc :
    {D : Type 0} (links : Links D) (s : Decoder D)
    → s.mfa_filled ≡ s.mfa_expected + 4
    → (byte_at s.mfa_data 0 ≡ 0xb1) ⊎ (byte_at s.mfa_data 0 ≡ 0xb2)
    → crc_ok s.mfa_data 0 (packet_length s.mfa_data 0 s.mfa_expected) ≡ true
    → finish_multiframe links s
      ≡ next (
          end_multiframe
            (emit_egc links s.mfa_data 0 (packet_length s.mfa_data 0 s.mfa_expected) s))
unfolding finish_multiframe
finish_egc links s full type_is ok =
    let complete : (s.mfa_filled == s.mfa_expected + 4) ≡ true = ground (arith, full) in
    let egc : ((byte_at s.mfa_data 0 == 0xb1) || (byte_at s.mfa_data 0 == 0xb2)) ≡ true =
      ground (arith, type_is) in
    rw (complete, egc, ok) refl

module _ (F : Double) (links : Links F.Real) where
  -- An EGC message that comes in two packets of a frame is decoded as if it had come in one. The
  -- first packet (type 0xBD, with at least the first byte of the message) and the second one (type
  -- 0xBE) have good checksums; the bytes of the first between its head and its checksum, and those
  -- of the second after its head with its checksum, make up the length that the message states.
  -- If the message is an EGC packet (type 0xB1 or 0xB2) with a good checksum, then the second packet
  -- gives the state in which `emitEgc` has put out the message joined from both.
  pub multiframe-egc :
      (f : List ℕ) (pos plen : ℕ) (g : List ℕ) (at glen : ℕ) (s : Decoder F.Real)
      → 4 < plen
      → 2 < glen
      → plen - 4 + (glen - 2) ≡ message_length f pos
      → byte_at f pos ≡ 0xbd
      → crc_ok f pos plen ≡ true
      → byte_at g at ≡ 0xbe
      → crc_ok g at glen ≡ true
      → (byte_at f (pos + 2) ≡ 0xb1) ⊎ (byte_at f (pos + 2) ≡ 0xb2)
      → let m = joined f pos plen g at glen in
        let mlen = message_length f pos in
        let full : Decoder F.Real = record s {
          mfa_data = m;
          mfa_expected = mlen;
          mfa_filled = mlen + 4;
          mfa_active = true;
        } in
        crc_ok m 0 (packet_length m 0 mlen) ≡ true
        → (packet F links f pos plen s ≡ next (begin_multiframe f pos plen s))
          × (packet F links g at glen (begin_multiframe f pos plen s)
              ≡ next (end_multiframe (emit_egc links m 0 (packet_length m 0 mlen) full)))
  multiframe-egc f pos plen g at glen s lo gl e bd okf be okg type_is ok =
      let m = joined f pos plen g at glen in
      let mlen = message_length f pos in
      let full : Decoder F.Real = record s {
        mfa_data = m;
        mfa_expected = mlen;
        mfa_filled = mlen + 4;
        mfa_active = true;
      } in
      let begun = begin_multiframe f pos plen s in
      let head =
        read_bytes-head f (pos + 2) (plen - 4) (read_bytes g (at + 2) (glen - 2)) (omega arith) in
      (
        packet_bd F links f pos plen s bd okf,
        packet_be F links g at glen begun be okg
            ∙ if_true begun.mfa_active (next begun)
                (ap (λ (d : Decoder F.Real). d.mfa_active)
                  (begin_lem f pos plen s lo (omega arith)))
                (ap (finish_multiframe links) (fill-begin f g pos plen at glen s lo gl e)
                  ∙ finish_egc links full refl (rw head type_is) ok),
      )
