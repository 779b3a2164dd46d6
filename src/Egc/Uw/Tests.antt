-- ===== src/Egc/Uw/Tests.antt =====
-- The synchroniser on a stream that carries one frame.
use inmar_scope.Prelude.{
  ℕ, zero, suc, ◌+◌, ◌<◌, ◌≤◌, ◌≡◌, refl, List, [], ◌∷◌, ◌++◌, some, false, arith, length, get_or,
  replicate, take, length-replicate,
}
use mathlib.Core.List.{reverse}
use inmar_scope.Egc.Uw.{UwFinder, uw_frame_len, tolerance, nrm_pol, errors, push}
use inmar_scope.Egc.Uw.Spacing.{IsValid, push-frame}
use inmar_scope.Egc.Uw.Stream.{
  feed, AllBits, feed_quiet, feed-IsValid, feed_after_frame, push_finds,
}

-- The synchroniser just after a frame.
abbrev idle : UwFinder
idle = record { reg = replicate 20736 0; symbol_count = 0 }

replicate-bits : (n i : ℕ) → get_or (replicate n 0) i 0 < 2
replicate-bits zero i = omega arith
replicate-bits (suc n) zero = omega arith
replicate-bits (suc n) (suc i) = replicate-bits n i

idle-IsValid : IsValid idle
idle-IsValid = record { reg_len = length-replicate {A = ℕ} 20736 0; bits = replicate-bits 20736 }

-- The rows of a frame: a bit of the unique word, twice, then 160 symbols.
rows : List ℕ → List ℕ
rows [] = []
rows (p ∷ ps) = p ∷ p ∷ replicate 160 0 ++ rows ps

stream : List ℕ
unfolding rows
stream = rows (take 63 nrm_pol) ++ 0 ∷ 0 ∷ replicate 159 0

length-stream : length stream + 1 ≡ 10368
unfolding stream
length-stream = refl

errors-stream : errors nrm_pol (reverse (stream ++ 0 ∷ [])) ≡ 0
unfolding stream errors
errors-stream = refl

replicate-AllBits : (n : ℕ) (xs : List ℕ) → AllBits xs → AllBits (replicate n 0 ++ xs)
replicate-AllBits zero xs b = b
replicate-AllBits (suc n) xs b = (omega arith, replicate-AllBits n xs b)

rows-AllBits : (ps xs : List ℕ) → AllBits ps → AllBits xs → AllBits (rows ps ++ xs)
unfolding rows
rows-AllBits [] xs b c = c
rows-AllBits (p ∷ ps) xs b c =
    (b.0, (b.0, replicate-AllBits 160 (rows ps ++ xs) (rows-AllBits ps xs b.1 c)))

stream-AllBits : AllBits stream
unfolding stream
stream-AllBits =
    rows-AllBits (take 63 nrm_pol) (0 ∷ 0 ∷ replicate 159 0) (omega arith) (omega arith)

stream_quiet : (feed idle stream).1 ≡ []
stream_quiet = feed_quiet stream idle (omega (arith, length-stream))

push_finds_example :
    (push (feed idle stream).0 0).1
    ≡ some (record {
      frame = reverse (stream ++ 0 ∷ []);
      reversed_polarity = false;
      ber = errors nrm_pol (reverse (stream ++ 0 ∷ []));
    })
push_finds_example =
    push_finds idle stream 0 idle-IsValid stream-AllBits (omega arith) length-stream stream_quiet
      (omega (arith, errors-stream))

push-frame_example :
    (length (reverse (stream ++ 0 ∷ [])) ≡ uw_frame_len)
    × (errors nrm_pol (reverse (stream ++ 0 ∷ [])) ≡ errors nrm_pol (reverse (stream ++ 0 ∷ [])))
    × (errors nrm_pol (reverse (stream ++ 0 ∷ [])) ≤ tolerance)
push-frame_example =
    push-frame (feed idle stream).0 0 (omega arith)
      (feed-IsValid stream idle stream-AllBits idle-IsValid) push_finds_example

feed_after_frame_example : (feed (push (feed idle stream).0 0).0 stream).1 ≡ []
feed_after_frame_example =
    feed_after_frame (feed idle stream).0 0 stream push_finds_example (omega (arith, length-stream))
