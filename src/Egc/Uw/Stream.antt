-- ===== src/Egc/Uw/Stream.antt =====
-- A stream of symbols through the synchroniser: where frames are put out, and that a frame sent is
-- found.
use inmar_scope.Prelude.{
  ℕ, zero, suc, ◌+◌, ◌-◌, ◌*◌, ◌≤◌, ◌<◌, ◌≡◌, refl, ap, sym, ◌∙◌, List, [], ◌∷◌, ◌++◌, false, some,
  none, Option, arith, take, length,
}
use mathlib.Core.List.{reverse, reverse_aux}
use inmar_scope.Egc.Uw.{
  UwFrame, UwFinder, uw_frame_len, tolerance, nrm_pol, rev_pol, errors, detect, found_frame,
  shift_in, push,
}
use inmar_scope.Egc.Uw.Polarity.{errors-nrm-rev, errors-take}
use inmar_scope.Egc.Uw.Spacing.{IsValid, push-IsValid, reg-push, shift_in-IsBits}

abbrev cons_some {ℓ} : {A : Type ℓ} → Option A → List A → List A
cons_some none xs = xs
cons_some (some x) xs = x ∷ xs

-- The symbols of a stream in order, with the frames that they complete.
pub feed : UwFinder → List ℕ → UwFinder × List UwFrame
feed u [] = (u, [])
feed u (s ∷ ss) = let (u', f) = push u s in let (u'', fs) = feed u' ss in (u'', cons_some f fs)

push_quiet :
    (u : UwFinder) (s : ℕ)
    → u.symbol_count + 1 < uw_frame_len
    → ((push u s).1 ≡ none) × ((push u s).0.symbol_count ≡ u.symbol_count + 1)
unfolding push
push_quiet u s h = ground arith

-- The counter starts again with a frame.
count-push :
    (u : UwFinder) (s : ℕ) {f : UwFrame} → (push u s).1 ≡ some f → (push u s).0.symbol_count ≡ 0
unfolding push
count-push u s e = ground arith

pub feed_quiet :
    (w : List ℕ) (u : UwFinder) → u.symbol_count + length w < uw_frame_len → (feed u w).1 ≡ []
unfolding feed
feed_quiet [] u h = refl
feed_quiet (s ∷ w) u h =
    let q = push_quiet u s (omega arith) in rw q.0 (feed_quiet w (push u s).0 (omega (arith, q.1)))

-- Frames do not overlap: after a frame the next 10367 symbols, or fewer, complete none.
pub feed_after_frame :
    (u : UwFinder) (s : ℕ) (w : List ℕ) {f : UwFrame}
    → (push u s).1 ≡ some f
    → length w < uw_frame_len
    → (feed (push u s).0 w).1 ≡ []
feed_after_frame u s w e h = feed_quiet w (push u s).0 (omega (arith, count-push u s e))

-- Without a frame the counter counts the symbols.
count_step :
    (u : UwFinder) (s : ℕ) → (push u s).1 ≡ none → (push u s).0.symbol_count ≡ u.symbol_count + 1
unfolding push
count_step u s e = ground arith

cons_some-nil {ℓ} :
    {A : Type ℓ} (o : Option A) (xs : List A) → cons_some o xs ≡ [] → (o ≡ none) × (xs ≡ [])
cons_some-nil none xs e = (refl, e)
cons_some-nil (some x) xs e = cc

count-feed :
    (w : List ℕ) (u : UwFinder)
    → (feed u w).1 ≡ []
    → (feed u w).0.symbol_count ≡ u.symbol_count + length w
unfolding feed
count-feed [] u e = omega arith
count-feed (s ∷ w) u e =
    let q = cons_some-nil (push u s).1 (feed (push u s).0 w).1 e in
    omega (arith, count_step u s q.0, count-feed w (push u s).0 q.1)

-- Symbols from a stream of bits.
abbrev pub AllBits : List ℕ → Type 0
AllBits [] = Unit {0}
AllBits (s ∷ ss) = (s < 2) × AllBits ss

pub feed-IsValid : (w : List ℕ) (u : UwFinder) → AllBits w → IsValid u → IsValid (feed u w).0
unfolding feed
feed-IsValid [] u b v = v
feed-IsValid (s ∷ w) u b v = feed-IsValid w (push u s).0 b.1 (push-IsValid u s b.0 v)

take-take {ℓ} : {A : Type ℓ} (n m : ℕ) (xs : List A) → n ≤ m → take n (take m xs) ≡ take n xs
take-take zero m xs h = refl
take-take (suc n) zero xs h = absurd (omega arith)
take-take (suc n) (suc m) [] h = refl
take-take (suc n) (suc m) (x ∷ xs) h = ap (λ l. x ∷ l) (take-take n m xs (omega arith))

take-reverse_aux {ℓ} :
    {A : Type ℓ} (n m : ℕ) (w ys : List A)
    → n ≤ m
    → take n (reverse_aux w (take m ys)) ≡ take n (reverse_aux w ys)
take-reverse_aux n m [] ys h = take-take n m ys h
take-reverse_aux n m (s ∷ w) ys h = take-reverse_aux n (suc m) w (s ∷ ys) (omega arith)

take_prefix {ℓ} : {A : Type ℓ} (xs r : List A) → take (length xs) (xs ++ r) ≡ xs
take_prefix [] r = refl
take_prefix (x ∷ xs) r = ap (λ l. x ∷ l) (take_prefix xs r)

take_reversed {ℓ} :
    {A : Type ℓ} (n : ℕ) (w acc r : List A)
    → n ≡ length w + length acc
    → take n (reverse_aux w (acc ++ r)) ≡ reverse_aux w acc
take_reversed n [] acc r e = let e' : n ≡ length acc = omega arith in rw e' (take_prefix acc r)
take_reversed n (s ∷ w) acc r e = take_reversed n w (s ∷ acc) r (omega arith)

shifted :
    (n : ℕ) (w : List ℕ) (s : ℕ) (reg : List ℕ)
    → n ≤ uw_frame_len
    → take n (reverse_aux w (shift_in s reg)) ≡ take n (reverse_aux w (s ∷ reg))
unfolding shift_in
shifted n w s reg h = take-reverse_aux n (suc (uw_frame_len * 2 - 1)) w (s ∷ reg) (omega arith)

-- The register holds the symbols of the stream, the newest first.
reg-feed :
    (n : ℕ) (w : List ℕ) (u : UwFinder)
    → n ≤ uw_frame_len
    → take n (feed u w).0.reg ≡ take n (reverse_aux w u.reg)
unfolding feed
reg-feed n [] u h = refl
reg-feed n (s ∷ w) u h =
    reg-feed n w (push u s).0 h
    ∙ ap (λ r. take n (reverse_aux w r)) (reg-push u s)
    ∙ shifted n w s u.reg h

reverse_aux-snoc {ℓ} :
    {A : Type ℓ} (w : List A) (s : A) (r : List A)
    → reverse_aux (w ++ s ∷ []) r ≡ s ∷ reverse_aux w r
reverse_aux-snoc [] s r = refl
reverse_aux-snoc (x ∷ w) s r = reverse_aux-snoc w s (x ∷ r)

push_of_few :
    (u : UwFinder) (s : ℕ)
    → uw_frame_len ≤ u.symbol_count + 1
    → errors nrm_pol (shift_in s u.reg) ≤ tolerance
    → errors nrm_pol (shift_in s u.reg) + errors rev_pol (shift_in s u.reg) ≡ 128
    → (push u s).1
      ≡ some (record {
        frame = take uw_frame_len (shift_in s u.reg);
        reversed_polarity = false;
        ber = errors nrm_pol (shift_in s u.reg);
      })
unfolding push detect found_frame
push_of_few u s h few e = ground arith

frame_in_reg :
    (u : UwFinder) (w : List ℕ) (s : ℕ)
    → length w + 1 ≡ uw_frame_len
    → take uw_frame_len (shift_in s (feed u w).0.reg) ≡ reverse (w ++ s ∷ [])
frame_in_reg u w s len =
    shifted uw_frame_len [] s (feed u w).0.reg (omega arith)
    ∙ ap (λ l. s ∷ l)
        (reg-feed (uw_frame_len - 1) w u (omega arith)
          ∙ take_reversed (uw_frame_len - 1) w [] u.reg (omega arith))
    ∙ sym (reverse_aux-snoc w s [])

-- A frame that is sent is found: when 10368 symbols, the last of them `s`, follow one another with
-- no frame put out on the way, and at most 25 of the symbols of the unique word in them are wrong,
-- the last one completes exactly these symbols as a frame, in the order newest first, marked as
-- of normal polarity and with the number of wrong symbols.
pub push_finds :
    (u : UwFinder) (w : List ℕ) (s : ℕ)
    → IsValid u
    → AllBits w
    → s < 2
    → length w + 1 ≡ uw_frame_len
    → (feed u w).1 ≡ []
    → errors nrm_pol (reverse (w ++ s ∷ [])) ≤ tolerance
    → (push (feed u w).0 s).1
      ≡ some (record {
        frame = reverse (w ++ s ∷ []);
        reversed_polarity = false;
        ber = errors nrm_pol (reverse (w ++ s ∷ []));
      })
push_finds u w s v b hs len quiet few =
    let u' : UwFinder = (feed u w).0 in
    let same : take uw_frame_len (shift_in s u'.reg) ≡ reverse (w ++ s ∷ []) =
      frame_in_reg u w s len in
    let count : errors nrm_pol (shift_in s u'.reg) ≡ errors nrm_pol (reverse (w ++ s ∷ [])) =
      sym (errors-take nrm_pol (shift_in s u'.reg)) ∙ ap (errors nrm_pol) same in
    let v' = feed-IsValid w u b v in
    push_of_few u' s (omega (arith, count-feed w u quiet)) (omega (arith, count))
      (errors-nrm-rev (shift_in s u'.reg) (shift_in-IsBits s u'.reg hs v'.bits))
    ∙ ap some (λ i. record { frame = same i; reversed_polarity = false; ber = count i })
