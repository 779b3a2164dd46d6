-- ===== src/Egc/Scramble/Inverse.antt =====
-- `descramble` undoes the scrambler of the sender.
use inmar_scope.Egc.Scramble.Sender.{
  AllBytes, scramble, scrambled, sent_bits, add_key, key-scramble_bits, map-sent_bits,
  add_key-invert_groups,
}
use inmar_scope.Prelude.{
  ℕ, zero, suc, ◌+◌, ◌*◌, ◌<◌, ◌≡◌, refl, sym, ap, ◌∙◌, List, [], ◌∷◌, ◌++◌, map, true, ltb, ◌&&◌,
  ◌==◌, if◌then◌else◌, length, take, drop, arith, Bool-cases, inl, inr, length-map,
  take-append-drop, length-take, length-drop, length-append, drop_all, drop-cons, holds_from,
  holds_from_sound,
}
use mathlib.Core.Path.{ap₂}
use inmar_scope.Egc.Fields.{read_bytes}
use inmar_scope.Egc.Packet.{byte_at}
use inmar_scope.Egc.Scramble.{inv_from, inv, scramble_bits, invert, invert_groups, descramble}

inv_table : holds_from (λ b. (inv (inv b) == b) && ltb (inv b) 256) 0 256 ≡ true
unfolding holds_from inv inv_from
inv_table = refl

inv-inv : (b : ℕ) → b < 256 → inv (inv b) ≡ b
inv-inv b h = ground (arith, holds_from_sound _ 0 256 inv_table b (omega arith) (omega arith))

map-inv-inv : (bs : List ℕ) → AllBytes bs → map inv (map inv bs) ≡ bs
unfolding AllBytes
map-inv-inv [] a = refl
map-inv-inv (b ∷ bs) a = ap₂ (λ x xs. x ∷ xs) (inv-inv b a.0) (map-inv-inv bs a.1)

invert-AllBytes : (bs : List ℕ) → AllBytes (map invert bs)
unfolding AllBytes invert
invert-AllBytes [] = omega arith
invert-AllBytes (b ∷ bs) = (omega arith, invert-AllBytes bs)

append-AllBytes : (xs ys : List ℕ) → AllBytes xs → AllBytes ys → AllBytes (xs ++ ys)
unfolding AllBytes
append-AllBytes [] ys a b = b
append-AllBytes (x ∷ xs) ys a b = (a.0, append-AllBytes xs ys a.1 b)

take-AllBytes : (n : ℕ) (xs : List ℕ) → AllBytes xs → AllBytes (take n xs)
unfolding AllBytes
take-AllBytes zero xs a = omega arith
take-AllBytes (suc n) [] a = omega arith
take-AllBytes (suc n) (x ∷ xs) a = (a.0, take-AllBytes n xs a.1)

drop-AllBytes : (n : ℕ) (xs : List ℕ) → AllBytes xs → AllBytes (drop n xs)
unfolding AllBytes
drop-AllBytes zero xs a = a
drop-AllBytes (suc n) [] a = omega arith
drop-AllBytes (suc n) (x ∷ xs) a = drop-AllBytes n xs a.1

-- What is done to one group.
abbrev group : ℕ → List ℕ → List ℕ
group d xs = if d == 1 then map invert xs else xs

group-AllBytes : (d : ℕ) (xs : List ℕ) → AllBytes xs → AllBytes (group d xs)
group-AllBytes d xs a = elim (Bool-cases (d == 1)) [
  | inl one ↦ rw one (invert-AllBytes xs)
  | inr other ↦ rw other a
]

map-invert-invert : (xs : List ℕ) → AllBytes xs → map invert (map invert xs) ≡ xs
unfolding AllBytes invert
map-invert-invert [] a = refl
map-invert-invert (x ∷ xs) a = ap₂ (λ y ys. y ∷ ys) (omega (arith, a.0)) (map-invert-invert xs a.1)

group-group : (d : ℕ) (xs : List ℕ) → AllBytes xs → group d (group d xs) ≡ xs
group-group d xs a = elim (Bool-cases (d == 1)) [
  | inl one ↦ rw one (map-invert-invert xs a)
  | inr other ↦ rw other refl
]

length-group : (d : ℕ) (xs : List ℕ) → length (group d xs) ≡ length xs
length-group d xs = elim (Bool-cases (d == 1)) [
  | inl one ↦ rw one (length-map {0, 0} xs invert)
  | inr other ↦ rw other refl
]

invert_groups-AllBytes : (ds bs : List ℕ) → AllBytes bs → AllBytes (invert_groups ds bs)
unfolding invert_groups
invert_groups-AllBytes [] bs a = a
invert_groups-AllBytes (d ∷ ds) bs a =
    append-AllBytes (group d (take 4 bs)) (invert_groups ds (drop 4 bs))
      (group-AllBytes d (take 4 bs) (take-AllBytes 4 bs a))
      (invert_groups-AllBytes ds (drop 4 bs) (drop-AllBytes 4 bs a))

-- A group of four bytes in front.
split_at : (xs ys : List ℕ) → length xs ≡ 4 → (take 4 (xs ++ ys) ≡ xs) × (drop 4 (xs ++ ys) ≡ ys)
split_at (a ∷ b ∷ c ∷ d ∷ []) ys h = (refl, refl)
split_at [] ys h = absurd (omega arith)
split_at (a ∷ []) ys h = absurd (omega arith)
split_at (a ∷ b ∷ []) ys h = absurd (omega arith)
split_at (a ∷ b ∷ c ∷ []) ys h = absurd (omega arith)
split_at (a ∷ b ∷ c ∷ d ∷ e ∷ xs) ys h = absurd (omega arith)

invert_groups-cons :
    (d : ℕ) (ds bs : List ℕ)
    → invert_groups (d ∷ ds) bs ≡ group d (take 4 bs) ++ invert_groups ds (drop 4 bs)
unfolding invert_groups
invert_groups-cons d ds bs = refl

invert_groups_twice :
    (ds bs : List ℕ)
    → AllBytes bs
    → length bs ≡ length ds * 4
    → invert_groups ds (invert_groups ds bs) ≡ bs
invert_groups_twice [] bs a h = unfold invert_groups in refl
invert_groups_twice (d ∷ ds) bs a h =
    let xs = group d (take 4 bs) in
    let rest = invert_groups ds (drop 4 bs) in
    let four : length xs ≡ 4 = omega (arith, length-group d (take 4 bs), length-take {0} 4 bs) in
    let parts = split_at xs rest four in
    let ih : invert_groups ds rest ≡ drop 4 bs =
      invert_groups_twice ds (drop 4 bs) (drop-AllBytes 4 bs a)
        (omega (arith, length-drop {0} 4 bs)) in
    ap (invert_groups (d ∷ ds)) (invert_groups-cons d ds bs)
    ∙ invert_groups-cons d ds (xs ++ rest)
    ∙ ap₂ (λ l r. group d l ++ invert_groups ds r) parts.0 parts.1
    ∙ ap₂ (λ l r. l ++ r) (group-group d (take 4 bs) (take-AllBytes 4 bs a)) ih
    ∙ take-append-drop 4 bs

length-invert_groups : (ds bs : List ℕ) → length (invert_groups ds bs) ≡ length bs
unfolding invert_groups
length-invert_groups [] bs = refl
length-invert_groups (d ∷ ds) bs = omega (
  arith,
  length-append {0} (group d (take 4 bs)) (invert_groups ds (drop 4 bs)),
  length-group d (take 4 bs),
  length-take {0} 4 bs,
  length-drop {0} 4 bs,
  length-invert_groups ds (drop 4 bs),
)

length-scramble_bits : (n reg : ℕ) → length (scramble_bits n reg) ≡ n
unfolding scramble_bits
length-scramble_bits zero reg = refl
length-scramble_bits (suc n) reg = ap suc (length-scramble_bits n _)

read_bytes_end :
    (f : List ℕ) (start n : ℕ) → start + n ≡ length f → read_bytes f start n ≡ drop start f
unfolding read_bytes
read_bytes_end f start zero h = sym (drop_all start f (omega arith))
read_bytes_end f start (suc n) h =
    let e : start + 1 ≡ suc start = omega arith in
    rw (drop-cons start f 0 (omega arith), ← e)
      (ap (λ l. byte_at f start ∷ l) (read_bytes_end f (start + 1) n (omega arith)))

descramble-scrambled :
    (bytes : List ℕ) → AllBytes bytes → length bytes ≡ 640 → descramble (scrambled bytes) ≡ bytes
unfolding descramble
descramble-scrambled bytes a h =
    let keys = scramble_bits 160 0x80 in
    let mixed = invert_groups keys bytes in
    let sent = map inv mixed in
    let whole : read_bytes sent 0 640 ≡ sent =
      read_bytes_end sent 0 640
        (omega (arith, length-map {0, 0} mixed inv, length-invert_groups keys bytes)) in
    ap (λ l. invert_groups keys (map inv l)) whole
    ∙ ap (invert_groups keys) (map-inv-inv mixed (invert_groups-AllBytes keys bytes a))
    ∙ invert_groups_twice keys bytes a (omega (arith, h, length-scramble_bits 160 0x80))

scramble-scrambled :
    (bytes : List ℕ) → AllBytes bytes → length bytes ≡ 640 → scramble bytes ≡ scrambled bytes
unfolding scramble
scramble-scrambled bytes a h =
    let keys = scramble_bits 160 0x80 in
    ap (λ (ks : List ℕ). map sent_bits (add_key ks bytes)) key-scramble_bits
    ∙ ap (map sent_bits)
        (add_key-invert_groups keys bytes a (omega (arith, h, length-scramble_bits 160 0x80)))
    ∙ map-sent_bits (invert_groups keys bytes) (invert_groups-AllBytes keys bytes a)

-- A frame of 640 bytes that a sender has scrambled is what `descramble` gives back. The sender adds
-- to each group of four bytes a bit of the key, and sends of each byte the low bit first, into
-- the high place. The key begins with seven zeros and a one, and each further bit is the sum
-- modulo 2 of those 8, 6, 5 and 4 places before it.
pub descramble-scramble :
    (bytes : List ℕ) → AllBytes bytes → length bytes ≡ 640 → descramble (scramble bytes) ≡ bytes
descramble-scramble bytes a h =
    ap descramble (scramble-scrambled bytes a h) ∙ descramble-scrambled bytes a h
