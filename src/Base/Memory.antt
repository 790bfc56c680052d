-- ===== src/Base/Memory.antt =====
-- Byte strings: C's arrays of bytes, the copies and comparisons of string.h, and 16-bit words.
-- A host word is little-endian, as on the machines the program is deployed to.
use Prim.Native.Nat.{ℕ, ◌+◌, ◌*◌, ◌/◌, ◌%◌, ◌≤◌, ◌<◌}
use mathlib.Core.Path.{◌≡◌, refl, sym, ap, ◌∙◌}
use mathlib.Core.Logic.{◌↔◌}
use mathlib.Core.Bool.{Bool, true, false, ◌&&◌}
use mathlib.Core.List.{List, [], ◌∷◌, ◌++◌, append_assoc}
use mathlib.Core.Option.{Option, none, some}
use native.Mathlib.Omega.{arith}
use tour.Base.Tests.{leb, ◌==◌, if◌then◌else◌, le→leb, lt→leb, leb→le}
use tour.Base.Lists.{
  length, take, drop, take-length, length-append, length-take, length-drop, take-append_left,
  drop-append_left, drop-append_add, drop-drop,
}

abbrev pub Bytes : Type 0
Bytes = List ℕ

abbrev pub IsByte : ℕ → Type 0
IsByte b = b < 256

-- Equality of two byte strings, as a test.
unfoldable pub bytes_eq : Bytes → Bytes → Bool
bytes_eq [] [] = true
bytes_eq [] (y ∷ ys) = false
bytes_eq (x ∷ xs) [] = false
bytes_eq (x ∷ xs) (y ∷ ys) = (x == y) && bytes_eq xs ys

pub bytes_eq_iff : (xs ys : Bytes) → (bytes_eq xs ys ≡ true) ↔ (xs ≡ ys)
unfolding bytes_eq
bytes_eq_iff [] [] = ground arith
bytes_eq_iff [] (y ∷ ys) = ground arith
bytes_eq_iff (x ∷ xs) [] = ground arith
bytes_eq_iff (x ∷ xs) (y ∷ ys) = ground (arith, bytes_eq_iff xs ys)

pub bytes_eq_refl : (xs : Bytes) → bytes_eq xs xs ≡ true
bytes_eq_refl xs = (bytes_eq_iff xs xs).1 refl

-- `n` bytes from offset `off`; nothing if they are not all inside the array.
unfoldable pub read_at : Bytes → ℕ → ℕ → Option Bytes
read_at xs off n = if leb (off + n) (length xs) then some (take n (drop off xs)) else none

-- `new` written from offset `off`; nothing if it does not fit.
unfoldable pub write_at : Bytes → ℕ → Bytes → Option Bytes
write_at xs off new =
    if leb (off + length new) (length xs)
    then some (take off xs ++ (new ++ drop (off + length new) xs))
    else none

-- `!memcmp(a, b, n)`; nothing if `n` reaches outside one of the arrays.
unfoldable pub memcmp_eq : Bytes → Bytes → ℕ → Option Bool
memcmp_eq a b n =
    if leb n (length a) && leb n (length b) then some (bytes_eq (take n a) (take n b)) else none

-- Both arrays hold at least `n` bytes.
pub memcmp_eq-take :
    (a b : Bytes) (n : ℕ)
    → n ≤ length a
    → n ≤ length b
    → memcmp_eq a b n ≡ some (bytes_eq (take n a) (take n b))
unfolding memcmp_eq
memcmp_eq-take a b n ha hb = rw (le→leb n (length a) ha, le→leb n (length b) hb)

take_all : (xs : Bytes) (n : ℕ) → length xs ≡ n → take n xs ≡ xs
take_all xs n e = ap (λ k. take k xs) e' ∙ take-length xs
  where
    e' : n ≡ length xs
    e' = omega arith

pub memcmp_eq-whole :
    (a b : Bytes) (n : ℕ) → length a ≡ n → length b ≡ n → memcmp_eq a b n ≡ some (bytes_eq a b)
memcmp_eq-whole a b n ha hb =
    memcmp_eq-take a b n (omega arith) (omega arith) ∙ rw (take_all a n ha, take_all b n hb) refl

-- A write right behind what has been written so far.
pub write_at-append :
    (pre rest new : Bytes) (off : ℕ)
    → length pre ≡ off
    → length new ≤ length rest
    → write_at (pre ++ rest) off new ≡ some ((pre ++ new) ++ drop (length new) rest)
unfolding write_at
write_at-append pre rest new off h fits =
    rw
      (
        le→leb (off + length new) (length (pre ++ rest)) (omega (arith, length-append pre rest)),
        take-append_left off pre rest h,
        drop-append_add off (length new) pre rest h,
        append_assoc,
      )
      refl

-- The buffer when a prefix of it has been written.
abbrev pub written : Bytes → Bytes → Bytes
written start pre = pre ++ drop (length pre) start

-- One write behind what has been written.
pub write_next :
    (start pre new : Bytes) (off : ℕ)
    → length pre ≡ off
    → off + length new ≤ length start
    → write_at (written start pre) off new ≡ some (written start (pre ++ new))
write_next start pre new off e fits =
    write_at-append pre (drop (length pre) start) new off e
      (omega (arith, length-drop (length pre) start))
    ∙ ap (λ r. some ((pre ++ new) ++ r))
        (drop-drop (length new) (length pre) start
          ∙ ap (λ k. drop k start) (sym (length-append pre new)))

-- A read from the front.
pub read_front : (src : Bytes) (n : ℕ) → n ≤ length src → read_at src 0 n ≡ some (take n src)
unfolding read_at
read_front src n h = rw (le→leb (0 + n) (length src) (omega arith))

-- A read that does not fit, and one that does.
pub read_beyond : (xs : Bytes) (off n : ℕ) → length xs < off + n → read_at xs off n ≡ none
unfolding read_at
read_beyond xs off n h = rw (lt→leb (off + n) (length xs) h)

pub read_within :
    (xs : Bytes) (off n : ℕ) → off + n ≤ length xs → read_at xs off n ≡ some (take n (drop off xs))
unfolding read_at
read_within xs off n h = rw (le→leb (off + n) (length xs) h)

pub write_beyond :
    (xs : Bytes) (off : ℕ) (new : Bytes) → length xs < off + length new → write_at xs off new ≡ none
unfolding write_at
write_beyond xs off new h = rw (lt→leb (off + length new) (length xs) h)

-- A read of a part that stands at a known offset.
pub read_at-append :
    (pre mid post : Bytes) (off n : ℕ)
    → length pre ≡ off
    → length mid ≡ n
    → read_at (pre ++ (mid ++ post)) off n ≡ some mid
unfolding read_at
read_at-append pre mid post off n h k =
    rw
      (
        le→leb (off + n) (length (pre ++ (mid ++ post)))
            (omega (arith, length-append pre (mid ++ post), length-append mid post)),
        drop-append_left off pre (mid ++ post) h,
        take-append_left n mid post k,
      )
      refl

pub length-read_at :
    (xs : Bytes) (off n : ℕ) (out : Bytes) → read_at xs off n ≡ some out → length out ≡ n
unfolding read_at
length-read_at xs off n out h =
    ground (arith, length-take n (drop off xs), length-drop off xs, leb→le (off + n) (length xs))

-- The two bytes of a host word in memory, and the word that two bytes hold.
abbrev pub word_bytes : ℕ → Bytes
word_bytes w = (w % 256) ∷ (w / 256 % 256) ∷ []

abbrev pub word_of : ℕ → ℕ → ℕ
word_of lo hi = lo + 256 * hi

-- htons and ntohs: the bytes change places.
abbrev pub htons : ℕ → ℕ
htons w = w % 256 * 256 + w / 256 % 256

-- A number in network order, most significant byte first.
abbrev pub network_bytes : ℕ → Bytes
network_bytes w = (w / 256 % 256) ∷ (w % 256) ∷ []

pub htons-htons : (w : ℕ) → w < 65536 → htons (htons w) ≡ w
htons-htons w h = omega arith

-- Storing what htons returns puts the number into network order.
pub word_bytes-htons : (w : ℕ) → word_bytes (htons w) ≡ network_bytes w
word_bytes-htons w = ground arith

-- Loading a number in network order and applying ntohs gives it back.
pub htons-word_of : (w : ℕ) → w < 65536 → htons (word_of (w / 256 % 256) (w % 256)) ≡ w
htons-word_of w h = omega arith
