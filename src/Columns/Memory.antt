-- ===== src/Columns/Memory.antt =====
-- How a machine word lies in memory: little-endian, as on the x86 hosts that the server runs on.
use native.Mathlib.Nat.{pow-suc}
use volo_db.Prelude.{
  ℕ, zero, suc, ◌+◌, ◌*◌, ◌/◌, ◌%◌, ◌^◌, ◌<◌, ◌≡◌, refl, ap, List, [], ◌∷◌, ◌++◌, arith, length,
  take, take-append, length-append, leb, le→leb, if◌then◌else◌,
}
use volo_db.Prelude.Outcome.{Outcome, ok, undefined}

-- The object representation of an n-byte word.
unfoldable pub word_bytes : ℕ → ℕ → List ℕ
word_bytes zero w = []
word_bytes (suc n) w = (w % 256) ∷ word_bytes n (w / 256)

unfoldable pub word_of : List ℕ → ℕ
word_of [] = 0
word_of (b ∷ bs) = b + 256 * word_of bs

-- n bytes read from the start of a block of memory.
unfoldable pub read_bytes : ℕ → List ℕ → Outcome (List ℕ)
read_bytes n memory = if leb n (length memory) then ok (take n memory) else undefined

pub length-word_bytes : (n w : ℕ) → length (word_bytes n w) ≡ n
unfolding word_bytes
length-word_bytes zero w = refl
length-word_bytes (suc n) w = ap suc (length-word_bytes n (w / 256))

pub word_of-word_bytes : (n w : ℕ) → w < 256 ^ n → word_of (word_bytes n w) ≡ w
unfolding word_of word_bytes
word_of-word_bytes zero w h = omega arith
word_of-word_bytes (suc n) w h =
    let p = pow-suc 256 n in omega (arith, word_of-word_bytes n (w / 256) (omega arith))

-- A block reads back from memory that starts with it.
pub read_bytes-append :
    (bytes rest : List ℕ) (n : ℕ) → length bytes ≡ n → read_bytes n (bytes ++ rest) ≡ ok bytes
unfolding read_bytes
read_bytes-append bytes rest n e = rw (← e) (
    rw (
      le→leb (length bytes) (length (bytes ++ rest)) (omega (arith, length-append bytes rest)),
      take-append bytes rest,
    ))
