-- ===== src/Cache/Bits.antt =====
-- The sets of nodes of a directory entry, as the bits of a number (Dogee/DogeeDirectoryCache.cpp:
-- `old | (1 << id)`, `old & ~(1 << id)`, and the loop that shifts `old` to the right).
use dogee.Prelude.{
  ℕ, zero, suc, ◌+◌, ◌*◌, ◌/◌, ◌%◌, ◌≡◌, refl, ◌≢◌, ◌<◌, Bool, true, false, ltb, if◌then◌else◌,
  Bool-cases, inl, inr, ◌==◌, arith,
}

unfoldable pub test_bit : ℕ → ℕ → Bool
test_bit n zero = n % 2 == 1
test_bit n (suc i) = test_bit (n / 2) i

-- `n | (1 << i)` and `n & ~(1 << i)` where the shift is defined
unfoldable pub bit_on : ℕ → ℕ → ℕ
bit_on n zero = n / 2 * 2 + 1
bit_on n (suc i) = bit_on (n / 2) i * 2 + n % 2

unfoldable pub bit_off : ℕ → ℕ → ℕ
bit_off n zero = n / 2 * 2
bit_off n (suc i) = bit_off (n / 2) i * 2 + n % 2

-- An entry is a `uint64_t`. A shift by 64 or more is undefined; here its bit is lost, and the theorems are
-- about clusters of at most 64 nodes.
unfoldable pub set_bit : ℕ → ℕ → ℕ
set_bit old src_id = if ltb src_id 64 then bit_on old src_id else old

unfoldable pub clear_bit : ℕ → ℕ → ℕ
clear_bit old src_id = if ltb src_id 64 then bit_off old src_id else old

test_bit-bit_on_self : (i n : ℕ) → test_bit (bit_on n i) i ≡ true
unfolding test_bit bit_on
test_bit-bit_on_self zero n = ground arith
test_bit-bit_on_self (suc i) n =
    let e : (bit_on (n / 2) i * 2 + n % 2) / 2 ≡ bit_on (n / 2) i = omega arith in
    rw e (test_bit-bit_on_self i (n / 2))

test_bit-bit_on_ne : (i j n : ℕ) → i ≢ j → test_bit (bit_on n i) j ≡ test_bit n j
unfolding test_bit bit_on
test_bit-bit_on_ne zero zero n h = absurd (h refl)
test_bit-bit_on_ne zero (suc j) n h = let e : (n / 2 * 2 + 1) / 2 ≡ n / 2 = omega arith in rw e
test_bit-bit_on_ne (suc i) zero n h =
    let e : (bit_on (n / 2) i * 2 + n % 2) % 2 ≡ n % 2 = omega arith in rw e
test_bit-bit_on_ne (suc i) (suc j) n h =
    let e : (bit_on (n / 2) i * 2 + n % 2) / 2 ≡ bit_on (n / 2) i = omega arith in
    rw e (test_bit-bit_on_ne i j (n / 2) (λ p. h (cc)))

test_bit-bit_off_ne : (i j n : ℕ) → i ≢ j → test_bit (bit_off n i) j ≡ test_bit n j
unfolding test_bit bit_off
test_bit-bit_off_ne zero zero n h = absurd (h refl)
test_bit-bit_off_ne zero (suc j) n h = let e : (n / 2 * 2) / 2 ≡ n / 2 = omega arith in rw e
test_bit-bit_off_ne (suc i) zero n h =
    let e : (bit_off (n / 2) i * 2 + n % 2) % 2 ≡ n % 2 = omega arith in rw e
test_bit-bit_off_ne (suc i) (suc j) n h =
    let e : (bit_off (n / 2) i * 2 + n % 2) / 2 ≡ bit_off (n / 2) i = omega arith in
    rw e (test_bit-bit_off_ne i j (n / 2) (λ p. h (cc)))

pub test_bit-set_self : (i n : ℕ) → i < 64 → test_bit (set_bit n i) i ≡ true
unfolding set_bit
test_bit-set_self i n lt = let e : ltb i 64 ≡ true = ground arith in rw e (test_bit-bit_on_self i n)

pub test_bit-set_ne : (i j n : ℕ) → i ≢ j → test_bit (set_bit n i) j ≡ test_bit n j
unfolding set_bit
test_bit-set_ne i j n h = elim (Bool-cases (ltb i 64)) [
  | inl e ↦ rw e (test_bit-bit_on_ne i j n h)
  | inr e ↦ rw e refl
]

pub test_bit-clear_ne : (i j n : ℕ) → i ≢ j → test_bit (clear_bit n i) j ≡ test_bit n j
unfolding clear_bit
test_bit-clear_ne i j n h = elim (Bool-cases (ltb i 64)) [
  | inl e ↦ rw e (test_bit-bit_off_ne i j n h)
  | inr e ↦ rw e refl
]

-- A number with a bit is not 0.
pub test_bit-zero : (i : ℕ) → test_bit 0 i ≡ false
unfolding test_bit
test_bit-zero zero = refl
test_bit-zero (suc i) = test_bit-zero i
