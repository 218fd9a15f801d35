-- ===== src/Core/Keccak.antt =====
-- Keccak-256: src/core/keccak.c. Words are uint64_t, and the state is a list of 25 of them.
mod Tests
use evm_db.Prelude.{
  ℕ, zero, suc, ◌+◌, ◌-◌, ◌*◌, ◌/◌, ◌%◌, ◌^◌, List, [], ◌∷◌, ◌++◌, ltb, ◌==◌, if◌then◌else◌, length,
  get_or, set, drop, replicate, bit_and, bit_or, bit_xor,
}
use mathlib.Core.List.{map, foldl}
use evm_db.Prelude.Bytes.{Bytes}

-- A shift count below 64, as at every call.
unfoldable pub rotl64 : ℕ → ℕ → ℕ
rotl64 value shift =
    if shift == 0 then value else bit_or (value * 2 ^ shift % 2 ^ 64) (value / 2 ^ (64 - shift))

-- Byte `i` of the eight at the front goes to the bits from 8 * i on. `i` counts the bytes done.
unfoldable pub load64_le_loop : ℕ → ℕ → Bytes → ℕ → ℕ
load64_le_loop zero i bytes value = value
load64_le_loop (suc n) i bytes value =
    load64_le_loop n (i + 1) bytes (bit_or value (get_or bytes i 0 * 2 ^ (8 * i) % 2 ^ 64))

unfoldable pub load64_le : Bytes → ℕ
load64_le bytes = load64_le_loop 8 0 bytes 0

unfoldable pub store64_le_loop : ℕ → ℕ → ℕ → Bytes
store64_le_loop zero i value = []
store64_le_loop (suc n) i value =
    (bit_and (value / 2 ^ (8 * i)) 0xff % 256) ∷ store64_le_loop n (i + 1) value

unfoldable pub store64_le : ℕ → Bytes
store64_le value = store64_le_loop 8 0 value

abbrev pub round_constants : List ℕ
round_constants =
    0x0000000000000001 ∷ 0x0000000000008082 ∷ 0x800000000000808a ∷ 0x8000000080008000
    ∷ 0x000000000000808b ∷ 0x0000000080000001 ∷ 0x8000000080008081 ∷ 0x8000000000008009
    ∷ 0x000000000000008a ∷ 0x0000000000000088 ∷ 0x0000000080008009 ∷ 0x000000008000000a
    ∷ 0x000000008000808b ∷ 0x800000000000008b ∷ 0x8000000000008089 ∷ 0x8000000000008003
    ∷ 0x8000000000008002 ∷ 0x8000000000000080 ∷ 0x000000000000800a ∷ 0x800000008000000a
    ∷ 0x8000000080008081 ∷ 0x8000000000008080 ∷ 0x0000000080000001 ∷ 0x8000000080008008 ∷ []

-- `rho[x][y]`, row by row.
abbrev pub rho : List ℕ
rho =
    0 ∷ 36 ∷ 3 ∷ 41 ∷ 18 ∷ 1 ∷ 44 ∷ 10 ∷ 45 ∷ 2 ∷ 62 ∷ 6 ∷ 43 ∷ 15 ∷ 61 ∷ 28 ∷ 55 ∷ 25 ∷ 21 ∷ 56
    ∷ 27 ∷ 20 ∷ 39 ∷ 8 ∷ 14 ∷ []

abbrev pub five : List ℕ
five = 0 ∷ 1 ∷ 2 ∷ 3 ∷ 4 ∷ []

-- The pairs (x, y) in the order of the nested loops, y outside.
abbrev pub grid : List (ℕ × ℕ)
grid = over five
  where
    row : ℕ → List ℕ → List (ℕ × ℕ)
    row y [] = []
    row y (x ∷ xs) = (x, y) ∷ row y xs

    over : List ℕ → List (ℕ × ℕ)
    over [] = []
    over (y ∷ ys) = row y five ++ over ys

-- `a[i]`, where every index of the program is in range.
abbrev pub at : List ℕ → ℕ → ℕ
at a i = get_or a i 0

unfoldable pub column : List ℕ → ℕ → ℕ
column state x =
    bit_xor
      (bit_xor (bit_xor (bit_xor (at state x) (at state (x + 5))) (at state (x + 10)))
        (at state (x + 15)))
      (at state (x + 20))

unfoldable pub spread : List ℕ → ℕ → ℕ
spread c x = bit_xor (at c ((x + 4) % 5)) (rotl64 (at c ((x + 1) % 5)) 1)

-- `~word` on 64 bits.
abbrev pub complement : ℕ → ℕ
complement word = bit_xor word (2 ^ 64 - 1)

unfoldable pub theta_lane : List ℕ → List ℕ → ℕ × ℕ → ℕ
theta_lane state d (x, y) = bit_xor (at state (x + 5 * y)) (at d x)

-- `b[new_x + 5 * new_y] = rotl64(state[x + 5 * y], rho[x][y])`.
unfoldable pub place : List ℕ → List ℕ → ℕ × ℕ → List ℕ
place state b (x, y) =
    set b (y + 5 * ((2 * x + 3 * y) % 5)) (rotl64 (at state (x + 5 * y)) (at rho (5 * x + y)))

unfoldable pub chi_lane : List ℕ → ℕ × ℕ → ℕ
chi_lane b (x, y) =
    bit_xor (at b (x + 5 * y))
      (bit_and (complement (at b ((x + 1) % 5 + 5 * y))) (at b ((x + 2) % 5 + 5 * y)))

-- The xor of a word into one lane.
unfoldable pub xor_lane : List ℕ → ℕ → ℕ → List ℕ
xor_lane state i word = set state i (bit_xor (at state i) word)

-- One round. The lanes are written in the order of `grid`, which is the order of the array.
unfoldable pub keccak_round : List ℕ → ℕ → List ℕ
keccak_round state constant =
    let c = map (column state) five in
    let d = map (spread c) five in
    let mixed = map (theta_lane state d) grid in
    let b = foldl (place mixed) (replicate 25 0) grid in xor_lane (map (chi_lane b) grid) 0 constant

unfoldable pub keccakf : List ℕ → List ℕ
keccakf state = foldl keccak_round state round_constants

-- `state[lane] ^= load64_le(data + lane * 8)` for the `n` lanes from `lane` on.
unfoldable pub absorb : ℕ → ℕ → Bytes → List ℕ → List ℕ
absorb zero lane bytes state = state
absorb (suc n) lane bytes state =
    absorb n (lane + 1) bytes (xor_lane state lane (load64_le (drop (lane * 8) bytes)))

abbrev pub rate : ℕ
rate = 136

-- `while (len >= rate)`: the state and what is left of the data. Each round takes `rate` bytes, so
-- the length is fuel enough.
unfoldable pub absorb_blocks : ℕ → Bytes → List ℕ → List ℕ × Bytes
absorb_blocks zero bytes state = (state, bytes)
absorb_blocks (suc fuel) bytes state =
    let rest = absorb_blocks fuel (drop rate bytes) (keccakf (absorb 17 0 bytes state)) in
    if ltb (length bytes) rate then (state, bytes) else rest

-- The last block: the data left, 0x01 behind it, zeros, and 0x80 into the last byte.
unfoldable pub pad : Bytes → Bytes
pad bytes =
    let block = set (bytes ++ replicate (rate - length bytes) 0) (length bytes) 0x01 in
    set block (rate - 1) (bit_or (get_or block (rate - 1) 0) 0x80)

unfoldable pub squeeze : List ℕ → Bytes
squeeze state =
    store64_le (at state 0)
    ++ (store64_le (at state 1) ++ (store64_le (at state 2) ++ store64_le (at state 3)))

unfoldable pub keccak256 : Bytes → Bytes
keccak256 bytes =
    let (state, left) = absorb_blocks (length bytes) bytes (replicate 25 0) in
    squeeze (keccakf (absorb 17 0 (pad left) state))
