-- ===== src/Usb/Crc.antt =====
-- src/usb.rs: `crc5`, bit by bit over 11 or 19 bits of input.
use packetry.Base.{
  ℕ, zero, suc, ◌/◌, ◌%◌, ◌<◌, ◌≡◌, refl, bit_xor, true, arith, ltb, ltb→lt, ◌==◌, if◌then◌else◌,
}
use packetry.Base.Check.{passes, passes_sound}

-- One round of the loop: the state after the lowest bit of the input is shifted in.
unfoldable pub crc5_step : (input state : ℕ) → ℕ
crc5_step input state = if input % 2 == state % 2 then state / 2 else bit_xor (state / 2) 0x14

unfoldable pub crc5_loop : (num_bits input state : ℕ) → ℕ
crc5_loop zero input state = state
crc5_loop (suc n) input state = crc5_loop n (input / 2) (crc5_step input state)

-- `crc5(input, num_bits)`
unfoldable pub crc5 : (input num_bits : ℕ) → ℕ
unfolding crc5_loop crc5_step
crc5 input num_bits = bit_xor (crc5_loop num_bits input 0x1f) 0x1f

table_step : passes (λ s. ltb (bit_xor s 0x14) 32) 0 16 ≡ true
unfolding passes
table_step = refl

table_final : passes (λ s. ltb (bit_xor s 0x1f) 32) 0 32 ≡ true
unfolding passes
table_final = refl

crc5_step-lt : (input state : ℕ) → state < 32 → crc5_step input state < 32
unfolding crc5_step
crc5_step-lt input state h = ground (
  arith,
  ltb→lt (bit_xor (state / 2) 0x14) 32 (
      passes_sound (λ s. ltb (bit_xor s 0x14) 32) 0 16 (state / 2) table_step (omega arith)
        (omega arith)),
)

crc5_loop-lt : (n input state : ℕ) → state < 32 → crc5_loop n input state < 32
unfolding crc5_loop
crc5_loop-lt zero input state h = h
crc5_loop-lt (suc n) input state h =
    crc5_loop-lt n (input / 2) (crc5_step input state) (crc5_step-lt input state h)

-- The checksum fits the five bits that a token has for it.
pub crc5-lt : (input num_bits : ℕ) → crc5 input num_bits < 32
unfolding crc5
crc5-lt input num_bits = ltb→lt _ 32 (
    passes_sound (λ s. ltb (bit_xor s 0x1f) 32) 0 32 (crc5_loop num_bits input 0x1f) table_final
      (omega arith) (omega (arith, crc5_loop-lt num_bits input 0x1f (omega arith))))
