-- ===== src/Gdb/Hex/RoundTrip.antt =====
-- What is written in hex is read back.
use purv.Base.{
  ℕ, suc, ◌+◌, ◌*◌, ◌/◌, ◌%◌, ◌^◌, ◌<◌, ◌≡◌, ◌∙◌, false, ◌||◌, List, ◌++◌, bit_or, u8, u32, ◌<<<◌,
  ◌>>>◌, arith,
}
use purv.Base.Bits.{bit_or_sum, bit_or_at}
use purv.Gdb.Hex.{hexd, hexval, is_minus, reg_from_hex_at, reg_from_hex, byte_to_hex, reg_to_hex}

pub hexval-hexd : (d : ℕ) → d < 16 → hexval (hexd d) ≡ d
unfolding hexval hexd
hexval-hexd d h = ground arith

-- One byte of the loop.
reg_from_hex_at-byte :
    (n i v b : ℕ) (s : List ℕ)
    → b < 256
    → reg_from_hex_at (suc n) i v (byte_to_hex b ++ s)
      ≡ reg_from_hex_at n (i + 1) (bit_or v (u32 (b <<< (8 * i)))) s
unfolding byte_to_hex reg_from_hex_at
reg_from_hex_at-byte n i v b s h =
    let high = hexval-hexd (b / 2 ^ 4) (omega arith) in
    let low = hexval-hexd (b % 2 ^ 4) (omega arith) in
    let whole : bit_or ((b / 2 ^ 4) <<< 4) (b % 2 ^ 4) ≡ b =
      bit_or_sum 4 (b / 2 ^ 4) (b % 2 ^ 4) (omega arith) ∙ omega arith in
    let fine : (is_minus (b / 2 ^ 4) || is_minus (b % 2 ^ 4)) ≡ false = ground arith in
    rw (reg_from_hex_at, high, low, fine, whole)

-- Four bytes put together.
reg_bytes :
    (v : ℕ)
    → v < 2 ^ 32
    → bit_or
        (bit_or
          (bit_or (bit_or 0 (u32 (u8 v <<< 0))) (u32 (u8 (v >>> 8) <<< 8)))
          (u32 (u8 (v >>> 16) <<< 16)))
        (u32 (u8 (v >>> 24) <<< 24))
      ≡ v
reg_bytes v h =
    let a = v % 2 ^ 8 in
    let b = v / 2 ^ 8 % 2 ^ 8 in
    let c = v / 2 ^ 16 % 2 ^ 8 in
    let d = v / 2 ^ 24 % 2 ^ 8 in
    let ea : u32 (u8 v <<< 0) ≡ a * 2 ^ 0 = omega arith in
    let eb : u32 (u8 (v >>> 8) <<< 8) ≡ b * 2 ^ 8 = omega arith in
    let ec : u32 (u8 (v >>> 16) <<< 16) ≡ c * 2 ^ 16 = omega arith in
    let ed : u32 (u8 (v >>> 24) <<< 24) ≡ d * 2 ^ 24 = omega arith in
    rw
      (
        ea,
        eb,
        ec,
        ed,
        bit_or_at 0 8 0 a (omega arith) (omega arith),
        bit_or_at 8 8 (0 + a * 2 ^ 0) b (omega arith) (omega arith),
        bit_or_at 16 8 (0 + a * 2 ^ 0 + b * 2 ^ 8) c (omega arith) (omega arith),
        bit_or_at 24 8 (0 + a * 2 ^ 0 + b * 2 ^ 8 + c * 2 ^ 16) d (omega arith) (omega arith),
      )
      (omega arith)

reg_from_hex_at-bytes :
    (a b c d : ℕ) (s : List ℕ)
    → a < 256
    → b < 256
    → c < 256
    → d < 256
    → reg_from_hex_at 4 0 0
        (byte_to_hex a ++ (byte_to_hex b ++ (byte_to_hex c ++ (byte_to_hex d ++ s))))
      ≡ bit_or
          (bit_or (bit_or (bit_or 0 (u32 (a <<< 0))) (u32 (b <<< 8))) (u32 (c <<< 16)))
          (u32 (d <<< 24))
unfolding reg_from_hex_at
reg_from_hex_at-bytes a b c d s ha hb hc hd =
    let va = bit_or 0 (u32 (a <<< 0)) in
    let vb = bit_or va (u32 (b <<< 8)) in
    let vc = bit_or vb (u32 (c <<< 16)) in
    let rd = byte_to_hex d ++ s in
    let rc = byte_to_hex c ++ rd in
    reg_from_hex_at-byte 3 0 0 a (byte_to_hex b ++ rc) ha
    ∙ reg_from_hex_at-byte 2 1 va b rc hb
    ∙ reg_from_hex_at-byte 1 2 vb c rd hc
    ∙ reg_from_hex_at-byte 0 3 vc d s hd

-- A 32-bit register that is written in hex is read back, whatever follows in the packet.
pub reg_from_hex-reg_to_hex :
    (v : ℕ) (s : List ℕ) → v < 2 ^ 32 → reg_from_hex (reg_to_hex v ++ s) ≡ v
unfolding reg_from_hex reg_to_hex
reg_from_hex-reg_to_hex v s h =
    reg_from_hex_at-bytes (u8 v) (u8 (v >>> 8)) (u8 (v >>> 16)) (u8 (v >>> 24)) s (omega arith)
      (omega arith) (omega arith) (omega arith)
    ∙ reg_bytes v h
