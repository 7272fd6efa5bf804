-- ===== src/Gdb/Hex.antt =====
-- emu/gdbstub.c, the hex helpers. An `int` is its 32-bit pattern: -1 is 2 ^ 32 - 1.
pub mod RoundTrip
use purv.Base.{
  ℕ, zero, suc, ◌+◌, ◌-◌, ◌*◌, ◌/◌, ◌%◌, ◌^◌, Bool, ◌&&◌, ◌||◌, List, [], ◌∷◌, ◌++◌, leb, ltb,
  bit_or, if◌then◌else◌, u8, u32, ◌<<<◌, ◌>>>◌,
}

-- `hexd[d]`
unfoldable pub hexd : ℕ → ℕ
hexd d = if ltb d 10 then b'0' + d else b'a' + (d - 10)

unfoldable pub hexval : ℕ → ℕ
hexval c =
    if leb b'0' c && leb c b'9'
    then c - b'0'
    else if leb b'a' c && leb c b'f'
    then c - b'a' + 10
    else if leb b'A' c && leb c b'F'
    then c - b'A' + 10
    else 0xffff_ffff

-- `d < 0`
abbrev pub is_minus : ℕ → Bool
is_minus d = leb (2 ^ 31) d

-- The loop of `parse_hex`: the value, and where it stops. The end of the list is the NUL.
unfoldable pub parse_hex_from : ℕ → List ℕ → ℕ × List ℕ
unfolding hexval
parse_hex_from v [] = (v, [])
parse_hex_from v (c ∷ s) =
    if is_minus (hexval c) then (v, c ∷ s) else parse_hex_from (bit_or (u32 (v <<< 4)) (hexval c)) s

unfoldable pub parse_hex : List ℕ → ℕ × List ℕ
unfolding parse_hex_from
parse_hex s = parse_hex_from 0 s

-- The loop of `reg_from_hex` from byte `i`, with `n` bytes to go.
unfoldable pub reg_from_hex_at : ℕ → ℕ → ℕ → List ℕ → ℕ
unfolding hexval
reg_from_hex_at zero i v s = v
reg_from_hex_at (suc n) i v [] = v
reg_from_hex_at (suc n) i v (h ∷ []) = v
reg_from_hex_at (suc n) i v (h ∷ l ∷ s) =
    if is_minus (hexval h) || is_minus (hexval l)
    then v
    else reg_from_hex_at n (i + 1) (bit_or v (u32 (bit_or (hexval h <<< 4) (hexval l) <<< (8 * i))))
        s

-- Registers travel as little-endian target bytes in hex, 8 characters a word.
unfoldable pub reg_from_hex : List ℕ → ℕ
unfolding reg_from_hex_at
reg_from_hex s = reg_from_hex_at 4 0 0 s

-- `hexd[b >> 4]`, `hexd[b & 0xf]`
unfoldable pub byte_to_hex : ℕ → List ℕ
unfolding hexd
byte_to_hex b = hexd (b >>> 4) ∷ hexd (b % 2 ^ 4) ∷ []

unfoldable pub reg_to_hex : ℕ → List ℕ
unfolding byte_to_hex
reg_to_hex v =
    byte_to_hex (u8 v)
    ++ (byte_to_hex (u8 (v >>> 8)) ++ (byte_to_hex (u8 (v >>> 16)) ++ byte_to_hex (u8 (v >>> 24))))
