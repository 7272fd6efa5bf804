-- ===== src/Gdb/Packet.antt =====
-- emu/gdbstub.c, the connection and the packet framing. A frame is `$`, the body, `#` and the
-- body's checksum in two hex digits.
pub mod Framing
pub mod Resend
use purv.Base.{
  ℕ, ◌+◌, ◌-◌, ◌%◌, ◌^◌, Bool, true, false, not, ◌&&◌, ◌||◌, Option, none, some, List, [], ◌∷◌,
  ◌++◌, ltb, ◌==◌, if◌then◌else◌, length, take, bit_or, u8, u32, ◌<<<◌,
}
use purv.Gdb.Hex.{hexval, byte_to_hex}

-- `fd` and `g_noack`. `incoming` is all that the debugger still sends before it hangs up. `up` is
-- how many writes go through before the connection breaks; a write that fails delivers nothing.
pub record Conn : Type 0 where
  pub incoming : List ℕ
  pub outgoing : List ℕ
  pub up : ℕ
  pub noack : Bool

-- `GDB_BUF`
abbrev pub gdb_buf : ℕ
gdb_buf = 4200

-- `gdb_write_all`, and whether it succeeds.
unfoldable pub gdb_write_all : Conn → List ℕ → Conn × Bool
gdb_write_all c p =
    if c.up == 0 then (c, false) else (record c { outgoing = c.outgoing ++ p; up = c.up - 1 }, true)

-- Where `gdb_recv` stands: before a `$`; in a body, with the characters stored and the checksum; at
-- the first digit; and at the second, with the first.
pub data Mode : Type 0 where
  skip : Mode
  body : List ℕ → ℕ → Mode
  digit1 : List ℕ → ℕ → Mode
  digit2 : List ℕ → ℕ → ℕ → Mode

-- `if (len + 1 < max) buf[len++] = (char)c`
abbrev pub store_char : ℕ → List ℕ → ℕ → List ℕ
store_char max buf c = if ltb (length buf + 1) max then buf ++ c ∷ [] else buf

-- The mode after a character that is not a last digit.
unfoldable pub next_mode : ℕ → Mode → ℕ → Mode
next_mode max skip c = if c == b'$' then body [] 0 else skip
next_mode max (body buf sum) c =
    if c == b'#' then digit1 buf sum else body (store_char max buf c) (u8 (sum + u8 c))
next_mode max (digit1 buf sum) c = digit2 buf sum c
next_mode max (digit2 buf sum h1) c = skip

-- `(uint8_t)((hexval(h1) << 4) | hexval(h2))`
unfoldable pub digits_value : ℕ → ℕ → ℕ
unfolding hexval
digits_value h1 h2 = u8 (bit_or (u32 (hexval h1 <<< 4)) (hexval h2))

-- Whether the frame is acknowledged by `-`.
unfoldable pub is_bad : Conn → ℕ → ℕ → ℕ → Bool
unfolding digits_value
is_bad c sum h1 h2 = not c.noack && not (digits_value h1 h2 == sum)

-- `if (!g_noack) gdb_write_all(fd, "+", 1)`
unfoldable pub acknowledge : Conn → Conn
unfolding gdb_write_all
acknowledge c = if c.noack then c else (gdb_write_all c (b'+' ∷ [])).0

-- The loops of `gdb_recv` over the incoming characters; `none` is the -1 of an end of file.
unfoldable pub recv_from : ℕ → Mode → List ℕ → Conn → Conn × Option (List ℕ)
unfolding next_mode is_bad acknowledge gdb_write_all
recv_from max mode [] c = (record c { incoming = [] }, none)
recv_from max (digit2 buf sum h1) (h2 ∷ s) c = elim (is_bad c sum h1 h2) [
  | true ↦ recv_from max skip s (gdb_write_all c (b'-' ∷ [])).0
  | false ↦ (record (acknowledge c) { incoming = s }, some buf)
]
recv_from max skip (b ∷ s) c = recv_from max (next_mode max skip b) s c
recv_from max (body buf sum) (b ∷ s) c = recv_from max (next_mode max (body buf sum) b) s c
recv_from max (digit1 buf sum) (b ∷ s) c = recv_from max (next_mode max (digit1 buf sum) b) s c

unfoldable pub gdb_recv : Conn → ℕ → Conn × Option (List ℕ)
unfolding recv_from
gdb_recv c max = recv_from max skip c.incoming c

-- `sum`, over the body's characters.
unfoldable pub checksum : ℕ → List ℕ → ℕ
checksum sum [] = sum
checksum sum (c ∷ s) = checksum (u8 (sum + u8 c)) s

-- The frame of the characters that fit, `k + 3 < sizeof frame`.
unfoldable pub frame : List ℕ → List ℕ
unfolding checksum byte_to_hex
frame text =
    let kept = take (gdb_buf - 4) text in b'$' ∷ (kept ++ b'#' ∷ byte_to_hex (checksum 0 kept))

-- `gdb_send` once the frame is built: what a `-` answers is sent again.
unfoldable pub send_loop : List ℕ → List ℕ → Conn → Conn
unfolding gdb_write_all
send_loop p [] c = record ((gdb_write_all c p).0) { incoming = [] }
send_loop p (a ∷ s) c =
    let (c', sent) = gdb_write_all c p in
    let again = send_loop p s c' in
    if not sent || c.noack
    then record c' { incoming = a ∷ s }
    else if a == b'-'
    then again
    else record c' { incoming = s }

unfoldable pub gdb_send : Conn → List ℕ → Conn
unfolding send_loop frame
gdb_send c text = send_loop (frame text) c.incoming c
