-- ===== src/Gdb/Packet/Framing.antt =====
-- `gdb_recv` takes out what `gdb_send` frames, and refuses a frame that was damaged on the way.
use purv.Base.{
  ℕ, ◌+◌, ◌-◌, ◌/◌, ◌%◌, ◌^◌, ◌≤◌, ◌<◌, ◌≡◌, ◌≢◌, refl, sym, ap, ◌∙◌, false, ◌||◌, if◌then◌else◌,
  ◌==◌, some, List, [], ◌∷◌, ◌++◌, length, take_all, length-append, u8, u32, ◌<<<◌, ◌>>>◌, arith,
}
use purv.Gdb.Hex.{hexd}
use purv.Gdb.Hex.RoundTrip.{hexval-hexd}
use purv.Base.Bits.{bit_or_sum}
use mathlib.Core.List.{append-nil, append_assoc}
use purv.Gdb.Packet.{
  Conn, gdb_buf, gdb_write_all, skip, Mode, body, digit1, digit2, next_mode, digits_value, is_bad,
  acknowledge, recv_from, gdb_recv, checksum, frame,
}

-- No character of the list is `a`.
abbrev pub Lacks : ℕ → List ℕ → Type 0
Lacks a [] = Unit {0}
Lacks a (c ∷ s) = (c ≢ a) × Lacks a s

-- What stands before a frame is skipped.
recv_from-noise :
    (max : ℕ) (noise s : List ℕ) (c : Conn)
    → Lacks b'$' noise
    → recv_from max skip (noise ++ s) c ≡ recv_from max skip s c
unfolding recv_from next_mode
recv_from-noise max [] s c h = refl
recv_from-noise max (b ∷ noise) s c h = ground (arith, recv_from-noise max noise s c)

-- One character of a body.
next_mode-body :
    (max sum b : ℕ) (buf : List ℕ)
    → b ≢ b'#'
    → length buf + 1 < max
    → next_mode max (body buf sum) b ≡ body (buf ++ b ∷ []) (u8 (sum + u8 b))
unfolding next_mode
next_mode-body max sum b buf plain fits = ground arith

recv_from-next :
    (max sum b : ℕ) (buf s : List ℕ) (c : Conn)
    → recv_from max (body buf sum) (b ∷ s) c ≡ recv_from max (next_mode max (body buf sum) b) s c
unfolding recv_from
recv_from-next max sum b buf s c = refl

recv_from-body :
    (max : ℕ) (buf text s : List ℕ) (sum : ℕ) (c : Conn)
    → Lacks b'#' text
    → length buf + length text < max
    → recv_from max (body buf sum) (text ++ s) c
      ≡ recv_from max (body (buf ++ text) (checksum sum text)) s c
unfolding checksum
recv_from-body max buf [] s sum c h fits = rw append-nil
recv_from-body max buf (b ∷ text) s sum c h fits =
    let longer = length-append buf (b ∷ []) in
    rw (
      recv_from-next max sum b buf (text ++ s) c,
      next_mode-body max sum b buf h.0 (omega arith),
      recv_from-body max (buf ++ b ∷ []) text s (u8 (sum + u8 b)) c h.1 (omega (arith, longer)),
      append_assoc,
    )

checksum-lt : (sum : ℕ) (text : List ℕ) → sum < 256 → checksum sum text < 256
unfolding checksum
checksum-lt sum [] h = h
checksum-lt sum (b ∷ text) h = checksum-lt (u8 (sum + u8 b)) text (omega arith)

pub digits_value-byte_to_hex :
    (b : ℕ) → b < 256 → digits_value (hexd (b >>> 4)) (hexd (b % 2 ^ 4)) ≡ b
unfolding digits_value
digits_value-byte_to_hex b h =
    let high = hexval-hexd (b / 2 ^ 4) (omega arith) in
    let low = hexval-hexd (b % 2 ^ 4) (omega arith) in
    let fits : u32 ((b / 2 ^ 4) <<< 4) ≡ (b / 2 ^ 4) <<< 4 = omega arith in
    rw (high, low, fits, bit_or_sum 4 (b / 2 ^ 4) (b % 2 ^ 4) (omega arith)) (omega arith)

-- A frame of a given body with any two digits, up to the second digit.
recv_from-frame :
    (max : ℕ) (text s : List ℕ) (h1 h2 : ℕ) (c : Conn)
    → Lacks b'#' text
    → length text < max
    → recv_from max skip (b'$' ∷ (text ++ b'#' ∷ h1 ∷ h2 ∷ s)) c
      ≡ recv_from max (digit2 text (checksum 0 text) h1) (h2 ∷ s) c
unfolding recv_from next_mode
recv_from-frame max text s h1 h2 c h fits =
    recv_from-body max [] text (b'#' ∷ h1 ∷ h2 ∷ s) 0 c h (omega arith)

-- The field is not looked at before it is written.
recv_from-incoming :
    (max : ℕ) (m : Mode) (s t : List ℕ) (c : Conn)
    → recv_from max m s (record c { incoming = t }) ≡ recv_from max m s c
unfolding recv_from
recv_from-incoming max m [] t c = refl
recv_from-incoming max (digit2 buf sum h1) (h2 ∷ s) t c =
    ground (arith, recv_from-incoming max skip s t (gdb_write_all c (b'-' ∷ [])).0)
recv_from-incoming max skip (b ∷ s) t c = recv_from-incoming max (next_mode max skip b) s t c
recv_from-incoming max (body buf sum) (b ∷ s) t c =
    recv_from-incoming max (next_mode max (body buf sum) b) s t c
recv_from-incoming max (digit1 buf sum) (b ∷ s) t c =
    recv_from-incoming max (next_mode max (digit1 buf sum) b) s t c

-- The last digit.
recv_from-good :
    (max h1 h2 sum : ℕ) (text s : List ℕ) (c : Conn)
    → digits_value h1 h2 ≡ sum
    → recv_from max (digit2 text sum h1) (h2 ∷ s) c
      ≡ (record (acknowledge c) { incoming = s }, some text)
unfolding recv_from is_bad
recv_from-good max h1 h2 sum text s c e = ground arith

recv_from-bad :
    (max h1 h2 sum : ℕ) (text s : List ℕ) (c : Conn)
    → c.noack ≡ false
    → digits_value h1 h2 ≢ sum
    → recv_from max (digit2 text sum h1) (h2 ∷ s) c
      ≡ recv_from max skip s (gdb_write_all c (b'-' ∷ [])).0
unfolding recv_from is_bad
recv_from-bad max h1 h2 sum text s c acks wrong = ground arith

frame_lem :
    (text s : List ℕ)
    → length text ≤ gdb_buf - 4
    → let sum = checksum 0 text in
      frame text ++ s ≡ b'$' ∷ (text ++ b'#' ∷ hexd (sum >>> 4) ∷ hexd (sum % 2 ^ 4) ∷ s)
unfolding frame
frame_lem text s fits = rw (take_all (gdb_buf - 4) text fits, append_assoc)

-- The connection after a good frame, with `s` to be read: a `+` has been written, except in no-ack mode.
abbrev pub acked : Conn → List ℕ → Conn
acked c s = record c {
  incoming = s;
  outgoing = if c.noack || c.up == 0 then c.outgoing else c.outgoing ++ b'+' ∷ [];
  up = if c.noack then c.up else c.up - 1;
}

acknowledge-acked : (c : Conn) (s : List ℕ) → record (acknowledge c) { incoming = s } ≡ acked c s
unfolding acknowledge gdb_write_all
acknowledge-acked c s = ground arith

-- A frame whose body has no `#` and fits into the sender's buffer, after any characters other than
-- `$`: `gdb_recv` delivers the body and leaves what follows the frame to be read. In ack mode it writes
-- a single `+`, which goes out if the connection is still up; in no-ack mode it writes nothing.
pub gdb_recv-frame :
    (noise text s : List ℕ) (c : Conn)
    → Lacks b'$' noise
    → Lacks b'#' text
    → length text ≤ gdb_buf - 4
    → c.incoming ≡ noise ++ (frame text ++ s)
    → gdb_recv c gdb_buf ≡ (acked c s, some text)
unfolding gdb_recv
gdb_recv-frame noise text s c quiet plain fits e =
    let sum = checksum 0 text in
    ap (λ (l : List ℕ). recv_from gdb_buf skip l c)
      (e ∙ ap (λ (l : List ℕ). noise ++ l) (frame_lem text s fits))
    ∙ recv_from-noise gdb_buf noise _ c quiet
    ∙ recv_from-frame gdb_buf text s (hexd (sum >>> 4)) (hexd (sum % 2 ^ 4)) c plain (omega arith)
    ∙ recv_from-good gdb_buf (hexd (sum >>> 4)) (hexd (sum % 2 ^ 4)) sum text s c
        (digits_value-byte_to_hex sum (checksum-lt 0 text (omega arith)))
    ∙ ap (λ (t : Conn). (t, some text)) (acknowledge-acked c s)

-- A frame whose digits are not its checksum, in ack mode: `gdb_recv` asks for it again by a `-`, and
-- goes on behind it as if it had not been sent.
pub gdb_recv-damaged :
    (noise text s : List ℕ) (h1 h2 max : ℕ) (c : Conn)
    → Lacks b'$' noise
    → Lacks b'#' text
    → length text < max
    → c.noack ≡ false
    → digits_value h1 h2 ≢ checksum 0 text
    → c.incoming ≡ noise ++ (b'$' ∷ (text ++ b'#' ∷ h1 ∷ h2 ∷ s))
    → gdb_recv c max ≡ gdb_recv (record ((gdb_write_all c (b'-' ∷ [])).0) { incoming = s }) max
unfolding gdb_recv
gdb_recv-damaged noise text s h1 h2 max c quiet plain fits acks wrong e =
    ap (λ (l : List ℕ). recv_from max skip l c) e
    ∙ recv_from-noise max noise _ c quiet
    ∙ recv_from-frame max text s h1 h2 c plain fits
    ∙ recv_from-bad max h1 h2 (checksum 0 text) text s c acks wrong
    ∙ sym (recv_from-incoming max skip s s (gdb_write_all c (b'-' ∷ [])).0)
