-- ===== src/Gdb/Serve/Effects.antt =====
-- What the packets change.
use purv.Base.{
  ℕ, suc, ◌-◌, ◌/◌, ◌%◌, ◌^◌, ◌<◌, ◌≡◌, ◌⊎◌, refl, ◌∙◌, Bool, true, false, ◌||◌, Option, none, some,
  List, [], ◌∷◌, ◌++◌, length, ◌==◌, if◌then◌else◌, bit_or, u8, u32, ◌<<<◌, ◌>>>◌, add32, codes,
  arith,
}
use purv.Engine.{State, Handlers}
use purv.Gdb.Hex.{hexd, hexval, is_minus, byte_to_hex}
use purv.Gdb.Hex.RoundTrip.{hexval-hexd}
use purv.Gdb.Packet.{digits_value}
use purv.Gdb.Packet.Framing.{digits_value-byte_to_hex}
use purv.Gdb.Target.{gdb_nreg, regs_from, mem_write}
use purv.Gdb.History.{History, Overwrite}
use purv.Gdb.Serve.Packets.{
  Stub, Served, goes_on, ends, runs_on, astray, reply, hex_bytes, write_hex, send_stop, read_reg,
  read_mem, set_noack, resume_at, v_packet, serve_packet,
}

abbrev pub AreBytes : List ℕ → Type 0
AreBytes [] = Unit {0}
AreBytes (b ∷ bytes) = (b < 256) × AreBytes bytes

write_hex-byte :
    (b len addr : ℕ) (p : List ℕ) (s : State)
    → b < 256
    → write_hex (byte_to_hex b ++ p) (suc len) addr s
      ≡ write_hex p len (add32 addr 1) (mem_write s addr (b ∷ []))
unfolding write_hex byte_to_hex digits_value
write_hex-byte b len addr p s h =
    let high = hexval-hexd (b / 2 ^ 4) (omega arith) in
    let low = hexval-hexd (b % 2 ^ 4) (omega arith) in
    let digit : (suc len == 0 || is_minus (hexval (hexd (b >>> 4)))) ≡ false =
      ground (arith, high) in
    let value : u8 (bit_or (u32 (hexval (hexd (b >>> 4)) <<< 4)) (hexval (hexd (b % 2 ^ 4)))) ≡ b =
      digits_value-byte_to_hex b h in
    let one_less : suc len - 1 ≡ len = omega arith in rw (digit, value, one_less)

-- The data of an `M` packet, two digits a byte: exactly the bytes are written, at ascending addresses
-- from the packet's address on, if the length it states is their number.
pub write_hex-hex_bytes :
    (bytes : List ℕ) (addr : ℕ) (s : State)
    → AreBytes bytes
    → write_hex (hex_bytes bytes) (length bytes) addr s ≡ some (mem_write s addr bytes)
unfolding mem_write
write_hex-hex_bytes [] addr s h = unfold write_hex in refl
write_hex-hex_bytes (b ∷ bytes) addr s h =
    write_hex-byte b (length bytes) addr (hex_bytes bytes) s h.0
    ∙ write_hex-hex_bytes bytes (add32 addr 1) (mem_write s addr (b ∷ [])) h.1

-- Packets that set registers, memory or breakpoints, and those that run the guest.
abbrev pub sets : ℕ → Bool
sets b = b == b'G' || b == b'P' || b == b'M' || b == b'Z' || b == b'z'

abbrev pub runs : ℕ → Bool
runs b = b == b'c' || b == b's' || b == b'v'

-- The registers, the memory, the history, the breakpoints, `exited` and `wmsg`.
abbrev pub View : Type 0
View = State × History × List ℕ × Bool × List ℕ

abbrev pub view : Stub → View
view st = (st.target.machine, st.target.history, st.breakpoints, st.exited, st.wmsg)

-- The view after a packet, if the stub goes on or leaves.
abbrev pub view_after : Served → Option View
view_after (goes_on st) = some (view st)
view_after (ends st) = some (view st)
view_after runs_on = none
view_after astray = none

module _ (st : Stub) where
  view-reply : (text : List ℕ) → view (reply st text) ≡ view st
  unfolding reply
  view-reply text = refl

  view-send_stop : (sig : ℕ) → view (send_stop st sig) ≡ view st
  unfolding send_stop
  view-send_stop sig = refl

  view-read_reg : (buf : List ℕ) → view (read_reg st buf) ≡ view st
  unfolding read_reg
  view-read_reg buf = refl

  view-read_mem : (buf : List ℕ) → view (read_mem st buf) ≡ view st
  unfolding read_mem
  view-read_mem buf = refl

  view-answer : view (if st.exited then reply st st.wmsg else send_stop st 5) ≡ view st
  view-answer = ground (arith, view-reply st.wmsg, view-send_stop 5)

module _ (h : Handlers) (stores : State → List Overwrite) (halted exitcode : ℕ) (ready : ℕ → Bool)
    (fuel : ℕ) where
  view-set_noack :
      (st : Stub) (buf : List ℕ)
      → view (set_noack h stores halted exitcode ready fuel st buf) ≡ view st
  unfolding set_noack reply
  view-set_noack st buf = ground arith

  view-resume_at :
      (cont : Bool) (st : Stub) (buf : List ℕ)
      → st.exited ≡ true
      → view_after (resume_at h stores halted exitcode ready fuel cont st buf) ≡ some (view st)
  unfolding resume_at
  view-resume_at cont st buf e = ground (arith, view-reply st st.wmsg)

  view-v_packet :
      (st : Stub) (buf : List ℕ)
      → st.exited ≡ true
      → view_after (v_packet h stores halted exitcode ready fuel st buf) ≡ some (view st)
  unfolding v_packet
  view-v_packet st buf e =
      ground (arith, view-reply st st.wmsg, view-reply st (codes "vCont;c;C;s;S"), view-reply st [])

  -- A packet that is for neither setting nor running nor reversing changes no register, no memory, no
  -- frame of the history and no breakpoint, nor whether the program has ended and with what message;
  -- nor does a packet for running once the program has ended. The stub goes on behind it, or leaves.
  pub view-serve_packet :
      (b : ℕ) (buf : List ℕ) (st : Stub)
      → sets b ≡ false
      → (b == b'b') ≡ false
      → (runs b ≡ false) ⊎ (st.exited ≡ true)
      → view_after (serve_packet h stores halted exitcode ready fuel b buf st) ≡ some (view st)
  unfolding serve_packet
  view-serve_packet b buf st quiet ahead calm = ground (
    arith,
    view-answer st,
    view-reply st (regs_from gdb_nreg 0 st.target.machine),
    view-reply st (codes "OK"),
    view-reply st [],
    view-read_reg st buf,
    view-read_mem st buf,
    view-set_noack st buf,
    view-resume_at (b == b'c') st buf,
    view-v_packet st buf,
  )
