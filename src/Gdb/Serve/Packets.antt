-- ===== src/Gdb/Serve/Packets.antt =====
-- emu/gdbstub.c, the cases of the packet switch. `buf` is the packet without its first character.
use purv.Base.{
  ℕ, suc, ◌-◌, ◌/◌, ◌%◌, ◌^◌, Bool, true, not, ◌&&◌, ◌||◌, Option, none, some, List, [], ◌∷◌, ◌++◌,
  min, ltb, ◌==◌, if◌then◌else◌, bit_or, u8, u32, ◌<<<◌, add32, codes, str_eq, starts_with,
  skip_char, head_or_nul, drop,
}
use purv.Engine.{State, Handlers}
use purv.Engine.Memory.{read32}
use purv.Gdb.Hex.{hexval, is_minus, parse_hex, reg_from_hex, byte_to_hex, reg_to_hex}
use purv.Gdb.Packet.{gdb_buf, gdb_send}
use purv.Gdb.Target.{gdb_nreg, reg_get, reg_set, mem_read, mem_write, regs_from, set_regs_from}
use purv.Gdb.Breakpoints.{bp_add, bp_del}
use purv.Gdb.History.{Overwrite}
use purv.Gdb.Control.{Stop, stop_trap, stop_int, stop_exit, Target, gdb_run, gdb_reverse}
use purv.Gdb.Query.{handle_q}

-- What the serve loop keeps: the target, `g_bp`, and the locals `exited` and `wmsg`.
pub record Stub : Type 0 where
  pub target : Target
  pub breakpoints : List ℕ
  pub exited : Bool
  pub wmsg : List ℕ

-- After a packet: the loop goes on, or returns; the guest runs on without a stop; or the code reads
-- behind the terminator of the packet's text, where there is what an earlier packet left.
pub data Served : Type 0 where
  goes_on ends : Stub → Served
  runs_on astray : Served

unfoldable pub reply : Stub → List ℕ → Stub
unfolding gdb_send
reply st text = record st { target = record (st.target) { conn = gdb_send st.target.conn text } }

abbrev pub set_machine : Stub → State → Stub
set_machine st s = record st { target = record (st.target) { machine = s } }

-- The text of `send_stop`: `T%02x20:%s;02:%s;thread:1;`
unfoldable pub stop_text : State → ℕ → List ℕ
unfolding byte_to_hex reg_to_hex reg_get
stop_text s sig =
    codes "T"
    ++ (byte_to_hex (sig % 2 ^ 8)
        ++ (codes "20:"
            ++ (reg_to_hex (reg_get s 32)
                ++ (codes ";02:" ++ (reg_to_hex (reg_get s 2) ++ codes ";thread:1;")))))

unfoldable pub send_stop : Stub → ℕ → Stub
unfolding reply stop_text
send_stop st sig = reply st (stop_text st.target.machine sig)

-- `p`
unfoldable pub read_reg : Stub → List ℕ → Stub
unfolding reply parse_hex reg_to_hex reg_get
read_reg st buf =
    let (i, p) = parse_hex buf in
    reply st (if ltb i gdb_nreg then reg_to_hex (reg_get st.target.machine i) else codes "00000000")

-- `P`
unfoldable pub write_reg : Stub → List ℕ → Stub
unfolding reply parse_hex reg_set reg_from_hex
write_reg st buf =
    let (i, p) = parse_hex buf in
    let s = st.target.machine in
    let v = reg_from_hex (skip_char b'=' p) in
    reply (set_machine st (if ltb i gdb_nreg then reg_set s i v else s)) (codes "OK")

abbrev pub hex_bytes : List ℕ → List ℕ
hex_bytes [] = []
hex_bytes (b ∷ bytes) = byte_to_hex b ++ hex_bytes bytes

-- `m`
unfoldable pub read_mem : Stub → List ℕ → Stub
unfolding reply parse_hex mem_read byte_to_hex
read_mem st buf =
    let (addr, p) = parse_hex buf in
    let (want, q) = parse_hex (skip_char b',' p) in
    reply st (hex_bytes (mem_read st.target.machine addr (min want ((gdb_buf - 8) / 2))))

-- The loop of `M` with `len - i` to go; `none` is that it goes on behind the terminator.
unfoldable pub write_hex : List ℕ → ℕ → ℕ → State → Option State
unfolding hexval mem_write
write_hex [] len addr s = some s
write_hex (hi ∷ []) len addr s =
    if len == 0 || is_minus (hexval hi)
    then some s
    else if len == 1
    then some (mem_write s addr (u8 (bit_or (u32 (hexval hi <<< 4)) (hexval 0)) ∷ []))
    else none
write_hex (hi ∷ lo ∷ p) len addr s =
    let b = u8 (bit_or (u32 (hexval hi <<< 4)) (hexval lo)) in
    let rest = write_hex p (len - 1) (add32 addr 1) (mem_write s addr (b ∷ [])) in
    if len == 0 || is_minus (hexval hi) then some s else rest

-- `M`
unfoldable pub write_mem : Stub → List ℕ → Served
unfolding reply parse_hex write_hex
write_mem st buf =
    let (addr, p) = parse_hex buf in
    let (len, q) = parse_hex (skip_char b',' p) in
    elim (write_hex (skip_char b':' q) len addr st.target.machine) [
      | none ↦ astray
      | some s ↦ goes_on (reply (set_machine st s) (codes "OK"))
    ]

-- `Z` and `z`
unfoldable pub change_breakpoint : Bool → Stub → List ℕ → Stub
unfolding reply parse_hex bp_add bp_del
change_breakpoint inserting st buf =
    let kind = head_or_nul buf in
    let (addr, p) = parse_hex (skip_char b',' (drop 1 buf)) in
    let bs = st.breakpoints in
    if not (kind == b'0') && not (kind == b'1')
    then reply st []
    else reply (record st { breakpoints = if inserting then bp_add bs addr else bp_del bs addr })
        (codes "OK")

module _ (h : Handlers) (stores : State → List Overwrite) (halted exitcode : ℕ) (ready : ℕ → Bool)
    (fuel : ℕ) where
  -- `W%02x`
  unfoldable pub exit_text : State → List ℕ
  unfolding byte_to_hex read32
  exit_text s = codes "W" ++ byte_to_hex (read32 s.host exitcode % 2 ^ 8)

  -- The stop reply of a run.
  unfoldable pub report : Stub → Stop → Stub
  unfolding reply send_stop exit_text
  report st stop_trap = send_stop st 5
  report st stop_int = send_stop st 2
  report st stop_exit =
      let w = exit_text st.target.machine in reply (record st { exited = true; wmsg = w }) w

  -- A run and its report, for `c`, `s` and `vCont`.
  unfoldable pub resume_run : Bool → Stub → Served
  unfolding report gdb_run
  resume_run cont st = elim (gdb_run h stores halted ready fuel 0 cont st.breakpoints st.target) [
    | none ↦ runs_on
    | some (why, t) ↦ goes_on (report (record st { target = t }) why)
  ]

  -- `c` and `s`, with an address or without.
  unfoldable pub resume_at : Bool → Stub → List ℕ → Served
  resume_at cont st buf =
      let s = st.target.machine in
      let (addr, p) = parse_hex buf in
      if st.exited
      then goes_on (reply st st.wmsg)
      else if head_or_nul buf == 0
      then resume_run cont st
      else resume_run cont (set_machine st (record s { pc = addr }))

  -- `b`
  unfoldable pub reverse : Stub → List ℕ → Served
  unfolding reply send_stop gdb_reverse
  reverse st buf =
      let kind = head_or_nul buf in
      let t = st.target in
      if not (kind == b's') && not (kind == b'c')
      then goes_on (reply st [])
      else elim (gdb_reverse (suc t.history.count) (kind == b'c') st.breakpoints t.history
          t.machine) [
            | none ↦ runs_on
            | some (hist, s) ↦
                goes_on
                  (send_stop (record st { target = record t { history = hist; machine = s } }) 5)
          ]

  -- `v`
  unfoldable pub v_packet : Stub → List ℕ → Served
  v_packet st buf =
      let act = head_or_nul (drop 5 buf) in
      if str_eq buf (codes "Cont?")
      then goes_on (reply st (codes "vCont;c;C;s;S"))
      else if not (starts_with buf (codes "Cont;"))
      then goes_on (reply st [])
      else if st.exited
      then goes_on (reply st st.wmsg)
      else resume_run (act == b'c' || act == b'C') st

  -- `Q`; the reply still waits for its `+`.
  unfoldable pub set_noack : Stub → List ℕ → Stub
  unfolding reply
  set_noack st buf =
      let st' = reply st (codes "OK") in
      let t = st'.target in
      if str_eq buf (codes "StartNoAckMode")
      then record st' { target = record t { conn = record (t.conn) { noack = true } } }
      else reply st []

  -- The switch on `buf[0]`.
  unfoldable pub serve_packet : ℕ → List ℕ → Stub → Served
  serve_packet b buf st =
      let t = st.target in
      if b == b'?'
      then goes_on (if st.exited then reply st st.wmsg else send_stop st 5)
      else if b == b'g'
      then goes_on (reply st (regs_from gdb_nreg 0 t.machine))
      else if b == b'G'
      then goes_on (reply (set_machine st (set_regs_from gdb_nreg 0 buf t.machine)) (codes "OK"))
      else if b == b'p'
      then goes_on (read_reg st buf)
      else if b == b'P'
      then goes_on (write_reg st buf)
      else if b == b'm'
      then goes_on (read_mem st buf)
      else if b == b'M'
      then write_mem st buf
      else if b == b'c' || b == b's'
      then resume_at (b == b'c') st buf
      else if b == b'b'
      then reverse st buf
      else if b == b'v'
      then v_packet st buf
      else if b == b'Q'
      then goes_on (set_noack st buf)
      else if b == b'Z' || b == b'z'
      then goes_on (change_breakpoint (b == b'Z') st buf)
      else if b == b'q'
      then goes_on (record st { target = record t { conn = handle_q t.conn (b ∷ buf) } })
      else if b == b'H' || b == b'T' || b == b'!'
      then goes_on (reply st (codes "OK"))
      else if b == b'D'
      then ends (reply st (codes "OK"))
      else if b == b'k'
      then ends st
      else goes_on (reply st [])
