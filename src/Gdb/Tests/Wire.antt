-- ===== src/Gdb/Tests/Wire.antt =====
-- The theorems on packets, registers, memory and breakpoints at concrete inputs.
use purv.Base.{
  ℕ, ◌-◌, ◌^◌, ◌<◌, ◌≡◌, ◌⊎◌, refl, inl, true, false, some, [], ◌∷◌, ◌++◌, length, drop, ◌==◌,
  if◌then◌else◌, codes, arith,
}
use purv.Engine.{riscv_half}
use purv.Engine.Memory.{mem_xlate}
use purv.Gdb.Hex.{parse_hex, reg_to_hex, reg_from_hex}
use purv.Gdb.Hex.RoundTrip.{reg_from_hex-reg_to_hex}
use purv.Gdb.Packet.{
  Conn, gdb_buf, gdb_write_all, digits_value, gdb_recv, checksum, frame, gdb_send,
}
use purv.Gdb.Packet.Framing.{acked, gdb_recv-frame, gdb_recv-damaged}
use purv.Gdb.Packet.Resend.{times, gdb_send_resends}
use purv.Gdb.Target.{gdb_nreg, reg_get, byte_at, mem_read, mem_write, regs_from, set_regs_from}
use purv.Gdb.Target.Memory.{byte_at-eq-mem_xlate, mem_read-mem_write, mem_write_confined}
use purv.Gdb.Target.Registers.{set_regs-regs}
use purv.Gdb.Breakpoints.{bp_hit}
use purv.Gdb.Breakpoints.Table.{
  IsTable, insert, remove, serve_requests, stands, serve_requests-IsTable, bp_hit-serve_requests,
}
use purv.Gdb.Query.{target_xml}
use purv.Gdb.Query.Chunks.{fetch_document, fetch_document_whole}
use purv.Gdb.Serve.Packets.{Stub, hex_bytes, write_hex, serve_packet, goes_on}
use purv.Gdb.Serve.Answers.{AnswersStep, serve_packet_step}
use purv.Gdb.Serve.Effects.{view, view_after, view-serve_packet, write_hex-hex_bytes}
use purv.Gdb.Tests.{machine, hooks, reported, host, conn_with, begun}

abbrev noisy : Conn
noisy = conn_with (codes "+" ++ (frame (codes "m80000000,4") ++ codes "+"))

gdb_recv-frame_example :
    gdb_recv noisy gdb_buf ≡ (acked noisy (codes "+"), some (codes "m80000000,4"))
gdb_recv-frame_example =
    gdb_recv-frame (codes "+") (codes "m80000000,4") (codes "+") noisy (omega arith) (omega arith)
      (omega arith) refl

abbrev damaged : Conn
damaged = conn_with (b'$' ∷ (codes "g" ++ b'#' ∷ b'0' ∷ b'0' ∷ frame (codes "g")))

gdb_recv-damaged_example :
    gdb_recv damaged gdb_buf
    ≡ gdb_recv
        (record ((gdb_write_all damaged (b'-' ∷ [])).0) { incoming = frame (codes "g") })
        gdb_buf
unfolding digits_value checksum
gdb_recv-damaged_example =
    gdb_recv-damaged [] (codes "g") (frame (codes "g")) b'0' b'0' gdb_buf damaged tt (omega arith)
      (omega arith) refl (λ e. absurd (omega arith)) refl

gdb_send_resends_example :
    gdb_send (conn_with (codes "--+$")) (codes "OK") ≡ record (conn_with (codes "--+$")) {
      incoming = codes "$";
      outgoing = times 3 (frame (codes "OK")) [];
      up = 6;
    }
gdb_send_resends_example =
    gdb_send_resends 2 (codes "OK") (codes "$") b'+' (conn_with (codes "--+$")) refl
      (λ e. absurd (omega arith)) (omega arith) refl

reg_from_hex-reg_to_hex_example : reg_from_hex (reg_to_hex 0x1234_abcd ++ codes ";") ≡ 0x1234_abcd
reg_from_hex-reg_to_hex_example = reg_from_hex-reg_to_hex 0x1234_abcd (codes ";") (omega arith)

machine_words : (k : ℕ) → reg_get machine k < 2 ^ 32
unfolding reg_get
machine_words k = ground arith

set_regs-regs_example :
    let t' = set_regs_from gdb_nreg 0 (regs_from gdb_nreg 0 machine) machine in
    (reg_get t' 2 ≡ (if ◌==◌ 2 0 then reg_get machine 0 else reg_get machine 2)) × (t'.host ≡ host)
set_regs-regs_example = set_regs-regs machine machine 2 machine_words (omega arith)

byte_at-eq-mem_xlate_example : byte_at machine riscv_half true ≡ mem_xlate machine riscv_half 1 true
byte_at-eq-mem_xlate_example = byte_at-eq-mem_xlate machine riscv_half true

mem_read-mem_write_example :
    mem_read (mem_write machine riscv_half (1 ∷ 2 ∷ 3 ∷ [])) riscv_half 3 ≡ 1 ∷ 2 ∷ 3 ∷ []
mem_read-mem_write_example =
    mem_read-mem_write machine riscv_half (1 ∷ 2 ∷ 3 ∷ []) (omega arith) (omega arith) (omega arith)

mem_write_confined_example : (mem_write machine 0 (1 ∷ 2 ∷ [])).host 4096 ≡ 0x93
mem_write_confined_example = mem_write_confined (1 ∷ 2 ∷ []) machine 0 4096 (inl (omega arith))

serve_requests-IsTable_example : IsTable (serve_requests (insert 4 ∷ insert 8 ∷ remove 4 ∷ []) [])
serve_requests-IsTable_example =
    serve_requests-IsTable (insert 4 ∷ insert 8 ∷ remove 4 ∷ []) [] (omega arith)

bp_hit-serve_requests_example :
    bp_hit (serve_requests (insert 4 ∷ insert 8 ∷ remove 4 ∷ []) []) 8
    ≡ stands 8 (insert 4 ∷ insert 8 ∷ remove 4 ∷ []) (bp_hit [] 8)
bp_hit-serve_requests_example =
    bp_hit-serve_requests (insert 4 ∷ insert 8 ∷ remove 4 ∷ []) [] 8 (omega arith) (omega arith)

abbrev idle : Stub
idle = record { target = begun; breakpoints = 4 ∷ []; exited = false; wmsg = codes "S05" }

xml_short : length target_xml - 0 < 2000
unfolding target_xml
xml_short = omega arith

fetch_document_whole_example : fetch_document 2000 target_xml 100 0 ≡ some (drop 0 target_xml)
fetch_document_whole_example = fetch_document_whole 2000 target_xml 100 0 (omega arith) xml_short

write_hex-hex_bytes_example :
    write_hex (hex_bytes (0x12 ∷ 0xab ∷ [])) 2 riscv_half machine
    ≡ some (mem_write machine riscv_half (0x12 ∷ 0xab ∷ []))
write_hex-hex_bytes_example =
    write_hex-hex_bytes (0x12 ∷ 0xab ∷ []) riscv_half machine (omega arith)

view-serve_packet_example :
    view_after (serve_packet hooks reported 0 4 (λ i. false) 9 b'g' [] idle) ≡ some (view idle)
view-serve_packet_example =
    view-serve_packet hooks reported 0 4 (λ i. false) 9 b'g' [] idle refl refl (inl refl)

serve_packet_step_example :
    (st' : Stub) × (serve_packet hooks reported 0 4 (λ i. false) 1 b's' (codes "4") idle
      ≡ goes_on st')
    × (◌⊎◌
        ((false ≡ true)
          × (st' ≡ record idle {
            target = record (idle.target) { conn = gdb_send idle.target.conn idle.wmsg };
          }))
        ((false ≡ false)
          × AnswersStep hooks reported 0 4 (λ i. false) idle (record machine { pc = 4 }) st'))
unfolding parse_hex
serve_packet_step_example =
    serve_packet_step hooks reported 0 4 (λ i. false) 0 (codes "4") idle (omega arith)
