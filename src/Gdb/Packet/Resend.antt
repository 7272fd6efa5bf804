-- ===== src/Gdb/Packet/Resend.antt =====
-- `gdb_send` sends a frame again as often as the debugger asks for it.
use purv.Base.{ℕ, zero, suc, ◌-◌, ◌<◌, ◌≡◌, ◌≢◌, ap, ◌∙◌, false, List, [], ◌∷◌, ◌++◌, arith}
use mathlib.Core.List.{append_assoc, append-nil}
use purv.Gdb.Packet.{Conn, frame, send_loop, gdb_send}

-- `k` copies of a piece, and then `s`.
abbrev pub times : ℕ → List ℕ → List ℕ → List ℕ
times zero p s = s
times (suc k) p s = p ++ times k p s

send_loop_answered :
    (p s : List ℕ) (a : ℕ) (c : Conn)
    → c.noack ≡ false
    → a ≢ b'-'
    → 0 < c.up
    → send_loop p (a ∷ s) c ≡ record c { incoming = s; outgoing = c.outgoing ++ p; up = c.up - 1 }
unfolding send_loop
send_loop_answered p s a c acks fine up = ground arith

send_loop_again :
    (p s : List ℕ) (c : Conn)
    → c.noack ≡ false
    → 0 < c.up
    → send_loop p (b'-' ∷ s) c
      ≡ send_loop p s (record c { outgoing = c.outgoing ++ p; up = c.up - 1 })
unfolding send_loop
send_loop_again p s c acks up = ground arith

send_loop_resends :
    (k : ℕ) (p s : List ℕ) (a : ℕ) (c : Conn)
    → c.noack ≡ false
    → a ≢ b'-'
    → k < c.up
    → send_loop p (times k (b'-' ∷ []) (a ∷ s)) c
      ≡ record c { incoming = s; outgoing = c.outgoing ++ times (suc k) p []; up = c.up - suc k }
send_loop_resends zero p s a c acks fine up =
    rw append-nil (send_loop_answered p s a c acks fine (omega arith))
send_loop_resends (suc k) p s a c acks fine up =
    let sent : Conn = record c { outgoing = c.outgoing ++ p; up = c.up - 1 } in
    let left : c.up - 1 - suc k ≡ c.up - suc (suc k) = omega arith in
    send_loop_again p (times k (b'-' ∷ []) (a ∷ s)) c acks (omega arith)
    ∙ (send_loop_resends k p s a sent acks fine (omega arith) ∙ rw (append_assoc, left))

-- In ack mode, on a connection that stays up long enough, when the debugger answers `k` times by `-`
-- and then by another character: the frame is sent `k + 1` times and nothing else, the answers and
-- no more are taken from the incoming characters.
pub gdb_send_resends :
    (k : ℕ) (text s : List ℕ) (a : ℕ) (c : Conn)
    → c.noack ≡ false
    → a ≢ b'-'
    → k < c.up
    → c.incoming ≡ times k (b'-' ∷ []) (a ∷ s)
    → gdb_send c text ≡ record c {
      incoming = s;
      outgoing = c.outgoing ++ times (suc k) (frame text) [];
      up = c.up - suc k;
    }
unfolding gdb_send
gdb_send_resends k text s a c acks fine up e =
    ap (λ (l : List ℕ). send_loop (frame text) l c) e
    ∙ send_loop_resends k (frame text) s a c acks fine up
