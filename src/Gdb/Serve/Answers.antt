-- ===== src/Gdb/Serve/Answers.antt =====
-- A step that the debugger asks for is always answered, and with what.
use purv.Base.{
  ℕ, suc, ◌+◌, ◌^◌, ◌<◌, ◌≡◌, ◌≢◌, ◌⊎◌, refl, ◌%◌, ◌++◌, codes, ==_iff, Bool, true, false, none,
  some, List, ◌==◌, if◌then◌else◌, u32, head_or_nul, Bool-cases, inl, inr, arith,
}
use purv.Engine.{State, Handlers}
use purv.Engine.Memory.{read32}
use purv.Engine.Loop.{leave, loop}
use purv.Engine.Loop.Safety.{run_ends}
use purv.Gdb.Hex.{parse_hex, byte_to_hex, reg_to_hex}
use purv.Gdb.Target.{reg_get}
use purv.Gdb.Packet.{gdb_send}
use purv.Gdb.History.{History, Overwrite, step_one, step_record, record_stores, begin_frame}
use purv.Gdb.Control.Runs.{After-after_step, exits, traps}
use purv.Gdb.Control.{stop_trap, stop_exit, Target, gdb_run}
use purv.Gdb.Serve.Packets.{
  Stub, goes_on, reply, stop_text, send_stop, exit_text, set_machine, report, resume_run, resume_at,
  serve_packet,
}

-- One instruction of the engine ends.
step_one_ends :
    (h : Handlers) (s : State) → s.readonly.len < 2 ^ 32 → (s' : State) × (step_one h s ≡ some s')
unfolding step_one loop
step_one_ends h s small =
    let (e, ended, why) = run_ends h s.readonly 1 s.pc s small in
    ((leave 1 e).0, rw (ended, loop, step_one))

module _ (h : Handlers) (stores : State → List Overwrite) (halted exitcode : ℕ)
    (ready : ℕ → Bool) where
  step_record_ends :
      (hist : History) (s : State)
      → s.readonly.len < 2 ^ 32
      → (hist' : History) × (s' : State) × (step_record h stores hist s ≡ some (hist', s'))
  unfolding step_record
  step_record_ends hist s small =
      let (s', e) = step_one_ends h s small in
      (
        if hist.allocated
            then record (record_stores (begin_frame hist s) (stores s)) { cur = none }
            else hist,
        s',
        rw (e, step_record),
      )

  gdb_run_step :
      (fuel tick : ℕ) (bs : List ℕ) (t : Target)
      → t.machine.readonly.len < 2 ^ 32
      → (hist : History) × (s : State) × (step_record h stores t.history t.machine ≡ some (hist, s))
        × (gdb_run h stores halted ready (suc fuel) tick false bs t
            ≡ some (
              (if read32 s.host halted == 0 then stop_trap else stop_exit),
              record { history = hist; machine = s; conn = t.conn },
            ))
  unfolding gdb_run
  gdb_run_step fuel tick bs t small =
      let (hist, s, stepped) = step_record_ends t.history t.machine small in
      let later = u32 (tick + 1) in
      elim (Bool-cases (read32 s.host halted == 0)) [
        | inl alive ↦
            let now =
              After-after_step h stores halted ready false bs {tick = later} {s = s} {c = t.conn}
                (traps ((==_iff (read32 s.host halted) 0).0 alive) (inl refl)) in
            (hist, s, stepped, rw (stepped, now, alive, gdb_run, now) refl)
        | inr over ↦
            let now =
              After-after_step h stores halted ready false bs {tick = later} {s = s} {c = t.conn}
                (exits (ground arith)) in
            (hist, s, stepped, rw (stepped, now, over, gdb_run, now) refl)
      ]

  -- The stub with the machine and the history after a step, and a text sent.
  abbrev pub told : Stub → History → State → List ℕ → Stub
  told st hist s text = record st {
    target = record { history = hist; machine = s; conn = gdb_send st.target.conn text };
  }

  -- The stop reply for SIGTRAP, with pc and the stack pointer, and the one for the end of the program.
  abbrev pub trap_reply : State → List ℕ
  trap_reply s =
      codes "T0520:"
      ++ (reg_to_hex s.pc ++ (codes ";02:" ++ (reg_to_hex (s.x 2) ++ codes ";thread:1;")))

  abbrev pub exit_reply : State → List ℕ
  exit_reply s = codes "W" ++ byte_to_hex (read32 s.host exitcode % 2 ^ 8)

  -- The stub after one recorded step from `start`, and its answer: where the host's flag shows that the
  -- program has ended, the stub keeps and sends the end; where not, it sends the trap.
  abbrev pub AnswersStep : Stub → State → Stub → Type 0
  AnswersStep st start st' =
      (hist : History) × (s : State) × (step_record h stores st.target.history start
        ≡ some (hist, s))
      × (((read32 s.host halted ≢ 0)
            × (st' ≡ told (record st { exited = true; wmsg = exit_reply s }) hist s (exit_reply s)))
          ⊎ ((read32 s.host halted ≡ 0) × (st' ≡ told st hist s (trap_reply s))))

  resume_run_step :
      (fuel : ℕ) (st : Stub)
      → st.target.machine.readonly.len < 2 ^ 32
      → (st' : Stub) × (resume_run h stores halted exitcode ready (suc fuel) false st ≡ goes_on st')
        × AnswersStep st st.target.machine st'
  unfolding resume_run report send_stop stop_text exit_text reply reg_get byte_to_hex
  resume_run_step fuel st small =
      let (hist, s, stepped, ran) = gdb_run_step fuel 0 st.breakpoints st.target small in
      elim (Bool-cases (read32 s.host halted == 0)) [
        | inl alive ↦ (
          told st hist s (trap_reply s),
          rw (ran, alive, resume_run) refl,
          (hist, s, stepped, inr ((==_iff (read32 s.host halted) 0).0 alive, refl)),
        )
        | inr over ↦ (
          told (record st { exited = true; wmsg = exit_reply s }) hist s (exit_reply s),
          rw (ran, over, resume_run) refl,
          (hist, s, stepped, inl (ground arith, refl)),
        )
      ]

  -- An `s` packet at whatever state of the machine, on one round of fuel or more, where the code length
  -- is a 32-bit number: the stub goes on to the next packet. After the program's exit only the kept
  -- answer is sent again. Before it the machine does one recorded step, from its pc or from the address
  -- that the packet gives, and the stub sends the trap with the new pc and stack pointer; or, where the
  -- step ended the program, it sends the exit code, and keeps it and that the program has ended.
  pub serve_packet_step :
      (fuel : ℕ) (buf : List ℕ) (st : Stub)
      → st.target.machine.readonly.len < 2 ^ 32
      → let s = st.target.machine in
        let start = if head_or_nul buf == 0 then s else record s { pc = (parse_hex buf).0 } in
        (st' : Stub) × (serve_packet h stores halted exitcode ready (suc fuel) b's' buf st
          ≡ goes_on st')
        × (((st.exited ≡ true)
              × (st' ≡ record st {
                target = record (st.target) { conn = gdb_send st.target.conn st.wmsg };
              }))
            ⊎ ((st.exited ≡ false) × AnswersStep st start st'))
  unfolding serve_packet resume_at reply
  serve_packet_step fuel buf st small =
      let s = st.target.machine in
      let (st₁, e₁, here) = resume_run_step fuel st small in
      let (st₂, e₂, there) =
        resume_run_step fuel (set_machine st (record s { pc = (parse_hex buf).0 })) small in
      elim (Bool-cases st.exited) [
        | inl over ↦ (reply st st.wmsg, ground arith, inl (over, refl))
        | inr alive ↦ elim (Bool-cases (head_or_nul buf == 0)) [
          | inl bare ↦ (st₁, ground (arith, e₁), inr (alive, rw bare here))
          | inr addressed ↦ (st₂, ground (arith, e₂), inr (alive, rw addressed there))
        ]
      ]
