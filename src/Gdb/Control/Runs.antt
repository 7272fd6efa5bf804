-- ===== src/Gdb/Control/Runs.antt =====
-- How far a forward run goes, and why it stops there.
use purv.Base.{
  ℕ, zero, suc, ◌+◌, ◌%◌, ◌^◌, ◌≤◌, ◌≡◌, ◌≢◌, ◌⊎◌, ◌↔◌, ◌==◌, ==_iff, ◌∙◌, ◌&&◌, inl, inr, refl,
  sym, ap, Bool, true, false, not, ◌||◌, Option, none, some, List, [], ◌∷◌, u32, Bool-cases,
  Option-cases, arith,
}
use mathlib.Core.Path.{subst}
use purv.Engine.{State, Handlers}
use purv.Engine.Memory.{read32}
use purv.Gdb.Packet.{Conn}
use purv.Gdb.Breakpoints.{bp_hit}
use purv.Gdb.History.{History, Overwrite, step_record}
use purv.Gdb.Control.{Stop, stop_trap, stop_int, stop_exit, Target, after_step, gdb_run}

module _ (h : Handlers) (stores : State → List Overwrite) (halted : ℕ) (ready : ℕ → Bool)
    (cont : Bool) (bs : List ℕ) where
  -- Whether the run looks at the connection at this count.
  abbrev pub Polls : ℕ → Type 0
  Polls tick = (tick % 1024 ≡ 0) × (ready tick ≡ true)

  -- A state that is no reason to stop.
  abbrev pub Passes : State → Type 0
  Passes s = (read32 s.host halted ≡ 0) × (cont ≡ true) × (bp_hit bs s.pc ≡ false)

  -- `After tick s c o c'`: with the state `s` after a step, the count `tick` and the connection `c`, the
  -- run stops for the reason `o`, or goes on, and leaves the connection `c'`.
  pub data After (tick : ℕ) (s : State) (c : Conn) : Option Stop → Conn → Type 0 where
    exits : read32 s.host halted ≢ 0 → After tick s c (some stop_exit) c
    traps :
        read32 s.host halted ≡ 0
        → (cont ≡ false) ⊎ (bp_hit bs s.pc ≡ true)
        → After tick s c (some stop_trap) c
    interrupted :
        {rest : List ℕ}
        → Passes s
        → Polls tick
        → c.incoming ≡ 3 ∷ rest
        → After tick s c (some stop_int) (record c { incoming = rest })
    skips :
        {b : ℕ} {rest : List ℕ}
        → Passes s
        → Polls tick
        → c.incoming ≡ b ∷ rest
        → b ≢ 3
        → After tick s c none (record c { incoming = rest })
    closed : Passes s → Polls tick → c.incoming ≡ [] → After tick s c none c
    quiet : Passes s → (tick % 1024 ≢ 0) ⊎ (ready tick ≡ false) → After tick s c none c

  -- `Runs tick t n why t'`: from the count `tick` and the target `t`, `n` recorded steps and not less
  -- come to `t'`, and the run stops there for the reason `why`.
  pub data Runs : ℕ → Target → ℕ → Stop → Target → Type 0 where
    stops_here :
        {tick : ℕ} {t t' : Target} {why : Stop}
        → step_record h stores t.history t.machine ≡ some (t'.history, t'.machine)
        → After ((tick + 1) % 2 ^ 32) t'.machine t.conn (some why) t'.conn
        → Runs tick t 1 why t'
    steps_on :
        {tick n : ℕ} {t t₁ t' : Target} {why : Stop}
        → step_record h stores t.history t.machine ≡ some (t₁.history, t₁.machine)
        → After ((tick + 1) % 2 ^ 32) t₁.machine t.conn none t₁.conn
        → Runs ((tick + 1) % 2 ^ 32) t₁ n why t'
        → Runs tick t (suc n) why t'

  pub After-after_step :
      {tick : ℕ} {s : State} {c c' : Conn} {o : Option Stop}
      → After tick s c o c'
      → after_step h stores halted ready cont bs tick s c ≡ (o, c')
  unfolding after_step
  After-after_step (exits over) = ground arith
  After-after_step (traps alive why) = ground arith
  After-after_step (interrupted goes polls e) = rw e (ground arith)
  After-after_step (skips goes polls e other) = rw e (ground arith)
  After-after_step (closed goes polls e) = rw e (ground arith)
  After-after_step (quiet goes why) = ground arith

  -- A relation that the code's tests come to holds of what they come to.
  settled :
      {tick : ℕ} {s : State} {c c' : Conn} {o : Option Stop}
      → After tick s c o c'
      → let r = after_step h stores halted ready cont bs tick s c in After tick s c (r.0) (r.1)
  settled {tick} {s} {c} a =
      subst (λ (r : Option Stop × Conn). After tick s c (r.0) (r.1)) (sym (After-after_step a)) a

  -- What is read where the run looks at the connection.
  polled :
      (tick : ℕ) (s : State) (c : Conn) (text : List ℕ)
      → c.incoming ≡ text
      → Passes s
      → Polls tick
      → let r = after_step h stores halted ready cont bs tick s c in After tick s c (r.0) (r.1)
  polled tick s c [] e goes polls = settled (closed goes polls e)
  polled tick s c (b ∷ rest) e goes polls = elim (Bool-cases (b == 3)) [
    | inl three ↦
        settled (interrupted goes polls (e ∙ ap (λ (x : ℕ). x ∷ rest) ((==_iff b 3).0 three)))
    | inr other ↦ settled (skips goes polls e (ground arith))
  ]

  after_step-After :
      (tick : ℕ) (s : State) (c : Conn)
      → let r = after_step h stores halted ready cont bs tick s c in After tick s c (r.0) (r.1)
  after_step-After tick s c = elim (Bool-cases (read32 s.host halted == 0)) [
    | inr over ↦ settled (exits (ground arith))
    | inl alive ↦
        let on : read32 s.host halted ≡ 0 = ground arith in
        elim (Bool-cases (not cont || bp_hit bs s.pc)) [
          | inl here ↦ settled (traps on (ground arith))
          | inr goes ↦
              let passes : Passes s = (on, ground arith, ground arith) in
              elim (Bool-cases (tick % 1024 == 0 && ready tick)) [
                | inl polls ↦ polled tick s c c.incoming refl passes (ground arith)
                | inr silent ↦ settled (quiet passes (ground arith))
              ]
        ]
  ]

  -- Inversion of the branch after a step.
  resumed :
      (o : Option Stop × Conn) (again : Conn → Option (Stop × Target)) (hist : History) (s : State)
      (why : Stop) (t' : Target)
      → ◌≡◌ {A = Option (Stop × Target)}
          (elim (o.0) [
            | none ↦ again (o.1)
            | some w ↦ some (w, record { history = hist; machine = s; conn = o.1 })
          ])
          (some (why, t'))
      → ((o.0 ≡ none) × (again (o.1) ≡ some (why, t')))
        ⊎ ((o.0 ≡ some why) × (t' ≡ record { history = hist; machine = s; conn = o.1 }))
  resumed (none, c) again hist s why t' e = inl (refl, e)
  resumed (some w, c) again hist s why t' e = inr (cc, cc)

  gdb_run_sound :
      (fuel tick : ℕ) (t t' : Target) (why : Stop)
      → gdb_run h stores halted ready fuel tick cont bs t ≡ some (why, t')
      → (n : ℕ) × (n ≤ fuel) × Runs tick t n why t'
  unfolding gdb_run
  gdb_run_sound zero tick t t' why e = cc
  gdb_run_sound (suc fuel) tick t t' why e =
      elim (Option-cases (step_record h stores t.history t.machine)) [
        | inl none_left ↦ let no = rw (none_left, gdb_run) at e in cc no
        | inr ((hist, s), stepped) ↦
            let tick' = u32 (tick + 1) in
            let checked = after_step h stores halted ready cont bs tick' s t.conn in
            let after = after_step-After tick' s t.conn in
            let again = λ (c : Conn).
              gdb_run h stores halted ready fuel tick' cont bs
                (record { history = hist; machine = s; conn = c }) in
            elim (resumed checked again hist s why t' (rw (stepped, gdb_run) at e)) [
              | inl (going, later) ↦
                  let t₁ : Target = record { history = hist; machine = s; conn = checked.1 } in
                  let (n, few, runs) = gdb_run_sound fuel tick' t₁ t' why later in
                  (
                    suc n,
                    omega (arith, few),
                    steps_on {t₁ = t₁} stepped
                        (subst (λ (o : Option Stop). After tick' s t.conn o (checked.1)) going
                          after)
                        runs,
                  )
              | inr (stopped, here) ↦ (
                1,
                omega arith,
                stops_here (rw here stepped) (
                    rw here (
                      subst (λ (o : Option Stop). After tick' s t.conn o (checked.1)) stopped
                        after)),
              )
            ]
      ]

  gdb_run_complete :
      {tick n : ℕ} {t t' : Target} {why : Stop}
      → Runs tick t n why t'
      → (fuel : ℕ) → n ≤ fuel
      → gdb_run h stores halted ready fuel tick cont bs t ≡ some (why, t')
  unfolding gdb_run
  gdb_run_complete (stops_here stepped after) zero enough = absurd (omega arith)
  gdb_run_complete (stops_here stepped after) (suc fuel) enough =
      rw (stepped, After-after_step after, gdb_run, After-after_step after) refl
  gdb_run_complete (steps_on stepped after later) zero enough = absurd (omega arith)
  gdb_run_complete (steps_on stepped after later) (suc fuel) enough =
      rw (stepped, After-after_step after, gdb_run, After-after_step after)
        (gdb_run_complete later fuel (omega arith))

  -- A forward run on fuel and its specification by steps are the same: `gdb_run` returns a reason and a
  -- target with the fuel given if and only if some number of recorded steps within the fuel leads to
  -- that target and the run stops there for that reason, and at none of the states before. It stops
  -- after an exit, which the host's flag shows; else at the first step that is a single step or comes to
  -- a breakpoint; else where it looks at the connection, at every 1024th count at which a character is
  -- ready, and the character is 0x03. Another character is dropped and the run goes on.
  pub gdb_run-Runs :
      (fuel tick : ℕ) (t t' : Target) (why : Stop)
      → (gdb_run h stores halted ready fuel tick cont bs t ≡ some (why, t'))
        ↔ ((n : ℕ) × (n ≤ fuel) × Runs tick t n why t')
  gdb_run-Runs fuel tick t t' why =
      (gdb_run_sound fuel tick t t' why, λ (n, few, runs). gdb_run_complete runs fuel few)
