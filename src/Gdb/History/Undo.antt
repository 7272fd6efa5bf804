-- ===== src/Gdb/History/Undo.antt =====
-- The bytes that a step's stores overwrote bring its memory back.
use purv.Base.{
  ℕ, ◌+◌, ◌^◌, ◌≤◌, ◌<◌, ◌≡◌, refl, ap, ◌∙◌, fun_ext, List, [], ◌∷◌, length, sub32, arith,
}
use purv.Engine.{Region, State, update}
use purv.Gdb.Target.{mem_write}
use purv.Gdb.Target.Memory.{blit, slice, mem_write_hit, mem_write-writable}
use purv.Gdb.History.{Overwrite, undo_writes}

-- The host address of a guest address in the writable region.
abbrev pub storage : Region → ℕ → ℕ
storage r addr = r.ptr + sub32 addr r.base

-- From one memory to another by stores into the writable region, each reported with the bytes that it
-- overwrote.
pub data Logged (r : Region) : (ℕ → ℕ) → List Overwrite → (ℕ → ℕ) → Type 0 where
  no_store : {host : ℕ → ℕ} → Logged r host [] host
  store :
      {host host' : ℕ → ℕ} {ws : List Overwrite} (addr : ℕ) (old new : List ℕ)
      → sub32 addr r.base + length old ≤ r.len
      → length new ≡ length old
      → old ≡ slice host (storage r addr) (length new)
      → Logged r (blit host (storage r addr) new) ws host'
      → Logged r host (record { addr = addr; old = old } ∷ ws) host'

update-update : (host : ℕ → ℕ) (p v w : ℕ) → update (update host p v) p w ≡ update host p w
update-update host p v w = fun_ext (λ q. ground arith)

update_same : (host : ℕ → ℕ) (p : ℕ) → update host p (host p) ≡ host
update_same host p = fun_ext (λ q. ground arith)

update_comm :
    (host : ℕ → ℕ) (p q v w : ℕ)
    → p < q
    → update (update host q w) p v ≡ update (update host p v) q w
update_comm host p q v w h = fun_ext (λ r. ground arith)

update-blit :
    (src : List ℕ) (host : ℕ → ℕ) (p q v : ℕ)
    → p < q
    → update (blit host q src) p v ≡ blit (update host p v) q src
update-blit [] host p q v h = refl
update-blit (b ∷ src) host p q v h =
    update-blit src (update host q b) p (q + 1) v (omega arith)
    ∙ ap (λ (m : ℕ → ℕ). blit m (q + 1) src) (update_comm host p q v b h)

-- What stood there, written back.
blit-slice :
    (new : List ℕ) (host : ℕ → ℕ) (p : ℕ)
    → blit (blit host p new) p (slice host p (length new)) ≡ host
blit-slice [] host p = refl
blit-slice (b ∷ new) host p =
    let n = length new in
    ap (λ (m : ℕ → ℕ). blit m (p + 1) (slice host (p + 1) n))
      (update-blit new (update host p b) p (p + 1) (host p) (omega arith)
        ∙ ap (λ (m : ℕ → ℕ). blit m (p + 1) new)
            (update-update host p b (host p) ∙ update_same host p))
    ∙ blit-slice new host (p + 1)

pub undo_writes-writable :
    (ws : List Overwrite) (s : State) → (undo_writes ws s).writable ≡ s.writable
unfolding undo_writes
undo_writes-writable [] s = refl
undo_writes-writable (w ∷ ws) s =
    mem_write-writable w.old (undo_writes ws s) w.addr ∙ undo_writes-writable ws s

mem_write-host :
    (s : State) (r : Region) (addr : ℕ) (src : List ℕ)
    → s.writable ≡ r
    → r.len ≤ 2 ^ 32
    → r.base < 2 ^ 32
    → sub32 addr r.base + length src ≤ r.len
    → (mem_write s addr src).host ≡ blit s.host (storage r addr) src
mem_write-host s r addr src e small low fits =
    ap (λ (t : State). t.host) (mem_write_hit src s addr (rw e small) (rw e low) (rw e fits))
    ∙ ap (λ (t : Region). blit s.host (storage t addr) src) e

pub undo_writes-Logged :
    {r : Region} {host host' : ℕ → ℕ} {ws : List Overwrite}
    → Logged r host ws host'
    → (s : State) → s.writable ≡ r
    → s.host ≡ host'
    → r.len ≤ 2 ^ 32
    → r.base < 2 ^ 32
    → (undo_writes ws s).host ≡ host
unfolding undo_writes
undo_writes-Logged no_store s er eh small low = eh
undo_writes-Logged {r} {host = host} (store {ws = ws} addr old new fits same kept rest) s er eh
      small low =
    let u = undo_writes ws s in
    mem_write-host u r addr old (undo_writes-writable ws s ∙ er) small low fits
    ∙ ap (λ (m : ℕ → ℕ). blit m (storage r addr) old) (undo_writes-Logged rest s er eh small low)
    ∙ ap (blit (blit host (storage r addr) new) (storage r addr)) kept
    ∙ blit-slice new host (storage r addr)
