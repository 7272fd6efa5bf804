-- ===== src/Gdb/Query.antt =====
-- emu/gdbstub.c, the q packets and the target description.
pub mod Chunks
use purv.Base.{
  ℕ, zero, suc, ◌+◌, ◌-◌, Bool, Option, none, some, List, [], ◌∷◌, ◌++◌, length, take, drop, ltb,
  leb, min, if◌then◌else◌, codes, str_eq, starts_with, after_char, skip_char, decimal,
}
use Prim.Native.String.{String}
use purv.Gdb.Hex.{parse_hex}
use purv.Gdb.Packet.{Conn, gdb_buf, gdb_send}

abbrev pub register_names : List String
register_names =
    "zero" ∷ "ra" ∷ "sp" ∷ "gp" ∷ "tp" ∷ "t0" ∷ "t1" ∷ "t2" ∷ "fp" ∷ "s1" ∷ "a0" ∷ "a1" ∷ "a2"
    ∷ "a3" ∷ "a4" ∷ "a5" ∷ "a6" ∷ "a7" ∷ "s2" ∷ "s3" ∷ "s4" ∷ "s5" ∷ "s6" ∷ "s7" ∷ "s8" ∷ "s9"
    ∷ "s10" ∷ "s11" ∷ "t3" ∷ "t4" ∷ "t5" ∷ "t6" ∷ []

-- The elements for the registers from number `i` on.
unfoldable pub reg_elements : List String → ℕ → List ℕ
reg_elements [] i = []
reg_elements (name ∷ names) i =
    codes "<reg name=\""
    ++ (codes name
        ++ (codes "\" bitsize=\"32\" regnum=\""
            ++ (decimal i ++ (codes "\"/>\n" ++ reg_elements names (i + 1)))))

-- `target_xml`; the text fits into the array, so `snprintf` cuts nothing.
unfoldable pub target_xml : List ℕ
unfolding reg_elements
target_xml =
    codes "<?xml version=\"1.0\"?>\n"
    ++ (codes "<!DOCTYPE target SYSTEM \"gdb-target.dtd\">\n"
        ++ (codes "<target version=\"1.0\">\n"
            ++ (codes "<architecture>riscv:rv32</architecture>\n"
                ++ (codes "<feature name=\"org.gnu.gdb.riscv.cpu\">\n"
                    ++ (reg_elements register_names 0
                        ++ (codes
                              "<reg name=\"pc\" bitsize=\"32\" type=\"code_ptr\" regnum=\"32\"/>\n"
                            ++ codes "</feature>\n</target>\n"))))))

-- The answer to a request for `want` characters of a document from `off` on: `m` or `l`, for more or
-- last, and the characters.
unfoldable pub xfer_chunk : List ℕ → ℕ → ℕ → List ℕ
xfer_chunk xml off want =
    let total = length xml in
    let chunk = min (min (total - off) want) (gdb_buf - 8) in
    if leb total off
    then codes "l"
    else (if ltb (off + chunk) total then b'm' else b'l') ∷ take chunk (drop off xml)

-- `qXfer:features:read:`, from behind these words on.
unfoldable pub handle_xfer : List ℕ → List ℕ
unfolding xfer_chunk target_xml parse_hex
handle_xfer p = elim (after_char b':' p) [
  | none ↦ codes "E00"
  | some q ↦
      let (off, q') = parse_hex q in
      let (want, q'') = parse_hex (skip_char b',' q') in
      if starts_with p (codes "target.xml") then xfer_chunk target_xml off want else codes "E00"
]

-- What `handle_q` sends.
unfoldable pub query_reply : List ℕ → List ℕ
unfolding handle_xfer
query_reply buf =
    if starts_with buf (codes "qSupported")
    then codes "PacketSize=1000;qXfer:features:read+;ReverseStep+;ReverseContinue+;"
      ++ codes "vContSupported+;QStartNoAckMode+"
    else if str_eq buf (codes "qAttached")
    then codes "1"
    else if str_eq buf (codes "qC")
    then codes "QC1"
    else if str_eq buf (codes "qfThreadInfo")
    then codes "m1"
    else if str_eq buf (codes "qsThreadInfo")
    then codes "l"
    else if starts_with buf (codes "qXfer:features:read:")
    then handle_xfer (drop 20 buf)
    else []

unfoldable pub handle_q : Conn → List ℕ → Conn
unfolding query_reply gdb_send
handle_q c buf = gdb_send c (query_reply buf)
