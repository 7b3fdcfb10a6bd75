-- ===== src/Console.antt =====
-- foundation/observe/console.c and foundation/observe/sink.c: the text of a log record, and the
-- characters that go to the serial port. The sink keeps the characters in the order in which
-- `nxu_pl011_write` of silicon/aarch64/uart/pl011.c hands them to `nxu_pl011_putc`.
pub mod Records
use Prim.Native.Char.{code}
use Prim.Native.String.{String}
use nxu.Base.{
  ℕ, zero, suc, ◌+◌, ◌-◌, ◌/◌, ◌%◌, ◌^◌, Bool, true, not, ◌&&◌, Option, none, some, List, [], ◌∷◌,
  ◌++◌, ltb, ◌==◌, ◌!=◌, if◌then◌else◌,
}
use nxu.Observe.{Observe, Site, BboxRec, Bbox, cpu_bound, dump_records}
use nxu.Codes

-- `struct nxu_log_record`; `site` is `func`, `file` and `line`
pub record LogRecord : Type 0 where
  pub event : ℕ
  pub severity : ℕ
  pub subsystem : ℕ
  pub cpu : ℕ
  pub v0 : ℕ
  pub v1 : ℕ
  pub v2 : ℕ
  pub site : Option Site

-- `nxu_sink_ready`, `nxu_sink_base`, and what has been written
pub record Sink : Type 0 where
  pub ready : Bool
  pub base : ℕ
  pub output : List ℕ

abbrev pub Text : Type 0
Text = List ℕ

-- the bytes of an ASCII text
abbrev pub txt : String → Text
txt String.[] = []
txt (String.◌∷◌ c s) = code c ∷ txt s

-- `nxu_pl011_write`: a carriage return before each line feed
unfoldable pub pl011_write : Text → Text
pl011_write [] = []
pl011_write (c ∷ s) = if c == 10 then 13 ∷ (10 ∷ pl011_write s) else c ∷ pl011_write s

-- `nxu_sink_write`
unfoldable pub sink_write : Text → Sink → Sink
unfolding pl011_write
sink_write s k = if k.ready then record k { output = k.output ++ pl011_write s } else k

-- `nxu_sink_bind`
unfoldable pub sink_bind : ℕ → Sink → Sink
sink_bind uart_pa k = record k { base = uart_pa; ready = true }

-- the digit `d[n]` of `nxu_sink_hex`
hex_digit : ℕ → ℕ
hex_digit n = if ltb n 10 then b'0' + n else b'a' + (n - 10)

-- the loop of `nxu_sink_hex` from `i` down to 1
hex_loop : ℕ → ℕ → Text
unfolding hex_digit
hex_loop zero v = []
hex_loop (suc i) v = hex_digit (v / 16 ^ i % 16) ∷ hex_loop i v

-- the text of `nxu_sink_hex`
unfoldable pub hex : ℕ → ℕ → Text
unfolding hex_loop
hex v nibbles = hex_loop (if nibbles == 0 then 16 else if ltb 16 nibbles then 16 else nibbles) v

-- the loop of `sink_u32`, which fills the buffer from its end; a 32-bit word has ten digits at most
u32_loop : ℕ → ℕ → Text → Text
u32_loop zero v p = p
u32_loop (suc rounds) v p =
    let rest = u32_loop rounds (v / 10) ((b'0' + v % 10) ∷ p) in if v == 0 then p else rest

-- the text of `sink_u32`
unfoldable pub u32 : ℕ → Text
unfolding u32_loop
u32 v = if v == 0 then txt "0" else u32_loop 10 v []

-- the loop of `base_name`
base_loop : Text → Text → Text
base_loop s [] = s
base_loop s (c ∷ path) = base_loop (if c == b'/' then path else s) path

-- `base_name`
unfoldable pub base_name : Text → Text
unfolding base_loop
base_name path = base_loop path path

pub nl : Text
nl = 10 ∷ []

-- `say`
pub say : String → Text
unfolding nl
say sentence = txt "[NXU] " ++ (txt sentence ++ nl)

-- `write_mach`
pub write_mach : ℕ → Text
write_mach id =
    if id == Codes.mach_waker
    then txt "waker"
    else if id == Codes.mach_gicd_ctlr
    then txt "gicd-ctlr"
    else if id == Codes.mach_igroupr0
    then txt "igroupr0"
    else if id == Codes.mach_isenabler0
    then txt "isenabler0"
    else if id == Codes.mach_ispendr0
    then txt "ispendr0"
    else if id == Codes.mach_igrpmodr0
    then txt "igrpmodr0"
    else if id == Codes.mach_daif
    then txt "daif"
    else if id == Codes.mach_hcr
    then txt "hcr"
    else if id == Codes.mach_isr
    then txt "isr"
    else if id == Codes.mach_igrpen1
    then txt "igrpen1"
    else if id == Codes.mach_hppir1
    then txt "hppir1"
    else if id == Codes.mach_hppir0
    then txt "hppir0"
    else if id == Codes.mach_t0
    then txt "t0"
    else if id == Codes.mach_tnow
    then txt "tnow"
    else if id == Codes.mach_tval
    then txt "tval"
    else if id == Codes.mach_istatus
    then txt "istatus"
    else if id == Codes.mach_cntp_ctl
    then txt "cntp-ctl"
    else if id == Codes.mach_cntp_cval
    then txt "cntp-cval"
    else txt "mach"

write_aff : ℕ → ℕ → ℕ → ℕ → Text
unfolding u32
write_aff a3 a2 a1 a0 =
    txt "Aff3."
    ++ (u32 a3
        ++ (txt " Aff2." ++ (u32 a2 ++ (txt " Aff1." ++ (u32 a1 ++ (txt " Aff0." ++ u32 a0))))))

-- `write_aff64`
pub write_aff64 : ℕ → Text
unfolding write_aff
write_aff64 m = write_aff (m / 2 ^ 32 % 256) (m / 2 ^ 16 % 256) (m / 2 ^ 8 % 256) (m % 256)

-- `write_aff32`
pub write_aff32 : ℕ → Text
unfolding write_aff
write_aff32 a = write_aff (a / 2 ^ 24 % 256) (a / 2 ^ 16 % 256) (a / 2 ^ 8 % 256) (a % 256)

-- `(nxu_u32)` in front of a 64-bit value
pub low32 : ℕ → ℕ
low32 v = v % 2 ^ 32
