-- ===== src/World.antt =====
-- What the components do with the state of the kernel: accesses to the machine, records and the log.
-- `nxu_fail` records the failure (foundation/observe/fail.c) and does not return.
pub mod Halting
pub use nxu.State.{
  Intake, Image, MemFact, CpuFact, CtlFact, Facts, DtbCand, BoardFacts, OwnerRegion, Space,
  ExecContext, Cpu, Signal, Gate, Rooms, World,
}
use nxu.Base.{
  ℕ, ◌+◌, ◌-◌, ◌*◌, ◌/◌, ◌%◌, ◌^◌, Bool, none, some, List, ◌∷◌, ltb, if◌then◌else◌, Failure, ok,
  halted, Cmd, modify, update,
}
use nxu.Hardware.{Access}
use nxu.Mmu.{Mmu}
use nxu.Observe.{chronicle_put, chronicle_fail, mark_site, slot_of}
use nxu.Console.{LogRecord}
use nxu.Console.Records.{console_record, bbox_dump}
use nxu.Codes.{ev_fail, sev_note, sev_fail, sub_fail}

-- `nxu_this_logical`
abbrev pub this_logical : World → ℕ
this_logical w = w.tpidr % 2 ^ 32

-- an access that the machine answers
unfoldable pub ask : Access → Cmd World ℕ
ask a w = ok (w.machine w.trace a) (record w { trace = a ∷ w.trace })

-- an access with no answer
unfoldable pub tell : Access → Cmd World (Unit {0})
tell a w = ok tt (record w { trace = a ∷ w.trace })

-- a store into the CPU `id` of the array
abbrev pub set_cpu : ℕ → (Cpu → Cpu) → Cmd World (Unit {0})
set_cpu id f = modify (λ w. record w { cpu = update w.cpu id (f (w.cpu id)) })

-- `nxu_chronicle_put`
unfoldable pub put : ℕ → ℕ → ℕ → Cmd World (Unit {0})
put code a b w = ok tt (record w { observe = chronicle_put (this_logical w) code a b w.observe })

-- `nxu_log`
unfoldable pub log_record : LogRecord → Cmd World (Unit {0})
log_record r w = ok tt (record w {
  observe = chronicle_put (this_logical w) r.event r.v0 r.v1 w.observe;
  sink = console_record r w.sink;
})

-- `NXU_LOG3`
unfoldable pub log3 : ℕ → ℕ → ℕ → ℕ → ℕ → Cmd World (Unit {0})
unfolding log_record
log3 event subsystem v0 v1 v2 w =
    log_record
      (record {
        event = event;
        severity = sev_note;
        subsystem = subsystem;
        cpu = slot_of (this_logical w);
        v0 = v0;
        v1 = v1;
        v2 = v2;
        site = none;
      })
      w

-- `NXU_LOG`
unfoldable pub log : ℕ → ℕ → ℕ → ℕ → Cmd World (Unit {0})
unfolding log3
log event subsystem v0 v1 = log3 event subsystem v0 v1 0

-- `nxu_fail_at`: the failure slot, the fail line, the black boxes, and the halt
unfoldable pub fail_with : {A : Type 0} → Failure → Cmd World A
fail_with f w =
    let cpu = this_logical w in
    let o = chronicle_fail cpu f.code f.a f.b (mark_site cpu (w.site_of f) w.observe) in
    let o' = chronicle_put cpu ev_fail f.code f.a o in
    let line : LogRecord = record {
      event = ev_fail;
      severity = sev_fail;
      subsystem = sub_fail;
      cpu = slot_of cpu;
      v0 = f.code;
      v1 = f.a;
      v2 = f.b;
      site = some (w.site_of f);
    } in
    halted f (record w { observe = o'; sink = bbox_dump o' (console_record line w.sink) })

-- `nxu_fail`
unfoldable pub fail : {A : Type 0} → ℕ → ℕ → ℕ → Cmd World A
unfolding fail_with
fail code a b = fail_with (record { code = code; a = a; b = b })

-- a command of mmu.c, whose `nxu_fail` is that of the kernel
unfoldable pub in_mmu : {A : Type 0} → Cmd Mmu A → Cmd World A
in_mmu c w = elim (c w.mmu) [
  | ok a m ↦ ok a (record w { mmu = m })
  | halted f m ↦ fail_with f (record w { mmu = m })
]

-- a 64-bit word in memory, its low byte first
unfoldable pub word_at : (ℕ → ℕ) → ℕ → ℕ
word_at mem a =
    mem a
    + mem (a + 1) * 2 ^ 8
    + mem (a + 2) * 2 ^ 16
    + mem (a + 3) * 2 ^ 24
    + mem (a + 4) * 2 ^ 32
    + mem (a + 5) * 2 ^ 40
    + mem (a + 6) * 2 ^ 48
    + mem (a + 7) * 2 ^ 56

-- memory after a 64-bit store
unfoldable pub store_word : (ℕ → ℕ) → ℕ → ℕ → ℕ → ℕ
store_word mem a v x =
    if ltb x a then mem x else if ltb x (a + 8) then v / 2 ^ (8 * (x - a)) % 2 ^ 8 else mem x
