-- ===== src/Console/Records.antt =====
-- foundation/observe/console.c and the dump of foundation/observe/bbox.c: the text of each record.
use nxu.Base.{
  ℕ, zero, suc, ◌+◌, not, ◌&&◌, none, some, List, [], ◌∷◌, ◌++◌, ◌==◌, ◌!=◌, if◌then◌else◌,
}
use nxu.Observe.{Observe, BboxRec, Bbox, cpu_bound, dump_records}
use nxu.Codes
use nxu.Console.{
  LogRecord, Sink, Text, txt, sink_write, hex, u32, base_name, nl, say, write_mach, write_aff64,
  write_aff32, low32,
}

-- the case NXU_EV_CPU
cpu_text : LogRecord → Text
unfolding say u32 write_aff64 write_aff32 nl low32
cpu_text r =
    if r.v2 == Codes.note_cpu_detect
    then say "Detecting processor topology."
    else if r.v2 == Codes.note_cpu_cluster
    then txt "[NXU] Detected cluster "
      ++ (u32 (low32 r.v0) ++ (txt " with " ++ (u32 (low32 r.v1) ++ (txt " processors." ++ nl))))
    else if r.v2 == Codes.note_cpu_rdist
    then txt "[NXU] A redistributor reports affinity " ++ (write_aff32 r.v0 ++ (txt "." ++ nl))
    else txt "[NXU] CPU " ++ (u32 (low32 r.v0) ++ (event ++ nl))
  where
    event : Text
    event =
        if r.v2 == Codes.note_cpu_present
        then txt " is present with MPIDR affinity " ++ (write_aff64 r.v1 ++ txt ".")
        else if r.v2 == Codes.note_cpu_init
        then txt " accepted for initialization."
        else if r.v2 == Codes.note_cpu_enter
        then txt " entered the NXU kernel."
        else if r.v2 == Codes.note_cpu_el1
        then txt " established its EL1 execution state."
        else if r.v2 == Codes.note_cpu_vbar
        then txt " established its exception vectors."
        else if r.v2 == Codes.note_cpu_gic
        then txt " established its GIC redistributor association."
        else txt " reported a processor event."

-- the case NXU_EV_IPI
ipi_text : LogRecord → Text
unfolding u32 nl low32
ipi_text r =
    if r.v2 == Codes.ipi_recv
    then txt "[NXU] CPU "
      ++ (u32 (low32 r.v1)
          ++ (txt " received the IPI from CPU " ++ (u32 (low32 r.v0) ++ (txt "." ++ nl))))
    else txt "[NXU] Sending an IPI from CPU "
      ++ (u32 (low32 r.v0) ++ (txt " to CPU " ++ (u32 (low32 r.v1) ++ (txt "." ++ nl))))

-- the case NXU_EV_ROOM
room_text : LogRecord → Text
unfolding u32 nl low32
room_text r = txt "[NXU] Room " ++ (u32 (low32 r.v0) ++ (event ++ nl))
  where
    event : Text
    event =
        if r.v1 == 6
        then txt " entered its execution region."
        else if r.v1 == 1
        then txt " now owns its execution region."
        else if r.v1 == 2
        then txt " returned by its own request."
        else if r.v1 == 3
        then txt " reached its temporal deadline, and the kernel reclaimed execution."
        else if r.v1 == 5
        then txt " was refused entry."
        else if r.v1 == 7
        then txt
            " was presented with an interrupt it does not own, and the kernel reclaimed execution."
        else txt " had an access outside its region contained."

-- the case NXU_EV_PULSE
pulse_text : LogRecord → Text
unfolding say
pulse_text r =
    if r.v1 == 1
    then say "Room 0 named Room 1 through an authorized Pulse."
    else if r.v1 == 2
    then say "The Pulse was rejected. Its destination or payload is not permitted."
    else say "The Pulse was rejected."

-- the case NXU_EV_FAIL
fail_text : LogRecord → Text
unfolding say u32 hex base_name nl
fail_text r = elim r.site [
  | none ↦
      say "Halted"
      ++ (txt "  " ++ (txt "-" ++ (txt " " ++ (txt "-" ++ (txt " " ++ (u32 0 ++ code_text))))))
  | some s ↦
      say "Halted"
      ++ (txt "  "
          ++ (base_name s.file ++ (txt " " ++ (s.func ++ (txt " " ++ (u32 s.line ++ code_text))))))
]
  where
    code_text : Text
    code_text = txt " code " ++ (hex r.v0 8 ++ nl)

-- the last cases of `nxu_console_record`
late_text : LogRecord → Text
unfolding say fail_text write_mach hex nl
late_text r =
    if r.event == Codes.ev_app
    then say "The first NXU application has completed."
    else if r.event == Codes.ev_fault
    then say "Exception fault"
      ++ (txt "  ESR "
          ++ (hex r.v0 16
              ++ (txt " FAR " ++ (hex r.v1 16 ++ (txt " ELR " ++ (hex r.v2 16 ++ nl))))))
    else if r.event == Codes.ev_machine
    then txt "  " ++ (write_mach r.v0 ++ (txt " " ++ (hex r.v1 16 ++ nl)))
    else if r.event == Codes.ev_fail
    then fail_text r
    else say "Event"

-- what `nxu_console_record` writes for a record when the sink is bound
unfoldable pub record_text : LogRecord → Text
unfolding say cpu_text ipi_text room_text pulse_text late_text u32 nl low32
record_text r =
    if r.event == Codes.ev_boot
    then txt "a\n"
      ++ (txt "nxu\n" ++ (txt "Not eXactly Unix\n" ++ (txt "THE ZERO ONE\n" ++ say "Entered")))
    else if r.event == Codes.ev_dtb
    then say (if r.v1 != 0 then "DTB validated" else "DTB absent")
    else if r.event == Codes.ev_memory
    then say "RAM detected"
    else if r.event == Codes.ev_mmu
    then say (if r.v1 == 1 then "EL1 translation established" else "MMU established")
    else if r.event == Codes.ev_exception
    then say "EL1 exception vectors established"
    else if r.event == Codes.ev_cpu
    then cpu_text r
    else if r.event == Codes.ev_gic
    then say "GICv3 detected"
    else if r.event == Codes.ev_gic_init
    then say "GICv3 established"
    else if r.event == Codes.ev_timer
    then say "CNTP established" ++ (txt "  Interrupt source PPI " ++ (u32 (low32 r.v0) ++ nl))
    else if r.event == Codes.ev_timer_fire
    then say "CNTP deadline observed"
    else if r.event == Codes.ev_cpu_online
    then txt "[NXU] CPU " ++ (u32 (low32 r.v1) ++ (txt " is now online." ++ nl))
    else if r.event == Codes.ev_cpu_set
    then txt "[NXU] SMP execution established across "
      ++ (u32 (low32 r.v0) ++ (txt " processors." ++ nl))
    else if r.event == Codes.ev_ipi
    then ipi_text r
    else if r.event == Codes.ev_kernel
    then say "NXU kernel execution is established."
    else if r.event == Codes.ev_bound
    then say "The spatial boundary is established."
    else if r.event == Codes.ev_room
    then room_text r
    else if r.event == Codes.ev_pulse
    then pulse_text r
    else late_text r

-- `nxu_console_record`
unfoldable pub console_record : LogRecord → Sink → Sink
unfolding record_text
console_record r k = if not k.ready then k else sink_write (record_text r) k

-- the lines of `nxu_bbox_dump` for the records of one box
dump_lines : List BboxRec → Text
unfolding hex nl
dump_lines [] = []
dump_lines (r ∷ rs) =
    txt "    rec "
    ++ (hex r.code 8
        ++ (txt " " ++ (hex r.a 16 ++ (txt " " ++ (hex r.b 16 ++ (nl ++ dump_lines rs))))))

-- the round of `nxu_bbox_dump` for one CPU
box_text : ℕ → Bbox → Text
unfolding dump_lines hex nl
box_text cpu box =
    if (box.count == 0) && not box.fail_valid
    then []
    else txt "[NXU] Black box"
      ++ (txt " cpu=0x" ++ (hex cpu 16 ++ (nl ++ (dump_lines (dump_records box) ++ failure))))
  where
    failure : Text
    failure =
        if box.fail_valid
        then txt "[NXU] Black box last failure"
          ++ (txt " code=0x"
              ++ (hex box.fail_code 8
                  ++ (txt " a=0x"
                      ++ (hex box.fail_a 16 ++ (txt " b=0x" ++ (hex box.fail_b 16 ++ nl))))))
        else []

boxes_text : ℕ → ℕ → Observe → Text
unfolding box_text
boxes_text zero cpu o = []
boxes_text (suc rounds) cpu o = box_text cpu (o.bbox cpu) ++ boxes_text rounds (cpu + 1) o

-- `nxu_bbox_dump`
unfoldable pub bbox_dump : Observe → Sink → Sink
unfolding boxes_text
bbox_dump o k = if not k.ready then k else sink_write (boxes_text cpu_bound 0 o) k
