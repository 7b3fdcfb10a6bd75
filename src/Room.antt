-- ===== src/Room.antt =====
-- foundation/room/room.c: two rooms, of which one is active. `nxu_room_enter` and the code that a room
-- runs at EL0 are a list of events: what the room does until the kernel takes the CPU back.
pub mod Grant
pub mod Quiet
pub mod Isolation
pub mod Open
pub mod Pulse
pub mod Run
pub mod Suite
use nxu.Clock.{timer_ack}
use nxu.Base.{
  ℕ, zero, suc, ◌+◌, ◌-◌, ◌*◌, ◌/◌, ◌%◌, ◌^◌, Bool, true, false, not, ◌&&◌, ◌||◌, List, [], ◌∷◌,
  ltb, leb, ◌==◌, ◌!=◌, if◌then◌else◌, length, Cmd, pure, ◌>>=◌, ◌>>◌, modify, gets, when,
  for_range,
}
use nxu.Codes
use nxu.Hardware.{
  tlbi_vmalle1, ic_iallu, dsb, isb, daifset, msr, cntp_cval_el0, cntp_tval_el0, cntp_ctl_el0,
}
use nxu.Word.{page_size, add64, add32, has_bit}
use nxu.Range.{Range}
use nxu.Observe.{slot_of}
use nxu.Mmu.{mmu_map, mmu_leaf, map_rw, map_user_rx, map_user_rw, is_valid}
use nxu.Mmu.Walk.{view}
use nxu.World.{World, Rooms, ask, tell, log, fail, in_mmu, word_at, store_word, this_logical}
use nxu.Silicon.{
  mmu_tlbi, timer_mask_el1, timer_cval_el1, timer_cntpct, timer_cntfrq, timer_istatus_el1,
  timer_ctl_el1, gic_iar, gic_eoi, gic_sgi, gicr_clear_pending,
}

-- `ROOM_N`
abbrev pub room_n : ℕ
room_n = 2

abbrev pub exit_svc : ℕ
exit_svc = 1

abbrev pub exit_irq : ℕ
exit_irq = 2

abbrev pub exit_fault : ℕ
exit_fault = 3

abbrev pub exit_foreign : ℕ
exit_foreign = 4

-- `PAYLOAD`
abbrev pub payload : ℕ
payload = 0x5055

abbrev pub set_rooms : (Rooms → Rooms) → Cmd World (Unit {0})
set_rooms f = modify (λ w. record w { rooms = f w.rooms })

-- `tlbi_icache`
unfoldable pub tlbi_icache : Cmd World (Unit {0})
unfolding mmu_tlbi tell
tlbi_icache = do mmu_tlbi; tell ic_iallu; tell dsb; tell isb

-- `priv`
unfoldable pub priv : ℕ → Cmd World (Unit {0})
unfolding in_mmu
priv id = do
  code ← gets (λ w. w.rooms.code_pa id)
  in_mmu (mmu_map code page_size map_rw)
  dat ← gets (λ w. w.rooms.data_pa id)
  in_mmu (mmu_map dat page_size map_rw)

-- `user_open`
unfoldable pub user_open : ℕ → Cmd World (Unit {0})
unfolding priv in_mmu tlbi_icache for_range
user_open id = do
  for_range room_n 0 priv
  code ← gets (λ w. w.rooms.code_pa id)
  in_mmu (mmu_map code page_size map_user_rx)
  dat ← gets (λ w. w.rooms.data_pa id)
  in_mmu (mmu_map dat page_size map_user_rw)
  tlbi_icache

-- the loop of `clear_page` from the word `i`
unfoldable pub clear_words : ℕ → ℕ → ℕ → (ℕ → ℕ) → ℕ → ℕ
clear_words zero i pa mem = mem
clear_words (suc rounds) i pa mem = clear_words rounds (i + 1) pa (store_word mem (pa + 8 * i) 0)

-- `clear_page`
unfoldable pub clear_page : ℕ → Cmd World (Unit {0})
unfolding clear_words
clear_page pa = modify (λ w. record w { mem = clear_words (page_size / 8) 0 pa w.mem })

-- the loop of `copy_blob`
unfoldable pub copy_bytes : ℕ → List ℕ → (ℕ → ℕ) → ℕ → ℕ
copy_bytes d [] mem = mem
copy_bytes d (c ∷ src) mem = copy_bytes (d + 1) src (λ x. if x == d then c else mem x)

-- `copy_blob`; the blob is the list of bytes between its two symbols
unfoldable pub copy_blob : ℕ → List ℕ → Cmd World (Unit {0})
unfolding copy_bytes
copy_blob dst blob =
    let n = length blob in
    if (n == 0) || ltb 64 n
    then fail Codes.fail_invariant n 30
    else modify (λ w. record w { mem = copy_bytes dst blob w.mem })

-- `inside`
unfoldable pub inside : Rooms → ℕ → ℕ → Bool
inside r id addr =
    if ltb addr (r.data_pa id)
    then false
    else if leb (add64 (r.data_pa id) page_size) addr
    then false
    else true

-- `seal`
unfoldable pub seal : Cmd World (Unit {0})
unfolding priv tlbi_icache
seal = do cur ← gets (λ w. w.rooms.cur); when (ltb cur room_n) (priv cur); timer_ack; tlbi_icache

abbrev pub reject_pulse : ℕ → ℕ → Cmd World (Unit {0})
reject_pulse v why = do
  set_rooms (λ r. record r { rejected = add32 r.rejected 1 })
  log Codes.ev_pulse Codes.sub_cpu v why

-- `pulse`
unfoldable pub pulse : ℕ → Cmd World (Unit {0})
unfolding inside
pulse arg0 = do
  r ← gets (λ w. w.rooms)
  if (r.cur != 0) || not (inside r 0 arg0) then reject_pulse arg0 0 else do
    dest ← gets (λ w. word_at w.mem arg0)
    value ← gets (λ w. word_at w.mem (arg0 + 8))
    if (dest != 1) || (value != payload) then reject_pulse dest 2 else do
      modify (λ w. record w { mem = store_word w.mem (w.rooms.data_pa 1 + 8) value })
      set_rooms (λ r. record r { delivered = add32 r.delivered 1; grant = dest % 2 ^ 32 })
      log Codes.ev_pulse Codes.sub_cpu dest 1

-- `consume`
unfoldable pub consume : ℕ → Cmd World (Unit {0})
consume id = do
  grant ← gets (λ w. w.rooms.grant)
  if id == 0
      then pure tt
      else if grant != id
      then fail Codes.fail_invariant grant id
      else set_rooms (λ r. record r { grant = room_n })

-- `refuse`
unfoldable pub refuse : ℕ → Cmd World (Unit {0})
refuse id = do
  grant ← gets (λ w. w.rooms.grant)
  if (id == 0) || (grant == id)
      then fail Codes.fail_invariant grant 36
      else log Codes.ev_room Codes.sub_cpu id 5

abbrev pub leave : ℕ → Cmd World (Unit {0})
leave why = do set_rooms (λ r. record r { reason = why }); seal

-- `nxu_room_exception`; the result says whether the room is left
unfoldable pub room_exception : ℕ → ℕ → Cmd World Bool
unfolding pulse seal
room_exception esr arg0 =
    let ec = esr / 2 ^ 26 % 64 in
    let imm = esr % 2 ^ 16 in
    if (ec == 0x15) && (imm == 1)
    then (do pulse arg0; pure false)
    else if (ec == 0x15) && (imm == 0)
    then (do leave exit_svc; pure true)
    else (do leave exit_fault; pure true)

-- `nxu_room_irq`
unfoldable pub room_irq : Cmd World (Unit {0})
unfolding seal
room_irq = do
  intid ← gic_iar
  ppi ← gets (λ w. w.facts.timer_ppi)
  if leb 1020 intid
      then leave exit_fault
      else if intid != ppi
      then (do leave exit_foreign; gic_eoi intid)
      else (do leave exit_irq; gic_eoi intid)

-- What a room does at EL0, as the kernel sees it: a store of a byte, an instruction that takes the
-- synchronous exception `esr` with `x0` in the first register, or an interrupt.
pub data Event : Type 0 where
  store : (addr byte : ℕ) → Event
  sync : (esr x0 : ℕ) → Event
  irq : Event

-- the syndrome of a data abort from EL0, as far as `nxu_room_exception` reads it
abbrev pub data_abort : ℕ
data_abort = 0x24 * 2 ^ 26

-- the hardware's rule for a store from EL0: a valid leaf that EL0 may read and write; `tcr_val` gives
-- addresses of 48 bits, and an address above them has no leaf
abbrev pub el0_store_ok : ℕ → Bool
el0_store_ok leaf = is_valid leaf && (has_bit leaf 6 && not (has_bit leaf 7))

-- one event, up to the return from the kernel; the result says whether the room was left
unfoldable pub el0_event : Event → Cmd World Bool
unfolding room_exception room_irq
el0_event (store addr byte) = do
  leaf ← gets (λ w. view w.mmu addr)
  if ltb addr (2 ^ 48) && el0_store_ok leaf
      then (do
        modify (λ w. record w { mem = λ x. if x == addr then byte else w.mem x })
        pure false)
      else room_exception data_abort 0
el0_event (sync esr x0) = room_exception esr x0
el0_event irq = do room_irq; pure true

-- An execution interval of a room. When its own events are over, the next interrupt ends it: `run` arms
-- the timer before it enters the room.
unfoldable pub interval : List Event → Cmd World (Unit {0})
unfolding el0_event room_irq
interval [] = room_irq
interval (e ∷ es) = do left ← el0_event e; if left then pure tt else interval es
