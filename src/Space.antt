-- ===== src/Space.antt =====
-- foundation/space/ownership.c (S5) and foundation/space/mmu_policy.c (S6). `nxu_debug` and
-- `nxu_debug_u64` are empty in a build without NXU_DEBUG, and the model leaves them out.
use Prim.Native.Nat.{bit_or, bit_and}
pub mod Owner
pub mod Steady
pub mod Guarded
pub mod Covered
pub mod Plan
use nxu.Base.{
  ℕ, zero, suc, ◌+◌, ◌-◌, ◌*◌, ◌^◌, Bool, true, false, not, ◌&&◌, ltb, leb, ◌==◌, ◌!=◌,
  if◌then◌else◌, Cmd, pure, ◌>>=◌, ◌>>◌, modify, gets, when, for_range, update,
}
use nxu.Mmu.{mmu_ttbr, mmu_tcr, mmu_mair}
use nxu.Codes
use nxu.Hardware.{mrs, msr, tlbi_vmalle1, dsb, isb, mair_el1, tcr_el1, ttbr0_el1, sctlr_el1}
use nxu.Word.{page_size, page_up, page_down, add64, sub64, add32}
use nxu.Range.{range, range_ok, range_contains}
use nxu.Mmu.{mmu_init_pool, mmu_map, map_rx, map_r, map_rw, map_dev}
use nxu.Console.{sink_bind}
use nxu.Boot.{control_el}
use nxu.Silicon.{current_el}
use nxu.World.{World, Space, OwnerRegion, Facts, ask, tell, put, fail, log, in_mmu}

-- `add_owner`
unfoldable pub add_owner : ℕ → ℕ → ℕ → Cmd World (Unit {0})
unfolding put
add_owner base size owner = do
  when (not (range_ok base size)) (fail Codes.fail_wrap base size)
  count ← gets (λ w. w.space.count)
  when (leb Codes.owner_max count) (fail Codes.fail_invariant owner 0)
  modify (λ w. record w {
    space = record (w.space) {
      region = update w.space.region count (record { range = range base size; owner = owner });
      count = count + 1;
    };
  })
  put Codes.rec_s5_owner base (bit_or (owner * 2 ^ 32) size)

-- one round of the loop of `nxu_space_owner`: the best size and its owner
abbrev pub better : OwnerRegion → ℕ → ℕ → ℕ × ℕ → ℕ × ℕ
better r pa size (best, owner) =
    if not (range_contains r.range.base r.range.size pa size)
    then (best, owner)
    else if leb r.range.size best
    then (r.range.size, r.owner)
    else (best, owner)

-- the loop of `nxu_space_owner` from the region `i`
unfoldable pub owner_loop : ℕ → ℕ → (ℕ → OwnerRegion) → ℕ → ℕ → ℕ × ℕ → ℕ × ℕ
unfolding range_contains
owner_loop zero i region pa size acc = acc
owner_loop (suc rounds) i region pa size acc =
    owner_loop rounds (i + 1) region pa size (better (region i) pa size acc)

-- `nxu_space_owner`
unfoldable pub space_owner : Space → ℕ → ℕ → ℕ
unfolding owner_loop
space_owner s pa size =
    (owner_loop s.count 0 s.region pa (if size == 0 then 1 else size)
      (2 ^ 64 - 1, Codes.owner_unknown)).1

-- `nxu_s5_ownership`
unfoldable pub s5_ownership : Cmd World (Unit {0})
unfolding page_up
s5_ownership = do
  modify (λ w. record w { space = record (w.space) { count = 0; armed = false; frozen = false } })
  f ← gets (λ w. w.facts)
  for_range f.mem_count 0 (λ i. add_owner (f.mem i).range.base (f.mem i).range.size Codes.owner_nxu)
  image ← gets (λ w. w.image)
  add_owner image.base (page_up image.size) Codes.owner_image
  when (f.dtb_valid && (f.dtb_size != 0))
      (add_owner f.dtb_base (page_up f.dtb_size) Codes.owner_reserved)
  add_owner f.gicd.range.base (page_up f.gicd.range.size) Codes.owner_mmio
  add_owner f.gicr.range.base (page_up f.gicr.range.size) Codes.owner_mmio
  when f.uart_valid (add_owner f.uart.range.base (page_up f.uart.range.size) Codes.owner_mmio)
  when (f.pwrc.size != 0) (add_owner f.pwrc.base (page_up f.pwrc.size) Codes.owner_mmio)

-- `nxu_mmu_enable` of silicon/aarch64/translate/mmu.c
unfoldable pub mmu_enable : ℕ → Cmd World (Unit {0})
unfolding ask tell
mmu_enable el = do
  when (el != Codes.el1) (fail Codes.fail_bad_el el 3)
  m ← gets (λ w. w.mmu)
  tell dsb
  tell (msr mair_el1 m.mair_val)
  tell (msr tcr_el1 m.tcr_val)
  tell (msr ttbr0_el1 m.ttbr0)
  tell isb
  tell tlbi_vmalle1
  tell dsb
  tell isb
  sctlr ← ask (mrs sctlr_el1)
  tell (
      msr sctlr_el1 (bit_and (bit_or sctlr (2 ^ 0 + 2 ^ 2 + 2 ^ 12 + 2 ^ 19)) (2 ^ 64 - 1 - 2 ^ 1)))
  tell isb

-- the map of one region in `nxu_s6_mmu`
unfoldable pub map_region : OwnerRegion → Cmd World (Unit {0})
unfolding page_up page_down
map_region r =
    let b = page_down r.range.base in
    when (r.owner == Codes.owner_mmio)
      (in_mmu (mmu_map b (page_up (add64 r.range.size (sub64 r.range.base b))) map_dev))

-- the map of the image in `nxu_s6_mmu`
unfoldable pub map_image : Cmd World (Unit {0})
unfolding page_up
map_image = do
  i ← gets (λ w. w.image)
  let img_end = page_up (add64 i.base i.size)
  let text_end' = page_up i.text_end
  let text_end = if leb text_end' i.base then add64 i.base page_size else text_end'
  let ro_end' = page_up i.rodata_end
  let ro_end = if ltb ro_end' text_end then text_end else ro_end'
  in_mmu (mmu_map i.base (sub64 text_end i.base) map_rx)
  when (ltb text_end ro_end) (in_mmu (mmu_map text_end (sub64 ro_end text_end) map_r))
  when (ltb ro_end img_end) (in_mmu (mmu_map ro_end (sub64 img_end ro_end) map_rw))

-- the end of `nxu_s6_mmu`, where translation is on: the sink is bound, and the stages so far are in the log
unfoldable pub note_mmu : ℕ → Cmd World (Unit {0})
unfolding sink_bind
note_mmu el = do
  modify (λ w. record w { space = record (w.space) { armed = true } })
  ttbr ← gets (λ w. mmu_ttbr w.mmu)
  put Codes.rec_s6_mmu ttbr el
  f ← gets (λ w. w.facts)
  when f.uart_valid (modify (λ w. record w { sink = sink_bind f.uart.range.base w.sink }))
  pc ← gets (λ w. w.intake.pc)
  log Codes.ev_boot Codes.sub_boot pc 0
  (if f.dtb_valid
      then log Codes.ev_dtb Codes.sub_fact f.dtb_base 1
      else log Codes.ev_dtb Codes.sub_fact 0 0)
  log Codes.ev_memory Codes.sub_fact (f.mem 0).range.base 0
  log Codes.ev_mmu Codes.sub_space ttbr el

-- `nxu_s6_mmu`
unfoldable pub s6_mmu : Cmd World (Unit {0})
s6_mmu = do
  now ← current_el
  in_mmu (mmu_init_pool now)
  el ← gets control_el
  map_image
  count ← gets (λ w. w.space.count)
  region ← gets (λ w. w.space.region)
  for_range count 0 (λ i. map_region (region i))
  owner ← gets (λ w. space_owner w.space w.image.base page_size)
  when (owner != Codes.owner_image) (fail Codes.fail_invariant 5 0)
  mmu_enable el
  note_mmu el
