-- ===== src/Boot.antt =====
-- The first stages of `nxu_foundation` (foundation/enter.c): foundation/intake/s0.c,
-- foundation/intake/intake.c, foundation/contract/contract.c and foundation/context/context.c. The
-- addresses that the linker places are a record that the stages take.
use Prim.Native.Nat.{bit_and}
use nxu.Base.{
  ℕ, ◌+◌, ◌*◌, ◌/◌, ◌%◌, ◌^◌, ltb, ◌==◌, ◌!=◌, Cmd, ◌>>=◌, ◌>>◌, modify, gets, when, update,
}
use nxu.Mmu.{mmu_ttbr, mmu_tcr, mmu_mair}
use nxu.Codes
use nxu.Word.{sub64, has_bit}
use nxu.Observe.{chronicle_init}
use nxu.World.{World, put, fail, word_at}

-- the linker's symbols
pub record Link : Type 0 where
  pub image_end : ℕ
  pub text_end : ℕ
  pub rodata_end : ℕ
  pub data_end : ℕ
  pub vec_full : ℕ

-- `NXU_STACK_SIZE`
abbrev pub stack_size : ℕ
stack_size = 0x10000

-- the four bytes at offset 56 of the image header
abbrev pub header_magic : ℕ
header_magic = 0x644d5241

-- `nxu_s0`
unfoldable pub s0 : Link → Cmd World (Unit {0})
unfolding put chronicle_init
s0 link = do
  modify (λ w. record w { observe = chronicle_init w.observe })
  i ← gets (λ w. w.intake)
  modify (λ w. record w {
    image = record {
      base = i.pc;
      size = sub64 link.image_end i.pc;
      text_end = link.text_end;
      rodata_end = link.rodata_end;
      data_end = link.data_end;
    };
  })
  put Codes.rec_s0_enter i.currentel i.mpidr
  put Codes.rec_s0_stack i.sp_in i.sp_nxu
  put Codes.rec_s0_vbar i.vbar 0
  when (has_bit i.sctlr 0) (fail Codes.fail_mmu_on_entry i.sctlr 0)

-- `nxu_control_el`
abbrev pub control_el : World → ℕ
control_el w = w.intake.currentel / 2 ^ 2 % 4

-- `nxu_s1_intake`
unfoldable pub s1_intake : Cmd World (Unit {0})
unfolding put
s1_intake = do
  el ← gets control_el
  i ← gets (λ w. w.intake)
  put Codes.rec_s1_el i.currentel el
  put Codes.rec_s1_mpidr i.mpidr 0
  put Codes.rec_s1_sctlr i.sctlr 0
  put Codes.rec_s1_pc i.pc i.x0
  put Codes.rec_s1_x0 i.x0 i.x1
  put Codes.rec_s1_x23 i.x2 i.x3
  put Codes.rec_s1_ttbr i.ttbr0 i.tcr
  put Codes.rec_s1_daif i.daif i.sp_nxu
  when (el != Codes.el1) (fail Codes.fail_bad_el i.currentel 0)
  when (bit_and i.daif 0xC0 != 0xC0) (fail Codes.fail_daif i.daif 0)
  when (i.sp_nxu == 0) (fail Codes.fail_stack 0 0)
  when (i.sp_nxu == i.sp_in) (fail Codes.fail_stack i.sp_in 1)

-- the little-endian 32-bit word at `a`
abbrev pub half_at : (ℕ → ℕ) → ℕ → ℕ
half_at mem a = mem a + mem (a + 1) * 2 ^ 8 + mem (a + 2) * 2 ^ 16 + mem (a + 3) * 2 ^ 24

-- `nxu_s2_contract`
unfoldable pub s2_contract : Cmd World (Unit {0})
unfolding put
s2_contract = do
  base ← gets (λ w. w.image.base)
  magic ← gets (λ w. half_at w.mem (base + 56))
  when (magic != header_magic) (fail Codes.fail_bad_header magic 0)
  flags ← gets (λ w. word_at w.mem (base + 24))
  image_size ← gets (λ w. word_at w.mem (base + 16))
  when (bit_and flags 0xA != 0xA) (fail Codes.fail_bad_header flags 1)
  when (ltb image_size 64) (fail Codes.fail_bad_header image_size 2)
  put Codes.rec_s2_header magic image_size
  el ← gets control_el
  mpidr ← gets (λ w. w.intake.mpidr)
  put Codes.rec_s2_el el mpidr

-- `nxu_context_bind`, on the CPU `id` of the array
unfoldable pub context_bind : ℕ → ℕ → ℕ → Cmd World (Unit {0})
context_bind cpu id life = modify (λ w. record w {
  cpu = update w.cpu cpu (record (w.cpu cpu) {
    ctx = record ((w.cpu cpu).ctx) {
      cpu_id = id;
      context_id = id;
      generation = 1;
      life = life;
      el = control_el w;
      ttbr = mmu_ttbr w.mmu;
      tcr = mmu_tcr w.mmu;
      mair = mmu_mair w.mmu;
      stack_base = (w.cpu cpu).stack_base;
      stack_limit = (w.cpu cpu).stack_limit;
      owner = Codes.sig_owner_tcb;
      esr = 0;
      far = 0;
      intid = 0;
    };
  });
})

-- `nxu_context_bind_boot`
unfoldable pub context_bind_boot : Cmd World (Unit {0})
unfolding context_bind
context_bind_boot = do
  modify (λ w. record w {
    cpu = update w.cpu 0 (record (w.cpu 0) {
      stack_base = sub64 w.intake.sp_nxu stack_size;
      stack_limit = w.intake.sp_nxu;
    });
  })
  context_bind 0 0 Codes.ctx_running
