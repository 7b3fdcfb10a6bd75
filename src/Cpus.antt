-- ===== src/Cpus.antt =====
-- foundation/cpu/cpu.c: the present set (S8), and the stack and context of each CPU in it (S9).
-- `nxu_debug` and `nxu_debug_u64` are empty in a build without NXU_DEBUG, and the model leaves them out.
pub mod PresentSet
pub mod Available
use nxu.Base.{
  ℕ, zero, suc, ◌+◌, ◌-◌, ◌*◌, ◌/◌, ◌%◌, ◌^◌, Bool, true, false, not, ◌||◌, ltb, leb, ◌==◌, ◌!=◌,
  if◌then◌else◌, Cmd, pure, ◌>>=◌, ◌>>◌, modify, gets, when, for_range, update,
}
use nxu.Codes
use nxu.Hardware.{isb}
use nxu.Word.{add64, sub64}
use nxu.Observe.{cpu_bound}
use nxu.Facts.{affinity, set_facts}
use nxu.Boot.{stack_size, context_bind}
use nxu.World.{World, Facts, Cpu, tell, set_cpu, put, log3, fail}

-- `nxu_set_this_logical`
unfoldable pub set_this_logical : ℕ → Cmd World (Unit {0})
unfolding tell
set_this_logical id = modify (λ w. record w { tpidr = id }) >> tell isb

-- a CPU takes its place in the array
abbrev pub place_cpu : ℕ → ℕ → Cmd World (Unit {0})
place_cpu id mpidr =
    set_cpu id (λ c. record c { mpidr = mpidr; logical = id; state = Codes.cpu_present })

abbrev pub set_fact_logical : ℕ → ℕ → Cmd World (Unit {0})
set_fact_logical i id =
    set_facts (λ f. record f { cpu = update f.cpu i (record (f.cpu i) { logical = id }) })

-- the loop of `nxu_s8_present` over the CPU facts, from the fact `i`; the result is the last `dst`
unfoldable pub present_loop : ℕ → ℕ → ℕ → ℕ → Cmd World ℕ
present_loop zero i dst boot = pure dst
present_loop (suc rounds) i dst boot = do
  mpidr ← gets (λ w. (w.facts.cpu i).mpidr)
  if mpidr == boot then (set_fact_logical i 0 >> present_loop rounds (i + 1) dst boot) else (do
    when (leb cpu_bound dst) (fail Codes.fail_cpu dst 3)
    place_cpu dst mpidr
    set_fact_logical i dst
    present_loop rounds (i + 1) (dst + 1) boot)

-- the loop that records the present set, and looks for the boot CPU
unfoldable pub found_loop : ℕ → ℕ → Bool → ℕ → Cmd World Bool
unfolding put
found_loop zero i found boot = pure found
found_loop (suc rounds) i found boot = do
  mpidr ← gets (λ w. (w.cpu i).mpidr)
  put Codes.rec_s8_cpu mpidr i
  found_loop rounds (i + 1) ((mpidr == boot) || found) boot

-- the local arrays `aff2_id` and `aff2_n`, and `nc`
pub record Clusters : Type 0 where
  pub id : ℕ → ℕ
  pub n : ℕ → ℕ
  pub count : ℕ

-- the slot of a cluster: the last of the first `rounds` from `k` that has its affinity
unfoldable pub find_slot : ℕ → ℕ → (ℕ → ℕ) → ℕ → ℕ → ℕ
find_slot zero k id aff2 slot = slot
find_slot (suc rounds) k id aff2 slot =
    find_slot rounds (k + 1) id aff2 (if id k == aff2 then k else slot)

-- a CPU is counted in its cluster
unfoldable pub count_cluster : ℕ → Clusters → Clusters
unfolding find_slot
count_cluster aff2 c =
    let slot = find_slot c.count 0 c.id aff2 c.count in
    if slot == c.count
    then record { id = update c.id c.count aff2; n = update c.n c.count 1; count = c.count + 1 }
    else record c { n = update c.n slot (c.n slot + 1) }

-- the loop over the present set that counts the clusters
unfoldable pub cluster_loop : ℕ → ℕ → Clusters → Cmd World Clusters
unfolding count_cluster log3
cluster_loop zero i c = pure c
cluster_loop (suc rounds) i c = do
  mpidr ← gets (λ w. (w.cpu i).mpidr)
  log3 Codes.ev_cpu Codes.sub_cpu i mpidr Codes.note_cpu_present
  cluster_loop rounds (i + 1) (count_cluster (mpidr / 2 ^ 16 % 2 ^ 8) c)

-- the clusters of the present set, as `nxu_s8_present` reports them
unfoldable pub report_clusters : Cmd World (Unit {0})
unfolding cluster_loop for_range log3
report_clusters = do
  count ← gets (λ w. w.cpu_present_count)
  c ← cluster_loop count 0 (record { id = λ _. 0; n = λ _. 0; count = 0 })
  for_range c.count 0 (λ k. log3 Codes.ev_cpu Codes.sub_cpu (c.id k) (c.n k) Codes.note_cpu_cluster)

-- `nxu_s8_present`
unfoldable pub s8_present : Cmd World (Unit {0})
unfolding put log3
s8_present = do
  boot ← gets (λ w. affinity w.intake.mpidr)
  count ← gets (λ w. w.facts.cpu_count)
  when ((count == 0) || ltb cpu_bound count) (fail Codes.fail_cpu count 0)
  place_cpu 0 boot
  dst ← present_loop count 0 1 boot
  modify (λ w. record w { cpu_present_count = dst; cpu_present_frozen = false })
  found ← found_loop dst 0 false boot
  when (not found) (fail Codes.fail_cpu boot 4)
  put Codes.rec_s8_present dst boot
  log3 Codes.ev_cpu Codes.sub_cpu 0 0 Codes.note_cpu_detect
  report_clusters

-- the parts of a round of `nxu_s9_init`: the state of the CPU is cleared, its stack and context are
-- bound, and it is available; `stack_of` is the address of each `nxu_cpu_stack`
unfoldable pub clear_cpu : (ℕ → ℕ) → ℕ → Cmd World (Unit {0})
clear_cpu stack_of i = set_cpu i (λ c. record c {
  stack_base = stack_of i;
  stack_limit = add64 (stack_of i) stack_size;
  ipi_seen = 0;
  timer_fired = 0;
  gicr = 0;
})

unfoldable pub bind_cpu : ℕ → ℕ → Cmd World (Unit {0})
unfolding set_this_logical context_bind
bind_cpu boot i = do
  mpidr ← gets (λ w. (w.cpu i).mpidr)
  if mpidr == boot
      then (do
        sp ← gets (λ w. w.intake.sp_nxu)
        set_cpu i (λ c. record c { stack_base = sub64 sp stack_size; stack_limit = sp })
        set_this_logical i
        context_bind i i Codes.ctx_running)
      else context_bind i i Codes.ctx_armed

unfoldable pub avail_cpu : ℕ → Cmd World (Unit {0})
unfolding log3 put
avail_cpu i = do
  set_cpu i (λ c. record c { state = Codes.cpu_initialized })
  mpidr ← gets (λ w. (w.cpu i).mpidr)
  log3 Codes.ev_cpu Codes.sub_cpu i mpidr Codes.note_cpu_init
  set_cpu i (λ c. record c { state = Codes.cpu_available })
  base ← gets (λ w. (w.cpu i).stack_base)
  put Codes.rec_s9_init i base

-- the body of the loop of `nxu_s9_init`
unfoldable pub init_cpu : (ℕ → ℕ) → ℕ → ℕ → Cmd World (Unit {0})
unfolding clear_cpu bind_cpu avail_cpu
init_cpu stack_of boot i = do clear_cpu stack_of i; bind_cpu boot i; avail_cpu i

-- `nxu_s9_init`
unfoldable pub s9_init : (ℕ → ℕ) → Cmd World (Unit {0})
unfolding init_cpu for_range
s9_init stack_of = do
  boot ← gets (λ w. affinity w.intake.mpidr)
  count ← gets (λ w. w.cpu_present_count)
  for_range count 0 (init_cpu stack_of boot)
