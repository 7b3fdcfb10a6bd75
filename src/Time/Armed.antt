-- ===== src/Time/Armed.antt =====
-- The start of `nxu_s11_time` (foundation/time/time.c): how the deadline is armed when the wait begins.
use nxu.Base.{
  ℕ, zero, suc, ◌/◌, ◌%◌, ◌^◌, ◌≡◌, refl, true, ◌==◌, Bool-cases, inl, inr, List, ◌∷◌, Returns,
  returns, Returns-and_then, Returns-mono, ap, ◌>>=◌, ◌>>◌, pure, state_of,
}
use nxu.Codes
use nxu.Clock.{cntpct}
use nxu.Hardware.{
  Access, mrs, msr, load32, store32, isb, daifclr, cntp_tval_el0, cntp_ctl_el0, cntpct_el0,
}
use nxu.Word.{add64}
use nxu.Silicon.{timer_cntpct, timer_enable_el1}
use nxu.Silicon.Gic.{
  gic_r32, gic_w32, sync_loop, gicr_frame_sync, gicr_frame_enable, gicr_enable_ppi,
}
use nxu.World.{World, ask, tell, put, log, log3}
use nxu.Time.{own_deadline, timer_program, program_deadline}

-- The accesses of the second list are those of the first, with later ones before them.
pub data Since (past : List Access) : List Access → Type 0 where
  here : Since past past
  further : {a : Access} {now : List Access} → Since past now → Since past (a ∷ now)

Since-older : {a : Access} {past now : List Access} → Since (a ∷ past) now → Since past now
Since-older here = further here
Since-older (further s) = further (Since-older s)

-- `v` is `u` after some accesses to the machine.
abbrev Later : World → World → Type 0
Later u v = (v ≡ record u { trace = v.trace }) × Since u.trace v.trace

sync_loop-Later : (left gicr : ℕ) (u : World) → Returns (λ _ v. Later u v) (sync_loop left gicr u)
unfolding sync_loop gic_r32 ask
sync_loop-Later zero gicr u = returns (refl, further here)
sync_loop-Later (suc left) gicr u =
    let a = load32 (add64 gicr 0xc0) in
    elim (Bool-cases (u.machine u.trace a % 2 == 0)) [
      | inr e ↦ rw e (returns (refl, further here))
      | inl e ↦ rw e (
          Returns-mono (sync_loop-Later left gicr (record u { trace = a ∷ u.trace }))
            (λ _ v (same, since). (same, Since-older since)))
    ]

-- the redistributor of `gicr` is told to forward the interrupt `intid`
abbrev pub forwards : ℕ → ℕ → Access
forwards gicr intid = store32 (add64 (add64 gicr 0x10000) 0x100) (2 ^ (intid % 32))

-- `v` is `u` after accesses, and one of them lets the redistributor forward the interrupt.
abbrev Forwarded : ℕ → ℕ → World → World → Type 0
Forwarded gicr intid u v =
    (v ≡ record u { trace = v.trace })
    × ((past : List Access) × Since (forwards gicr intid ∷ past) v.trace)

gicr_enable_ppi-Forwarded :
    (gicr intid : ℕ) (u : World)
    → Returns (λ _ v. Forwarded gicr intid u v) (gicr_enable_ppi gicr intid u)
unfolding gicr_enable_ppi gicr_frame_enable gicr_frame_sync gic_r32 gic_w32 ask tell
gicr_enable_ppi-Forwarded gicr intid u =
    Returns-mono (sync_loop-Later 100000 gicr _)
      (λ _ v (same, since). (same, (_, Since-older since)))

-- What holds when the wait begins in `u`, where `nxu_s11_time` was called in `w`: the timer's signal has
-- the timer's interrupt and is enabled, the count of CPU 0 is zero, its redistributor forwards the
-- interrupt, and after that the timer was set to a hundredth of a second and interrupts were unmasked.
pub record Armed (w u : World) : Type 0 where
  pub signal : u.sig_timer ≡ record {
    intid = w.facts.timer_ppi;
    owner = Codes.sig_owner_tcb;
    route_cpu = 0;
    enabled = true;
  }
  pub cleared : (u.cpu 0).timer_fired ≡ 0
  pub runs : u.tpidr ≡ w.tpidr
  pub facts : u.facts ≡ w.facts
  pub set_up :
      (past before : List Access) × Since (forwards (w.cpu 0).gicr w.facts.timer_ppi ∷ past) before
      × (u.trace
          ≡ msr daifclr 2
            ∷ (isb
                ∷ (msr cntp_ctl_el0 1
                    ∷ (msr cntp_tval_el0 (w.facts.timer_freq / 100 % 2 ^ 32)
                        ∷ (mrs cntpct_el0 ∷ (isb ∷ before))))))

pub program_deadline-Armed : (w : World) → Returns (λ _ u. Armed w u) (program_deadline w)
unfolding own_deadline program_deadline tell ask put log log3 timer_cntpct timer_program
    timer_enable_el1
program_deadline-Armed w =
    Returns-and_then
      {k = λ _. cntpct >>= λ t0.
        timer_program (w.facts.timer_freq / 100) >> (tell (msr daifclr 2) >> pure t0)}
      (gicr_enable_ppi-Forwarded (w.cpu 0).gicr w.facts.timer_ppi (state_of (own_deadline w)))
      (λ _ v (same, (past, since)). returns (record {
        signal = ap (λ z. z.sig_timer) same;
        cleared = ap (λ z. (z.cpu 0).timer_fired) same;
        runs = ap (λ z. z.tpidr) same;
        facts = ap (λ z. z.facts) same;
        set_up = (past, v.trace, since, refl);
      }))
