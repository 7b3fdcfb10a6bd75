-- ===== src/Time/Handled.antt =====
-- `nxu_s11_time` of foundation/time/time.c with the kernel's own handler, `nxu_irq_dispatch`: the
-- interrupt of the timer is taken once during the wait.
use nxu.Base.{
  ℕ, zero, suc, ◌+◌, ◌%◌, ◌^◌, ◌≤◌, ◌<◌, ◌≡◌, true, ◌==◌, if◌then◌else◌, arith, Returns,
  Returns-mono, Returns-and_then, state_of, refl, ap, ◌∙◌, ==_of_ne,
}
use nxu.Observe.{slot_of}
use nxu.Silicon.{timer_mask_el1}
use nxu.World.{World, tell, put, this_logical}
use nxu.Interrupt.{irq_dispatch}
use nxu.Signals.Waiting.{at_read, wait_loop-first}
use nxu.Time.{deadline_spins, s11_time}
use nxu.Time.Armed.{Armed, program_deadline-Armed}
use nxu.Time.Fired.{uncounted, note_fire-cpu}

-- the interrupt of the timer is taken before the read `n`, and nothing else happens
abbrev pub taken_at : ℕ → ℕ → World → World
taken_at n k w = if k == n then state_of (irq_dispatch w.facts.timer_ppi w) else w

-- before that read the state is that in which the wait began
at_read-before : (n spins j : ℕ) (w : World) → spins + j < n → at_read (taken_at n) spins j w ≡ w
unfolding at_read
at_read-before n spins zero w h = rw (==_of_ne spins n (λ e. omega (arith, e, h))) refl
at_read-before n spins (suc j) w h =
    rw (==_of_ne spins n (λ e. omega (arith, e, h)))
      (at_read-before n (spins + 1) j w (omega arith))

-- and at it the handler has run
at_read-taken :
    (n spins k : ℕ) (w : World)
    → spins + k ≡ n
    → at_read (taken_at n) spins k w ≡ state_of (irq_dispatch w.facts.timer_ppi w)
unfolding at_read
at_read-taken n spins zero w e = rw (e', ==_refl) refl
  where
    e' : spins ≡ n
    e' = omega arith

    ==_refl : (n == n) ≡ true
    ==_refl = ground arith
at_read-taken n spins (suc k) w e =
    rw (==_of_ne spins n (λ f. omega (arith, e, f))) (at_read-taken n (spins + 1) k w (omega arith))

-- the handler counts the interrupt at the CPU that takes it
irq_dispatch-counts :
    (w u : World)
    → Armed w u
    → slot_of (this_logical w) ≡ 0
    → ((state_of (irq_dispatch u.facts.timer_ppi u)).cpu 0).timer_fired ≡ 1
unfolding irq_dispatch put tell timer_mask_el1
irq_dispatch-counts w u a runs = rw (a.signal, a.facts, here, ==_refl, a.cleared) refl
  where
    here : slot_of (this_logical u) ≡ 0
    here = ap (λ t. slot_of (t % 2 ^ 32)) a.runs ∙ runs

    ==_refl : (w.facts.timer_ppi == w.facts.timer_ppi) ≡ true
    ==_refl = ground arith

-- When CPU 0 runs and takes the interrupt of the timer before any of the 10000001 reads of the wait,
-- whatever its count and the signals were at the call: `nxu_s11_time` returns, and the count is one.
pub s11_time-Handled :
    (n : ℕ) (w : World)
    → n ≤ deadline_spins
    → slot_of (this_logical w) ≡ 0
    → Returns (λ _ v. (v.cpu 0).timer_fired ≡ 1) (s11_time (taken_at n) w)
unfolding s11_time
s11_time-Handled n w few runs = Returns-and_then (program_deadline-Armed w) (λ t0 u a.
    let one : ((at_read (taken_at n) 0 n u).cpu 0).timer_fired ≡ 1 =
      ap (λ z. (z.cpu 0).timer_fired) (at_read-taken n 0 n u (omega arith))
      ∙ irq_dispatch-counts w u a runs in
    rw
      (wait_loop-first (taken_at n) uncounted deadline_spins 0 n u few (λ j h. waits u a j h)
        (rw one refl))
      (Returns-mono (note_fire-cpu (0 + n) (at_read (taken_at n) 0 n u))
        (λ _ v same. ap (λ c. (c 0).timer_fired) same ∙ one)))
  where
    waits :
        (u : World) → Armed w u → (j : ℕ) → j < n → uncounted (at_read (taken_at n) 0 j u) ≡ true
    waits u a j h = rw (at_read-before n 0 j u (omega (arith, h)), a.cleared) refl
