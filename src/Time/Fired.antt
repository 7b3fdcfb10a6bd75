-- ===== src/Time/Fired.antt =====
-- `nxu_s11_time` of foundation/time/time.c: what its return means, and that it returns.
use nxu.Base.{
  ℕ, ◌+◌, ◌≤◌, ◌<◌, ◌≡◌, ◌≢◌, ◌⊎◌, inl, inr, Bool, Option, none, some, ◌==◌, ne_of_==, eq_of_==,
  Cmd, MayHalt, MayHalt-and_then, MayHalt-stop, MayHalt-mono, Returns, returns, Returns-MayHalt,
  refl, ap, ◌∙◌,
}
use nxu.Silicon.{timer_cntpct}
use nxu.World.Halting.{fail-halts}
use nxu.World.{World, ask, tell, put, log, log3}
use nxu.Signals.Waiting.{at_read, EndsAt, wait_loop-EndsAt}
use nxu.Time.{deadline_spins, missed, note_fire, s11_time}
use nxu.Time.Armed.{Armed, program_deadline-Armed}

missed-halts : {P : Unit {0} → World → Type 0} (t0 : ℕ) (w : World) → MayHalt P (missed t0 w)
unfolding missed
missed-halts t0 w = MayHalt-stop _ (λ _ v. fail-halts _ _ _ v)

-- no interrupt of the timer is counted at CPU 0
abbrev pub uncounted : World → Bool
uncounted w = (w.cpu 0).timer_fired == 0

-- The deadline was armed in `u` for a call in `w`, and the wait from `u` ended at the first read that
-- found the count of CPU 0 changed, one of the first 10000001; `v` has the CPUs of that read.
pub record Fired (meanwhile : ℕ → World → World) (w v : World) : Type 0 where
  pub u : World
  pub armed : Armed w u
  pub read : ℕ
  pub soon : read ≤ deadline_spins
  pub before : (j : ℕ) → j < read → ((at_read meanwhile 0 j u).cpu 0).timer_fired ≡ 0
  pub now : ((at_read meanwhile 0 read u).cpu 0).timer_fired ≢ 0
  pub cpu : v.cpu ≡ (at_read meanwhile 0 read u).cpu

pub note_fire-cpu : (n : ℕ) (w : World) → Returns (λ _ v. v.cpu ≡ w.cpu) (note_fire n w)
unfolding note_fire tell timer_cntpct ask put log log3
note_fire-cpu n w = returns refl

end_wait :
    (meanwhile : ℕ → World → World) (t0 : ℕ) {w u : World} (r : Option ℕ) (x : World)
    → Armed w u
    → (r ≡ none)
      ⊎ ((k : ℕ) × (r ≡ some (0 + k)) × EndsAt meanwhile uncounted deadline_spins 0 u k x)
    → MayHalt
        (λ _ v. Fired meanwhile w v)
        (elim r as (λ _. Cmd World (Unit {0})) [ none ↦ missed t0 | some n ↦ note_fire n ] x)
end_wait meanwhile t0 none x armed o = missed-halts t0 x
end_wait meanwhile t0 (some n) x armed (inl e) = absurd cc
end_wait meanwhile t0 {u} (some n) x armed (inr (k, e, g)) =
    MayHalt-mono (Returns-MayHalt (note_fire-cpu n x)) (λ _ v same. record {
      u = u;
      armed = armed;
      read = k;
      soon = g.soon;
      before = λ j h. eq_of_== _ _ (g.before j h);
      now = ne_of_== _ _ g.now;
      cpu = same ∙ ap (λ z. z.cpu) g.state;
    })

-- Whatever happens during its wait, `nxu_s11_time` halts, or it has armed the deadline (the timer's
-- signal is that of the timer's interrupt and enabled, the count of CPU 0 zero, the interrupt forwarded
-- by the redistributor of CPU 0, and the timer set to the hundredth part of its frequency), and it has
-- returned at the first read that found the count changed, one of the first 10000001.
pub s11_time-Fired :
    (meanwhile : ℕ → World → World) (w : World)
    → MayHalt (λ _ v. Fired meanwhile w v) (s11_time meanwhile w)
unfolding s11_time
s11_time-Fired meanwhile w =
    MayHalt-and_then (Returns-MayHalt (program_deadline-Armed w)) (λ t0 u armed.
      MayHalt-and_then (wait_loop-EndsAt deadline_spins 0 meanwhile uncounted u)
        (λ r x o. end_wait meanwhile t0 r x armed o))
