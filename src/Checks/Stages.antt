-- ===== src/Checks/Stages.antt =====
-- The theorems on the stages from S8 on, on the interrupt controller and on the UART, at concrete inputs.
use nxu.Base.{ℕ, zero, suc, ◌+◌, ◌*◌, ◌≡◌, refl, true, arith, MayHalt, Returns, ◌>>◌}
use nxu.Codes
use nxu.Console.{txt, pl011_write}
use nxu.Facts.{affinity}
use nxu.Silicon.{gic_sgi}
use nxu.World.{World, log3, put, fail}
use nxu.Cpus.{s8_present}
use nxu.Cpus.PresentSet.{Listed}
use nxu.Cpus.PresentSet.Stage.{s8_present-Listed}
use nxu.Signals.{s10_gic, ipi_to, ipi_spins}
use nxu.Signals.Redist.Stage.{HasFrames, s10_gic-Frame}
use nxu.Signals.Waiting.{at_read, sent, ipi_to-returns, ipi_to-times_out}
use nxu.Signals.Handled.{handler, ipi_to-handled}
use nxu.Time.{s11_time}
use nxu.Time.Fired.{Fired, s11_time-Fired}
use nxu.Time.Handled.{taken_at, s11_time-Handled}
use nxu.Smp.{s12_smp}
use nxu.Smp.Online.{Online, s12_smp-Online}
use nxu.Silicon.Uart.{uart_write}
use nxu.Silicon.Drain.{Drained, uart_write-Drained}
use nxu.Checks.Zero.{zero_facts, zero_cpu_fact}
use nxu.Checks.Kernel.{kernel}

-- two CPUs in the facts, the boot CPU first
abbrev two_cpus : World
two_cpus = record kernel {
  facts = record zero_facts {
    cpu_count = 2;
    cpu = λ i. record zero_cpu_fact { mpidr = i * 0x100 };
  };
}

s8_present-Listed_example :
    Returns
      (λ _ w'.
        Listed
          (λ j. j * 0x100)
          2
          (affinity two_cpus.intake.mpidr)
          w'.cpu
          w'.facts
          w'.cpu_present_count)
      (s8_present two_cpus)
s8_present-Listed_example =
    s8_present-Listed two_cpus 0 (omega arith) (omega arith) refl (λ j k jk h. omega arith)

s10_gic-Frame_example :
    MayHalt (λ _ v. HasFrames kernel kernel.cpu_present_count v.cpu) (s10_gic 7 kernel)
s10_gic-Frame_example = s10_gic-Frame kernel 7 (omega arith) (λ i _. refl)

-- the interrupt is taken before the first read
abbrev taken : ℕ → World → World
taken n w = record w { cpu = λ i. record (w.cpu i) { ipi_seen = (w.cpu i).ipi_seen + 1 } }

ipi_to-returns_example :
    ipi_to taken 0 0 kernel
    ≡ (log3 Codes.ev_ipi Codes.sub_smp 0 0 Codes.ipi_recv >> put Codes.rec_s13_ipi 0 0)
        (at_read taken 0 0 (sent 0 0 kernel))
unfolding at_read log3 gic_sgi
ipi_to-returns_example =
    ipi_to-returns taken 0 0 kernel 0 (omega arith) (λ j h. absurd (omega arith)) refl

-- the signals of the timer and of the interrupt between CPUs are enabled
abbrev listening : World
listening = record kernel {
  sig_timer = record { intid = 30; owner = 0; route_cpu = 0; enabled = true };
  sig_ipi = record { intid = 0; owner = 0; route_cpu = 0; enabled = true };
}

ipi_to-handled_example :
    ipi_to handler 0 0 listening
    ≡ (log3 Codes.ev_ipi Codes.sub_smp 0 0 Codes.ipi_recv >> put Codes.rec_s13_ipi 0 0)
        (handler 0 (sent 0 0 listening))
ipi_to-handled_example =
    ipi_to-handled 0 0 listening
      (record { runs = refl; ipi = refl; enabled = refl; timer = omega arith; seen = omega arith })

-- nothing happens
abbrev nothing : ℕ → World → World
nothing n w = w

at_read-nothing : (spins k : ℕ) (w : World) → at_read nothing spins k w ≡ w
unfolding at_read
at_read-nothing spins zero w = refl
at_read-nothing spins (suc k) w = at_read-nothing (spins + 1) k w

ipi_to-times_out_example :
    ipi_to nothing 0 1 kernel
    ≡ fail Codes.fail_timeout 1 0 (at_read nothing 0 ipi_spins (sent 0 1 kernel))
unfolding log3 gic_sgi
ipi_to-times_out_example =
    ipi_to-times_out nothing 0 1 kernel (λ j h. rw (at_read-nothing 0 j (sent 0 1 kernel)) refl)

s11_time-Fired_example : MayHalt (λ _ v. Fired (taken_at 3) kernel v) (s11_time (taken_at 3) kernel)
s11_time-Fired_example = s11_time-Fired (taken_at 3) kernel

-- CPU 0 has counted interrupts of the timer before
abbrev used_timer : World
used_timer = record kernel { cpu = λ i. record (kernel.cpu i) { timer_fired = 7 } }

s11_time-Handled_example :
    Returns (λ _ v. (v.cpu 0).timer_fired ≡ 1) (s11_time (taken_at 3) used_timer)
s11_time-Handled_example = s11_time-Handled 3 used_timer (omega arith) refl

s12_smp-Online_example :
    MayHalt
      (λ r v. r ≡ true → Online kernel.cpu_present_count v.cpu)
      (s12_smp 5 0x40080000 nothing kernel)
s12_smp-Online_example = s12_smp-Online 5 0x40080000 nothing kernel (λ n w i h. h)

uart_write-Drained_example :
    Returns
      (λ _. Drained 0x09000000 (omega arith) kernel (pl011_write (txt "ok\n")))
      (uart_write 0x09000000 (txt "ok\n") kernel)
uart_write-Drained_example =
    uart_write-Drained 0x09000000 (omega arith) (txt "ok\n") kernel (λ past. refl)
