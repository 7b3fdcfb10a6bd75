-- ===== src/Signals/Handled.antt =====
-- `ipi_to` of foundation/signal/signal.c with the kernel's own handler, `nxu_irq_dispatch`: an
-- interrupt that the CPU sends to itself.
use nxu.Base.{
  ℕ, ◌<◌, ◌≡◌, ◌≢◌, true, false, ◌==◌, arith, state_of, ◌>>◌, ap, sym, ◌∙◌, update_self, ==_of_ne,
}
use nxu.Codes
use nxu.Word.{add32, u32_mod}
use nxu.Observe.{slot_of}
use nxu.Silicon.{gic_sgi}
use nxu.World.{World, this_logical, tell, put, log3}
use nxu.Interrupt.{irq_dispatch}
use nxu.Signals.{ipi_to}
use nxu.Signals.Waiting.{at_read, sent, ipi_to-returns}

-- the handler of the interrupt runs between two reads
abbrev pub handler : ℕ → World → World
handler n w = state_of (irq_dispatch Codes.sgi_ipi w)

-- CPU `id` runs, the signal of the interprocessor interrupt is enabled, and that of the timer is another
pub record Listens (w : World) (id : ℕ) : Type 0 where
  pub runs : slot_of (this_logical w) ≡ id
  pub ipi : w.sig_ipi.intid ≡ Codes.sgi_ipi
  pub enabled : w.sig_ipi.enabled ≡ true
  pub timer : w.sig_timer.intid ≢ Codes.sgi_ipi
  pub seen : (w.cpu id).ipi_seen < u32_mod

changes : (n : ℕ) → n < u32_mod → (add32 n 1 == n) ≡ false
changes n h = ground arith

irq_dispatch-counts :
    (w : World) (id : ℕ)
    → Listens w id
    → ((state_of (irq_dispatch Codes.sgi_ipi w)).cpu id).ipi_seen ≡ add32 (w.cpu id).ipi_seen 1
unfolding irq_dispatch put tell
irq_dispatch-counts w id l =
    rw (l.ipi, l.enabled, l.runs, ==_of_ne Codes.sgi_ipi w.sig_timer.intid (λ e. l.timer (sym e)))
      (ap (λ c. c.ipi_seen)
        (update_self w.cpu id (record (w.cpu id) { ipi_seen = add32 (w.cpu id).ipi_seen 1 })))

-- When the running CPU sends the interrupt to itself, its signal is enabled and the handler runs before
-- the first read: `ipi_to` returns, with the receipt in the log and in the chronicle.
pub ipi_to-handled :
    (src id : ℕ) (w : World)
    → Listens w id
    → ipi_to handler src id w
      ≡ (log3 Codes.ev_ipi Codes.sub_smp src id Codes.ipi_recv >> put Codes.rec_s13_ipi src id)
          (handler 0 (sent src id w))
unfolding at_read log3 gic_sgi
ipi_to-handled src id w l =
    ipi_to-returns handler src id w 0 (omega arith) (λ j h. absurd (omega arith))
      (ap (λ n. n == (w.cpu id).ipi_seen)
          (irq_dispatch-counts (sent src id w) id (record {
            runs = l.runs;
            ipi = l.ipi;
            enabled = l.enabled;
            timer = l.timer;
            seen = l.seen;
          }))
        ∙ changes (w.cpu id).ipi_seen l.seen)
