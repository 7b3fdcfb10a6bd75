-- ===== src/Silicon/Uart.antt =====
-- silicon/aarch64/uart/pl011.c at its registers: a byte is stored when the transmit queue has room, or
-- dropped when it has none in 1000000 reads of the flags.
use nxu.Base.{
  ℕ, zero, suc, ◌/◌, ◌%◌, ◌^◌, Bool, List, [], ◌∷◌, ◌==◌, if◌then◌else◌, Cmd, pure, ◌>>=◌, ◌>>◌,
  when,
}
use nxu.Hardware.{load32, store32}
use nxu.Word.{add64}
use nxu.World.{World, ask, tell}

-- `pl011_r`
unfoldable pub pl011_r : ℕ → ℕ → Cmd World ℕ
unfolding ask
pl011_r base off = ask (load32 (add64 base off))

-- `pl011_w`
unfoldable pub pl011_w : ℕ → ℕ → ℕ → Cmd World (Unit {0})
unfolding tell
pl011_w base off v = tell (store32 (add64 base off) v)

-- the wait of `nxu_pl011_putc`, with `left` more reads of the flags behind this one
unfoldable pub putc_loop : ℕ → ℕ → ℕ → Cmd World (Unit {0})
unfolding pl011_r pl011_w
putc_loop zero base c = do
  flags ← pl011_r base 0x18
  when (flags / 2 ^ 5 % 2 == 0) (pl011_w base 0 c)
putc_loop (suc left) base c = do
  flags ← pl011_r base 0x18
  if flags / 2 ^ 5 % 2 == 0 then pl011_w base 0 c else putc_loop left base c

-- the UART is enabled, unless it is
unfoldable pub pl011_on : ℕ → Cmd World (Unit {0})
unfolding pl011_r pl011_w
pl011_on base = do control ← pl011_r base 0x30; when (control % 2 == 0) (pl011_w base 0x30 0x301)

-- `nxu_pl011_putc`
unfoldable pub pl011_putc : ℕ → ℕ → Cmd World (Unit {0})
unfolding pl011_on putc_loop
pl011_putc base c = do pl011_on base; putc_loop 999999 base c

-- a round of the loop of `nxu_pl011_write`; `feed` says whether the byte is a line feed
unfoldable pub uart_char : ℕ → Bool → ℕ → Cmd World (Unit {0})
unfolding pl011_putc
uart_char base feed c = do when feed (pl011_putc base 13); pl011_putc base c

-- `nxu_pl011_write`, through the registers
unfoldable pub uart_write : ℕ → List ℕ → Cmd World (Unit {0})
unfolding uart_char
uart_write base [] = pure tt
uart_write base (c ∷ s) = do uart_char base (c == 10) c; uart_write base s
