-- ===== src/Silicon/Drain.antt =====
-- silicon/aarch64/uart/pl011.c at its registers against the text that `nxu_pl011_write` of Console.antt
-- gives.
use nxu.Base.{
  ℕ, zero, suc, ◌/◌, ◌%◌, ◌^◌, ◌<◌, ◌≡◌, inl, inr, refl, Bool, true, false, List, [], ◌∷◌, ◌++◌,
  ◌==◌, if◌then◌else◌, arith, Bool-cases, eq_of_==, sym, subst, ap, ◌∙◌, Returns, returns,
  Returns-and_then, Returns-mono,
}
use mathlib.Core.List.{append-nil, append_assoc}
use nxu.Hardware.{Access, Machine, load32, store32}
use nxu.Word.{add64, u64_mod}
use nxu.Console.{pl011_write}
use nxu.World.{World, ask, tell}
use nxu.Silicon.Uart.{pl011_r, pl011_w, putc_loop, pl011_on, pl011_putc, uart_char, uart_write}

-- the values stored to the data register of the UART at `base`, in their order
abbrev pub drained : ℕ → List Access → List ℕ
drained base [] = []
drained base (a ∷ past) = elim a [
  | store32 at v ↦ drained base past ++ (if at == base then v ∷ [] else [])
  | _ ↦ drained base past
]

-- the machine's UART at `base` never says that its transmit queue is full
abbrev pub NeverFull : Machine → ℕ → Type 0
NeverFull m base = (past : List Access) → m past (load32 (add64 base 0x18)) / 2 ^ 5 % 2 ≡ 0

module _ (base : ℕ) (low : base < u64_mod) where
  -- the machine is the same, and the UART was sent the text
  abbrev pub Drained : World → List ℕ → World → Type 0
  Drained w s v = (v.machine ≡ w.machine) × (drained base v.trace ≡ drained base w.trace ++ s)

  data_reg : (add64 base 0 == base) ≡ true
  data_reg = ground arith

  control_reg : (add64 base 0x30 == base) ≡ false
  control_reg = ground arith

  pl011_on-Drained : (w : World) → Returns (λ _. Drained w []) (pl011_on base w)
  unfolding pl011_on pl011_r pl011_w ask tell
  pl011_on-Drained w = elim (Bool-cases (w.machine w.trace (load32 (add64 base 0x30)) % 2 == 0)) [
    | inl e ↦ rw e (returns (refl, rw control_reg refl))
    | inr e ↦ rw e (returns (refl, sym (append-nil (drained base w.trace))))
  ]

  putc_loop-Drained :
      (left c : ℕ) (w : World)
      → NeverFull w.machine base
      → Returns (λ _. Drained w (c ∷ [])) (putc_loop left base c w)
  unfolding putc_loop pl011_r pl011_w ask tell
  putc_loop-Drained zero c w free = rw (free w.trace) (returns (refl, rw data_reg refl))
  putc_loop-Drained (suc left) c w free =
      rw (free w.trace, putc_loop) (returns (refl, rw data_reg refl))

  -- two texts, one after the other
  then_Drained :
      (w u v : World) (s t : List ℕ) → Drained w s u → Drained u t v → Drained w (s ++ t) v
  then_Drained w u v s t (m, e) (n, f) =
      (n ∙ m, f ∙ (ap (λ x. x ++ t) e ∙ append_assoc (drained base w.trace) s t))

  stays_free :
      (w u : World) (s : List ℕ)
      → Drained w s u
      → NeverFull w.machine base
      → NeverFull u.machine base
  stays_free w u s (m, e) free = subst (λ x. NeverFull x base) (sym m) free

  pl011_putc-Drained :
      (c : ℕ) (w : World)
      → NeverFull w.machine base
      → Returns (λ _. Drained w (c ∷ [])) (pl011_putc base c w)
  unfolding pl011_putc
  pl011_putc-Drained c w free =
      Returns-and_then {k = λ _. putc_loop 999999 base c} (pl011_on-Drained w) (λ _ u p.
        Returns-mono (putc_loop-Drained 999999 c u (stays_free w u [] p free))
          (λ _ v q. then_Drained w u v [] (c ∷ []) p q))

  -- the bytes of a round
  abbrev char_text : Bool → ℕ → List ℕ
  char_text true c = 13 ∷ (c ∷ [])
  char_text false c = c ∷ []

  uart_char-Drained :
      (feed : Bool) (c : ℕ) (w : World)
      → NeverFull w.machine base
      → Returns (λ _. Drained w (char_text feed c)) (uart_char base feed c w)
  unfolding uart_char
  uart_char-Drained true c w free =
      Returns-and_then {k = λ _. pl011_putc base c} (pl011_putc-Drained 13 w free) (λ _ u p.
        Returns-mono (pl011_putc-Drained c u (stays_free w u (13 ∷ []) p free))
          (λ _ v q. then_Drained w u v (13 ∷ []) (c ∷ []) p q))
  uart_char-Drained false c w free = pl011_putc-Drained c w free

  write_char : (c : ℕ) (s : List ℕ) → char_text (c == 10) c ++ pl011_write s ≡ pl011_write (c ∷ s)
  unfolding pl011_write
  write_char c s = elim (Bool-cases (c == 10)) [
    | inl e ↦ rw e (ap (λ x. 13 ∷ (x ∷ pl011_write s)) (eq_of_== c 10 e))
    | inr e ↦ rw e refl
  ]

  -- If the UART never says that its queue is full, the bytes that reach its data register through
  -- `nxu_pl011_write` are the text, with a carriage return before each line feed: none is lost, and
  -- their order is kept.
  pub uart_write-Drained :
      (s : List ℕ) (w : World)
      → NeverFull w.machine base
      → Returns (λ _. Drained w (pl011_write s)) (uart_write base s w)
  unfolding uart_write pl011_write
  uart_write-Drained [] w free = returns (refl, sym (append-nil (drained base w.trace)))
  uart_write-Drained (c ∷ s) w free =
      subst (λ x. Returns (λ _. Drained w x) (uart_write base (c ∷ s) w)) (write_char c s)
        (Returns-and_then {k = λ _. uart_write base s} (uart_char-Drained (c == 10) c w free)
          (λ _ u p.
            Returns-mono (uart_write-Drained s u (stays_free w u (char_text (c == 10) c) p free))
              (λ _ v q. then_Drained w u v (char_text (c == 10) c) (pl011_write s) p q)))
