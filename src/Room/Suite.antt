-- ===== src/Room/Suite.antt =====
-- `nxu_rooms_run` of foundation/room/room.c, in the parts that its empty lines and checks mark: the two
-- rooms are placed behind the image, and every run of the suite is followed by its checks.
use Prim.Native.Nat.{bit_and}
use nxu.Base.{
  ℕ, ◌+◌, ◌*◌, ◌^◌, Bool, true, false, not, ◌||◌, List, ltb, ◌!=◌, Cmd, ◌>>=◌, ◌>>◌, gets, when,
  get_or, update,
}
use nxu.Codes
use nxu.Hardware.{mrs, msr, isb, cntkctl_el1}
use nxu.Word.{page_size, page_up, add64, add32}
use nxu.Range.{range_contains}
use nxu.World.{World, ask, tell, log, fail}
use nxu.Silicon.{timer_cval_el1}
use nxu.Boot.{Link, half_at}
use nxu.Room.{room_n, exit_irq, exit_foreign, payload, set_rooms, priv, clear_page, refuse}
use nxu.Room.Run.{
  Life, run, expect, check_time, slot_word, plant, same, check_boundary, contained, early_svc,
}

abbrev pub canary0 : ℕ
canary0 = 0xB0B0B0B0B0B0

abbrev pub canary1 : ℕ
canary1 = 0xA11CE5A11CE5

-- the programs of foundation/room/room_entry.S, each the bytes between its two symbols
pub record Blobs : Type 0 where
  pub fault : List ℕ
  pub store : List ℕ
  pub exec : List ℕ
  pub steal : List ℕ
  pub send : List ℕ
  pub mal : List ℕ
  pub pay : List ℕ
  pub bad : List ℕ
  pub recv : List ℕ
  pub reply : List ℕ
  pub spin : List ℕ

-- `nxu_rooms_run` in a kernel with these programs, symbols and rooms
module _ (blobs : Blobs) (link : Link) (life : Life) where
  abbrev enter : ℕ → List ℕ → ℕ → Bool → Cmd World (Unit {0})
  enter id src fault poke = run life id src fault false poke

  -- `send_once`
  unfoldable pub send_once : Cmd World (Unit {0})
  unfolding run early_svc
  send_once = do
    d ← gets (λ w. w.rooms.delivered)
    enter 0 blobs.send 0 false
    early_svc
    d' ← gets (λ w. w.rooms.delivered)
    when (d' != add32 d 1) (fail Codes.fail_invariant d' d)

  -- a run that ends in a fault, and the canary of the other room after it
  abbrev faulting : ℕ → List ℕ → ℕ → Cmd World (Unit {0})
  faulting id src fault = do enter id src fault false; contained id

  -- the first words of a program are still in the page that a room stored to
  abbrev blob_kept : ℕ → ℕ → Cmd World (Unit {0})
  blob_kept id note = do
    v ← gets (λ w. half_at w.mem (w.rooms.code_pa id))
    when (v != half_at (λ i. get_or blobs.store i 0) 0) (fail Codes.fail_invariant v note)

  -- `nxu_rooms_run` up to the first run
  unfoldable pub place_rooms : Cmd World (Unit {0})
  unfolding page_up range_contains priv clear_page plant tell ask check_boundary
  place_rooms = do
    base ← gets (λ w. page_up (add64 w.image.base w.image.size))
    let need = page_size * 4
    m ← gets (λ w. w.facts.mem 0)
    when (not (range_contains m.range.base m.range.size base need))
        (fail Codes.fail_no_ram base need)
    set_rooms (λ r. record r {
      code_pa = update (update r.code_pa 0 base) 1 (add64 base (2 * page_size));
      data_pa = update (update r.data_pa 0 (add64 base page_size)) 1 (add64 base (3 * page_size));
    })
    priv 0
    priv 1
    data0 ← gets (λ w. w.rooms.data_pa 0)
    data1 ← gets (λ w. w.rooms.data_pa 1)
    clear_page data0
    clear_page data1
    plant 0 canary0
    plant 1 canary1
    tell (msr cntkctl_el1 0)
    tell isb
    v ← ask (mrs cntkctl_el1)
    when (bit_and v (2 ^ 9 + 1) != 0) (do v' ← ask (mrs cntkctl_el1); fail Codes.fail_timer v' 11)
    check_boundary
    set_rooms (λ r. record r { grant = room_n })

  -- the runs of room 0 that must end in a fault
  unfoldable pub root_faults : Cmd World (Unit {0})
  unfolding run contained same
  root_faults = do
    r ← gets (λ w. w.rooms)
    faulting 0 blobs.fault link.vec_full
    same 1 canary1
    faulting 0 blobs.fault (add64 (r.data_pa 1) 32)
    same 1 canary1
    faulting 0 blobs.store (add64 (r.data_pa 1) 32)
    same 1 canary1
    faulting 0 blobs.exec (r.data_pa 0)
    faulting 0 blobs.exec (r.code_pa 1)
    same 1 canary1
    faulting 0 blobs.store (r.code_pa 0)
    blob_kept 0 42
    f ← gets (λ w. w.facts)
    when f.uart_valid (faulting 0 blobs.fault f.uart.range.base)

  -- the pulses of room 0 that must be rejected
  unfoldable pub root_rejects : Cmd World (Unit {0})
  unfolding run early_svc refuse same
  root_rejects = do
    refuse 1
    rej ← gets (λ w. w.rooms.rejected)
    enter 0 blobs.mal 0 false
    early_svc
    enter 0 blobs.pay 0 false
    early_svc
    enter 0 blobs.bad link.vec_full false
    early_svc
    rej' ← gets (λ w. w.rooms.rejected)
    when (ltb rej' (add32 rej 3)) (fail Codes.fail_invariant rej' rej)
    v ← gets (λ w. slot_word w 1 1)
    when (v != 0) (fail Codes.fail_invariant v 41)
    refuse 1
    same 1 canary1

  -- two pulses and the one entry that they owe
  unfoldable pub pulse_twice : Cmd World (Unit {0})
  unfolding send_once run early_svc refuse same log
  pulse_twice = do
    send_once
    send_once
    v1 ← gets (λ w. slot_word w 1 1)
    v3 ← gets (λ w. slot_word w 1 3)
    when ((v1 != payload) || (v3 != 0)) (fail Codes.fail_invariant v3 payload)
    same 1 canary1
    enter 1 blobs.recv 0 false
    early_svc
    v2 ← gets (λ w. slot_word w 1 2)
    when (v2 != payload) (fail Codes.fail_invariant v2 payload)
    log Codes.ev_room Codes.sub_cpu 1 2
    refuse 1
    same 0 canary0

  -- the runs of room 1 that must end in a fault
  unfoldable pub peer_faults : Cmd World (Unit {0})
  unfolding send_once run contained same timer_cval_el1
  peer_faults = do
    r ← gets (λ w. w.rooms)
    send_once
    faulting 1 blobs.store (add64 (r.data_pa 0) 32)
    same 0 canary0
    same 1 canary1
    send_once
    faulting 1 blobs.fault link.vec_full
    send_once
    faulting 1 blobs.exec (r.code_pa 0)
    send_once
    faulting 1 blobs.store (r.code_pa 1)
    blob_kept 1 43
    send_once
    faulting 1 blobs.steal 0
    v ← timer_cval_el1
    armed ← gets (λ w. w.rooms.armed_cval)
    when (v != armed) (do v' ← timer_cval_el1; fail Codes.fail_timer v' armed)

  -- the runs of room 1 that end in its own call, in a foreign interrupt and at the deadline
  unfoldable pub peer_ends : Cmd World (Unit {0})
  unfolding send_once run early_svc refuse same log expect check_time
  peer_ends = do
    rej ← gets (λ w. w.rooms.rejected)
    send_once
    enter 1 blobs.reply 0 false
    early_svc
    rej' ← gets (λ w. w.rooms.rejected)
    when (rej' != add32 rej 1) (fail Codes.fail_invariant rej' rej)
    refuse 1
    send_once
    enter 1 blobs.spin 0 true
    expect exit_foreign
    check_time false
    log Codes.ev_room Codes.sub_cpu 1 7
    same 0 canary0
    same 1 canary1
    send_once
    enter 1 blobs.spin 0 false
    expect exit_irq
    check_time true
    log Codes.ev_room Codes.sub_cpu 1 3
    same 0 canary0

  -- `nxu_rooms_run`
  unfoldable pub rooms_run : Cmd World (Unit {0})
  unfolding place_rooms root_faults root_rejects pulse_twice peer_faults peer_ends log
  rooms_run = do
    place_rooms
    root_faults
    root_rejects
    pulse_twice
    peer_faults
    peer_ends
    log Codes.ev_app Codes.sub_boot 0 0
