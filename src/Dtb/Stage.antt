-- ===== src/Dtb/Stage.antt =====
-- `nxu_s3_dtb` of foundation/facts/fdt.c: the checks of the header, and then the parser.
use nxu.Base.{
  ℕ, ◌%◌, Bool, true, false, not, ◌||◌, ltb, ◌==◌, ◌!=◌, if◌then◌else◌, ok, halted, Cmd, pure,
  ◌>>=◌, ◌>>◌, modify, gets, when,
}
use nxu.Codes
use nxu.Word.{add32, add64}
use nxu.Range.{range, range_ok, range_overlap}
use nxu.World.{World, DtbCand, put, fail, fail_with}
use nxu.Dtb.{fdt_magic, dtb_probe_cap, Bytes, be32, Blob, struct_end}
use nxu.Dtb.Parser.{token_loop, start}

-- the parser runs on `nxu_dtb_cand`, and its `nxu_fail` is that of the kernel
unfoldable pub run_parser : ℕ → Blob → Cmd World Bool
unfolding token_loop
run_parser fuel b w = elim (token_loop fuel b (start b w.dtb_cand)) [
  | ok ended s ↦ ok ended (record w { dtb_cand = s.cand })
  | halted f s ↦ fail_with f (record w { dtb_cand = s.cand })
]

-- the blob at `ptr`
abbrev pub blob_at : World → ℕ → Blob
blob_at w ptr =
    let byte : Bytes = λ i. w.mem (add64 ptr i) in
    record {
      byte = byte;
      off_struct = be32 byte 8;
      size_struct = be32 byte 36;
      off_strings = be32 byte 12;
      size_strings = be32 byte 32;
    }

-- the candidate that `nxu_s3_dtb` starts from
abbrev pub no_cand : DtbCand → DtbCand
no_cand c = record c {
  valid = false;
  mem_count = 0;
  cpu_count = 0;
  uart_valid = false;
  psci_conduit = 0;
  timer_ppi = 0;
  gicd = range 0 0;
  gicr = range 0 0;
  base = 0;
  size = 0;
}

-- the checks of the header: the address and the start of the blob; the result is `totalsize`
unfoldable pub check_start : ℕ → Bytes → Cmd World ℕ
unfolding be32
check_start ptr byte = do
  when (ptr % 8 != 0) (fail Codes.fail_dtb ptr 0)
  when (be32 byte 0 != fdt_magic) (fail Codes.fail_dtb ptr 1)
  let totalsize = be32 byte 4
  when (ltb totalsize 40 || ltb dtb_probe_cap totalsize) (fail Codes.fail_dtb totalsize 2)
  pure totalsize

-- its place
unfoldable pub check_place : ℕ → ℕ → Cmd World (Unit {0})
unfolding range_ok range_overlap
check_place ptr totalsize = do
  when (not (range_ok ptr totalsize)) (fail Codes.fail_wrap ptr totalsize)
  image ← gets (λ w. w.image)
  when (range_overlap ptr totalsize image.base image.size)
      (fail Codes.fail_dtb_overlap ptr totalsize)

-- and its blocks
unfoldable pub check_blocks : Blob → ℕ → Cmd World (Unit {0})
check_blocks b totalsize = do
  when (ltb totalsize (struct_end b)) (fail Codes.fail_dtb b.off_struct 4)
  when (ltb totalsize (add32 b.off_strings b.size_strings)) (fail Codes.fail_dtb b.off_strings 5)

unfoldable pub check_header : ℕ → Cmd World ℕ
unfolding check_start check_place check_blocks
check_header ptr = do
  b ← gets (λ w. blob_at w ptr)
  totalsize ← check_start ptr b.byte
  check_place ptr totalsize
  check_blocks b totalsize
  pure totalsize

-- the end of `nxu_s3_dtb`: the candidate is accepted, unless the fuel is out
unfoldable pub accept_cand : ℕ → ℕ → Bool → Cmd World Bool
unfolding put
accept_cand ptr totalsize ended =
    if ended
    then (do
      modify (λ w. record w { dtb_cand = record (w.dtb_cand) { valid = true } })
      put Codes.rec_s3_dtb ptr totalsize
      pure true)
    else pure false

-- the part of `nxu_s3_dtb` behind the checks of the header
unfoldable pub parse_blob : ℕ → ℕ → ℕ → Cmd World Bool
unfolding accept_cand
parse_blob fuel ptr totalsize = do
  modify (λ w. record w { dtb_cand = record (w.dtb_cand) { base = ptr; size = totalsize } })
  b ← gets (λ w. blob_at w ptr)
  ended ← run_parser fuel b
  accept_cand ptr totalsize ended

-- `nxu_s3_dtb`; the result is false when the fuel of the loop is out
unfoldable pub s3_dtb : ℕ → Cmd World Bool
unfolding put parse_blob
s3_dtb fuel = do
  modify (λ w. record w { dtb_cand = no_cand w.dtb_cand })
  ptr ← gets (λ w. w.intake.x0)
  if ptr == 0
      then (do put Codes.rec_s3_dtb_absent 0 0; pure true)
      else do totalsize ← check_header ptr; parse_blob fuel ptr totalsize
