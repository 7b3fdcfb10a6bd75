-- ===== src/Dtb/Header.antt =====
-- The checks of the header in `nxu_s3_dtb` of foundation/facts/fdt.c: what is known of a blob that
-- passes them.
use nxu.Base.{
  ℕ, ◌%◌, ◌≤◌, ◌<◌, ◌≡◌, refl, Bool, true, false, not, ◌||◌, ltb, ◌!=◌, arith, ||-false, not_ltb→le,
  subst, sym, ◌∙◌, pure, ◌>>◌, MayHalt, goes_on, MayHalt-and_then, MayHalt-mono,
}
use mathlib.Core.Bool.{true≢false}
use nxu.Codes
use nxu.Word.{add32, u64_mod}
use nxu.Range.{range_ok, range_overlap}
use nxu.Range.Membership.{Within, range_overlap_iff}
use nxu.World.{World}
use nxu.World.Halting.{after_guard, guard-passes}
use nxu.Dtb.{fdt_magic, dtb_probe_cap, Bytes, be32, Blob, struct_end}
use nxu.Dtb.Stage.{blob_at, check_start, check_place, check_blocks, check_header}

-- The blob at `ptr` is aligned, has the magic word and a lawful size, does not wrap, and its blocks end
-- within it, by the 32-bit sums.
pub record HeaderIsLawful (w : World) (ptr total : ℕ) : Type 0 where
  pub aligned : ptr % 8 ≡ 0
  pub magic : be32 (blob_at w ptr).byte 0 ≡ fdt_magic
  pub size : total ≡ be32 (blob_at w ptr).byte 4
  pub low : 40 ≤ total
  pub high : total ≤ dtb_probe_cap
  pub in_space : range_ok ptr total ≡ true
  pub apart : range_overlap ptr total w.image.base w.image.size ≡ false
  pub structs : struct_end (blob_at w ptr) ≤ total
  pub strings : add32 (blob_at w ptr).off_strings (blob_at w ptr).size_strings ≤ total

eq_of_!= : (a b : ℕ) → (a != b) ≡ false → a ≡ b
eq_of_!= a b h = ground arith

true_of_not : (b : Bool) → not b ≡ false → b ≡ true
true_of_not true h = refl
true_of_not false h = absurd cc

check_start-passes :
    (ptr : ℕ) (byte : Bytes) (w : World)
    → MayHalt
        (λ total v.
          (v ≡ w)
          × (ptr % 8 ≡ 0)
          × (be32 byte 0 ≡ fdt_magic)
          × (total ≡ be32 byte 4)
          × (40 ≤ total)
          × (total ≤ dtb_probe_cap))
        (check_start ptr byte w)
unfolding check_start
check_start-passes ptr byte w = after_guard (ptr % 8 != 0) Codes.fail_dtb ptr 0 _ w (λ a.
    after_guard (be32 byte 0 != fdt_magic) Codes.fail_dtb ptr 1 _ w (λ m.
      after_guard (ltb (be32 byte 4) 40 || ltb dtb_probe_cap (be32 byte 4)) Codes.fail_dtb
        (be32 byte 4) 2 _ w
        (λ s. goes_on (
          refl,
          eq_of_!= _ _ a,
          eq_of_!= _ _ m,
          refl,
          not_ltb→le _ _ (||-false _ _ s).0,
          not_ltb→le _ _ (||-false _ _ s).1,
        ))))

check_place-passes :
    (ptr total : ℕ) (w : World)
    → MayHalt
        (λ _ v.
          (v ≡ w)
          × (range_ok ptr total ≡ true)
          × (range_overlap ptr total w.image.base w.image.size ≡ false))
        (check_place ptr total w)
unfolding check_place
check_place-passes ptr total w =
    after_guard (not (range_ok ptr total)) Codes.fail_wrap ptr total _ w (λ a.
      MayHalt-mono
        (guard-passes (range_overlap ptr total w.image.base w.image.size) Codes.fail_dtb_overlap ptr
          total w)
        (λ _ v (e, f). (e, true_of_not _ a, f)))

check_blocks-passes :
    (b : Blob) (total : ℕ) (w : World)
    → MayHalt
        (λ _ v. (v ≡ w) × (struct_end b ≤ total) × (add32 b.off_strings b.size_strings ≤ total))
        (check_blocks b total w)
unfolding check_blocks
check_blocks-passes b total w =
    after_guard (ltb total (struct_end b)) Codes.fail_dtb b.off_struct 4 _ w (λ a.
      MayHalt-mono
        (guard-passes (ltb total (add32 b.off_strings b.size_strings)) Codes.fail_dtb b.off_strings
          5 w)
        (λ _ v (e, f). (e, not_ltb→le _ _ a, not_ltb→le _ _ f)))

-- no address of the blob is in the image
abbrev pub Apart : World → ℕ → ℕ → Type 0
Apart w ptr total = (x : ℕ) → Within ptr total x → ¬ Within w.image.base w.image.size x

overlap-Apart :
    (w : World) (ptr total : ℕ)
    → ptr < u64_mod
    → w.image.base < u64_mod
    → w.image.size < u64_mod
    → range_ok w.image.base w.image.size ≡ true
    → HeaderIsLawful w ptr total
    → Apart w ptr total
overlap-Apart w ptr total hp hb hs ok_image h x blob image = true≢false (
    sym (
      (range_overlap_iff ptr total w.image.base w.image.size hp (omega (arith, h.high)) hb hs
          h.in_space ok_image).1
        (x, blob, image))
    ∙ h.apart)

pub check_header-Lawful :
    (w : World) (ptr : ℕ)
    → MayHalt (λ total v. (v ≡ w) × HeaderIsLawful w ptr total) (check_header ptr w)
unfolding check_header
check_header-Lawful w ptr =
    let b = blob_at w ptr in
    MayHalt-and_then {k = λ total. check_place ptr total >> (check_blocks b total >> pure total)}
      (check_start-passes ptr b.byte w)
      (λ total v (e, aligned, magic, size, low, high).
        MayHalt-and_then {k = λ _. check_blocks b total >> pure total}
          (subst
            (λ x.
              MayHalt
                (λ _ u.
                  (u ≡ w)
                  × (range_ok ptr total ≡ true)
                  × (range_overlap ptr total w.image.base w.image.size ≡ false))
                (check_place ptr total x))
            (sym e) (check_place-passes ptr total w))
          (λ _ u (f, in_space, apart).
            MayHalt-and_then {k = λ _. pure total}
              (subst
                (λ x.
                  MayHalt
                    (λ _ t.
                      (t ≡ w)
                      × (struct_end b ≤ total)
                      × (add32 b.off_strings b.size_strings ≤ total))
                    (check_blocks b total x))
                (sym f) (check_blocks-passes b total w))
              (λ _ t (g, structs, strings). goes_on (
                g,
                record {
                  aligned = aligned;
                  magic = magic;
                  size = size;
                  low = low;
                  high = high;
                  in_space = in_space;
                  apart = apart;
                  structs = structs;
                  strings = strings;
                },
              ))))

-- With x0 and the image made of 64-bit words and the image a range that does not wrap, a blob that
-- passes the checks of its header is aligned to 8 bytes, has the magic word and a size of 40 to 2 ^ 20
-- bytes, does not wrap, shares no address with the image, and its blocks end within it by the 32-bit
-- sums of the source; the checks change nothing.
pub check_header-Apart :
    (w : World) (ptr : ℕ)
    → ptr < u64_mod
    → w.image.base < u64_mod
    → w.image.size < u64_mod
    → range_ok w.image.base w.image.size ≡ true
    → MayHalt
        (λ total v. (v ≡ w) × HeaderIsLawful w ptr total × Apart w ptr total)
        (check_header ptr w)
check_header-Apart w ptr hp hb hs ok_image =
    MayHalt-mono (check_header-Lawful w ptr)
      (λ total v (e, h). (e, h, overlap-Apart w ptr total hp hb hs ok_image h))
