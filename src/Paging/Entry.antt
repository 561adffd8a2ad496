-- ===== src/Paging/Entry.antt =====
-- The bits of a page table entry of kernel/paging.c.
use Prim.Native.Nat.{bit_and}
use kronked_os.Prelude.{
  ℕ, ◌+◌, ◌*◌, ◌/◌, ◌%◌, ◌<◌, ◌≡◌, refl, Bool, true, false, not, ◌&&◌, ltb, arith,
}
use kronked_os.Prelude.Bits.{has_bit, with_bit, all_below, all_below_sound}

abbrev pub page_rw : ℕ
page_rw = 0x2

abbrev pub page_user : ℕ
page_user = 0x4

abbrev pub page_of : ℕ → ℕ
page_of x = x / 4096 * 4096

-- `(phys & 0xfffff000) | (flags & 0xfff) | PAGE_PRESENT`
unfoldable pub entry : ℕ → ℕ → ℕ
entry phys flags = page_of phys + with_bit (flags % 4096) 0

-- The tests of PAGE_PRESENT (bit 0), PAGE_RW (bit 1) and PAGE_COW (bit 9).
unfoldable pub is_present : ℕ → Bool
is_present e = has_bit (e % 4096) 0

unfoldable pub is_writable : ℕ → Bool
is_writable e = has_bit (e % 4096) 1

unfoldable pub is_cow : ℕ → Bool
is_cow e = has_bit (e % 4096) 9

-- `e & 0xfff & ~PAGE_PRESENT`
unfoldable pub drop_present : ℕ → ℕ
drop_present e = bit_and (e % 4096) 0xffe

-- `(flags & ~PAGE_RW) | PAGE_COW`
unfoldable pub share_flags : ℕ → ℕ
share_flags flags = with_bit (bit_and flags 0xffd) 9

-- `(e & 0xfff & ~PAGE_COW) | PAGE_RW`
unfoldable pub unshare_flags : ℕ → ℕ
unshare_flags e = with_bit (bit_and (e % 4096) 0xdff) 1

-- The properties of all 4096 flag words, by evaluation.
abbrev share_test : ℕ → Bool
share_test f =
    let shared = with_bit (share_flags (drop_present f) % 4096) 0 in
    has_bit shared 0 && not (has_bit shared 1) && has_bit shared 9 && ltb shared 4096

abbrev unshare_test : ℕ → Bool
unshare_test f =
    let own = with_bit (unshare_flags f % 4096) 0 in
    has_bit own 0 && has_bit own 1 && not (has_bit own 9) && ltb own 4096

abbrev entry_test : ℕ → Bool
entry_test f = has_bit (with_bit f 0) 0 && ltb (with_bit f 0) 4096

shared_bits : all_below 4096 share_test ≡ true
unfolding all_below has_bit with_bit share_flags drop_present
shared_bits = refl

unshare_table : all_below 4096 unshare_test ≡ true
unfolding all_below has_bit with_bit unshare_flags
unshare_table = refl

entry_table : all_below 4096 entry_test ≡ true
unfolding all_below has_bit with_bit
entry_table = refl

-- An entry is present and points at its frame.
pub entry_lem :
    (phys flags : ℕ)
    → (page_of (entry phys flags) ≡ page_of phys) × (is_present (entry phys flags) ≡ true)
unfolding entry is_present
entry_lem phys flags =
    let t = all_below_sound 4096 entry_test (flags % 4096) entry_table (omega arith) in
    let small : with_bit (flags % 4096) 0 < 4096 = ground (arith, t) in
    let low : entry phys flags % 4096 ≡ with_bit (flags % 4096) 0 = omega arith in
    (omega arith, rw low (ground (arith, t)))

-- An entry made for the sole owner: writable, and no longer shared.
pub unshared_lem :
    (phys e : ℕ)
    → (page_of (entry phys (unshare_flags e)) ≡ page_of phys)
      × (is_present (entry phys (unshare_flags e)) ≡ true)
      × (is_writable (entry phys (unshare_flags e)) ≡ true)
      × (is_cow (entry phys (unshare_flags e)) ≡ false)
unfolding entry is_present is_writable is_cow
unshared_lem phys e =
    let own = with_bit (unshare_flags e % 4096) 0 in
    let same : unshare_flags (e % 4096) ≡ unshare_flags e = unfold unshare_flags in mod_twice e in
    let t : unshare_test e ≡ true =
      rw same at (all_below_sound 4096 unshare_test (e % 4096) unshare_table (omega arith)) in
    let small : own < 4096 = ground (arith, t) in
    let low : (page_of phys + own) % 4096 ≡ own = omega arith in
    (
      omega arith,
      rw low (ground (arith, t)),
      rw low (ground (arith, t)),
      rw low (ground (arith, t)),
    )
  where
    mod_twice :
        (x : ℕ)
        → with_bit (bit_and (x % 4096 % 4096) 0xdff) 1 ≡ with_bit (bit_and (x % 4096) 0xdff) 1
    mod_twice x = let k : x % 4096 % 4096 ≡ x % 4096 = omega arith in rw k

-- An entry made for a shared page: read-only, and marked copy-on-write.
pub shared_lem :
    (phys e : ℕ)
    → (page_of (entry phys (share_flags (drop_present e))) ≡ page_of phys)
      × (is_present (entry phys (share_flags (drop_present e))) ≡ true)
      × (is_writable (entry phys (share_flags (drop_present e))) ≡ false)
      × (is_cow (entry phys (share_flags (drop_present e))) ≡ true)
unfolding entry is_present is_writable is_cow
shared_lem phys e =
    let own = with_bit (share_flags (drop_present e) % 4096) 0 in
    let same : drop_present (e % 4096) ≡ drop_present e = unfold drop_present in mod_twice e in
    let t : share_test e ≡ true =
      rw same at (all_below_sound 4096 share_test (e % 4096) shared_bits (omega arith)) in
    let small : own < 4096 = ground (arith, t) in
    let low : (page_of phys + own) % 4096 ≡ own = omega arith in
    (
      omega arith,
      rw low (ground (arith, t)),
      rw low (ground (arith, t)),
      rw low (ground (arith, t)),
    )
  where
    mod_twice : (x : ℕ) → bit_and (x % 4096 % 4096) 0xffe ≡ bit_and (x % 4096) 0xffe
    mod_twice x = let k : x % 4096 % 4096 ≡ x % 4096 = omega arith in rw k
