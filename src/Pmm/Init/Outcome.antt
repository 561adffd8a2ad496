-- ===== src/Pmm/Init/Outcome.antt =====
-- What `pmm_init` (kernel/pmm.c) leaves: exactly which frames are free, and a valid state.
use kronked_os.Prelude.{
  ℕ, zero, suc, ◌+◌, ◌-◌, ◌*◌, ◌/◌, ◌%◌, ◌^◌, ◌<◌, ◌≤◌, ◌≡◌, refl, Bool, true, false, not, ◌&&◌,
  ◌||◌, ◌==◌, ltb, leb, if◌then◌else◌, Bool-cases, arith, inl, inr, sym, ltb→lt,
}
use kronked_os.Pmm.Bitmap.{max_frames, bitmap_test}
use kronked_os.Pmm.{Pmm, frame_size}
use kronked_os.Pmm.Init.{MmapEntry, release_entry, take_entry, walk_map, set_all, boot, pmm_init}
use kronked_os.Pmm.Init.Ranges.{
  IsFresh, reserve_range-IsFresh, test-reserve_range, release_range-IsFresh, test-release_range,
  set_all-IsBytes, test-set_all, count_used_full,
}

-- The entry is of available RAM and the frame `f` lies in it, from its first byte to its last.
unfoldable pub in_entry : MmapEntry → ℕ → Bool
in_entry e f =
    e.kind == 1 && leb e.addr (f * frame_size) && leb ((f + 1) * frame_size) (e.addr + e.len)

-- Some entry of the map holds the frame.
unfoldable pub listed : (ℕ → MmapEntry) → ℕ → ℕ → ℕ → ℕ → Bool
listed mem zero entry end f = false
listed mem (suc n) entry end f =
    let rest = listed mem n ((entry + (mem entry).size + 4) % 2 ^ 32) end f in
    if ltb entry end then in_entry (mem entry) f || rest else false

-- The entry begins on a page boundary, and the numbers of its frames fit an unsigned int.
unfoldable pub Whole : MmapEntry → Type 0
Whole e = (e.addr % frame_size ≡ 0) × ((e.addr + e.len) / frame_size < 2 ^ 32)

-- All the entries of the map are such.
unfoldable pub AllWhole : (ℕ → MmapEntry) → ℕ → ℕ → ℕ → Type 0
AllWhole mem zero entry end = true ≡ true
AllWhole mem (suc n) entry end =
    (ltb entry end ≡ true → Whole (mem entry))
    × AllWhole mem n ((entry + (mem entry).size + 4) % 2 ^ 32) end

pub everywhere-AllWhole :
    (mem : ℕ → MmapEntry) (n entry end : ℕ) → ((a : ℕ) → Whole (mem a)) → AllWhole mem n entry end
unfolding AllWhole
everywhere-AllWhole mem zero entry end h = refl
everywhere-AllWhole mem (suc n) entry end h =
    (λ _. h entry, everywhere-AllWhole mem n ((entry + (mem entry).size + 4) % 2 ^ 32) end h)

IsFresh-detected : {s : Pmm} (n : ℕ) → IsFresh s → IsFresh (record s { detected_ram_bytes = n })
IsFresh-detected n h = record {
  valid = record {
    bytes = h.valid.bytes;
    counted = h.valid.counted;
    held = h.valid.held;
    narrow = h.valid.narrow;
  };
  no_refs = h.no_refs;
}

take_entry-IsFresh : {s : Pmm} (e : MmapEntry) → IsFresh s → IsFresh (take_entry e s)
unfolding take_entry release_entry
take_entry-IsFresh {s} e h = elim (Bool-cases (e.kind == 1)) [
  | inl ram ↦ rw ram (release_range-IsFresh max_frames _ _ (IsFresh-detected _ h))
  | inr other ↦ rw other h
]

test-take_entry :
    {s : Pmm} (e : MmapEntry) (g : ℕ)
    → Whole e
    → IsFresh s
    → g < max_frames
    → bitmap_test (take_entry e s).bitmap g ≡ (not (in_entry e g) && bitmap_test s.bitmap g)
unfolding take_entry release_entry in_entry Whole
test-take_entry {s} e g (aligned, narrow) h lt = elim (Bool-cases (e.kind == 1)) [
  | inl ram ↦ rw ram (
      ground (
        arith,
        test-release_range max_frames (e.addr / frame_size % 2 ^ 32)
            ((e.addr / frame_size % 2 ^ 32 + e.len / frame_size % 2 ^ 32) % 2 ^ 32) g
            (IsFresh-detected ((s.detected_ram_bytes + e.len) % 2 ^ 64) h) lt (omega arith),
      ))
  | inr other ↦ rw other
]

walk_map-IsFresh :
    (mem : ℕ → MmapEntry) (n entry end : ℕ) {s : Pmm}
    → IsFresh s
    → IsFresh (walk_map mem n entry end s)
unfolding walk_map
walk_map-IsFresh mem zero entry end h = h
walk_map-IsFresh mem (suc n) entry end {s} h = elim (Bool-cases (ltb entry end)) [
  | inl more ↦ rw more (
      walk_map-IsFresh mem n ((entry + (mem entry).size + 4) % 2 ^ 32) end
        (take_entry-IsFresh (mem entry) h))
  | inr done ↦ rw done h
]

test-walk_map :
    (mem : ℕ → MmapEntry) (n entry end g : ℕ) {s : Pmm}
    → AllWhole mem n entry end
    → IsFresh s
    → g < max_frames
    → bitmap_test (walk_map mem n entry end s).bitmap g
      ≡ (not (listed mem n entry end g) && bitmap_test s.bitmap g)
unfolding walk_map listed AllWhole
test-walk_map mem zero entry end g whole h lt = refl
test-walk_map mem (suc n) entry end g {s} (first, others) h lt = elim (Bool-cases (ltb entry end)) [
  | inl more ↦ ground (
    arith,
    test-walk_map mem n ((entry + (mem entry).size + 4) % 2 ^ 32) end g others
        (take_entry-IsFresh (mem entry) h) lt,
    test-take_entry (mem entry) g (first more) h lt,
  )
  | inr done ↦ rw done
]

-- The state after the first loop.
all_used : Pmm
all_used = record boot { bitmap = set_all max_frames 0 boot.bitmap; used_frames = max_frames }

test-all_used : (g : ℕ) → g < max_frames → bitmap_test all_used.bitmap g ≡ true
unfolding all_used
test-all_used g lt = ground (arith, test-set_all max_frames 0 g (λ _. 0) (λ i. omega arith))

all_used-IsFresh : IsFresh all_used
unfolding all_used
all_used-IsFresh = record {
  valid = record {
    bytes = set_all-IsBytes max_frames 0 (λ _. 0) (λ i. omega arith);
    counted = sym (
        count_used_full max_frames (set_all max_frames 0 (λ _. 0))
          (unfold all_used in test-all_used));
    held = λ f lt h. absurd (omega arith);
    narrow = λ f. omega arith;
  };
  no_refs = λ f. refl;
}

-- Frames of the kernel image: from `kernel_start` to the page behind `kernel_end`.
unfoldable pub in_kernel : ℕ → ℕ → ℕ → Bool
in_kernel kernel_start kernel_end f =
    leb (kernel_start / frame_size) f && leb f ((kernel_end + frame_size - 1) % 2 ^ 32 / frame_size)

IsFresh-total : {s : Pmm} (n : ℕ) → IsFresh s → IsFresh (record s { total_frames = n })
IsFresh-total n h = record {
  valid = record {
    bytes = h.valid.bytes;
    counted = h.valid.counted;
    held = h.valid.held;
    narrow = h.valid.narrow;
  };
  no_refs = h.no_refs;
}

module _ (mem : ℕ → MmapEntry) (map_addr map_length kernel_start kernel_end : ℕ) where
  abbrev mapped : Pmm
  mapped = walk_map mem map_length map_addr ((map_addr + map_length) % 2 ^ 32) all_used

  mapped-IsFresh : IsFresh mapped
  mapped-IsFresh = walk_map-IsFresh mem map_length map_addr _ all_used-IsFresh

  pub pmm_init_lem :
      AllWhole mem map_length map_addr ((map_addr + map_length) % 2 ^ 32)
      → let s = pmm_init mem map_addr map_length kernel_start kernel_end boot in
        IsFresh s
        × (s.total_frames ≡ max_frames)
        × ((g : ℕ)
            → g < max_frames
            → bitmap_test s.bitmap g ≡ (
                not (listed mem map_length map_addr ((map_addr + map_length) % 2 ^ 32) g)
                || ltb g 256
                || in_kernel kernel_start kernel_end g))
  unfolding pmm_init in_kernel all_used
  pmm_init_lem whole =
      let low = reserve_range-IsFresh 256 0 mapped-IsFresh in
      let kstart = kernel_start / frame_size in
      let n = (kernel_end + frame_size - 1) % 2 ^ 32 / frame_size + 1 - kstart in
      (
        IsFresh-total max_frames (reserve_range-IsFresh n kstart low),
        refl,
        λ g lt. ground (
          arith,
          test-reserve_range n kstart g low lt,
          test-reserve_range 256 0 g mapped-IsFresh lt,
          test-walk_map mem map_length map_addr ((map_addr + map_length) % 2 ^ 32) g whole
              all_used-IsFresh lt,
          test-all_used g lt,
        ),
      )

-- The walk over the memory map ends: where no entry's size wraps the address round, as many rounds
-- as the map has bytes give the result that any larger number of rounds gives.
pub walk_map-fuel :
    (mem : ℕ → MmapEntry) (n m entry end : ℕ) (s : Pmm)
    → ((a : ℕ) → a < end → a + (mem a).size + 4 < 2 ^ 32)
    → end ≤ entry + n
    → n ≤ m
    → walk_map mem m entry end s ≡ walk_map mem n entry end s
unfolding walk_map
walk_map-fuel mem zero zero entry end s h fuel le = refl
walk_map-fuel mem zero (suc m) entry end s h fuel le = ground arith
walk_map-fuel mem (suc n) zero entry end s h fuel le = absurd (omega arith)
walk_map-fuel mem (suc n) (suc m) entry end s h fuel le = elim (Bool-cases (ltb entry end)) [
  | inr done ↦ rw done
  | inl more ↦ rw more (
      walk_map-fuel mem n m ((entry + (mem entry).size + 4) % 2 ^ 32) end (take_entry (mem entry) s)
        h (omega (arith, h entry (ltb→lt entry end more))) (omega arith))
]
