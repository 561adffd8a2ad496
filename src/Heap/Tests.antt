-- ===== src/Heap/Tests.antt =====
-- The theorems on kernel/heap.c at a heap of one page.
use kronked_os.Prelude.{
  ℕ, ◌+◌, ◌*◌, ◌≡◌, refl, ◌≢◌, true, false, [], ◌∷◌, ◌==◌, if◌then◌else◌, inl, arith,
}
use kronked_os.Pmm.Init.{boot}
use kronked_os.Pmm.{Pmm, pmm_alloc_frame, alloc_scan}
use kronked_os.Pmm.Bitmap.{bitmap_test}
use kronked_os.Prelude.Bits.{has_bit}
use kronked_os.Paging.{Paging, alloc}
use kronked_os.Heap.{Heap, heap_extend, map_heap_page, align4, page_size, kmalloc, kfree}
use kronked_os.Heap.Chain.{InUse}
use kronked_os.Heap.Laws.{IsValid, Allocated, pages_for, kmalloc_lem}
use kronked_os.Heap.Free.{kfree_lem}

-- Frames 0 to 7 are used, the others free.
abbrev roomy : Pmm
roomy = record boot { bitmap = λ i. if i == 0 then 255 else 0 }

abbrev machine : Pmm → Paging
machine pmm = record {
  pmm = pmm;
  mem = λ _ _. 0;
  page_directory = 0x100000;
  page_tables = 0x110000;
  kernel_directory_phys = 0x100000;
  cr3 = 0x100000;
}

-- A block of 100 bytes in use, and the rest of the page free.
abbrev one_page : Pmm → Heap
one_page pmm = record {
  heap_end = 0x401000;
  blocks =
      record { addr = 0x400000; size = 100; free = false }
      ∷ record { addr = 0x400070; size = 3972; free = true }
      ∷ [];
  paging = machine pmm;
}

one_page-IsValid : (pmm : Pmm) → IsValid (one_page pmm)
one_page-IsValid pmm = record { tiles = (refl, (refl, refl)); small = omega arith }

extends :
    (heap_extend (pages_for (align4 50)) (one_page roomy)).heap_end
    ≡ (one_page roomy).heap_end + pages_for (align4 50) * page_size
unfolding heap_extend pages_for align4 map_heap_page alloc pmm_alloc_frame alloc_scan bitmap_test
    has_bit
extends = refl

pages : pages_for (align4 50) ≡ 1
unfolding pages_for align4
pages = refl

kmalloc_lem_example :
    Allocated 50 (one_page roomy) (kmalloc 50 (one_page roomy)).0 (kmalloc 50 (one_page roomy)).1
kmalloc_lem_example =
    kmalloc_lem 50 (one_page roomy) (one_page-IsValid roomy) (λ e. absurd (omega arith))
      (omega arith) extends (omega (arith, pages))

kfree_lem_example :
    IsValid (kfree 0x40000c (one_page roomy))
    × ((s : ℕ) → ¬ (InUse 0x40000c s (kfree 0x40000c (one_page roomy)).blocks))
    × ((q s : ℕ)
        → q ≢ 0x40000c
        → InUse q s (one_page roomy).blocks
        → InUse q s (kfree 0x40000c (one_page roomy)).blocks)
kfree_lem_example =
    kfree_lem 0x40000c 100 (one_page roomy) (one_page-IsValid roomy) (inl (refl, refl, refl))
