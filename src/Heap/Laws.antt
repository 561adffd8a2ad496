-- ===== src/Heap/Laws.antt =====
-- What `kmalloc` of kernel/heap.c promises a client.
use kronked_os.Prelude.{
  ℕ, ◌+◌, ◌-◌, ◌*◌, ◌/◌, ◌%◌, ◌^◌, ◌<◌, ◌≤◌, ◌≡◌, refl, ◌≢◌, true, false, List, [], ◌∷◌, ◌++◌, ◌==◌,
  inl, inr, arith,
}
use kronked_os.Heap.{
  Block, Heap, heap_start, page_size, header, heap_extend, align4, first_fit, grow, place, kmalloc,
}
use kronked_os.Heap.Fit.{InUse-in, first_fit-keeps, Fresh, FoundOrNot, first_fit-FoundOrNot}
use kronked_os.Heap.Chain.{Tiles, InUse, Tiles-append, Tiles-le, first_fit-Tiles}

-- The chain covers the heap, which lies below 2 GiB.
pub record IsValid (h : Heap) : Type 0 where
  pub tiles : Tiles heap_start h.blocks h.heap_end
  pub small : h.heap_end < 2 ^ 31

align4_lem : (size : ℕ) → size < 2 ^ 31 → (size ≤ align4 size) × (align4 size < size + 4)
unfolding align4
align4_lem size lt = omega arith

-- What a client gets from a successful allocation inside the heap.
pub record Allocated (size : ℕ) (h : Heap) (p : ℕ) (h' : Heap) : Type 0 where
  pub valid : IsValid h'
  pub fresh : Fresh size heap_start h.blocks p h'.blocks
  pub kept : (q sz : ℕ) → InUse q sz h.blocks → InUse q sz h'.blocks

-- The pages that `kmalloc` asks for when no block fits.
unfoldable pub pages_for : ℕ → ℕ
pages_for n = ((n + header) % 2 ^ 32 + page_size - 1) % 2 ^ 32 / page_size

placed-Allocated :
    (size n : ℕ) (h : Heap) (r : ℕ × List Block)
    → IsValid h
    → size ≤ n
    → Tiles heap_start r.1 h.heap_end
    → Fresh n heap_start h.blocks r.0 r.1
    → ((q sz : ℕ) → InUse q sz h.blocks → InUse q sz r.1)
    → Allocated size h r.0 (record h { blocks = r.1 })
placed-Allocated size n h r v le tiles f kept = record {
  valid = record { tiles = tiles; small = v.small };
  fresh = record {
    sz = f.sz;
    enough = omega (arith, f.enough);
    now = f.now;
    new = f.new;
    above = f.above;
  };
  kept = kept;
}

InUse-append : (q sz : ℕ) (bs cs : List Block) → InUse q sz bs → InUse q sz (bs ++ cs)
InUse-append q sz [] cs u = absurd u
InUse-append q sz (b ∷ bs) cs (inl here) = inl here
InUse-append q sz (b ∷ bs) cs (inr later) = inr (InUse-append q sz bs cs later)

InUse-last :
    (bs : List Block) (b : Block) → b.free ≡ false → InUse (b.addr + header) b.size (bs ++ b ∷ [])
InUse-last [] b u = inl (refl, refl, u)
InUse-last (c ∷ bs) b u = inr (InUse-last bs b u)

grow-Allocated :
    (size n : ℕ) (h : Heap)
    → IsValid h
    → size ≤ n
    → n < 2 ^ 31
    → (heap_extend (pages_for n) h).heap_end ≡ h.heap_end + pages_for n * page_size
    → h.heap_end + pages_for n * page_size < 2 ^ 31
    → Allocated size h (grow n h).0 (grow n h).1
unfolding grow pages_for
grow-Allocated size n h v le small done room =
    let pages = pages_for n in
    let enough : n + header ≤ pages * page_size = omega arith in
    let k : (pages * page_size + 2 ^ 32 - header) % 2 ^ 32 ≡ pages * page_size - header =
      omega arith in
    record {
      valid = record {
        tiles = Tiles-append heap_start h.heap_end _ h.blocks _ false v.tiles (omega arith);
        small = omega arith;
      };
      fresh = record {
        sz = (pages * page_size + 2 ^ 32 - header) % 2 ^ 32;
        enough = omega arith;
        now = InUse-last h.blocks _ refl;
        new = λ s u.
            let (lo, hi) =
              InUse-in (h.heap_end + header) s heap_start h.heap_end h.blocks v.tiles u in
            absurd (omega arith);
        above = omega (arith, Tiles-le heap_start h.heap_end h.blocks v.tiles);
      };
      kept = λ q sz u. InUse-append q sz h.blocks _ u;
    }

pub kmalloc_fit :
    (size : ℕ) (h : Heap)
    → size ≢ 0
    → (first_fit (align4 size) h.blocks).0 ≢ 0
    → kmalloc size h ≡ (
      (first_fit (align4 size) h.blocks).0,
      record h { blocks = (first_fit (align4 size) h.blocks).1 },
    )
unfolding kmalloc place
kmalloc_fit size h ne found =
    let a : (size == 0) ≡ false = ground arith in
    let b : ((first_fit (align4 size) h.blocks).0 == 0) ≡ false = ground arith in simp (a, b)

pub kmalloc-grow :
    (size : ℕ) (h : Heap)
    → size ≢ 0
    → (first_fit (align4 size) h.blocks).0 ≡ 0
    → kmalloc size h ≡ grow (align4 size) h
unfolding kmalloc place
kmalloc-grow size h ne missing =
    let a : (size == 0) ≡ false = ground arith in
    let b : ((first_fit (align4 size) h.blocks).0 == 0) ≡ true = ground arith in simp (a, b)

-- `kmalloc` of a nonzero size below 2^30 in a valid heap, where the heap can grow by the pages that it would
-- ask for: the address returned starts a block that was not in use and now is, is at least as large
-- as asked for, every block in use stays in use with its size, and the blocks still cover the heap
-- end to end, so that none overlap.
pub kmalloc_lem :
    (size : ℕ) (h : Heap)
    → IsValid h
    → size ≢ 0
    → size < 2 ^ 30
    → (heap_extend (pages_for (align4 size)) h).heap_end
      ≡ h.heap_end + pages_for (align4 size) * page_size
    → h.heap_end + pages_for (align4 size) * page_size < 2 ^ 31
    → Allocated size h (kmalloc size h).0 (kmalloc size h).1
unfolding FoundOrNot
kmalloc_lem size h v ne small done room =
    let (le, lt) = align4_lem size (omega arith) in
    let tiles = first_fit-Tiles (align4 size) heap_start h.heap_end h.blocks v.small v.tiles in
    elim (first_fit-FoundOrNot (align4 size) heap_start h.heap_end h.blocks v.tiles) [
      | inl (missing, _) ↦
          rw (kmalloc-grow size h ne missing)
            (grow-Allocated size (align4 size) h v le (omega arith) done room)
      | inr f ↦
          let found : (first_fit (align4 size) h.blocks).0 ≢ 0 =
            λ z. let up = f.above in absurd (omega arith) in
          rw (kmalloc_fit size h ne found) (
            placed-Allocated size (align4 size) h (first_fit (align4 size) h.blocks) v le tiles f
              (λ q sz u. first_fit-keeps (align4 size) q sz h.blocks u))
    ]
