-- ===== src/Heap.antt =====
-- kernel/heap.c: the kernel heap. The chain of block headers from `heap_head` along `next` is the
-- list of its blocks, each with its address; a header is 12 bytes.
pub mod Chain
pub mod Fit
pub mod Laws
pub mod Free
mod Tests
use kronked_os.Prelude.{
  ℕ, zero, suc, ◌+◌, ◌-◌, ◌*◌, ◌/◌, ◌%◌, ◌^◌, Bool, true, false, not, ◌&&◌, List, [], ◌∷◌, ◌++◌,
  ◌==◌, leb, if◌then◌else◌,
}
use kronked_os.Paging.{Paging, alloc, paging_map_page}

-- `struct block_header`, with the address where it stands.
pub record Block : Type 0 where
  pub addr : ℕ
  pub size : ℕ
  pub free : Bool

pub record Heap : Type 0 where
  pub heap_end : ℕ
  pub blocks : List Block
  pub paging : Paging

abbrev pub heap_start : ℕ
heap_start = 0x400000

abbrev pub page_size : ℕ
page_size = 4096

-- `sizeof(struct block_header)`
abbrev pub header : ℕ
header = 12

-- One round of `heap_extend` behind the allocation: a page at the end of the heap, flags RW.
unfoldable pub map_heap_page : ℕ → Heap → Heap
map_heap_page phys h = record h {
  heap_end = (h.heap_end + page_size) % 2 ^ 32;
  paging = (paging_map_page phys h.heap_end 2 h.paging).1;
}

unfoldable pub heap_extend : ℕ → Heap → Heap
heap_extend zero h = h
heap_extend (suc npages) h =
    let (phys, paging) = alloc h.paging in
    let out : Heap = record h { paging = paging } in
    let rest = heap_extend npages (map_heap_page phys out) in if phys == 0 then out else rest

unfoldable pub heap_init : Heap → Heap
heap_init h =
    let extended = heap_extend 4 h in
    record extended {
      blocks = record { addr = heap_start; size = 4 * page_size - header; free = true } ∷ [];
    }

-- `(size + 3) & ~3u`
unfoldable pub align4 : ℕ → ℕ
align4 size = (size + 3) % 2 ^ 32 / 4 * 4

-- The first free block that is large enough is taken, and split where that leaves at least 16 bytes
-- behind a new header.
unfoldable pub take_block : ℕ → Block → List Block → List Block
take_block size b rest =
    if leb ((size + header + 16) % 2 ^ 32) b.size
    then record b { size = size; free = false }
      ∷ record { addr = b.addr + header + size; size = b.size - size - header; free = true }
      ∷ rest
    else record b { free = false } ∷ rest

unfoldable pub fits : ℕ → Block → Bool
fits size b = b.free && leb size b.size

-- The scan: the address handed out and the new chain. Address 0 is the end of the chain.
unfoldable pub first_fit : ℕ → List Block → ℕ × List Block
first_fit size [] = (0, [])
first_fit size (b ∷ bs) =
    let (found, rest) = first_fit size bs in
    if fits size b then (b.addr + header, take_block size b bs) else (found, b ∷ rest)

-- The block made in the pages behind the old end.
unfoldable pub grow : ℕ → Heap → ℕ × Heap
grow size h =
    let pages = ((size + header) % 2 ^ 32 + page_size - 1) % 2 ^ 32 / page_size in
    let extended = heap_extend pages h in
    (
      h.heap_end + header,
      record extended {
        blocks =
            h.blocks
            ++ record {
              addr = h.heap_end;
              size = (pages * page_size + 2 ^ 32 - header) % 2 ^ 32;
              free = false;
            }
              ∷ [];
      },
    )

unfoldable pub place : ℕ → ℕ × List Block → Heap → ℕ × Heap
unfolding grow
place size (found, blocks) h =
    if found == 0 then grow size h else (found, record h { blocks = blocks })

unfoldable pub kmalloc : ℕ → Heap → ℕ × Heap
kmalloc size h =
    if size == 0 then (0, h) else place (align4 size) (first_fit (align4 size) h.blocks) h

-- `hdr->free = 1`, through the header before `ptr`.
unfoldable pub mark_block : ℕ → List Block → List Block
mark_block addr [] = []
mark_block addr (b ∷ bs) =
    (if b.addr == addr then record b { free = true } else b) ∷ mark_block addr bs

-- The coalescing pass, with `cur` in hand: two adjacent free blocks become one, which stays in hand.
unfoldable pub coalesce : Block → List Block → List Block
coalesce cur [] = cur ∷ []
coalesce cur (next ∷ rest) =
    if cur.free && next.free
    then coalesce (record cur { size = cur.size + (header + next.size) }) rest
    else cur ∷ coalesce next rest

unfoldable pub coalesce_chain : List Block → List Block
coalesce_chain [] = []
coalesce_chain (b ∷ bs) = coalesce b bs

unfoldable pub kfree : ℕ → Heap → Heap
unfolding coalesce_chain
kfree ptr h =
    if ptr == 0
    then h
    else record h { blocks = coalesce_chain (mark_block (ptr - header) h.blocks) }
