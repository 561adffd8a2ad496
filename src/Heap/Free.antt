-- ===== src/Heap/Free.antt =====
-- `kfree` of kernel/heap.c.
use kronked_os.Prelude.{
  ℕ, ◌+◌, ◌-◌, ◌≤◌, ◌≡◌, ◌≢◌, true, false, ◌&&◌, List, [], ◌∷◌, ◌==◌, Bool-cases, inl, inr, arith,
}
use kronked_os.Heap.{Block, Heap, heap_start, header, mark_block, coalesce, coalesce_chain, kfree}
use kronked_os.Heap.Chain.{InUse, mark_block-Tiles, coalesce_chain-Tiles}
use kronked_os.Heap.Fit.{InUse-in}
use kronked_os.Heap.Laws.{IsValid}

merged :
    (q s : ℕ) (b n : Block) (bs : List Block)
    → (b.free && n.free) ≡ true
    → InUse q s (b ∷ n ∷ bs)
    → InUse q s (record b { size = b.size + (header + n.size) } ∷ bs)
merged q s b n bs k (inl (x, y, z)) = absurd (ground arith)
merged q s b n bs k (inr (inl (x, y, z))) = absurd (ground arith)
merged q s b n bs k (inr (inr l)) = inr l

split_back :
    (q s : ℕ) (b n : Block) (bs : List Block)
    → (b.free && n.free) ≡ true
    → InUse q s (record b { size = b.size + (header + n.size) } ∷ bs)
    → InUse q s (b ∷ n ∷ bs)
split_back q s b n bs k (inl (x, y, z)) = absurd (ground arith)
split_back q s b n bs k (inr l) = inr (inr l)

under_head :
    (q s : ℕ) (b : Block) (bs cs : List Block)
    → (InUse q s bs → InUse q s cs)
    → InUse q s (b ∷ bs)
    → InUse q s (b ∷ cs)
under_head q s b bs cs f (inl here) = inl here
under_head q s b bs cs f (inr l) = inr (f l)

coalesce-keeps :
    (q s : ℕ) (b : Block) (bs : List Block) → InUse q s (b ∷ bs) → InUse q s (coalesce b bs)
unfolding coalesce
coalesce-keeps q s b [] u = u
coalesce-keeps q s b (n ∷ bs) u = elim (Bool-cases (b.free && n.free)) [
  | inl both ↦ rw both (
      coalesce-keeps q s (record b { size = b.size + (header + n.size) }) bs
        (merged q s b n bs both u))
  | inr keep ↦
      rw keep (under_head q s b (n ∷ bs) (coalesce n bs) (λ w. coalesce-keeps q s n bs w) u)
]

coalesce-only :
    (q s : ℕ) (b : Block) (bs : List Block) → InUse q s (coalesce b bs) → InUse q s (b ∷ bs)
unfolding coalesce
coalesce-only q s b [] u = u
coalesce-only q s b (n ∷ bs) u = elim (Bool-cases (b.free && n.free)) [
  | inl both ↦
      split_back q s b n bs both
        (coalesce-only q s (record b { size = b.size + (header + n.size) }) bs (rw both at u))
  | inr keep ↦
      under_head q s b (coalesce n bs) (n ∷ bs) (λ w. coalesce-only q s n bs w) (rw keep at u)
]

mark_block-keeps :
    (p q s : ℕ) (bs : List Block)
    → header ≤ p
    → q ≢ p
    → InUse q s bs
    → InUse q s (mark_block (p - header) bs)
unfolding mark_block
mark_block-keeps p q s [] big ne u = absurd u
mark_block-keeps p q s (b ∷ bs) big ne (inl (x, y, z)) =
    let miss : (b.addr == p - header) ≡ false = ground arith in rw miss (inl (x, y, z))
mark_block-keeps p q s (b ∷ bs) big ne (inr l) = inr (mark_block-keeps p q s bs big ne l)

mark_block-freed :
    (p s : ℕ) (bs : List Block) → header ≤ p → ¬ (InUse p s (mark_block (p - header) bs))
unfolding mark_block
mark_block-freed p s [] big u = u
mark_block-freed p s (b ∷ bs) big (inl (x, y, z)) = absurd (ground arith)
mark_block-freed p s (b ∷ bs) big (inr l) = mark_block-freed p s bs big l

chain-keeps : (q s : ℕ) (bs : List Block) → InUse q s bs → InUse q s (coalesce_chain bs)
unfolding coalesce_chain
chain-keeps q s [] u = u
chain-keeps q s (b ∷ bs) u = coalesce-keeps q s b bs u

chain-only : (q s : ℕ) (bs : List Block) → InUse q s (coalesce_chain bs) → InUse q s bs
unfolding coalesce_chain
chain-only q s [] u = u
chain-only q s (b ∷ bs) u = coalesce-only q s b bs u

-- `kfree` of the address of a block in use, in a valid heap: that block is in use no more, every
-- other block in use stays so with its size, and the blocks still cover the heap end to end.
pub kfree_lem :
    (p sz : ℕ) (h : Heap)
    → IsValid h
    → InUse p sz h.blocks
    → IsValid (kfree p h)
      × ((s : ℕ) → ¬ (InUse p s (kfree p h).blocks))
      × ((q s : ℕ) → q ≢ p → InUse q s h.blocks → InUse q s (kfree p h).blocks)
unfolding kfree
kfree_lem p sz h v u =
    let (lo, hi) = InUse-in p sz heap_start h.heap_end h.blocks v.tiles u in
    let nonzero : (p == 0) ≡ false = ground arith in
    let big : header ≤ p = omega arith in
    rw nonzero (
      record {
        tiles =
            coalesce_chain-Tiles heap_start h.heap_end (mark_block (p - header) h.blocks)
              (mark_block-Tiles (p - header) heap_start h.heap_end h.blocks v.tiles);
        small = v.small;
      },
      λ s w.
          mark_block-freed p s h.blocks big (chain-only p s (mark_block (p - header) h.blocks) w),
      λ q s ne w.
          chain-keeps q s (mark_block (p - header) h.blocks)
            (mark_block-keeps p q s h.blocks big ne w),
    )
