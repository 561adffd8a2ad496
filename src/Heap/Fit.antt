-- ===== src/Heap/Fit.antt =====
-- What the scan of `kmalloc` (kernel/heap.c) finds in the chain of blocks.
use kronked_os.Prelude.{
  ℕ, ◌+◌, ◌%◌, ◌^◌, ◌<◌, ◌≤◌, ◌≡◌, refl, ap, true, false, ◌&&◌, List, [], ◌∷◌, leb, Bool-cases, inl,
  inr, arith, ◌⊎◌,
}
use kronked_os.Heap.{Block, header, take_block, fits, first_fit}
use kronked_os.Heap.Chain.{Tiles, InUse, Tiles-le}

-- A block in use lies in the range that the chain covers.
pub InUse-in :
    (p sz a e : ℕ) (bs : List Block)
    → Tiles a bs e
    → InUse p sz bs
    → (a + header ≤ p) × (p + sz ≤ e)
InUse-in p sz a e [] t u = absurd u
InUse-in p sz a e (b ∷ bs) (h, t) (inl (here, size, _)) =
    (omega arith, omega (arith, Tiles-le (a + header + b.size) e bs t))
InUse-in p sz a e (b ∷ bs) (h, t) (inr later) =
    let (lo, hi) = InUse-in p sz (a + header + b.size) e bs t later in (omega arith, hi)

-- Blocks in use stay in use when a free block is taken.
pub first_fit-keeps :
    (size p sz : ℕ) (bs : List Block) → InUse p sz bs → InUse p sz (first_fit size bs).1
unfolding first_fit take_block fits
first_fit-keeps size p sz [] u = absurd u
first_fit-keeps size p sz (b ∷ bs) (inl (here, same, used)) =
    let busy : (b.free && leb size b.size) ≡ false = ground arith in
    rw busy (inl (here, same, used))
first_fit-keeps size p sz (b ∷ bs) (inr later) = elim (Bool-cases (fits size b)) [
  | inl take ↦ elim (Bool-cases (leb ((size + header + 16) % 2 ^ 32) b.size)) [
    | inl split ↦ rw (take, split) (inr (inr later))
    | inr whole ↦ rw (take, whole) (inr later)
  ]
  | inr past ↦ rw past (inr (first_fit-keeps size p sz bs later))
]

not_before : (p s a e : ℕ) (bs : List Block) → Tiles a bs e → p < a + header → ¬ (InUse p s bs)
not_before p s a e bs t lt u = let (lo, hi) = InUse-in p s a e bs t u in absurd (omega arith)

-- A block handed out: large enough, in use now and not before.
pub record Fresh (size a : ℕ) (before : List Block) (p : ℕ) (after : List Block) : Type 0 where
  pub sz : ℕ
  pub enough : size ≤ sz
  pub now : InUse p sz after
  pub new : (s : ℕ) → ¬ (InUse p s before)
  pub above : a + header ≤ p

unfoldable pub FoundOrNot : ℕ → ℕ → List Block → ℕ × List Block → Type 0
FoundOrNot size a bs r = ((r.0 ≡ 0) × (r.1 ≡ bs)) ⊎ Fresh size a bs r.0 r.1

fits_lem : (size : ℕ) (b : Block) → fits size b ≡ true → (b.free ≡ true) × (size ≤ b.size)
unfolding fits
fits_lem size b k = ground arith

taken :
    (size a e : ℕ) (b : Block) (bs : List Block)
    → fits size b ≡ true
    → Tiles a (b ∷ bs) e
    → Fresh size a (b ∷ bs) (b.addr + header) (take_block size b bs)
unfolding take_block
taken size a e b bs k (h, t) =
    let (free, le) = fits_lem size b k in
    let none_before : (s : ℕ) → ¬ (InUse (b.addr + header) s (b ∷ bs)) = λ s. elim [
      | inl (x, y, z) ↦ cc
      | inr l ↦ not_before (b.addr + header) s (a + header + b.size) e bs t (omega arith) l
    ] in
    elim (Bool-cases (leb ((size + header + 16) % 2 ^ 32) b.size)) [
      | inl split ↦ record {
        sz = size;
        enough = omega arith;
        now = rw split (inl (refl, refl, refl));
        new = none_before;
        above = omega arith;
      }
      | inr whole ↦ record {
        sz = b.size;
        enough = le;
        now = rw whole (inl (refl, refl, refl));
        new = none_before;
        above = omega arith;
      }
    ]

passed :
    (size a e : ℕ) (b : Block) (bs : List Block) (r : ℕ × List Block)
    → b.addr ≡ a
    → FoundOrNot size (a + header + b.size) bs r
    → FoundOrNot size a (b ∷ bs) (r.0, b ∷ r.1)
unfolding FoundOrNot
passed size a e b bs r h (inl (z, same)) = inl (z, ap (λ l. b ∷ l) same)
passed size a e b bs r h (inr f) = inr (record {
  sz = f.sz;
  enough = f.enough;
  now = inr f.now;
  new = λ s. elim [ inl (x, y, z) ↦ let up = f.above in absurd (omega arith) | inr l ↦ f.new s l ];
  above = let up = f.above in omega arith;
})

pub first_fit-FoundOrNot :
    (size a e : ℕ) (bs : List Block) → Tiles a bs e → FoundOrNot size a bs (first_fit size bs)
unfolding first_fit FoundOrNot
first_fit-FoundOrNot size a e [] t = inl (refl, refl)
first_fit-FoundOrNot size a e (b ∷ bs) (h, t) = elim (Bool-cases (fits size b)) [
  | inl take ↦ rw take (inr (taken size a e b bs take (h, t)))
  | inr past ↦ rw past (
      passed size a e b bs (first_fit size bs) h
        (first_fit-FoundOrNot size (a + header + b.size) e bs t))
]
