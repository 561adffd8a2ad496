-- ===== src/Heap/Chain.antt =====
-- The chain of blocks of kernel/heap.c, from the start of the heap to its end.
use mathlib.Core.Path.{subst}
use kronked_os.Prelude.{
  ℕ, ◌+◌, ◌-◌, ◌%◌, ◌^◌, ◌<◌, ◌≤◌, ◌≡◌, Bool, true, false, ◌&&◌, List, [], ◌∷◌, ◌++◌, ◌==◌, leb,
  Bool-cases, inl, inr, arith, ◌⊎◌,
}
use kronked_os.Heap.{
  Block, header, take_block, fits, first_fit, mark_block, coalesce, coalesce_chain,
}

-- From `a` to `e` the blocks lie end to end.
abbrev pub Tiles : ℕ → List Block → ℕ → Type 0
Tiles a [] e = a ≡ e
Tiles a (b ∷ bs) e = (b.addr ≡ a) × Tiles (a + header + b.size) bs e

-- Whether a used block's area starts at `ptr`, with its size.
abbrev pub InUse : ℕ → ℕ → List Block → Type 0
InUse ptr size [] = ⊥
InUse ptr size (b ∷ bs) =
    ((b.addr + header ≡ ptr) × (b.size ≡ size) × (b.free ≡ false)) ⊎ InUse ptr size bs

pub Tiles-append :
    (a e f : ℕ) (bs : List Block) (size : ℕ) (used : Bool)
    → Tiles a bs e
    → e + header + size ≡ f
    → Tiles a (bs ++ record { addr = e; size = size; free = used } ∷ []) f
Tiles-append a e f [] size used h k = (ground arith, ground arith)
Tiles-append a e f (b ∷ bs) size used (h, t) k =
    (h, Tiles-append (a + header + b.size) e f bs size used t k)

pub Tiles-le : (a e : ℕ) (bs : List Block) → Tiles a bs e → a ≤ e
Tiles-le a e [] t = omega arith
Tiles-le a e (b ∷ bs) (h, t) = omega (arith, Tiles-le (a + header + b.size) e bs t)

-- The blocks of a chain that may be put in its place.
Tiles-cast : (a a' e : ℕ) (bs : List Block) → a ≡ a' → Tiles a bs e → Tiles a' bs e
Tiles-cast a a' e bs k t = subst (λ x. Tiles x bs e) k t

take_block-Tiles :
    (size a e : ℕ) (b : Block) (bs : List Block)
    → size ≤ b.size
    → e < 2 ^ 31
    → Tiles a (b ∷ bs) e
    → Tiles a (take_block size b bs) e
unfolding take_block
take_block-Tiles size a e b bs le small (h, t) =
    elim (Bool-cases (leb ((size + header + 16) % 2 ^ 32) b.size)) [
      | inl split ↦
          let bound = Tiles-le (a + header + b.size) e bs t in
          rw split (
            h,
            (
              omega arith,
              Tiles-cast (a + header + b.size)
                  (a + header + size + header + (b.size - size - header)) e bs
                  (ground (arith, bound)) t,
            ),
          )
      | inr whole ↦ rw whole (h, t)
    ]

pub first_fit-Tiles :
    (size a e : ℕ) (bs : List Block) → e < 2 ^ 31 → Tiles a bs e → Tiles a (first_fit size bs).1 e
unfolding first_fit
first_fit-Tiles size a e [] small t = t
first_fit-Tiles size a e (b ∷ bs) small (h, t) = elim (Bool-cases (fits size b)) [
  | inl here ↦ rw here (take_block-Tiles size a e b bs (size_le size b here) small (h, t))
  | inr past ↦ rw past (h, first_fit-Tiles size (a + header + b.size) e bs small t)
]
  where
    size_le : (size : ℕ) (b : Block) → fits size b ≡ true → size ≤ b.size
    size_le size b k = unfold fits in ground arith

pub mark_block-Tiles : (p a e : ℕ) (bs : List Block) → Tiles a bs e → Tiles a (mark_block p bs) e
unfolding mark_block
mark_block-Tiles p a e [] t = t
mark_block-Tiles p a e (b ∷ bs) (h, t) =
    let rest = mark_block-Tiles p (a + header + b.size) e bs t in
    elim (Bool-cases (b.addr == p)) [ inl hit ↦ rw hit (h, rest) | inr miss ↦ rw miss (h, rest) ]

pub coalesce-Tiles :
    (a e : ℕ) (b : Block) (bs : List Block) → Tiles a (b ∷ bs) e → Tiles a (coalesce b bs) e
unfolding coalesce
coalesce-Tiles a e b [] t = t
coalesce-Tiles a e b (n ∷ bs) (h, (k, t)) = elim (Bool-cases (b.free && n.free)) [
  | inl both ↦ rw both (
      coalesce-Tiles a e (record b { size = b.size + (header + n.size) }) bs
        (
          h,
          Tiles-cast (a + header + b.size + header + n.size)
              (a + header + (b.size + (header + n.size))) e bs (omega arith) t,
        ))
  | inr keep ↦ rw keep (h, coalesce-Tiles (a + header + b.size) e n bs (k, t))
]

pub coalesce_chain-Tiles :
    (a e : ℕ) (bs : List Block) → Tiles a bs e → Tiles a (coalesce_chain bs) e
unfolding coalesce_chain
coalesce_chain-Tiles a e [] t = t
coalesce_chain-Tiles a e (b ∷ bs) t = coalesce-Tiles a e b bs t
