-- ===== src/Fat16/Table/Chain.antt =====
-- What `fat_free_chain` of kernel/fat16.c frees.
use kronked_os.Prelude.{
  ℕ, zero, suc, ◌/◌, ◌^◌, ◌<◌, ◌≤◌, ◌≡◌, refl, ap, ◌∙◌, sym, inl, inr, Bool, true, false, ◌||◌,
  some, List, [], ◌∷◌, ◌==◌, if◌then◌else◌, arith, Bool-cases, length,
}
use mathlib.Core.Path.{subst}
use kronked_os.Fat16.{
  Volume, fat_read_entry, fat_write_entry, fat_entry_free, is_link, free_chain, fat_free_chain,
}
use kronked_os.Fat16.Table.{
  Healthy, InTable, fat_entry, SameLayout, fat_read_entry_lem, fat_write_entry_lem,
  SameLayout-Healthy,
}

unfoldable pub is_in : ℕ → List ℕ → Bool
is_in c [] = false
is_in c (d ∷ ds) = d == c || is_in c ds

-- The clusters of the chain from `c`, none twice, each with an entry in the table, up to a number that
-- ends chains.
unfoldable pub Chain : Volume → ℕ → List ℕ → Type 0
Chain v c [] = is_link c ≡ false
Chain v c (d ∷ ds) =
    (d ≡ c) × (is_link c ≡ true) × InTable v c × (is_in c ds ≡ false) × Chain v (fat_entry v c) ds

-- A chain that an entry is not in is the same after it is freed.
Chain-keeps :
    (v v' : Volume) (x c : ℕ) (cs : List ℕ)
    → SameLayout v v'
    → ((b : ℕ) → InTable v b → fat_entry v' b ≡ (if x == b then fat_entry_free else fat_entry v b))
    → is_in x cs ≡ false
    → Chain v c cs
    → Chain v' c cs
unfolding Chain is_in
Chain-keeps v v' x c [] s entries out ch = ch
Chain-keeps v v' x c (d ∷ ds) s entries out (e, link, within, once, rest) =
    let other : (x == c) ≡ false = ground arith in
    let same : fat_entry v' c ≡ fat_entry v c =
      entries c within ∙ ap (λ b. if b then fat_entry_free else fat_entry v c) other in
    (
      e,
      link,
      subst (λ b. c / 256 < b.sectors_per_fat) (sym s.bpb) within,
      once,
      subst (λ n. Chain v' n ds) (sym same)
          (Chain-keeps v v' x (fat_entry v c) ds s entries (ground arith) rest),
    )

stop : (rounds c : ℕ) (v : Volume) → is_link c ≡ false → free_chain rounds c v ≡ v
unfolding free_chain
stop zero c v e = refl
stop (suc rounds) c v e = ground arith

go :
    (rounds c n : ℕ) (v : Volume)
    → is_link c ≡ true
    → fat_read_entry c v ≡ some n
    → free_chain (suc rounds) c v ≡ free_chain rounds n (fat_write_entry c fat_entry_free v).1
unfolding free_chain
go rounds c n v link read = rw read (ground arith)

-- What the walk leaves.
abbrev Freed : Volume → List ℕ → Volume → Type 0
Freed v cs v' =
    SameLayout v v'
    × ((b : ℕ)
        → InTable v b
        → fat_entry v' b ≡ (if is_in b cs then fat_entry_free else fat_entry v b))

after_first :
    (v v' v'' : Volume) (c : ℕ) (ds : List ℕ)
    → SameLayout v v'
    → ((b : ℕ) → InTable v b → fat_entry v' b ≡ (if c == b then fat_entry_free else fat_entry v b))
    → Freed v' ds v''
    → Freed v (c ∷ ds) v''
unfolding is_in
after_first v v' v'' c ds s entries (s', later) = (
  record {
    bpb = s'.bpb ∙ s.bpb;
    start = s'.start ∙ s.start;
    bad = s'.bad ∙ s.bad;
    layout = s'.layout ∙ s.layout;
  },
  λ b w.
      let now = later b (subst (λ x. b / 256 < x.sectors_per_fat) (sym s.bpb) w) in
      let before = entries b w in
      elim (Bool-cases (is_in b ds)) [
        | inl mem ↦ ground (arith, now, before)
        | inr not_mem ↦ ground (arith, now, before)
      ],
)

chain_lem :
    (cs : List ℕ) (rounds c : ℕ) (v : Volume)
    → Healthy v
    → length cs ≤ rounds
    → Chain v c cs
    → Freed v cs (free_chain rounds c v)
unfolding Chain is_in
chain_lem [] rounds c v h le ch =
    subst (Freed v []) (sym (stop rounds c v ch))
      (record { bpb = refl; start = refl; bad = refl; layout = refl }, λ b w. refl)
chain_lem (d ∷ ds) zero c v h le ch = absurd (omega arith)
chain_lem (d ∷ ds) (suc rounds) c v h le (e, link, within, once, rest) =
    let v' = (fat_write_entry c fat_entry_free v).1 in
    let (ok, same, entries) = fat_write_entry_lem c fat_entry_free v h within in
    subst (λ x. Freed v (x ∷ ds) (free_chain (suc rounds) c v)) (sym e)
      (subst (Freed v (c ∷ ds))
        (sym (go rounds c (fat_entry v c) v link (fat_read_entry_lem c v h within)))
        (after_first v v' (free_chain rounds (fat_entry v c) v') c ds same entries (
          chain_lem ds rounds (fat_entry v c) v' (SameLayout-Healthy same h) (omega arith)
            (Chain-keeps v v' c (fat_entry v c) ds same entries once rest))))

-- `fat_free_chain` of the first cluster of a chain on a healthy volume frees every cluster of the chain
-- and changes no other entry.
pub fat_free_chain_lem :
    (v : Volume) (c : ℕ) (cs : List ℕ)
    → Healthy v
    → length cs ≤ 2 ^ 16
    → Chain v c cs
    → SameLayout v (fat_free_chain c v)
      × ((b : ℕ)
          → InTable v b
          → fat_entry (fat_free_chain c v) b
            ≡ (if is_in b cs then fat_entry_free else fat_entry v b))
unfolding fat_free_chain
fat_free_chain_lem v c cs h le ch = chain_lem cs (2 ^ 16) c v h le ch
