-- ===== src/Fat16/Table/Alloc.antt =====
-- What `fat_alloc_cluster` of kernel/fat16.c does to the table.
use kronked_os.Prelude.{
  ℕ, zero, suc, ◌+◌, ◌-◌, ◌%◌, ◌^◌, ◌<◌, ◌≤◌, ◌≡◌, refl, ◌≢◌, ap, ◌⊎◌, inl, inr, false, Option,
  none, some, ◌==◌, if◌then◌else◌, arith, Bool-cases, ==_iff,
}
use mathlib.Core.Path.{subst}
use kronked_os.Fat16.{
  Volume, fat_entry_end, fat_entry_free, total_clusters, claim, at_entry, alloc_loop,
  fat_alloc_cluster,
}
use kronked_os.Fat16.Table.{
  Healthy, InTable, fat_entry, SameLayout, fat_read_entry_lem, fat_write_entry_lem,
}

-- `c` is the lowest free cluster from `lo` on, below `hi`, and is now the end of a chain.
pub record Taken (v : Volume) (lo hi c : ℕ) (v' : Volume) : Type 0 where
  pub from : lo ≤ c
  pub below : c < hi
  pub was_free : fat_entry v c ≡ fat_entry_free
  pub lowest : (b : ℕ) → lo ≤ b → b < c → fat_entry v b ≢ fat_entry_free
  pub layout : SameLayout v v'
  pub entries :
      (b : ℕ) → InTable v b → fat_entry v' b ≡ (if c == b then fat_entry_end else fat_entry v b)

abbrev pub Outcome : Volume → ℕ → ℕ → Option ℕ × Volume → Type 0
Outcome v lo hi r =
    ((c : ℕ) × (r.0 ≡ some c) × Taken v lo hi c r.1)
    ⊎ (((b : ℕ) → lo ≤ b → b < hi → fat_entry v b ≢ fat_entry_free) × (r ≡ (none, v)))

-- What the loop finds from the next cluster on, with this one used.
past_used :
    (v : Volume) (lo hi : ℕ) (r : Option ℕ × Volume)
    → fat_entry v lo ≢ fat_entry_free
    → Outcome v (lo + 1) hi r
    → Outcome v lo hi r
past_used v lo hi r used (inl (c, e, t)) = inl (
  c,
  e,
  record {
    from = omega (arith, t.from);
    below = t.below;
    was_free = t.was_free;
    lowest = λ b le lt. elim (Bool-cases (lo == b)) [
      | inl here ↦ subst (λ x. fat_entry v x ≢ fat_entry_free) ((==_iff _ _).0 here) used
      | inr past ↦ t.lowest b (ground arith) lt
    ];
    layout = t.layout;
    entries = t.entries;
  },
)
past_used v lo hi r used (inr (all, e)) = inr (
  λ b le lt. elim (Bool-cases (lo == b)) [
    | inl here ↦ subst (λ x. fat_entry v x ≢ fat_entry_free) ((==_iff _ _).0 here) used
    | inr past ↦ all b (ground arith) lt
  ],
  e,
)

claimed :
    (v : Volume) (lo hi : ℕ)
    → Healthy v
    → InTable v lo
    → lo < hi
    → fat_entry v lo ≡ fat_entry_free
    → Outcome v lo hi (claim lo v)
unfolding claim
claimed v lo hi h within lt free =
    let (ok, same, entries) = fat_write_entry_lem lo fat_entry_end v h within in
    inl (
      lo,
      simp ok,
      record {
        from = omega arith;
        below = lt;
        was_free = free;
        lowest = λ b le small. absurd (omega arith);
        layout = same;
        entries = entries;
      },
    )

-- The 16-bit index does not wrap before the scan is over.
no_wrap :
    (rounds c : ℕ) (v : Volume)
    → c + rounds ≤ 2 ^ 16
    → alloc_loop rounds c v ≡ alloc_loop rounds (c % 2 ^ 16) v
unfolding alloc_loop
no_wrap zero c v le = refl
no_wrap (suc rounds) c v le =
    let same : c ≡ c % 2 ^ 16 = omega arith in ap (λ x. alloc_loop (suc rounds) x v) same

go_on :
    (v : Volume) (lo rounds : ℕ)
    → lo + suc rounds ≤ 2 ^ 16
    → (fat_entry v lo == fat_entry_free) ≡ false
    → Outcome v (lo + 1) (lo + 1 + rounds) (alloc_loop rounds (lo + 1) v)
    → Outcome v lo (lo + suc rounds) (alloc_loop rounds ((lo + 1) % 2 ^ 16) v)
go_on v lo rounds le used later =
    let next : lo + 1 + rounds ≡ lo + suc rounds = omega arith in
    subst (Outcome v lo (lo + suc rounds)) (no_wrap rounds (lo + 1) v (omega arith)) (
      past_used v lo (lo + suc rounds) (alloc_loop rounds (lo + 1) v) (ground arith)
        (subst (λ hi. Outcome v (lo + 1) hi (alloc_loop rounds (lo + 1) v)) next later))

loop_lem :
    (rounds lo : ℕ) (v : Volume)
    → Healthy v
    → ((b : ℕ) → b < lo + rounds → InTable v b)
    → lo + rounds ≤ 2 ^ 16
    → Outcome v lo (lo + rounds) (alloc_loop rounds lo v)
unfolding alloc_loop at_entry
loop_lem zero lo v h within le = inr (λ b le' lt. absurd (omega arith), refl)
loop_lem (suc rounds) lo v h within le =
    let read = fat_read_entry_lem lo v h (within lo (omega arith)) in
    rw read (elim (Bool-cases (fat_entry v lo == fat_entry_free)) [
      | inl free ↦ rw free (
          claimed v lo (lo + suc rounds) h (within lo (omega arith)) (omega arith)
            ((==_iff _ _).0 free))
      | inr used ↦ rw used (
          go_on v lo rounds le used
            (loop_lem rounds (lo + 1) v h (λ b lt. within b (omega arith)) (omega arith)))
    ])

-- `fat_alloc_cluster` on a healthy volume whose clusters, at most 2^16, have entries in the table:
-- it returns the lowest free cluster, which becomes the end of a chain, with no other entry changed;
-- or no cluster is free, and nothing changes.
pub fat_alloc_cluster_lem :
    (v : Volume)
    → Healthy v
    → ((b : ℕ) → b < total_clusters v → InTable v b)
    → total_clusters v ≤ 2 ^ 16
    → Outcome v 2 (total_clusters v) (fat_alloc_cluster v)
unfolding fat_alloc_cluster total_clusters
fat_alloc_cluster_lem v h within le =
    subst (λ hi. Outcome v 2 hi (fat_alloc_cluster v)) (omega arith)
      (loop_lem (total_clusters v - 2) 2 v h (λ b lt. within b (omega arith)) (omega arith))
