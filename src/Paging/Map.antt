-- ===== src/Paging/Map.antt =====
-- Address translation through the tables of kernel/paging.c, and what mapping a page does to it.
use kronked_os.Prelude.{
  ℕ, ◌+◌, ◌*◌, ◌/◌, ◌<◌, ◌≤◌, ◌≡◌, refl, ◌≢◌, ap, ◌∙◌, true, false, ◌&&◌, Option, none, some, ◌==◌,
  ltb, if◌then◌else◌, arith, inl, inr, Bool-cases, ◌⊎◌,
}
use kronked_os.Pmm.{Pmm, frame_size, pmm_alloc_frame}
use kronked_os.Pmm.Bitmap.{bitmap_test}
use kronked_os.Pmm.Valid.{IsValid}
use kronked_os.Pmm.Alloc.{pmm_alloc_frame_lem}
use kronked_os.Paging.Entry.{page_of, entry, is_present, page_rw, page_user, entry_lem}
use kronked_os.Paging.{
  Paging, Frame, read_word, write_word, fill_frame, pd_index, pt_index, identity_map_tables, alloc,
  install_table, set_entry, paging_map_user_page,
}

pub read-write :
    (a i v b j : ℕ) (s : Paging)
    → read_word (write_word a i v s) b j
      ≡ (if (a / 4096 == b / 4096) && i == j then v else read_word s b j)
unfolding read_word write_word
read-write a i v b j s = ground arith

pub read-fill :
    (a b j : ℕ) (f : Frame) (s : Paging)
    → read_word (fill_frame a f s) b j ≡ (if a / 4096 == b / 4096 then f j else read_word s b j)
unfolding read_word fill_frame
read-fill a b j f s = ground arith

unfoldable pub if_present : ℕ → Option ℕ
if_present e = if is_present e then some e else none

-- The page table entry of `virt` in the directory `dir`, as the processor finds it.
unfoldable pub pte : Paging → ℕ → ℕ → Option ℕ
unfolding if_present
pte s dir virt =
    let d = read_word s dir (pd_index virt) in
    if is_present d then if_present (read_word s (page_of d) (pt_index virt)) else none

-- Writing an entry in a table that the directory holds.
set_entry-pte :
    (s : Paging) (dir table phys virt flags : ℕ)
    → is_present (read_word s dir (pd_index virt)) ≡ true
    → page_of (read_word s dir (pd_index virt)) / 4096 ≡ table / 4096
    → table / 4096 ≢ dir / 4096
    → pte (set_entry (pt_index virt) phys flags (table, s)) dir virt ≡ some (entry phys flags)
unfolding pte set_entry
set_entry-pte s dir table phys virt flags here same apart =
    let e = entry phys flags in
    let i = pt_index virt in
    let other : (table / 4096 == dir / 4096) ≡ false = ground arith in
    let hit : (table / 4096 == page_of (read_word s dir (pd_index virt)) / 4096) ≡ true =
      ground arith in
    let reflexive : (i == i) ≡ true = ground arith in
    let present = (entry_lem phys flags).1 in
    simp (read-write, other, here, hit, reflexive, present)

-- An empty directory entry, and a fresh zeroed table put there.
install-present :
    (s : Paging) (dir i table flags : ℕ)
    → let s' = (install_table dir i flags (table, s)).1 in
      (is_present (read_word s' dir i) ≡ true) × (page_of (read_word s' dir i) ≡ page_of table)
unfolding install_table
install-present s dir i table flags =
    let reflexive : ((dir / 4096 == dir / 4096) && i == i) ≡ true = ground arith in
    (
      simp (read-write, reflexive, (entry_lem table flags).1),
      simp (read-write, reflexive, (entry_lem table flags).0),
    )

-- What `paging_map_user_page` needs: where the directory has a table for the address, that table is
-- another frame than the directory; where it has none, a frame is left for one.
pub record CanMap (s : Paging) (dir virt : ℕ) : Type 0 where
  pub valid : IsValid s.pmm
  pub reserved : bitmap_test s.pmm.bitmap 0 ≡ true
  pub held : bitmap_test s.pmm.bitmap (dir / 4096) ≡ true
  pub apart :
      is_present (read_word s dir (pd_index virt)) ≡ true
      → page_of (read_word s dir (pd_index virt)) / 4096 ≢ dir / 4096
  pub left : is_present (read_word s dir (pd_index virt)) ≡ false → (pmm_alloc_frame s.pmm).0 ≢ 0

pub fresh_apart :
    (p : Pmm) (dir : ℕ)
    → IsValid p
    → bitmap_test p.bitmap 0 ≡ true
    → bitmap_test p.bitmap (dir / 4096) ≡ true
    → (pmm_alloc_frame p).0 ≢ 0
    → ((pmm_alloc_frame p).0 / 4096 ≢ dir / 4096)
      × (page_of (pmm_alloc_frame p).0 ≡ (pmm_alloc_frame p).0)
fresh_apart p dir v z u ne = elim (pmm_alloc_frame_lem v z) [
  | inl (f, e, _, lt, c) ↦ (λ same. differs f e c.was_free same, omega arith)
  | inr (e, _, _) ↦ absurd (ne e)
]
  where
    differs :
        (f : ℕ)
        → (pmm_alloc_frame p).0 ≡ f * frame_size
        → bitmap_test p.bitmap f ≡ false
        → (pmm_alloc_frame p).0 / 4096 ≡ dir / 4096
        → ⊥
    differs f e free same = let k : dir / 4096 ≡ f = omega arith in cc (ap (bitmap_test p.bitmap) k)

-- In a valid state of the frame allocator where frame 0 and the directory's frame are in use, and
-- where the directory's table for the address, if it has one, lies in another frame than the
-- directory, and a frame is free for one if it has none: `paging_map_user_page` refuses kernel space
-- and changes nothing there; for a user address it succeeds, and the directory then leads to the given
-- frame and flags at that address.
pub paging_map_user_page_lem :
    (s : Paging) (dir phys virt flags : ℕ)
    → CanMap s dir virt
    → ((pd_index virt < identity_map_tables)
        × (paging_map_user_page dir phys virt flags s ≡ (false, s)))
      ⊎ ((identity_map_tables ≤ pd_index virt)
          × ((paging_map_user_page dir phys virt flags s).0 ≡ true)
          × (pte (paging_map_user_page dir phys virt flags s).1 dir virt ≡ some (entry phys flags)))
unfolding alloc
paging_map_user_page_lem s dir phys virt flags c =
    elim (Bool-cases (ltb (pd_index virt) identity_map_tables)) [
      | inl kernel ↦ inl (ground arith, refuse kernel)
      | inr user ↦ elim (Bool-cases (is_present (read_word s dir (pd_index virt)))) [
        | inl old ↦ inr (
          ground arith,
          ap (λ r. r.0) (maps_old user old),
          ap (λ r. pte r.1 dir virt) (maps_old user old)
              ∙ set_entry-pte s dir (page_of (read_word s dir (pd_index virt))) phys virt flags old
                  refl (c.apart old),
        )
        | inr new ↦ inr (
          ground arith,
          ap (λ r. r.0) (maps_new user new),
          ap (λ r. pte r.1 dir virt) (maps_new user new) ∙ new_pte new,
        )
      ]
    ]
  where
    table : ℕ
    table = (pmm_alloc_frame s.pmm).0

    made : Paging
    made = (install_table dir (pd_index virt) (page_rw + page_user) (alloc s)).1

    refuse :
        ltb (pd_index virt) identity_map_tables ≡ true
        → paging_map_user_page dir phys virt flags s ≡ (false, s)
    refuse k = unfold paging_map_user_page in simp k

    maps_old :
        ltb (pd_index virt) identity_map_tables ≡ false
        → is_present (read_word s dir (pd_index virt)) ≡ true
        → paging_map_user_page dir phys virt flags s ≡ (
          true,
          set_entry (pt_index virt) phys flags (page_of (read_word s dir (pd_index virt)), s),
        )
    maps_old k o = unfold paging_map_user_page in simp (k, o)

    maps_new :
        ltb (pd_index virt) identity_map_tables ≡ false
        → is_present (read_word s dir (pd_index virt)) ≡ false
        → paging_map_user_page dir phys virt flags s
          ≡ (true, set_entry (pt_index virt) phys flags (table, made))
    maps_new k n = unfold paging_map_user_page in simp (k, n)

    new_pte :
        is_present (read_word s dir (pd_index virt)) ≡ false
        → pte (set_entry (pt_index virt) phys flags (table, made)) dir virt
          ≡ some (entry phys flags)
    new_pte n =
        let f = fresh_apart s.pmm dir c.valid c.reserved c.held (c.left n) in
        let i = install-present (alloc s).1 dir (pd_index virt) table (page_rw + page_user) in
        set_entry-pte made dir table phys virt flags i.0 (rw i.1 (omega (arith, f.1))) f.0
