-- ===== src/Elf/Loaded.antt =====
-- kernel/elf.c: one page of a segment, from the allocator to the page tables.
use kronked_os.Prelude.{
  ℕ, ◌+◌, ◌*◌, ◌/◌, ◌^◌, ◌≤◌, ◌<◌, ◌≡◌, ◌≢◌, ◌⊎◌, inl, inr, refl, sym, ap, ◌∙◌, true, false, some,
  ◌==◌, ltb, arith, Bool-cases,
}
use kronked_os.Pmm.{Pmm, pmm_alloc_frame}
use kronked_os.Pmm.Bitmap.{bitmap_test}
use kronked_os.Pmm.Valid.{IsValid}
use kronked_os.Pmm.Alloc.{Claimed, pmm_alloc_frame_lem}
use kronked_os.Paging.Entry.{entry, page_of, page_rw, page_user, is_present}
use kronked_os.Paging.{
  Paging, Frame, alloc, fill_frame, paging_map_user_page, user_table, install_table, set_entry,
  write_word, read_word, pd_index, identity_map_tables,
}
use kronked_os.Paging.Map.{pte, CanMap, fresh_apart, paging_map_user_page_lem}
use kronked_os.Fat16.Files.{Bytes}
use kronked_os.Elf.{Phdr, page_bytes, words_of, fill_page, load_page}
use kronked_os.Elf.Page.{Fits, image, page_bytes_lem}

-- Mapping a page writes to the directory and to the table alone.
map_keeps :
    (s : Paging) (dir phys virt flags b : ℕ)
    → dir / 4096 ≢ b
    → (is_present (read_word s dir (pd_index virt)) ≡ true
        → page_of (read_word s dir (pd_index virt)) / 4096 ≢ b)
    → (is_present (read_word s dir (pd_index virt)) ≡ false → (pmm_alloc_frame s.pmm).0 / 4096 ≢ b)
    → (i : ℕ) → (paging_map_user_page dir phys virt flags s).1.mem b i ≡ s.mem b i
unfolding paging_map_user_page user_table install_table set_entry write_word fill_frame alloc
map_keeps s dir phys virt flags b hd old new i =
    elim (Bool-cases (ltb (pd_index virt) identity_map_tables)) [
      | inl k ↦ rw k refl
      | inr u ↦ elim (Bool-cases (is_present (read_word s dir (pd_index virt)))) [
        | inl p ↦
            let away : (page_of (read_word s dir (pd_index virt)) / 4096 == b) ≡ false =
              ground (arith, old p) in
            rw (u, p) (rw away refl)
        | inr p ↦
            let away : ((pmm_alloc_frame s.pmm).0 / 4096 == b) ≡ false = ground (arith, new p) in
            let other : (dir / 4096 == b) ≡ false = ground (arith, hd) in
            rw (u, p) (rw (away, other) refl)
      ]
    ]

-- What a page needs: a directory in use; where it has a table for the address, that table in use and
-- another frame; where it has none, a second frame for one.
pub record Ready (s : Paging) (dir virt : ℕ) : Type 0 where
  pub valid : IsValid s.pmm
  pub reserved : bitmap_test s.pmm.bitmap 0 ≡ true
  pub held : bitmap_test s.pmm.bitmap (dir / 4096) ≡ true
  pub apart :
      is_present (read_word s dir (pd_index virt)) ≡ true
      → page_of (read_word s dir (pd_index virt)) / 4096 ≢ dir / 4096
  pub table_held :
      is_present (read_word s dir (pd_index virt)) ≡ true
      → bitmap_test s.pmm.bitmap (page_of (read_word s dir (pd_index virt)) / 4096) ≡ true
  pub left :
      is_present (read_word s dir (pd_index virt)) ≡ false
      → (pmm_alloc_frame (pmm_alloc_frame s.pmm).1).0 ≢ 0
  pub user : identity_map_tables ≤ pd_index virt

-- The page at `a` is mapped to a frame that was free, with the program's bytes.
pub record Loaded (elf_data : Bytes) (ph : Phdr) (dir a : ℕ) (s s' : Paging) : Type 0 where
  pub phys : ℕ
  pub nonzero : phys ≢ 0
  pub was_free : bitmap_test s.pmm.bitmap (phys / 4096) ≡ false
  pub maps : pte s' dir a ≡ some (entry phys (page_rw + page_user))
  pub holds :
      (i : ℕ) → i < 1024 → s'.mem (phys / 4096) i ≡ words_of (λ j. image elf_data ph (a + j)) i

words_of-image :
    (elf_data : Bytes) (ph : Phdr) (a i : ℕ)
    → Fits ph
    → a < ph.p_vaddr + ph.p_memsz + 4096
    → a + 4096 < 2 ^ 32
    → i < 1024
    → words_of (page_bytes elf_data ph a) i ≡ words_of (λ j. image elf_data ph (a + j)) i
unfolding words_of
words_of-image elf_data ph a i f ha hb hi =
    rw
      (
        page_bytes_lem elf_data ph a (i * 4) f ha hb (omega arith),
        page_bytes_lem elf_data ph a (i * 4 + 1) f ha hb (omega arith),
        page_bytes_lem elf_data ph a (i * 4 + 2) f ha hb (omega arith),
        page_bytes_lem elf_data ph a (i * 4 + 3) f ha hb (omega arith),
      )
      refl

-- The allocator's part: the frame and the state behind it, with the page's bytes in the frame.
abbrev filled : ℕ → Frame → Pmm → Paging → Paging
filled phys f pmm s = fill_frame phys f (record s { pmm = pmm })

filled_reads :
    (phys dir : ℕ) (f : Frame) (pmm : Pmm) (s : Paging) (i : ℕ)
    → phys / 4096 ≢ dir / 4096
    → read_word (filled phys f pmm s) dir i ≡ read_word s dir i
unfolding fill_frame read_word
filled_reads phys dir f pmm s i ne =
    let e : (phys / 4096 == dir / 4096) ≡ false = ground (arith, ne) in rw e refl

filled_holds :
    (phys : ℕ) (f : Frame) (pmm : Pmm) (s : Paging) (i : ℕ)
    → (filled phys f pmm s).mem (phys / 4096) i ≡ f i
unfolding fill_frame
filled_holds phys f pmm s i =
    let e : (phys / 4096 == phys / 4096) ≡ true = ground arith in rw e refl

marked :
    (p p1 : Pmm) (f g : ℕ)
    → Claimed p f p1
    → bitmap_test p.bitmap g ≡ true
    → bitmap_test p1.bitmap g ≡ true
marked p p1 f g c h = ground (arith, c.marks g, h)

claimed :
    (p p1 : Pmm) (f a : ℕ) → Claimed p f p1 → a / 4096 ≡ f → bitmap_test p1.bitmap (a / 4096) ≡ true
claimed p p1 f a c e = ground (arith, c.marks (a / 4096), e)

not_here :
    (p : Pmm) (a b : ℕ) → bitmap_test p.bitmap a ≡ false → bitmap_test p.bitmap b ≡ true → a ≢ b
not_here p a b free used same = cc (ap (bitmap_test p.bitmap) same, free, used)

filled-CanMap :
    (s : Paging) (dir virt f phys : ℕ) (g : Frame)
    → Ready s dir virt
    → Claimed s.pmm f (pmm_alloc_frame s.pmm).1
    → phys / 4096 ≡ f
    → CanMap (filled phys g (pmm_alloc_frame s.pmm).1 s) dir virt
unfolding fill_frame
filled-CanMap s dir virt f phys g r c e =
    let p1 = (pmm_alloc_frame s.pmm).1 in
    let free : bitmap_test s.pmm.bitmap (phys / 4096) ≡ false =
      ap (bitmap_test s.pmm.bitmap) e ∙ c.was_free in
    let same = filled_reads phys dir g p1 s (pd_index virt) (not_here s.pmm _ _ free r.held) in
    record {
      valid = c.valid;
      reserved = marked s.pmm p1 f 0 c r.reserved;
      held = marked s.pmm p1 f (dir / 4096) c r.held;
      apart = λ h. rw same (r.apart (rw same at h));
      left = λ h. r.left (rw same at h);
    }

fresh_page :
    (s : Paging) (f phys dir a : ℕ) (g : Frame)
    → Ready s dir a
    → Claimed s.pmm f (pmm_alloc_frame s.pmm).1
    → phys / 4096 ≡ f
    → is_present (read_word s dir (pd_index a)) ≡ false
    → (pmm_alloc_frame (filled phys g (pmm_alloc_frame s.pmm).1 s).pmm).0 / 4096 ≢ phys / 4096
unfolding fill_frame
fresh_page s f phys dir a g r c k gone =
    let p1 = (pmm_alloc_frame s.pmm).1 in
    (fresh_apart p1 phys c.valid (marked s.pmm p1 f 0 c r.reserved) (claimed s.pmm p1 f phys c k)
      (r.left gone)).0

-- The part of `load_page` behind the allocator, with its frame.
mapped_page :
    (elf_data : Bytes) (ph : Phdr) (dir a f phys : ℕ) (s : Paging)
    → Fits ph
    → a < ph.p_vaddr + ph.p_memsz + 4096
    → a + 4096 < 2 ^ 32
    → Ready s dir a
    → phys ≢ 0
    → phys ≡ f * 4096
    → Claimed s.pmm f (pmm_alloc_frame s.pmm).1
    → Loaded elf_data ph dir a s
        (paging_map_user_page dir phys a
          (page_rw + page_user)
          (filled phys (words_of (page_bytes elf_data ph a)) (pmm_alloc_frame s.pmm).1 s)).1
mapped_page elf_data ph dir a f phys s fits ha hb r ne e c =
    let k : phys / 4096 ≡ f = omega arith in
    let p1 = (pmm_alloc_frame s.pmm).1 in
    let g = words_of (page_bytes elf_data ph a) in
    let free : bitmap_test s.pmm.bitmap (phys / 4096) ≡ false =
      ap (bitmap_test s.pmm.bitmap) k ∙ c.was_free in
    let same = filled_reads phys dir g p1 s (pd_index a) (not_here s.pmm _ _ free r.held) in
    let can = filled-CanMap s dir a f phys g r c k in
    record {
      phys = phys;
      nonzero = ne;
      was_free = free;
      maps =
          elim (paging_map_user_page_lem (filled phys g p1 s) dir phys a (page_rw + page_user)
            can) [ inl kernel ↦ absurd (omega (arith, kernel.0, r.user)) | inr user ↦ user.2 ];
      holds = λ i hi.
          map_keeps (filled phys g p1 s) dir phys a (page_rw + page_user) (phys / 4096)
            (λ h. not_here s.pmm _ _ free r.held (sym h))
            (λ here h.
              not_here s.pmm _ _ free (r.table_held (rw same at here)) (sym (rw same at h)))
            (λ gone. fresh_page s f phys dir a g r c k (rw same at gone)) i
          ∙ filled_holds phys g p1 s i
          ∙ words_of-image elf_data ph a i fits ha hb hi;
    }

-- Loading a page of user space, below 4 GiB, of a segment whose bytes in the file are no more than
-- those in memory and whose places in both fit 32 bits, in a valid state of the frame allocator where
-- frame 0 and the directory's frame are in use; if the directory has a table for the page, the table's
-- frame is in use and another than the directory's, and if it has none, two frames are free. Then the
-- loading either fails with the state unchanged because no frame is free, or succeeds, and the
-- directory maps the page, writable and for user mode, to a frame that was free, which holds at each
-- address of the page the file's byte there, or zero where the segment has none.
pub load_page_lem :
    (elf_data : Bytes) (ph : Phdr) (dir a : ℕ) (s : Paging)
    → Fits ph
    → a < ph.p_vaddr + ph.p_memsz + 4096
    → a + 4096 < 2 ^ 32
    → Ready s dir a
    → (((pmm_alloc_frame s.pmm).0 ≡ 0) × (load_page elf_data ph dir a s ≡ (false, s)))
      ⊎ (((load_page elf_data ph dir a s).0 ≡ true)
          × Loaded elf_data ph dir a s (load_page elf_data ph dir a s).1)
unfolding load_page fill_page alloc
load_page_lem elf_data ph dir a s fits ha hb r = elim (pmm_alloc_frame_lem r.valid r.reserved) [
  | inl (f, e, ne, lt, c) ↦
      let used : ((pmm_alloc_frame s.pmm).0 == 0) ≡ false = ground (arith, ne) in
      inr (
        rw used refl,
        rw used (mapped_page elf_data ph dir a f (pmm_alloc_frame s.pmm).0 s fits ha hb r ne e c),
      )
  | inr (e, same, all) ↦ inl (e, rw (e, same) refl)
]
