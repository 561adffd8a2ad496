-- ===== src/Paging/Space/Fork.antt =====
-- What `paging_clone_address_space` of kernel/paging.c does with one page of the parent.
use kronked_os.Prelude.{
  ℕ, ◌+◌, ◌*◌, ◌/◌, ◌^◌, ◌<◌, ◌≤◌, ◌≡◌, refl, ◌≢◌, ap, ◌∙◌, Bool, true, false, ◌&&◌, some, ◌==◌,
  ltb, if◌then◌else◌, Bool-cases, arith, inl, inr,
}
use kronked_os.Pmm.{pmm_alloc_frame, pmm_frame_addref}
use kronked_os.Pmm.Bitmap.{bitmap_test}
use kronked_os.Paging.Entry.{
  page_of, entry, is_present, is_writable, is_cow, share_flags, drop_present, shared_lem, page_rw,
  page_user,
}
use kronked_os.Paging.{
  Paging, read_word, write_word, pd_index, pt_index, identity_map_tables, alloc, install_table,
  user_table, set_entry, paging_map_user_page,
}
use kronked_os.Paging.Map.{
  read-write, read-fill, pte, CanMap, fresh_apart, paging_map_user_page_lem,
}
use kronked_os.Paging.Space.{share_page}

apart_test : (a b : ℕ) (c : Bool) → a / 4096 ≢ b / 4096 → ((a / 4096 == b / 4096) && c) ≡ false
apart_test a b c ne = ground arith

apart_frame : (a b : ℕ) → a / 4096 ≢ b / 4096 → (a / 4096 == b / 4096) ≡ false
apart_frame a b ne = ground arith

read_other :
    (a i v b j : ℕ) (s : Paging)
    → a / 4096 ≢ b / 4096
    → read_word (write_word a i v s) b j ≡ read_word s b j
read_other a i v b j s ne =
    read-write a i v b j s ∙ ap (λ t. if t then v else read_word s b j) (apart_test a b (i == j) ne)

alloc_reads : (s : Paging) (b j : ℕ) → read_word (alloc s).1 b j ≡ read_word s b j
unfolding alloc read_word
alloc_reads s b j = refl

install_keeps :
    (dir i flags table b j : ℕ) (s : Paging)
    → dir / 4096 ≢ b / 4096
    → table / 4096 ≢ b / 4096
    → read_word (install_table dir i flags (table, s)).1 b j ≡ read_word s b j
unfolding install_table
install_keeps dir i flags table b j s ne ne' =
    read_other dir i (entry table flags) b j _ ne
    ∙ read-fill table b j (λ _. 0) s
    ∙ ap (λ t. if t then 0 else read_word s b j) (apart_frame table b ne')

-- Mapping a page writes to no frame that is in use but the directory's and its table's.
map_keeps :
    (s : Paging) (dir phys virt flags b j : ℕ)
    → CanMap s dir virt
    → dir / 4096 ≢ b / 4096
    → bitmap_test s.pmm.bitmap (b / 4096) ≡ true
    → page_of (read_word s dir (pd_index virt)) / 4096 ≢ b / 4096
    → read_word (paging_map_user_page dir phys virt flags s).1 b j ≡ read_word s b j
unfolding paging_map_user_page user_table set_entry
map_keeps s dir phys virt flags b j c ne used ne' =
    elim (Bool-cases (ltb (pd_index virt) identity_map_tables)) [
      | inl kernel ↦ simp kernel
      | inr user ↦ elim (Bool-cases (is_present (read_word s dir (pd_index virt)))) [
        | inl old ↦
            simp (user, old)
              (read_other (page_of (read_word s dir (pd_index virt))) (pt_index virt)
                (entry phys flags) b j s ne')
        | inr new ↦
            let fresh = fresh_apart s.pmm b c.valid c.reserved used (c.left new) in
            let table = (pmm_alloc_frame s.pmm).0 in
            simp (user, new)
              (read_other table (pt_index virt) (entry phys flags) b j
                  (install_table dir (pd_index virt) (page_rw + page_user) (alloc s)).1 fresh.0
                ∙ install_keeps dir (pd_index virt) (page_rw + page_user) table b j (alloc s).1 ne
                    fresh.0
                ∙ alloc_reads s b j)
      ]
    ]

-- The entry that both address spaces get for a page with the parent's entry `e`.
abbrev pub shared_entry : ℕ → ℕ
shared_entry e = entry (page_of e) (share_flags (drop_present e))

abbrev pub address : ℕ → ℕ → ℕ
address pd pt = pd * 2 ^ 22 + pt * 2 ^ 12

-- The state in which the child's entry is about to be made.
abbrev pub counted : ℕ → ℕ → ℕ → Paging → Paging
counted table pt e s =
    write_word table pt (shared_entry e) (record s { pmm = pmm_frame_addref (page_of e) s.pmm })

-- Both entries lead to the parent's frame, read-only and marked copy-on-write.
pub record Shared (child table pd pt e : ℕ) (s' : Paging) : Type 0 where
  pub child_maps : pte s' child (address pd pt) ≡ some (shared_entry e)
  pub parent_maps : read_word s' table pt ≡ shared_entry e
  pub same_frame : page_of (shared_entry e) ≡ page_of e
  pub present : is_present (shared_entry e) ≡ true
  pub read_only : is_writable (shared_entry e) ≡ false
  pub marked : is_cow (shared_entry e) ≡ true

directory_index : (pd pt : ℕ) → pt < 1024 → pd_index (address pd pt) ≡ pd
directory_index pd pt lt = omega arith

reads_back : (a i v : ℕ) (s : Paging) → read_word (write_word a i v s) a i ≡ v
reads_back a i v s =
    let hit : ((a / 4096 == a / 4096) && i == i) ≡ true = ground arith in
    read-write a i v a i s ∙ ap (λ t. if t then v else read_word s a i) hit

-- Sharing one user page of the parent, where the child's directory can map it and the parent's table
-- is in use and no frame of the child: afterwards the child's address and the parent's table both have
-- the same entry, which leads to the parent's frame, is read-only and is marked copy-on-write.
pub share_page_lem :
    (child table pd pt e : ℕ) (s : Paging)
    → identity_map_tables ≤ pd
    → pt < 1024
    → CanMap (counted table pt e s) child (address pd pt)
    → child / 4096 ≢ table / 4096
    → bitmap_test (counted table pt e s).pmm.bitmap (table / 4096) ≡ true
    → page_of (read_word (counted table pt e s) child (pd_index (address pd pt))) / 4096
      ≢ table / 4096
    → Shared child table pd pt e (share_page child table pd pt e s)
unfolding share_page
share_page_lem child table pd pt e s user small c apart used apart' =
    let (frame, present, read_only, marked) = shared_lem (page_of e) e in
    record {
      child_maps =
          elim (paging_map_user_page_lem (counted table pt e s) child (page_of e) (address pd pt)
            (share_flags (drop_present e)) c) [
              | inl (kernel, _) ↦ absurd (omega (arith, directory_index pd pt small))
              | inr (_, ok, maps) ↦ maps
            ];
      parent_maps =
          map_keeps (counted table pt e s) child (page_of e) (address pd pt)
            (share_flags (drop_present e)) table pt c apart used apart'
          ∙ reads_back table pt (shared_entry e)
              (record s { pmm = pmm_frame_addref (page_of e) s.pmm });
      same_frame = frame ∙ omega arith;
      present = present;
      read_only = read_only;
      marked = marked;
    }
