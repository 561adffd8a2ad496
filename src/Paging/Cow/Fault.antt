-- ===== src/Paging/Cow/Fault.antt =====
-- `paging_handle_cow_fault` of kernel/paging.c as a whole.
use mathlib.Core.Path.{subst}
use kronked_os.Prelude.{
  ℕ, ◌/◌, ◌≤◌, ◌<◌, ◌≡◌, refl, ◌≢◌, ap, ◌∙◌, sym, Bool, false, ◌&&◌, ◌==◌, leb, arith, inl, inr,
  Bool-cases,
}
use kronked_os.Pmm.{Pmm, pmm_frame_refcount, pmm_alloc_frame}
use kronked_os.Pmm.Alloc.{AllocOutcome, pmm_alloc_frame_lem}
use kronked_os.Paging.Entry.{page_of, is_present, is_cow, unshare_flags}
use kronked_os.Paging.{Paging, read_word, pd_index, pt_index, alloc, set_entry, write_word}
use kronked_os.Paging.Map.{read-write}
use kronked_os.Paging.Cow.{reclaim, copy_page, resolve, fault_at_entry, paging_handle_cow_fault}
use kronked_os.Paging.Cow.Resolve.{SharedAt, owned, Resolved, refcount_eq, new_frame, copy-Resolved}

reclaim-Resolved :
    (s : Paging) (addr table e : ℕ)
    → s.pmm.refcount (page_of e / 4096) ≤ 1
    → Resolved s addr table e (reclaim table (pt_index addr) e s)
unfolding reclaim
reclaim-Resolved s addr table e few =
    inl (few, refl, owned s addr table (page_of e) e, unfold set_entry write_word in refl, others)
  where
    others :
        (b j : ℕ)
        → b / 4096 ≢ table / 4096
        → read_word (set_entry (pt_index addr) (page_of e) (unshare_flags e) (table, s)) b j
          ≡ read_word s b j
    others b j ne =
        let miss : (table / 4096 == b / 4096) ≡ false = ground arith in
        unfold set_entry in simp (read-write, miss)

copy_none : (s : Paging) (table i e : ℕ) → copy_page table i e (0, s) ≡ (false, s)
unfolding copy_page
copy_none s table i e = refl

alloc-Resolved :
    (s : Paging) (addr table e : ℕ) (r : ℕ × Pmm)
    → SharedAt s addr table e
    → 1 < s.pmm.refcount (page_of e / 4096)
    → AllocOutcome s.pmm r
    → Resolved s addr table e (copy_page table (pt_index addr) e (r.0, record s { pmm = r.1 }))
alloc-Resolved s addr table e r h many (inl (f, ea, ne, lt, c)) =
    copy-Resolved s addr table e r.0 r.1 h many (new_frame s e f r.0 r.1 h.page_held ea ne c)
alloc-Resolved s addr table e r h many (inr (ez, same, all)) = inr (inr (many, failed, all))
  where
    failed : copy_page table (pt_index addr) e (r.0, record s { pmm = r.1 }) ≡ (false, s)
    failed =
        ap (λ a. copy_page table (pt_index addr) e (a, record s { pmm = r.1 })) ez
        ∙ copy_none (record s { pmm = r.1 }) table (pt_index addr) e
        ∙ ap (λ p. let out : Bool × Paging = (false, record s { pmm = p }) in out) same

resolve-Resolved :
    (s : Paging) (addr table e : ℕ)
    → SharedAt s addr table e
    → Resolved s addr table e (resolve table (pt_index addr) e s)
unfolding resolve alloc
resolve-Resolved s addr table e h =
    let count = refcount_eq s (page_of e) h.tracked in
    elim (Bool-cases (leb (pmm_frame_refcount (page_of e) s.pmm) 1)) [
      | inl few ↦ rw few (reclaim-Resolved s addr table e (ground (arith, count)))
      | inr many ↦ rw many (
          alloc-Resolved s addr table e (pmm_alloc_frame s.pmm) h (ground (arith, count))
            (pmm_alloc_frame_lem h.valid h.reserved))
    ]

fault_eq :
    (s : Paging) (addr table e : ℕ)
    → SharedAt s addr table e
    → paging_handle_cow_fault addr s ≡ resolve table (pt_index addr) e s
unfolding paging_handle_cow_fault fault_at_entry
fault_eq s addr table e h = simp (h.directory, h.table_is, h.entry_is, h.present, h.cow)

-- A write fault on a shared page: a page with one reference is made writable where it is, with no
-- other change; a page with more is copied to a frame that was free, the entry then leads to the
-- copy, writable and unshared, the old frame keeps its words and loses one reference, and no other
-- frame but the table's is written; with no frame free the call fails and changes nothing.
pub paging_handle_cow_fault_lem :
    (s : Paging) (addr table e : ℕ)
    → SharedAt s addr table e
    → Resolved s addr table e (paging_handle_cow_fault addr s)
paging_handle_cow_fault_lem s addr table e h =
    subst (Resolved s addr table e) (sym (fault_eq s addr table e h))
      (resolve-Resolved s addr table e h)

-- The faults that the handler refuses.
unfoldable pub is_cow_page : ℕ → Paging → Bool
is_cow_page addr s =
    let d = read_word s s.cr3 (pd_index addr) in
    let e = read_word s (page_of d) (pt_index addr) in is_present d && is_present e && is_cow e

-- A fault at an address with no page, or with a page that is not copy-on-write, is refused with
-- nothing changed.
pub genuine_fault :
    (s : Paging) (addr : ℕ)
    → is_cow_page addr s ≡ false
    → paging_handle_cow_fault addr s ≡ (false, s)
unfolding paging_handle_cow_fault fault_at_entry is_cow_page
genuine_fault s addr h = ground arith
