-- ===== src/Paging/Cow/Resolve.antt =====
-- What a write fault on a copy-on-write page leads to (kernel/paging.c).
use mathlib.Core.Path.{subst}
use kronked_os.Prelude.{
  ℕ, ◌+◌, ◌*◌, ◌/◌, ◌≤◌, ◌<◌, ◌≡◌, refl, ◌≢◌, ap, ◌∙◌, sym, Bool, true, false, ◌&&◌, ◌==◌,
  if◌then◌else◌, arith, inl, inr, ◌⊎◌,
}
use kronked_os.Pmm.{Pmm, frame_size, pmm_free_frame, pmm_frame_refcount}
use kronked_os.Pmm.Bitmap.{max_frames, bitmap_test}
use kronked_os.Pmm.Valid.{IsValid}
use kronked_os.Pmm.Alloc.{Claimed}
use kronked_os.Pmm.Refs.{pmm_free_frame-Released}
use kronked_os.Paging.Entry.{page_of, is_present, is_cow, is_writable, unshare_flags, unshared_lem}
use kronked_os.Paging.{Paging, read_word, write_word, fill_frame, pd_index, pt_index, set_entry}
use kronked_os.Paging.Map.{read-write}
use kronked_os.Paging.Cow.{copy_page}

-- A state with a copy-on-write page mapped at `addr` in the active directory: the entry `e`, in the
-- table `table`, which is no page's frame.
pub record SharedAt (s : Paging) (addr table e : ℕ) : Type 0 where
  pub directory : is_present (read_word s s.cr3 (pd_index addr)) ≡ true
  pub table_is : page_of (read_word s s.cr3 (pd_index addr)) ≡ table
  pub entry_is : read_word s table (pt_index addr) ≡ e
  pub present : is_present e ≡ true
  pub cow : is_cow e ≡ true
  pub valid : IsValid s.pmm
  pub reserved : bitmap_test s.pmm.bitmap 0 ≡ true
  pub tracked : page_of e / 4096 < max_frames
  pub table_held : bitmap_test s.pmm.bitmap (table / 4096) ≡ true
  pub page_held : bitmap_test s.pmm.bitmap (page_of e / 4096) ≡ true
  pub apart : table / 4096 ≢ page_of e / 4096

-- The entry is now writable, not shared, and leads to the frame at `phys`.
pub record Owned (s' : Paging) (addr table phys : ℕ) : Type 0 where
  pub leads : page_of (read_word s' table (pt_index addr)) ≡ page_of phys
  pub present : is_present (read_word s' table (pt_index addr)) ≡ true
  pub writable : is_writable (read_word s' table (pt_index addr)) ≡ true
  pub unshared : is_cow (read_word s' table (pt_index addr)) ≡ false

pub owned :
    (s : Paging) (addr table phys e : ℕ)
    → Owned (set_entry (pt_index addr) phys (unshare_flags e) (table, s)) addr table phys
unfolding set_entry
owned s addr table phys e =
    let hit : ((table / 4096 == table / 4096) && pt_index addr == pt_index addr) ≡ true =
      ground arith in
    let (a, b, c, d) = unshared_lem phys e in
    record {
      leads = simp (read-write, hit) a;
      present = simp (read-write, hit) b;
      writable = simp (read-write, hit) c;
      unshared = simp (read-write, hit) d;
    }

-- The three outcomes for a shared page.
abbrev pub Resolved : Paging → ℕ → ℕ → ℕ → Bool × Paging → Type 0
Resolved s addr table e r =
    ((s.pmm.refcount (page_of e / 4096) ≤ 1)
      × (r.0 ≡ true)
      × Owned r.1 addr table (page_of e)
      × (r.1.pmm ≡ s.pmm)
      × ((b j : ℕ) → b / 4096 ≢ table / 4096 → read_word r.1 b j ≡ read_word s b j))
    ⊎ ((1 < s.pmm.refcount (page_of e / 4096))
        × (r.0 ≡ true)
        × ((new : ℕ) × (bitmap_test s.pmm.bitmap (new / 4096) ≡ false)
            × Owned r.1 addr table new
            × ((j : ℕ) → read_word r.1 new j ≡ read_word s (page_of e) j)
            × ((b j : ℕ)
                → b / 4096 ≢ table / 4096
                → b / 4096 ≢ new / 4096
                → read_word r.1 b j ≡ read_word s b j)
            × (r.1.pmm.refcount (page_of e / 4096) + 1 ≡ s.pmm.refcount (page_of e / 4096))
            × (r.1.pmm.refcount (new / 4096) ≡ 1)))
    ⊎ ((1 < s.pmm.refcount (page_of e / 4096))
        × (r ≡ (false, s))
        × ((g : ℕ) → g < max_frames → bitmap_test s.pmm.bitmap g ≡ true))

pub refcount_eq :
    (s : Paging) (a : ℕ)
    → a / 4096 < max_frames
    → pmm_frame_refcount a s.pmm ≡ s.pmm.refcount (a / 4096)
unfolding pmm_frame_refcount
refcount_eq s a lt = ground arith

-- The frame that `alloc` gives, as the copy needs it.
pub record NewFrame (s : Paging) (e new : ℕ) (pmm : Pmm) : Type 0 where
  pub nonzero : new ≢ 0
  pub aligned : page_of new ≡ new
  pub was_free : bitmap_test s.pmm.bitmap (new / 4096) ≡ false
  pub valid : IsValid pmm
  pub old_count : pmm.refcount (page_of e / 4096) ≡ s.pmm.refcount (page_of e / 4096)
  pub new_count : pmm.refcount (new / 4096) ≡ 1
  pub apart : new / 4096 ≢ page_of e / 4096

pub new_frame :
    (s : Paging) (e f a : ℕ) (pmm : Pmm)
    → bitmap_test s.pmm.bitmap (page_of e / 4096) ≡ true
    → a ≡ f * frame_size
    → a ≢ 0
    → Claimed s.pmm f pmm
    → NewFrame s e a pmm
new_frame s e f a pmm held ea ne c =
    let k : a / 4096 ≡ f = omega arith in
    let apart : f ≢ page_of e / 4096 =
      λ same. cc (ap (bitmap_test s.pmm.bitmap) same, c.was_free) in
    record {
      nonzero = ne;
      aligned = omega arith;
      was_free = ap (bitmap_test s.pmm.bitmap) k ∙ c.was_free;
      valid = c.valid;
      old_count = c.others (page_of e / 4096) apart;
      new_count = ap pmm.refcount k ∙ c.one_ref;
      apart = λ same. apart (sym k ∙ same);
    }

copy_eq :
    (s : Paging) (table i e new : ℕ) (pmm : Pmm)
    → new ≢ 0
    → copy_page table i e (new, record s { pmm = pmm }) ≡ (
      true,
      set_entry i new (unshare_flags e) (
        table,
        record (fill_frame new (s.mem (page_of e / 4096)) (record s { pmm = pmm })) {
          pmm = pmm_free_frame (page_of e) pmm;
        },
      ),
    )
unfolding copy_page fill_frame
copy_eq s table i e new pmm ne = let k : (new == 0) ≡ false = ground arith in simp k

-- The words of a frame after the copy.
copied_read :
    (s : Paging) (table i e new b j : ℕ) (pmm : Pmm)
    → b / 4096 ≢ table / 4096
    → read_word
        (set_entry i new (unshare_flags e) (
          table,
          record (fill_frame new (s.mem (page_of e / 4096)) (record s { pmm = pmm })) {
            pmm = pmm_free_frame (page_of e) pmm;
          },
        ))
        b
        j
      ≡ (if new / 4096 == b / 4096 then read_word s (page_of e) j else read_word s b j)
unfolding set_entry write_word fill_frame read_word
copied_read s table i e new b j pmm ne = ground arith

pub copy-Resolved :
    (s : Paging) (addr table e new : ℕ) (pmm : Pmm)
    → SharedAt s addr table e
    → 1 < s.pmm.refcount (page_of e / 4096)
    → NewFrame s e new pmm
    → Resolved s addr table e (copy_page table (pt_index addr) e (new, record s { pmm = pmm }))
unfolding set_entry write_word fill_frame
copy-Resolved s addr table e new pmm h many n =
    let rel = pmm_free_frame-Released n.valid (page_of e) h.tracked in
    let new_ne_table : new / 4096 ≢ table / 4096 =
      λ same. cc (ap (bitmap_test s.pmm.bitmap) same, n.was_free, h.table_held) in
    let hit : (new / 4096 == new / 4096) ≡ true = ground arith in
    subst (Resolved s addr table e) (sym (copy_eq s table (pt_index addr) e new pmm n.nonzero)) (
      inr (
        inl (
          many,
          refl,
          (
            new,
            n.was_free,
            owned
                (record (fill_frame new (s.mem (page_of e / 4096)) (record s { pmm = pmm })) {
                  pmm = pmm_free_frame (page_of e) pmm;
                })
                addr table new e,
            λ j.
                copied_read s table (pt_index addr) e new new j pmm new_ne_table
                ∙ ap (λ b. if b then read_word s (page_of e) j else read_word s new j) hit,
            λ b j nt nn.
                let miss : (new / 4096 == b / 4096) ≡ false = ground arith in
                copied_read s table (pt_index addr) e new b j pmm nt
                ∙ ap (λ x. if x then read_word s (page_of e) j else read_word s b j) miss,
            omega (arith, rel.count, n.old_count),
            (rel.others (new / 4096) (λ same. n.apart (sym same))).1 ∙ n.new_count,
          ),
        )))
