-- ===== src/Paging/Space/Frames.antt =====
-- What `paging_free_address_space` of kernel/paging.c gives back to the frame allocator.
use kronked_os.Prelude.{
  ℕ, zero, suc, ◌+◌, ◌/◌, ◌<◌, ◌≤◌, ◌≡◌, refl, sym, ◌∙◌, ap, ◌≢◌, true, false, ◌&&◌, List, [], ◌∷◌,
  ◌++◌, if◌then◌else◌, ◌==◌, Bool-cases, arith, inl, inr,
}
use kronked_os.Pmm.{Pmm, pmm_free_frame}
use kronked_os.Paging.Entry.{page_of, is_present}
use kronked_os.Paging.{Paging, read_word, write_word, identity_map_tables, entries_per_table}
use kronked_os.Paging.Map.{read-write}
use kronked_os.Paging.Space.{
  free_entry, free_entries, free_table, free_directory_entry, free_directory,
}

-- The pages of the present ones of a table's entries, `n` of them from `pt` on.
unfoldable pub table_frames : Paging → ℕ → ℕ → ℕ → List ℕ
table_frames t table zero pt = []
table_frames t table (suc n) pt =
    let rest = table_frames t table n (pt + 1) in
    if is_present (read_word t table pt) then page_of (read_word t table pt) ∷ rest else rest

-- For each present one of a directory's entries, `n` of them from `pd` on: the pages of its table,
-- and the table.
unfoldable pub directory_frames : Paging → ℕ → ℕ → ℕ → List ℕ
directory_frames t dir zero pd = []
directory_frames t dir (suc n) pd =
    let rest = directory_frames t dir n (pd + 1) in
    let table = page_of (read_word t dir pd) in
    if is_present (read_word t dir pd)
    then table_frames t table entries_per_table 0 ++ (table ∷ rest)
    else rest

-- One reference less to each frame of the list, once for each time it stands there.
unfoldable pub drop_all : List ℕ → Pmm → Pmm
drop_all [] p = p
drop_all (f ∷ fs) p = drop_all fs (pmm_free_frame f p)

drop_all-append :
    (xs : List ℕ) (y : ℕ) (ys : List ℕ) (p : Pmm)
    → drop_all (xs ++ (y ∷ ys)) p ≡ drop_all ys (pmm_free_frame y (drop_all xs p))
unfolding drop_all
drop_all-append [] y ys p = refl
drop_all-append (x ∷ xs) y ys p = drop_all-append xs y ys (pmm_free_frame x p)

-- The tables of a directory's user entries lie in frames of their own.
pub record Separate (t : Paging) (dir : ℕ) : Type 0 where
  pub apart :
      (i : ℕ)
      → is_present (read_word t dir i) ≡ true
      → identity_map_tables ≤ i
      → i < entries_per_table
      → page_of (read_word t dir i) / 4096 ≢ dir / 4096
  pub distinct :
      (i j : ℕ)
      → is_present (read_word t dir i) ≡ true
      → is_present (read_word t dir j) ≡ true
      → identity_map_tables ≤ i
      → i < j
      → j < entries_per_table
      → page_of (read_word t dir i) / 4096 ≢ page_of (read_word t dir j) / 4096

free_entry-reads :
    (table pt a i : ℕ) (s : Paging)
    → ((table / 4096 == a / 4096) && pt == i) ≡ false
    → read_word (free_entry table pt s) a i ≡ read_word s a i
unfolding free_entry
free_entry-reads table pt a i s miss = elim (Bool-cases (is_present (read_word s table pt))) [
  | inl here ↦ rw here (simp (read-write, miss) (unfold read_word in refl))
  | inr gone ↦ rw gone refl
]

free_entries-reads :
    (table n pt a i : ℕ) (s : Paging)
    → (table / 4096 == a / 4096) ≡ false
    → read_word (free_entries table n pt s) a i ≡ read_word s a i
unfolding free_entries
free_entries-reads table zero pt a i s miss = refl
free_entries-reads table (suc n) pt a i s miss =
    free_entries-reads table n (pt + 1) a i (free_entry table pt s) miss
    ∙ free_entry-reads table pt a i s (rw miss refl)

free_entry-pmm :
    (table pt : ℕ) (s : Paging)
    → (free_entry table pt s).pmm ≡ (
        if is_present (read_word s table pt)
        then pmm_free_frame (page_of (read_word s table pt)) s.pmm
        else s.pmm)
unfolding free_entry write_word
free_entry-pmm table pt s = elim (Bool-cases (is_present (read_word s table pt))) [
  | inl here ↦ rw here refl
  | inr gone ↦ rw gone refl
]

-- `s` is what an earlier part of the loop made of `t`.
free_entries-pmm :
    (t : Paging) (table n pt : ℕ) (s : Paging)
    → ((i : ℕ) → pt ≤ i → read_word s table i ≡ read_word t table i)
    → (free_entries table n pt s).pmm ≡ drop_all (table_frames t table n pt) s.pmm
unfolding free_entries table_frames drop_all
free_entries-pmm t table zero pt s same = refl
free_entries-pmm t table (suc n) pt s same =
    let e = rw (same pt (omega arith)) at (free_entry-pmm table pt s) in
    let others =
      free_entries-pmm t table n (pt + 1) (free_entry table pt s)
        (λ i le. free_entry-reads table pt table i s (ground arith) ∙ same i (omega arith)) in
    elim (Bool-cases (is_present (read_word t table pt))) [
      | inl here ↦ rw here (others ∙ ap (drop_all (table_frames t table n (pt + 1))) (rw here at e))
      | inr gone ↦ rw gone (others ∙ ap (drop_all (table_frames t table n (pt + 1))) (rw gone at e))
    ]

directory_entry-reads :
    (dir pd a i : ℕ) (s : Paging)
    → (is_present (read_word s dir pd) ≡ true → page_of (read_word s dir pd) / 4096 ≢ a / 4096)
    → ((dir / 4096 == a / 4096) && pd == i) ≡ false
    → read_word (free_directory_entry dir pd s) a i ≡ read_word s a i
unfolding free_directory_entry free_table
directory_entry-reads dir pd a i s other miss =
    elim (Bool-cases (is_present (read_word s dir pd))) [
      | inl here ↦
          let table = page_of (read_word s dir pd) in
          rw here (
            simp (read-write, miss)
              (unfold read_word in
                free_entries-reads table 1024 0 a i s (let ne = other here in ground arith)))
      | inr gone ↦ rw gone refl
    ]

directory_entry-pmm :
    (t : Paging) (dir pd : ℕ) (s : Paging)
    → read_word s dir pd ≡ read_word t dir pd
    → ((j : ℕ)
        → is_present (read_word t dir pd) ≡ true
        → read_word s (page_of (read_word t dir pd)) j
          ≡ read_word t (page_of (read_word t dir pd)) j)
    → (free_directory_entry dir pd s).pmm ≡ (
        if is_present (read_word t dir pd)
        then pmm_free_frame
            (page_of (read_word t dir pd))
            (drop_all (table_frames t (page_of (read_word t dir pd)) entries_per_table 0) s.pmm)
        else s.pmm)
unfolding free_directory_entry free_table write_word
directory_entry-pmm t dir pd s here same = elim (Bool-cases (is_present (read_word t dir pd))) [
  | inl p ↦
      rw (here, p)
        (ap (pmm_free_frame (page_of (read_word t dir pd)))
          (free_entries-pmm t (page_of (read_word t dir pd)) 1024 0 s (λ j le. same j p)))
  | inr g ↦ rw (here, g) refl
]

-- The directory's entries from `pd` on, and their tables, are in `s` as they were in `t`.
record Agree (t s : Paging) (dir pd : ℕ) : Type 0 where
  entries : (i : ℕ) → pd ≤ i → i < entries_per_table → read_word s dir i ≡ read_word t dir i
  tables :
      (i j : ℕ)
      → pd ≤ i
      → i < entries_per_table
      → is_present (read_word t dir i) ≡ true
      → read_word s (page_of (read_word t dir i)) j ≡ read_word t (page_of (read_word t dir i)) j

Agree-next :
    (t s : Paging) (dir pd : ℕ)
    → Separate t dir
    → identity_map_tables ≤ pd
    → pd < entries_per_table
    → Agree t s dir pd
    → Agree t (free_directory_entry dir pd s) dir (pd + 1)
Agree-next t s dir pd sep lo hi a =
    let e = a.entries pd (omega arith) hi in
    record {
      entries = λ i le lt.
          directory_entry-reads dir pd dir i s (rw e (λ p. sep.apart pd p lo hi)) (ground arith)
          ∙ a.entries i (omega arith) lt;
      tables = λ i j le lt p.
          let ne = sep.apart i p (omega arith) lt in
          directory_entry-reads dir pd (page_of (read_word t dir i)) j s
            (rw e (λ q. sep.distinct pd i q p lo (omega arith) lt)) (ground arith)
          ∙ a.tables i j (omega arith) lt p;
    }

free_directory-pmm :
    (t : Paging) (dir n pd : ℕ) (s : Paging)
    → Separate t dir
    → identity_map_tables ≤ pd
    → pd + n ≤ entries_per_table
    → Agree t s dir pd
    → (free_directory dir n pd s).pmm ≡ drop_all (directory_frames t dir n pd) s.pmm
unfolding free_directory directory_frames drop_all
free_directory-pmm t dir zero pd s sep lo hi a = refl
free_directory-pmm t dir (suc n) pd s sep lo hi a =
    let table = page_of (read_word t dir pd) in
    let e =
      directory_entry-pmm t dir pd s (a.entries pd (omega arith) (omega arith))
        (λ j p. a.tables pd j (omega arith) (omega arith) p) in
    let rest = directory_frames t dir n (pd + 1) in
    let others =
      free_directory-pmm t dir n (pd + 1) (free_directory_entry dir pd s) sep (omega arith)
        (omega arith) (Agree-next t s dir pd sep lo (omega arith) a) in
    elim (Bool-cases (is_present (read_word t dir pd))) [
      | inl p ↦ rw p (
          others
          ∙ ap (drop_all rest) (rw p at e)
          ∙ sym (drop_all-append (table_frames t table entries_per_table 0) table rest s.pmm))
      | inr g ↦ rw g (others ∙ ap (drop_all rest) (rw g at e))
    ]

-- The whole teardown.
pub freed_frames :
    (dir : ℕ) (s : Paging)
    → Separate s dir
    → (free_directory dir 1008 16 s).pmm ≡ drop_all (directory_frames s dir 1008 16) s.pmm
freed_frames dir s sep =
    free_directory-pmm s dir 1008 16 s sep (omega arith) (omega arith)
      (record { entries = λ i le lt. refl; tables = λ i j le lt p. refl })
