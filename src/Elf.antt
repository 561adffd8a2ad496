-- ===== src/Elf.antt =====
-- kernel/elf.c: the ELF32 loader. The file is read as its bytes, and `unsigned int`s wrap at 2^32.
-- The frames that are written lie in the identity-mapped memory, as the source says.
pub mod Page
pub mod Loaded
mod Tests
use kronked_os.Prelude.{
  ℕ, zero, suc, ◌+◌, ◌-◌, ◌*◌, ◌/◌, ◌%◌, ◌^◌, Bool, true, false, not, ◌||◌, Option, none, some,
  ◌==◌, ltb, if◌then◌else◌,
}
use kronked_os.Fat16.Files.{Bytes, copy_bytes}
use kronked_os.Paging.{Paging, Frame, alloc, fill_frame, paging_map_user_page}
use kronked_os.Paging.Entry.{page_of, page_rw, page_user}

abbrev pub pt_load : ℕ
pt_load = 1

abbrev pub page_size : ℕ
page_size = 4096

unfoldable pub u16_at : Bytes → ℕ → ℕ
u16_at b i = b i + b (i + 1) * 256

unfoldable pub u32_at : Bytes → ℕ → ℕ
unfolding u16_at
u32_at b i = u16_at b i + u16_at b (i + 2) * 65536

-- The fields of `struct elf32_ehdr` that are read.
pub record Ehdr : Type 0 where
  pub e_ident : Bytes
  pub e_entry : ℕ
  pub e_phoff : ℕ
  pub e_phnum : ℕ

unfoldable pub ehdr_at : Bytes → Ehdr
unfolding u32_at
ehdr_at elf_data = record {
  e_ident = elf_data;
  e_entry = u32_at elf_data 24;
  e_phoff = u32_at elf_data 28;
  e_phnum = u16_at elf_data 44;
}

-- The fields of `struct elf32_phdr` that are read.
pub record Phdr : Type 0 where
  pub p_type : ℕ
  pub p_offset : ℕ
  pub p_vaddr : ℕ
  pub p_filesz : ℕ
  pub p_memsz : ℕ

-- `ph[i]`, 32 bytes each.
unfoldable pub phdr_at : Bytes → ℕ → ℕ → Phdr
unfolding u32_at
phdr_at elf_data phoff i =
    let at = phoff + i * 32 in
    record {
      p_type = u32_at elf_data at;
      p_offset = u32_at elf_data (at + 4);
      p_vaddr = u32_at elf_data (at + 8);
      p_filesz = u32_at elf_data (at + 16);
      p_memsz = u32_at elf_data (at + 20);
    }

unfoldable pub bad_magic : Ehdr → Bool
bad_magic eh =
    not (eh.e_ident 0 == 0x7f)
    || not (eh.e_ident 1 == b'E')
    || not (eh.e_ident 2 == b'L')
    || not (eh.e_ident 3 == b'F')

unfoldable pub seg_start : Phdr → ℕ
seg_start ph = page_of ph.p_vaddr

unfoldable pub seg_end : Phdr → ℕ
seg_end ph = page_of ((ph.p_vaddr + ph.p_memsz + page_size - 1) % 2 ^ 32)

unfoldable pub num_pages : Phdr → ℕ
unfolding seg_start seg_end
num_pages ph = (seg_end ph + 2 ^ 32 - seg_start ph) % 2 ^ 32 / page_size

-- The end of the file's bytes in the page at `page_vaddr`.
unfoldable pub page_file_end : Phdr → ℕ → ℕ
page_file_end ph page_vaddr =
    let seg_file_end = (ph.p_vaddr + ph.p_filesz) % 2 ^ 32 in
    let page_end = (page_vaddr + page_size) % 2 ^ 32 in
    if ltb seg_file_end page_end then seg_file_end else page_end

unfoldable pub page_file_start : Phdr → ℕ → ℕ
page_file_start ph page_vaddr = if ltb ph.p_vaddr page_vaddr then page_vaddr else ph.p_vaddr

-- What the loops write to the frame of the page: zeroes, and the file's bytes over them.
unfoldable pub page_bytes : Bytes → Phdr → ℕ → Bytes
unfolding page_file_start page_file_end
page_bytes elf_data ph page_vaddr =
    let start = page_file_start ph page_vaddr in
    let end = page_file_end ph page_vaddr in
    let src_offset = (ph.p_offset + (start - ph.p_vaddr)) % 2 ^ 32 in
    if ltb start end
    then copy_bytes (start - page_vaddr) (end - start) (λ b. elf_data (src_offset + b)) (λ _. 0)
    else λ _. 0

-- A frame is its words, of four bytes each with the lowest first.
unfoldable pub words_of : Bytes → Frame
words_of b i = b (i * 4) + b (i * 4 + 1) * 2 ^ 8 + b (i * 4 + 2) * 2 ^ 16 + b (i * 4 + 3) * 2 ^ 24

-- Behind `pmm_alloc_frame`; the result of `paging_map_user_page` is not looked at.
unfoldable pub fill_page : Bytes → Phdr → ℕ → ℕ → ℕ × Paging → Bool × Paging
unfolding page_bytes words_of
fill_page elf_data ph dir_phys page_vaddr (phys, s) = if phys == 0 then (false, s) else (
  true,
  (paging_map_user_page dir_phys phys page_vaddr (page_rw + page_user)
      (fill_frame phys (words_of (page_bytes elf_data ph page_vaddr)) s)).1,
)

unfoldable pub load_page : Bytes → Phdr → ℕ → ℕ → Paging → Bool × Paging
unfolding fill_page
load_page elf_data ph dir_phys page_vaddr s = fill_page elf_data ph dir_phys page_vaddr (alloc s)

-- The loop over the pages, from page `p` on; it ends with the first frame that is missing.
unfoldable pub load_pages : ℕ → ℕ → Bytes → Phdr → ℕ → Bool × Paging → Bool × Paging
unfolding load_page seg_start
load_pages zero p elf_data ph dir_phys r = r
load_pages (suc n) p elf_data ph dir_phys (false, s) = (false, s)
load_pages (suc n) p elf_data ph dir_phys (true, s) =
    load_pages n (p + 1) elf_data ph dir_phys
      (load_page elf_data ph dir_phys ((seg_start ph + p * page_size) % 2 ^ 32) s)

unfoldable pub load_segment : Bytes → ℕ → Phdr → Bool × Paging → Bool × Paging
unfolding load_pages num_pages
load_segment elf_data dir_phys ph r =
    if ph.p_type == pt_load then load_pages (num_pages ph) 0 elf_data ph dir_phys r else r

-- The loop over the program headers, from header `i` on.
unfoldable pub load_segments : ℕ → ℕ → Bytes → ℕ → ℕ → Bool × Paging → Bool × Paging
unfolding load_segment
load_segments zero i elf_data phoff dir_phys r = r
load_segments (suc n) i elf_data phoff dir_phys (false, s) = (false, s)
load_segments (suc n) i elf_data phoff dir_phys (true, s) =
    load_segments n (i + 1) elf_data phoff dir_phys
      (load_segment elf_data dir_phys (phdr_at elf_data phoff i) (true, s))

unfoldable pub entry_after : ℕ → Bool × Paging → Option ℕ × Paging
entry_after entry (ok, s) = (if ok then some entry else none, s)

-- `none` is the result 0; otherwise `*entry_out` is written.
unfoldable pub elf_load : Bytes → ℕ → Paging → Option ℕ × Paging
unfolding ehdr_at bad_magic load_segments entry_after
elf_load elf_data dir_phys s =
    let eh = ehdr_at elf_data in
    if bad_magic eh
    then (none, s)
    else if not (elf_data 4 == 1)
    then (none, s)
    else entry_after eh.e_entry (load_segments eh.e_phnum 0 elf_data eh.e_phoff dir_phys (true, s))
