-- ===== src/Elf/Page.antt =====
-- kernel/elf.c: what the loader puts into the pages of a segment.
use kronked_os.Prelude.{ℕ, ◌+◌, ◌-◌, ◌*◌, ◌^◌, ◌≤◌, ◌<◌, ◌≡◌, ◌&&◌, ltb, leb, if◌then◌else◌, arith}
use kronked_os.Fat16.Files.{Bytes}
use kronked_os.Elf.{Phdr, seg_start, seg_end, num_pages, page_file_end, page_file_start, page_bytes}

-- The segment ends below 4 GiB, in memory and in the file.
pub record Fits (ph : Phdr) : Type 0 where
  pub size : ph.p_filesz ≤ ph.p_memsz
  pub in_memory : ph.p_vaddr + ph.p_memsz + 4096 < 2 ^ 32
  pub in_file : ph.p_offset + ph.p_filesz < 2 ^ 32

-- The byte of the program at the address `a`.
unfoldable pub image : Bytes → Phdr → ℕ → ℕ
image elf_data ph a =
    if leb ph.p_vaddr a && ltb a (ph.p_vaddr + ph.p_filesz)
    then elf_data (ph.p_offset + (a - ph.p_vaddr))
    else 0

num_pages_lem :
    (ph : Phdr)
    → Fits ph
    → (seg_start ph ≤ ph.p_vaddr)
      × (ph.p_vaddr + ph.p_memsz ≤ seg_start ph + num_pages ph * 4096)
      × (num_pages ph * 4096 + seg_start ph < ph.p_vaddr + ph.p_memsz + 4096)
unfolding num_pages seg_start seg_end
num_pages_lem ph f = omega (arith, f.size, f.in_memory)

pub page_bytes_lem :
    (elf_data : Bytes) (ph : Phdr) (a j : ℕ)
    → Fits ph
    → a < ph.p_vaddr + ph.p_memsz + 4096
    → a + 4096 < 2 ^ 32
    → j < 4096
    → page_bytes elf_data ph a j ≡ image elf_data ph (a + j)
unfolding page_bytes page_file_start page_file_end image
page_bytes_lem elf_data ph a j f ha hb hj = ground (arith, f.size, f.in_memory, f.in_file)
