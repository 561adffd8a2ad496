-- ===== src/Elf/Tests.antt =====
-- The theorem on kernel/elf.c at the first page of a segment.
use kronked_os.Prelude.{◌⊎◌, ◌≡◌, true, false, ◌&&◌, ◌==◌, if◌then◌else◌, arith}
use kronked_os.Prelude.Bits.{has_bit}
use kronked_os.Pmm.{pmm_alloc_frame}
use kronked_os.Pmm.Tests.{booted-IsValid, frame_0_used, frame_256_used, frame_257_used}
use kronked_os.Paging.{Paging, Frame, read_word}
use kronked_os.Paging.Entry.{is_present}
use kronked_os.Fat16.Files.{Bytes}
use kronked_os.Samples.{memory}
use kronked_os.Elf.{Phdr, load_page}
use kronked_os.Elf.Page.{Fits}
use kronked_os.Elf.Loaded.{Ready, Loaded, load_page_lem}

abbrev code : Phdr
code = record {
  p_type = 1;
  p_offset = 0x1000;
  p_vaddr = 0x40000010;
  p_filesz = 100;
  p_memsz = 5000;
}

code-Fits : Fits code
code-Fits = record { size = omega arith; in_memory = omega arith; in_file = omega arith }

-- The directory in frame 256 and its table for 0x40000000 in frame 257.
abbrev tables : Frame → Paging
tables f = memory (λ n i. if n == 256 && i == 256 then 0x101007 else f i)

abbrev start_space : Paging
start_space = tables (λ _. 0)

start_space-Ready : Ready start_space 0x100000 0x40000000
unfolding read_word is_present has_bit
start_space-Ready = record {
  valid = booted-IsValid;
  reserved = frame_0_used;
  held = frame_256_used;
  apart = λ h e. absurd (omega arith);
  table_held = λ h. frame_257_used;
  left = λ h. absurd (ground arith);
  user = omega arith;
}

abbrev file : Bytes
file i = i

load_page_lem_example :
    (((pmm_alloc_frame start_space.pmm).0 ≡ 0)
      × (load_page file code 0x100000 0x40000000 start_space ≡ (false, start_space)))
    ⊎ (((load_page file code 0x100000 0x40000000 start_space).0 ≡ true)
        × Loaded file code 0x100000 0x40000000 start_space
            (load_page file code 0x100000 0x40000000 start_space).1)
load_page_lem_example =
    load_page_lem file code 0x100000 0x40000000 start_space code-Fits (omega arith) (omega arith)
      start_space-Ready
