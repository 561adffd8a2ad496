-- ===== src/Gui.antt =====
-- kernel/gui.c, kernel/vbe.c and kernel/pci.c: bringing up the framebuffer. What the display reads back
-- of its mode, and the PCI configuration space of bus 0, are the devices'.
use Prim.Native.Nat.{bit_and}
use kronked_os.Prelude.{
  ℕ, zero, suc, ◌+◌, ◌*◌, ◌/◌, ◌%◌, ◌^◌, Bool, true, false, not, ◌&&◌, Option, none, some, List, [],
  ◌∷◌, ◌==◌, if◌then◌else◌,
}
use kronked_os.Paging.{Paging, paging_map_kernel_page}
use kronked_os.Paging.Entry.{page_rw}
use kronked_os.Fb.{Framebuffer, fb_init}

pub record Devices : Type 0 where
  pub actual_x : ℕ
  pub actual_y : ℕ
  -- by the slot and the offset
  pub config : ℕ → ℕ → ℕ
  -- the framebuffer's memory
  pub video : ℕ → ℕ

abbrev pub gui_width : ℕ
gui_width = 1024

abbrev pub gui_height : ℕ
gui_height = 768

-- The registers of the display that `vbe_set_mode` writes, with their values.
unfoldable pub vbe_writes : ℕ → ℕ → ℕ → List (ℕ × ℕ)
vbe_writes width height bpp =
    (4, 0)
    ∷ (1, width % 2 ^ 16)
    ∷ (2, height % 2 ^ 16)
    ∷ (3, bpp % 2 ^ 16)
    ∷ (6, width % 2 ^ 16)
    ∷ (7, height % 2 ^ 16)
    ∷ (4, 0x41)
    ∷ []

-- What `vbe_disable` writes.
abbrev pub vbe_disable : List (ℕ × ℕ)
vbe_disable = (4, 0) ∷ []

-- The mode has taken if it reads back.
unfoldable pub vbe_set_mode : ℕ → ℕ → Devices → Bool
vbe_set_mode width height d = d.actual_x == width && d.actual_y == height

unfoldable pub usable : ℕ → Devices → Bool
usable slot d =
    not (d.config slot 0x00 % 65536 == 0xffff)
    && d.config slot 0x08 / 2 ^ 24 % 256 == 0x03
    && bit_and (d.config slot 0x10) 1 == 0

-- The scan of `pci_find_vga_framebuffer`, from `slot` on.
unfoldable pub find_display : ℕ → ℕ → Devices → Option ℕ
unfolding usable
find_display zero slot d = none
find_display (suc n) slot d =
    let rest = find_display n (slot + 1) d in
    if usable slot d then some (d.config slot 0x10 % 2 ^ 32 / 16 * 16) else rest

unfoldable pub pci_find_vga_framebuffer : Devices → Option ℕ
unfolding find_display
pci_find_vga_framebuffer d = find_display 32 0 d

-- The loop over the framebuffer's pages, from page `i` on.
unfoldable pub map_framebuffer : ℕ → ℕ → ℕ → Bool × Paging → Bool × Paging
map_framebuffer zero i fb_phys r = r
map_framebuffer (suc n) i fb_phys (false, s) = (false, s)
map_framebuffer (suc n) i fb_phys (true, s) =
    let addr = (fb_phys + i * 4096) % 2 ^ 32 in
    map_framebuffer n (i + 1) fb_phys (paging_map_kernel_page addr addr page_rw s)

-- gui.c's static variables; the framebuffer is fb.c's.
pub record Gui : Type 0 where
  pub g_fb_phys : ℕ
  pub g_fb_pitch : ℕ
  pub g_gui_ready : Bool
  pub screen : Framebuffer

unfoldable pub ready_gui : ℕ → Devices → Gui → Gui
ready_gui fb_phys d g = record {
  g_fb_phys = fb_phys;
  g_fb_pitch = gui_width * 4;
  g_gui_ready = true;
  screen = fb_init d.video gui_width gui_height (gui_width * 4);
}

unfoldable pub gui_mapped : ℕ → Devices → Gui → Bool × Paging → Bool × Gui × Paging
unfolding ready_gui
gui_mapped fb_phys d g (ok, s) = if ok then (true, ready_gui fb_phys d g, s) else (false, g, s)

unfoldable pub gui_found : Option ℕ → Devices → Gui → Paging → Bool × Gui × Paging
unfolding gui_mapped map_framebuffer
gui_found none d g s = (false, g, s)
gui_found (some fb_phys) d g s =
    gui_mapped fb_phys d g
      (map_framebuffer ((gui_width * 4 * gui_height + 4095) / 4096) 0 fb_phys (true, s))

unfoldable pub gui_init : Devices → Gui → Paging → Bool × Gui × Paging
unfolding vbe_set_mode gui_found pci_find_vga_framebuffer
gui_init d g s =
    if g.g_gui_ready
    then (true, g, s)
    else if not (vbe_set_mode gui_width gui_height d)
    then (false, g, s)
    else gui_found (pci_find_vga_framebuffer d) d g s
