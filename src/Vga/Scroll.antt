-- ===== src/Vga/Scroll.antt =====
-- kernel/vga.c: what the loops of `redirect_scroll`, `vga_scroll` and the framebuffer's scroll leave.
use kronked_os.Prelude.{
  ℕ, zero, suc, ◌+◌, ◌-◌, ◌*◌, ◌<◌, ◌≡◌, ◌&&◌, ltb, leb, if◌then◌else◌, update, arith, ◌==◌, inr,
}
use kronked_os.Prelude.Loops.{within, within_row, fill_row_lem}
use kronked_os.Vga.{vga_entry, copy_cells, copy_rows, scroll_cells}

copy_cells_lem :
    (n dst d : ℕ) (m : ℕ → ℕ) (j : ℕ)
    → 0 < d
    → copy_cells n (dst + d) dst m j ≡ (if within dst n j then m (j + d) else m j)
unfolding copy_cells
copy_cells_lem zero dst d m j h = ground arith
copy_cells_lem (suc n) dst d m j h =
    let e : dst + d + 1 ≡ dst + 1 + d = omega arith in
    ground (arith, e, copy_cells_lem n (dst + 1) d (update m dst (m (dst + d))) j h)

next_row : (y cols : ℕ) → (y + 1) * cols ≡ y * cols + cols
next_row y cols = grind arith

-- One row moves up.
copy_row_lem :
    (y cols : ℕ) (m : ℕ → ℕ) (q c : ℕ)
    → c < cols
    → copy_cells cols ((y + 1) * cols) (y * cols) m (q * cols + c)
      ≡ (if leb y q && leb q y then m ((q + 1) * cols + c) else m (q * cols + c))
copy_row_lem y cols m q c hc =
    rw (next_row y cols, next_row q cols)
      (let e : q * cols + cols + c ≡ q * cols + c + cols = omega arith in
        let e' : y * cols ≡ y * cols + 0 = omega arith in
        ground (
          arith,
          e,
          e',
          within_row y 0 cols cols c q hc (inr (omega arith)),
          copy_cells_lem cols (y * cols) cols m (q * cols + c),
        ))

copy_rows_lem :
    (k y cols : ℕ) (m : ℕ → ℕ) (r c : ℕ)
    → c < cols
    → copy_rows k (y + 1) cols m (r * cols + c)
      ≡ (if within y k r then m ((r + 1) * cols + c) else m (r * cols + c))
unfolding copy_rows
copy_rows_lem zero y cols m r c hc = ground arith
copy_rows_lem (suc k) y cols m r c hc = ground (
  arith,
  copy_rows_lem k (y + 1) cols (copy_cells cols ((y + 1) * cols) (y * cols) m) r c hc,
  copy_row_lem y cols m r c hc,
  copy_row_lem y cols m (r + 1) c hc,
)

-- Scrolling a screen in place, a cell at a time, moves every row up by one, makes the last row
-- spaces in the current colour, and changes nothing behind the screen's cells.
pub scroll_cells_lem :
    (cols rows color : ℕ) (m : ℕ → ℕ) (r c : ℕ)
    → c < cols
    → 0 < rows
    → scroll_cells cols rows color m (r * cols + c) ≡ (
        if r + 1 == rows
        then vga_entry 32 color
        else if ltb r rows
        then m ((r + 1) * cols + c)
        else m (r * cols + c))
unfolding scroll_cells
scroll_cells_lem cols rows color m r c hc hr =
    let e : (rows - 1) * cols ≡ (rows - 1) * cols + 0 = omega arith in
    ground (
      arith,
      e,
      fill_row_lem cols ((rows - 1) * cols) (vga_entry 32 color) (copy_rows (rows - 1) 1 cols m)
          (r * cols + c),
      within_row (rows - 1) 0 cols cols c r hc (inr (omega arith)),
      copy_rows_lem (rows - 1) 0 cols m r c hc,
    )
