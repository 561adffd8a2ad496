-- ===== src/Vga/Tests.antt =====
-- The theorems on kernel/vga.c at small screens.
use kronked_os.Prelude.{◌+◌, ◌*◌, ◌≡◌, arith}
use kronked_os.Prelude.Text.{text}
use kronked_os.Task.Valid.Steps.{no_tasks}
use kronked_os.Task.Redirect.{task_current_vga_buf, current_field}
use kronked_os.Samples.{console}
use kronked_os.Vga.{scroll_cells}
use kronked_os.Vga.Put.{vga_write}
use kronked_os.Vga.Scroll.{scroll_cells_lem}
use kronked_os.Vga.Bounds.{Fits, vga_write-Fits}

scroll_cells_lem_example : scroll_cells 2 3 15 (λ i. i) (1 * 2 + 0) ≡ 4
scroll_cells_lem_example = scroll_cells_lem 2 3 15 (λ i. i) 1 0 (omega arith) (omega arith)

console-Fits : Fits (no_tasks, console)
unfolding task_current_vga_buf current_field
console-Fits = record {
  on_screen = record { row_in = omega arith; col_in = omega arith };
  redirect_in = λ used. ground arith;
}

vga_write-Fits_example : Fits (vga_write (text "kronk> \n") (no_tasks, console))
vga_write-Fits_example = vga_write-Fits (text "kronk> \n") (no_tasks, console) console-Fits
