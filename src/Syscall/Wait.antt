-- ===== src/Syscall/Wait.antt =====
-- kernel/syscall.c: where wait leaves the exit code.
use kronked_os.Prelude.{ℕ, ◌+◌, ◌%◌, ◌^◌, ◌<◌, ◌≡◌, ap, ◌∙◌, false, some, List, ◌==◌, if◌then◌else◌}
use kronked_os.Paging.{Paging, read_word}
use kronked_os.Task.{Tasks}
use kronked_os.Task.Exit.{Release, reaped, task_wait_any}
use kronked_os.Machine.{Machine, with_paging, with_tasks, write_u32}
use kronked_os.Syscall.{Registers, Result, returns, release_all, store_status, after_wait, sys_wait}
use kronked_os.Syscall.Stores.{
  Points, slot, Stored, stored_status, four_bytes, write_u32_runs, four_bytes-Stored,
}

-- What wait has done for its caller.
pub record Reports (r : Registers) (pid code : ℕ) (m : Machine) (f : ℕ) (result : Result)
    : Type 0 where
  pub after : Paging
  pub returned : result ≡ returns (record r { eax = pid }) (with_paging after m)
  pub stored : Stored m.heap.paging r.ebx f code after

-- wait with a dead child to reap and an aligned pointer for its exit code, which the caller's directory
-- leads to the frame f outside of its tables: the call returns the child's id, and the word
-- in the frame holds the exit code, with every other word and all reference counts as they are
-- behind the reaping. The entry of the page plays no part: where it is read-only and shared
-- copy-on-write, the word changes in the shared frame itself.
pub sys_wait_stores :
    (r : Registers) (m : Machine) (pid code f : ℕ) (rel : List Release) (s : Tasks)
    → task_wait_any m.tasks ≡ reaped pid code rel s
    → (r.ebx == 0) ≡ false
    → r.ebx % 4 ≡ 0
    → r.ebx + 4 < 2 ^ 32
    → code < 2 ^ 32
    → Points (release_all rel (with_tasks s m)).heap.paging r.ebx f
    → read_word (release_all rel (with_tasks s m)).heap.paging f (slot r.ebx) < 2 ^ 32
    → Reports r pid code (release_all rel (with_tasks s m)) f (sys_wait r m)
unfolding sys_wait after_wait
sys_wait_stores r m pid code f rel s reap used aligned fits hc p hw =
    let m' = release_all rel (with_tasks s m) in
    record {
      after = four_bytes m'.heap.paging r.ebx f code;
      returned =
          ap (λ w. after_wait r w m) reap
          ∙ ap
              (λ b.
                store_status r pid m'
                  (if b then some m'.heap.paging else write_u32 r.ebx code (some m'.heap.paging)))
              used
          ∙ ap (store_status r pid m') (write_u32_runs m'.heap.paging r.ebx f code p aligned fits)
          ∙ stored_status r pid m' _;
      stored = four_bytes-Stored m'.heap.paging r.ebx f code hw hc;
    }
