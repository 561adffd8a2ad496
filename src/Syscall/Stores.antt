-- ===== src/Syscall/Stores.antt =====
-- kernel/syscall.c: a word that is written through a user pointer, byte by byte.
use kronked_os.Prelude.{ℕ, suc, ◌+◌, ◌/◌, ◌%◌, ◌^◌, ◌<◌, ◌≡◌, ◌≢◌, refl, ap, ◌∙◌, some, arith}
use kronked_os.Paging.{Paging, read_word, write_word, pd_index, pt_index}
use kronked_os.Paging.Entry.{page_of}
use kronked_os.Paging.Map.{pte, read-write}
use kronked_os.Machine.{
  Machine, with_paging, physical, frame_of, set_byte, write_byte, write_in_frame, write_bytes,
  write_u32,
}
use kronked_os.Syscall.{Registers, returns, store_status}

-- The current directory leads from the address to the page `f`, which is not one of its tables.
pub record Points (s : Paging) (v f : ℕ) : Type 0 where
  pub leads : physical s v ≡ some f
  pub not_directory : f / 4096 ≢ s.cr3 / 4096
  pub not_table : f / 4096 ≢ page_of (read_word s s.cr3 (pd_index v)) / 4096

set_byte_lem :
    (w code : ℕ)
    → w < 2 ^ 32
    → code < 2 ^ 32
    → set_byte
        (set_byte
          (set_byte (set_byte w 0 (code % 256)) 1 (code / 256 % 256))
          2
          (code / 256 / 256 % 256))
        3
        (code / 256 / 256 / 256 % 256)
      ≡ code
unfolding set_byte
set_byte_lem w code hw hc = omega (arith, hw, hc)

-- A write of a word to the page.
other_frame :
    (s : Paging) (f i w a j : ℕ)
    → f / 4096 ≢ a / 4096
    → read_word (write_word f i w s) a j ≡ read_word s a j
other_frame s f i w a j ne = ground (arith, ne, read-write f i w a j s)

same_word : (s : Paging) (f i w : ℕ) → read_word (write_word f i w s) f i ≡ w
same_word s f i w = ground (arith, read-write f i w f i s)

pte_keeps :
    (s s' : Paging) (d v : ℕ)
    → read_word s' d (pd_index v) ≡ read_word s d (pd_index v)
    → read_word s' (page_of (read_word s d (pd_index v))) (pt_index v)
      ≡ read_word s (page_of (read_word s d (pd_index v))) (pt_index v)
    → pte s' d v ≡ pte s d v
unfolding pte
pte_keeps s s' d v hd ht = rw (hd, ht) refl

Points-write : (s : Paging) (v f i w : ℕ) → Points s v f → Points (write_word f i w s) v f
unfolding physical write_word
Points-write s v f i w p =
    let s' = write_word f i w s in
    let hd = other_frame s f i w s.cr3 (pd_index v) p.not_directory in
    let ht =
      other_frame s f i w (page_of (read_word s s.cr3 (pd_index v))) (pt_index v) p.not_table in
    record {
      leads = ap frame_of (pte_keeps s s' s.cr3 v hd ht) ∙ p.leads;
      not_directory = p.not_directory;
      not_table = λ e. p.not_table (e ∙ ap (λ d. page_of d / 4096) hd);
    }

-- The four bytes of an aligned word lie in one page.
Points-next : (s : Paging) (v v' f : ℕ) → Points s v f → v' / 4096 ≡ v / 4096 → Points s v' f
unfolding physical pte
Points-next s v v' f p e =
    let same_pd : pd_index v ≡ pd_index v' = omega (arith, e) in
    let same_pt : pt_index v ≡ pt_index v' = omega (arith, e) in
    record {
      leads = rw (← same_pd, ← same_pt) p.leads;
      not_directory = p.not_directory;
      not_table = rw (← same_pd) p.not_table;
    }

write_byte_lem :
    (s : Paging) (v f b : ℕ)
    → Points s v f
    → write_byte v b s
      ≡ some (write_word f (v % 4096 / 4) (set_byte (read_word s f (v % 4096 / 4)) (v % 4) b) s)
unfolding write_byte write_in_frame
write_byte_lem s v f b p = rw p.leads refl

-- The place of the address `v` in its page, by words.
abbrev pub slot : ℕ → ℕ
slot v = v % 4096 / 4

abbrev stored_byte : ℕ → ℕ → ℕ → ℕ → Paging → Paging
stored_byte v f k b s = write_word f (slot v) (set_byte (read_word s f (slot v)) k b) s

one_byte :
    (s : Paging) (v f k b : ℕ)
    → Points s v f
    → v % 4 ≡ 0
    → k < 4
    → write_byte (v + k) b s ≡ some (stored_byte v f k b s)
one_byte s v f k b p aligned hk =
    let same_slot : (v + k) % 4096 / 4 ≡ slot v = omega (arith, aligned, hk) in
    let same_place : (v + k) % 4 ≡ k = omega (arith, aligned, hk) in
    write_byte_lem s (v + k) f b (Points-next s v (v + k) f p (omega (arith, aligned, hk)))
    ∙ rw (same_slot, same_place) refl

next_byte :
    (s : Paging) (v f k n word : ℕ)
    → Points s v f
    → v % 4 ≡ 0
    → k < 4
    → v + 4 < 2 ^ 32
    → write_bytes (suc n) (v + k) word (some s)
      ≡ write_bytes n (v + (k + 1)) (word / 256) (some (stored_byte v f k (word % 256) s))
unfolding write_bytes
next_byte s v f k n word p aligned hk fits =
    let no_wrap : (v + k + 1) % 2 ^ 32 ≡ v + (k + 1) = omega (arith, fits, hk) in
    rw (one_byte s v f k (word % 256) p aligned hk, no_wrap) refl

-- What an int holds behind the write, and that nothing else has changed.
pub record Stored (s : Paging) (v f code : ℕ) (s' : Paging) : Type 0 where
  pub word : read_word s' f (slot v) ≡ code
  pub others : (a j : ℕ) → f / 4096 ≢ a / 4096 → read_word s' a j ≡ read_word s a j
  pub in_page : (j : ℕ) → slot v ≢ j → read_word s' f j ≡ read_word s f j
  pub pmm : s'.pmm ≡ s.pmm

other_word :
    (s : Paging) (f i w j : ℕ) → i ≢ j → read_word (write_word f i w s) f j ≡ read_word s f j
other_word s f i w j ne = ground (arith, ne, read-write f i w f j s)

same_pmm : (s : Paging) (f i w : ℕ) → (write_word f i w s).pmm ≡ s.pmm
unfolding write_word
same_pmm s f i w = refl

pub stored_status :
    (r : Registers) (pid : ℕ) (m : Machine) (p : Paging)
    → store_status r pid m (some p) ≡ returns (record r { eax = pid }) (with_paging p m)
unfolding store_status
stored_status r pid m p = refl

pub four_bytes : Paging → ℕ → ℕ → ℕ → Paging
four_bytes s v f code = stored_byte v f 3 (code / 256 / 256 / 256 % 256) (
    stored_byte v f 2 (code / 256 / 256 % 256)
      (stored_byte v f 1 (code / 256 % 256) (stored_byte v f 0 (code % 256) s)))

pub write_u32_runs :
    (s : Paging) (v f code : ℕ)
    → Points s v f
    → v % 4 ≡ 0
    → v + 4 < 2 ^ 32
    → write_u32 v code (some s) ≡ some (four_bytes s v f code)
unfolding write_u32 four_bytes
write_u32_runs s v f code p0 aligned fits =
    let s1 = stored_byte v f 0 (code % 256) s in
    let p1 = Points-write s v f (slot v) (set_byte (read_word s f (slot v)) 0 (code % 256)) p0 in
    let s2 = stored_byte v f 1 (code / 256 % 256) s1 in
    let p2 =
      Points-write s1 v f (slot v) (set_byte (read_word s1 f (slot v)) 1 (code / 256 % 256)) p1 in
    let s3 = stored_byte v f 2 (code / 256 / 256 % 256) s2 in
    let p3 =
      Points-write s2 v f (slot v) (set_byte (read_word s2 f (slot v)) 2 (code / 256 / 256 % 256))
        p2 in
    let start : v ≡ v + 0 = omega arith in
    ap (λ a. write_bytes 4 a code (some s)) start
    ∙ next_byte s v f 0 3 code p0 aligned (omega arith) fits
    ∙ next_byte s1 v f 1 2 (code / 256) p1 aligned (omega arith) fits
    ∙ next_byte s2 v f 2 1 (code / 256 / 256) p2 aligned (omega arith) fits
    ∙ next_byte s3 v f 3 0 (code / 256 / 256 / 256) p3 aligned (omega arith) fits
    ∙ refl

pub four_bytes-Stored :
    (s : Paging) (v f code : ℕ)
    → read_word s f (slot v) < 2 ^ 32
    → code < 2 ^ 32
    → Stored s v f code (four_bytes s v f code)
unfolding four_bytes
four_bytes-Stored s v f code hw hc =
    let i = slot v in
    let s1 = stored_byte v f 0 (code % 256) s in
    let s2 = stored_byte v f 1 (code / 256 % 256) s1 in
    let s3 = stored_byte v f 2 (code / 256 / 256 % 256) s2 in
    record {
      word =
          same_word s3 f i _
          ∙ ap (λ w. set_byte w 3 (code / 256 / 256 / 256 % 256))
              (same_word s2 f i _
                ∙ ap (λ w. set_byte w 2 (code / 256 / 256 % 256))
                    (same_word s1 f i _
                      ∙ ap (λ w. set_byte w 1 (code / 256 % 256)) (same_word s f i _)))
          ∙ set_byte_lem (read_word s f i) code hw hc;
      others = λ a j ne.
          other_frame s3 f i _ a j ne
          ∙ other_frame s2 f i _ a j ne
          ∙ other_frame s1 f i _ a j ne
          ∙ other_frame s f i _ a j ne;
      in_page = λ j ne.
          other_word s3 f i _ j ne
          ∙ other_word s2 f i _ j ne
          ∙ other_word s1 f i _ j ne
          ∙ other_word s f i _ j ne;
      pmm = same_pmm s3 f i _ ∙ same_pmm s2 f i _ ∙ same_pmm s1 f i _ ∙ same_pmm s f i _;
    }
