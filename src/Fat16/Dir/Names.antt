-- ===== src/Fat16/Dir/Names.antt =====
-- A file name through `to_fat_name` and back through `fat16_list_root` of kernel/fat16.c.
use kronked_os.Prelude.{
  ℕ, zero, suc, ◌+◌, ◌-◌, ◌≤◌, ◌≡◌, refl, ◌≢◌, ap, ◌∙◌, false, List, [], ◌∷◌, ◌++◌, map, ◌==◌,
  if◌then◌else◌, length, arith,
}
use kronked_os.Fat16.Dir.{
  space, dot, to_upper, spaces, name_part, after_dot, ext_part, to_fat_name, Dirent, until_space,
  shown_ext, shown_name,
}

-- No character is a dot or a space.
abbrev pub ArePlain : List ℕ → Type 0
ArePlain [] = Unit {0}
ArePlain (c ∷ cs) = (c ≢ dot) × (c ≢ space) × ArePlain cs

to_upper_plain : (c : ℕ) → c ≢ space → (to_upper c == space) ≡ false
unfolding to_upper
to_upper_plain c ne = ground arith

name_part_lem :
    (room k : ℕ) (base rest : List ℕ)
    → ArePlain base
    → length base + k ≡ room
    → name_part room (base ++ dot ∷ rest) ≡ map to_upper base ++ spaces k
unfolding name_part spaces
name_part_lem zero k [] rest p e = let same : 0 ≡ k = omega arith in ap spaces same
name_part_lem (suc room) k [] rest p e = let same : suc room ≡ k = omega arith in ap spaces same
name_part_lem zero k (c ∷ base) rest p e = absurd (omega arith)
name_part_lem (suc room) k (c ∷ base) rest (no_dot, no_space, p) e =
    let other : (c == dot) ≡ false = ground arith in
    rw other (ap (λ l. to_upper c ∷ l) (name_part_lem room k base rest p (omega arith)))

ext_part_lem :
    (room k : ℕ) (ext : List ℕ)
    → length ext + k ≡ room
    → ext_part room ext ≡ map to_upper ext ++ spaces k
unfolding ext_part spaces
ext_part_lem zero k [] e = let same : 0 ≡ k = omega arith in ap spaces same
ext_part_lem (suc room) k [] e = let same : suc room ≡ k = omega arith in ap spaces same
ext_part_lem zero k (c ∷ ext) e = absurd (omega arith)
ext_part_lem (suc room) k (c ∷ ext) e =
    ap (λ l. to_upper c ∷ l) (ext_part_lem room k ext (omega arith))

after_dot_lem : (base rest : List ℕ) → ArePlain base → after_dot (base ++ dot ∷ rest) ≡ rest
unfolding after_dot
after_dot_lem [] rest p = refl
after_dot_lem (c ∷ base) rest (no_dot, no_space, p) =
    let other : (c == dot) ≡ false = ground arith in rw other (after_dot_lem base rest p)

until_space_lem :
    (text : List ℕ) (k : ℕ)
    → ArePlain text
    → until_space (map to_upper text ++ spaces k) ≡ map to_upper text
unfolding until_space spaces
until_space_lem [] zero p = refl
until_space_lem [] (suc k) p = refl
until_space_lem (c ∷ text) k (no_dot, no_space, p) =
    rw (to_upper_plain c no_space) (ap (λ l. to_upper c ∷ l) (until_space_lem text k p))

ext_starts :
    (x : ℕ) (l : List ℕ) → (x == space) ≡ false → shown_ext (x ∷ l) ≡ dot ∷ until_space (x ∷ l)
unfolding shown_ext
ext_starts x l e = ap (λ b. if b then [] else dot ∷ until_space (x ∷ l)) e

shown_ext_lem :
    (c : ℕ) (ext : List ℕ) (k : ℕ)
    → ArePlain (c ∷ ext)
    → shown_ext (map to_upper (c ∷ ext) ++ spaces k) ≡ dot ∷ map to_upper (c ∷ ext)
shown_ext_lem c ext k (no_dot, no_space, p) =
    ext_starts (to_upper c) (map to_upper ext ++ spaces k) (to_upper_plain c no_space)
    ∙ ap (λ l. dot ∷ l) (until_space_lem (c ∷ ext) k (no_dot, no_space, p))

-- A name of at most 8 characters, a dot and one to three more, without further dots and without
-- spaces, is listed as it was stored, in upper case.
pub shown_name-to_fat_name :
    (base : List ℕ) (c : ℕ) (ext : List ℕ) (d : Dirent)
    → ArePlain base
    → ArePlain (c ∷ ext)
    → length base ≤ 8
    → length ext ≤ 2
    → d.name ≡ (to_fat_name (base ++ dot ∷ c ∷ ext)).0
    → d.ext ≡ (to_fat_name (base ++ dot ∷ c ∷ ext)).1
    → shown_name d ≡ map to_upper base ++ dot ∷ map to_upper (c ∷ ext)
unfolding to_fat_name shown_name
shown_name-to_fat_name base c ext d p q short short_ext name_is ext_is =
    ap (λ n. until_space n ++ shown_ext d.ext)
      (name_is ∙ name_part_lem 8 (8 - length base) base (c ∷ ext) p (omega arith))
    ∙ ap (λ n. n ++ shown_ext d.ext) (until_space_lem base (8 - length base) p)
    ∙ ap (λ e. map to_upper base ++ shown_ext e)
        (ext_is
          ∙ ap (ext_part 3) (after_dot_lem base (c ∷ ext) p)
          ∙ ext_part_lem 3 (2 - length ext) (c ∷ ext) (omega arith))
    ∙ ap (λ e. map to_upper base ++ e) (shown_ext_lem c ext (2 - length ext) q)
