-- ===== src/Fb/Font.antt =====
-- kernel/font8x16.c: the glyphs of the characters 32 to 126, each of 16 rows of 8 pixels.
use kronked_os.Prelude.{ℕ, List, [], ◌∷◌}

-- `font8x16_data`
abbrev pub font8x16_data : List (List ℕ)
font8x16_data =
    (0x00 ∷ 0x00 ∷ 0x00 ∷ 0x00 ∷ 0x00 ∷ 0x00 ∷ 0x00 ∷ 0x00 ∷ 0x00 ∷ 0x00 ∷ 0x00 ∷ 0x00 ∷ 0x00 ∷ 0x00
      ∷ 0x00 ∷ 0x00 ∷ [])
    ∷ (0x00 ∷ 0x00 ∷ 0x00 ∷ 0x00 ∷ 0x10 ∷ 0x10 ∷ 0x10 ∷ 0x10 ∷ 0x10 ∷ 0x10 ∷ 0x00 ∷ 0x10 ∷ 0x10
        ∷ 0x00 ∷ 0x00 ∷ 0x00 ∷ [])
    ∷ (0x00 ∷ 0x00 ∷ 0x00 ∷ 0x00 ∷ 0x28 ∷ 0x28 ∷ 0x28 ∷ 0x28 ∷ 0x00 ∷ 0x00 ∷ 0x00 ∷ 0x00 ∷ 0x00
        ∷ 0x00 ∷ 0x00 ∷ 0x00 ∷ [])
    ∷ (0x00 ∷ 0x00 ∷ 0x00 ∷ 0x12 ∷ 0x12 ∷ 0x16 ∷ 0x7f ∷ 0x24 ∷ 0x24 ∷ 0xfe ∷ 0x28 ∷ 0x48 ∷ 0x48
        ∷ 0x00 ∷ 0x00 ∷ 0x00 ∷ [])
    ∷ (0x00 ∷ 0x00 ∷ 0x00 ∷ 0x00 ∷ 0x08 ∷ 0x3e ∷ 0x49 ∷ 0x48 ∷ 0x38 ∷ 0x0e ∷ 0x09 ∷ 0x49 ∷ 0x3e
        ∷ 0x08 ∷ 0x08 ∷ 0x00 ∷ [])
    ∷ (0x00 ∷ 0x00 ∷ 0x00 ∷ 0x00 ∷ 0x60 ∷ 0x90 ∷ 0x90 ∷ 0x62 ∷ 0x1c ∷ 0x66 ∷ 0x09 ∷ 0x09 ∷ 0x06
        ∷ 0x00 ∷ 0x00 ∷ 0x00 ∷ [])
    ∷ (0x00 ∷ 0x00 ∷ 0x00 ∷ 0x00 ∷ 0x1c ∷ 0x20 ∷ 0x20 ∷ 0x30 ∷ 0x49 ∷ 0x4d ∷ 0x45 ∷ 0x62 ∷ 0x3d
        ∷ 0x00 ∷ 0x00 ∷ 0x00 ∷ [])
    ∷ (0x00 ∷ 0x00 ∷ 0x00 ∷ 0x00 ∷ 0x10 ∷ 0x10 ∷ 0x10 ∷ 0x10 ∷ 0x00 ∷ 0x00 ∷ 0x00 ∷ 0x00 ∷ 0x00
        ∷ 0x00 ∷ 0x00 ∷ 0x00 ∷ [])
    ∷ (0x00 ∷ 0x00 ∷ 0x0c ∷ 0x08 ∷ 0x08 ∷ 0x10 ∷ 0x10 ∷ 0x10 ∷ 0x10 ∷ 0x10 ∷ 0x10 ∷ 0x08 ∷ 0x08
        ∷ 0x04 ∷ 0x00 ∷ 0x00 ∷ [])
    ∷ (0x00 ∷ 0x00 ∷ 0x30 ∷ 0x10 ∷ 0x10 ∷ 0x08 ∷ 0x08 ∷ 0x08 ∷ 0x08 ∷ 0x08 ∷ 0x08 ∷ 0x10 ∷ 0x10
        ∷ 0x20 ∷ 0x00 ∷ 0x00 ∷ [])
    ∷ (0x00 ∷ 0x00 ∷ 0x00 ∷ 0x00 ∷ 0x08 ∷ 0x49 ∷ 0x3e ∷ 0x1c ∷ 0x6b ∷ 0x08 ∷ 0x00 ∷ 0x00 ∷ 0x00
        ∷ 0x00 ∷ 0x00 ∷ 0x00 ∷ [])
    ∷ (0x00 ∷ 0x00 ∷ 0x00 ∷ 0x00 ∷ 0x00 ∷ 0x10 ∷ 0x10 ∷ 0x10 ∷ 0xfe ∷ 0x10 ∷ 0x10 ∷ 0x10 ∷ 0x00
        ∷ 0x00 ∷ 0x00 ∷ 0x00 ∷ [])
    ∷ (0x00 ∷ 0x00 ∷ 0x00 ∷ 0x00 ∷ 0x00 ∷ 0x00 ∷ 0x00 ∷ 0x00 ∷ 0x00 ∷ 0x00 ∷ 0x00 ∷ 0x18 ∷ 0x18
        ∷ 0x10 ∷ 0x20 ∷ 0x00 ∷ [])
    ∷ (0x00 ∷ 0x00 ∷ 0x00 ∷ 0x00 ∷ 0x00 ∷ 0x00 ∷ 0x00 ∷ 0x00 ∷ 0x00 ∷ 0x38 ∷ 0x00 ∷ 0x00 ∷ 0x00
        ∷ 0x00 ∷ 0x00 ∷ 0x00 ∷ [])
    ∷ (0x00 ∷ 0x00 ∷ 0x00 ∷ 0x00 ∷ 0x00 ∷ 0x00 ∷ 0x00 ∷ 0x00 ∷ 0x00 ∷ 0x00 ∷ 0x00 ∷ 0x18 ∷ 0x18
        ∷ 0x00 ∷ 0x00 ∷ 0x00 ∷ [])
    ∷ (0x00 ∷ 0x00 ∷ 0x00 ∷ 0x00 ∷ 0x02 ∷ 0x04 ∷ 0x04 ∷ 0x08 ∷ 0x08 ∷ 0x18 ∷ 0x10 ∷ 0x10 ∷ 0x20
        ∷ 0x20 ∷ 0x40 ∷ 0x00 ∷ [])
    ∷ (0x00 ∷ 0x00 ∷ 0x00 ∷ 0x00 ∷ 0x1c ∷ 0x22 ∷ 0x41 ∷ 0x41 ∷ 0x49 ∷ 0x41 ∷ 0x41 ∷ 0x22 ∷ 0x1c
        ∷ 0x00 ∷ 0x00 ∷ 0x00 ∷ [])
    ∷ (0x00 ∷ 0x00 ∷ 0x00 ∷ 0x00 ∷ 0x38 ∷ 0x08 ∷ 0x08 ∷ 0x08 ∷ 0x08 ∷ 0x08 ∷ 0x08 ∷ 0x08 ∷ 0x3e
        ∷ 0x00 ∷ 0x00 ∷ 0x00 ∷ [])
    ∷ (0x00 ∷ 0x00 ∷ 0x00 ∷ 0x00 ∷ 0x3e ∷ 0x43 ∷ 0x01 ∷ 0x01 ∷ 0x02 ∷ 0x0c ∷ 0x18 ∷ 0x20 ∷ 0x7f
        ∷ 0x00 ∷ 0x00 ∷ 0x00 ∷ [])
    ∷ (0x00 ∷ 0x00 ∷ 0x00 ∷ 0x00 ∷ 0x3e ∷ 0x41 ∷ 0x01 ∷ 0x03 ∷ 0x1c ∷ 0x03 ∷ 0x01 ∷ 0x43 ∷ 0x3e
        ∷ 0x00 ∷ 0x00 ∷ 0x00 ∷ [])
    ∷ (0x00 ∷ 0x00 ∷ 0x00 ∷ 0x00 ∷ 0x06 ∷ 0x0a ∷ 0x1a ∷ 0x12 ∷ 0x22 ∷ 0x42 ∷ 0x7f ∷ 0x02 ∷ 0x02
        ∷ 0x00 ∷ 0x00 ∷ 0x00 ∷ [])
    ∷ (0x00 ∷ 0x00 ∷ 0x00 ∷ 0x00 ∷ 0x7e ∷ 0x40 ∷ 0x40 ∷ 0x7c ∷ 0x03 ∷ 0x01 ∷ 0x01 ∷ 0x43 ∷ 0x3c
        ∷ 0x00 ∷ 0x00 ∷ 0x00 ∷ [])
    ∷ (0x00 ∷ 0x00 ∷ 0x00 ∷ 0x00 ∷ 0x1e ∷ 0x21 ∷ 0x40 ∷ 0x5e ∷ 0x63 ∷ 0x41 ∷ 0x41 ∷ 0x23 ∷ 0x1e
        ∷ 0x00 ∷ 0x00 ∷ 0x00 ∷ [])
    ∷ (0x00 ∷ 0x00 ∷ 0x00 ∷ 0x00 ∷ 0x7f ∷ 0x02 ∷ 0x02 ∷ 0x04 ∷ 0x04 ∷ 0x08 ∷ 0x18 ∷ 0x10 ∷ 0x20
        ∷ 0x00 ∷ 0x00 ∷ 0x00 ∷ [])
    ∷ (0x00 ∷ 0x00 ∷ 0x00 ∷ 0x00 ∷ 0x3e ∷ 0x41 ∷ 0x41 ∷ 0x41 ∷ 0x3e ∷ 0x63 ∷ 0x41 ∷ 0x61 ∷ 0x3e
        ∷ 0x00 ∷ 0x00 ∷ 0x00 ∷ [])
    ∷ (0x00 ∷ 0x00 ∷ 0x00 ∷ 0x00 ∷ 0x3c ∷ 0x62 ∷ 0x41 ∷ 0x41 ∷ 0x63 ∷ 0x3d ∷ 0x01 ∷ 0x42 ∷ 0x3c
        ∷ 0x00 ∷ 0x00 ∷ 0x00 ∷ [])
    ∷ (0x00 ∷ 0x00 ∷ 0x00 ∷ 0x00 ∷ 0x00 ∷ 0x00 ∷ 0x18 ∷ 0x18 ∷ 0x00 ∷ 0x00 ∷ 0x00 ∷ 0x18 ∷ 0x18
        ∷ 0x00 ∷ 0x00 ∷ 0x00 ∷ [])
    ∷ (0x00 ∷ 0x00 ∷ 0x00 ∷ 0x00 ∷ 0x00 ∷ 0x00 ∷ 0x18 ∷ 0x18 ∷ 0x00 ∷ 0x00 ∷ 0x00 ∷ 0x18 ∷ 0x18
        ∷ 0x10 ∷ 0x20 ∷ 0x00 ∷ [])
    ∷ (0x00 ∷ 0x00 ∷ 0x00 ∷ 0x00 ∷ 0x00 ∷ 0x00 ∷ 0x01 ∷ 0x0e ∷ 0x70 ∷ 0x70 ∷ 0x0e ∷ 0x01 ∷ 0x00
        ∷ 0x00 ∷ 0x00 ∷ 0x00 ∷ [])
    ∷ (0x00 ∷ 0x00 ∷ 0x00 ∷ 0x00 ∷ 0x00 ∷ 0x00 ∷ 0x00 ∷ 0x7f ∷ 0x00 ∷ 0x00 ∷ 0x7f ∷ 0x00 ∷ 0x00
        ∷ 0x00 ∷ 0x00 ∷ 0x00 ∷ [])
    ∷ (0x00 ∷ 0x00 ∷ 0x00 ∷ 0x00 ∷ 0x00 ∷ 0x00 ∷ 0x40 ∷ 0x38 ∷ 0x07 ∷ 0x07 ∷ 0x38 ∷ 0x40 ∷ 0x00
        ∷ 0x00 ∷ 0x00 ∷ 0x00 ∷ [])
    ∷ (0x00 ∷ 0x00 ∷ 0x00 ∷ 0x00 ∷ 0x38 ∷ 0x44 ∷ 0x04 ∷ 0x08 ∷ 0x10 ∷ 0x10 ∷ 0x00 ∷ 0x10 ∷ 0x10
        ∷ 0x00 ∷ 0x00 ∷ 0x00 ∷ [])
    ∷ (0x00 ∷ 0x00 ∷ 0x00 ∷ 0x00 ∷ 0x1e ∷ 0x33 ∷ 0x21 ∷ 0x47 ∷ 0x49 ∷ 0x49 ∷ 0x49 ∷ 0x47 ∷ 0x20
        ∷ 0x30 ∷ 0x1e ∷ 0x00 ∷ [])
    ∷ (0x00 ∷ 0x00 ∷ 0x00 ∷ 0x00 ∷ 0x08 ∷ 0x14 ∷ 0x14 ∷ 0x14 ∷ 0x22 ∷ 0x22 ∷ 0x3e ∷ 0x63 ∷ 0x41
        ∷ 0x00 ∷ 0x00 ∷ 0x00 ∷ [])
    ∷ (0x00 ∷ 0x00 ∷ 0x00 ∷ 0x00 ∷ 0x7e ∷ 0x41 ∷ 0x41 ∷ 0x41 ∷ 0x7e ∷ 0x41 ∷ 0x41 ∷ 0x41 ∷ 0x7e
        ∷ 0x00 ∷ 0x00 ∷ 0x00 ∷ [])
    ∷ (0x00 ∷ 0x00 ∷ 0x00 ∷ 0x00 ∷ 0x1e ∷ 0x21 ∷ 0x40 ∷ 0x40 ∷ 0x40 ∷ 0x40 ∷ 0x40 ∷ 0x21 ∷ 0x1e
        ∷ 0x00 ∷ 0x00 ∷ 0x00 ∷ [])
    ∷ (0x00 ∷ 0x00 ∷ 0x00 ∷ 0x00 ∷ 0x7c ∷ 0x42 ∷ 0x41 ∷ 0x41 ∷ 0x41 ∷ 0x41 ∷ 0x41 ∷ 0x42 ∷ 0x7c
        ∷ 0x00 ∷ 0x00 ∷ 0x00 ∷ [])
    ∷ (0x00 ∷ 0x00 ∷ 0x00 ∷ 0x00 ∷ 0x7f ∷ 0x40 ∷ 0x40 ∷ 0x40 ∷ 0x7f ∷ 0x40 ∷ 0x40 ∷ 0x40 ∷ 0x7f
        ∷ 0x00 ∷ 0x00 ∷ 0x00 ∷ [])
    ∷ (0x00 ∷ 0x00 ∷ 0x00 ∷ 0x00 ∷ 0x7f ∷ 0x40 ∷ 0x40 ∷ 0x40 ∷ 0x7f ∷ 0x40 ∷ 0x40 ∷ 0x40 ∷ 0x40
        ∷ 0x00 ∷ 0x00 ∷ 0x00 ∷ [])
    ∷ (0x00 ∷ 0x00 ∷ 0x00 ∷ 0x00 ∷ 0x1e ∷ 0x21 ∷ 0x40 ∷ 0x40 ∷ 0x43 ∷ 0x41 ∷ 0x41 ∷ 0x21 ∷ 0x1e
        ∷ 0x00 ∷ 0x00 ∷ 0x00 ∷ [])
    ∷ (0x00 ∷ 0x00 ∷ 0x00 ∷ 0x00 ∷ 0x41 ∷ 0x41 ∷ 0x41 ∷ 0x41 ∷ 0x7f ∷ 0x41 ∷ 0x41 ∷ 0x41 ∷ 0x41
        ∷ 0x00 ∷ 0x00 ∷ 0x00 ∷ [])
    ∷ (0x00 ∷ 0x00 ∷ 0x00 ∷ 0x00 ∷ 0x7c ∷ 0x10 ∷ 0x10 ∷ 0x10 ∷ 0x10 ∷ 0x10 ∷ 0x10 ∷ 0x10 ∷ 0x7c
        ∷ 0x00 ∷ 0x00 ∷ 0x00 ∷ [])
    ∷ (0x00 ∷ 0x00 ∷ 0x00 ∷ 0x00 ∷ 0x1c ∷ 0x04 ∷ 0x04 ∷ 0x04 ∷ 0x04 ∷ 0x04 ∷ 0x04 ∷ 0x44 ∷ 0x38
        ∷ 0x00 ∷ 0x00 ∷ 0x00 ∷ [])
    ∷ (0x00 ∷ 0x00 ∷ 0x00 ∷ 0x00 ∷ 0x42 ∷ 0x44 ∷ 0x48 ∷ 0x50 ∷ 0x70 ∷ 0x48 ∷ 0x44 ∷ 0x44 ∷ 0x42
        ∷ 0x00 ∷ 0x00 ∷ 0x00 ∷ [])
    ∷ (0x00 ∷ 0x00 ∷ 0x00 ∷ 0x00 ∷ 0x40 ∷ 0x40 ∷ 0x40 ∷ 0x40 ∷ 0x40 ∷ 0x40 ∷ 0x40 ∷ 0x40 ∷ 0x7f
        ∷ 0x00 ∷ 0x00 ∷ 0x00 ∷ [])
    ∷ (0x00 ∷ 0x00 ∷ 0x00 ∷ 0x00 ∷ 0x63 ∷ 0x63 ∷ 0x55 ∷ 0x55 ∷ 0x55 ∷ 0x49 ∷ 0x41 ∷ 0x41 ∷ 0x41
        ∷ 0x00 ∷ 0x00 ∷ 0x00 ∷ [])
    ∷ (0x00 ∷ 0x00 ∷ 0x00 ∷ 0x00 ∷ 0x61 ∷ 0x61 ∷ 0x51 ∷ 0x51 ∷ 0x49 ∷ 0x45 ∷ 0x45 ∷ 0x43 ∷ 0x43
        ∷ 0x00 ∷ 0x00 ∷ 0x00 ∷ [])
    ∷ (0x00 ∷ 0x00 ∷ 0x00 ∷ 0x00 ∷ 0x1c ∷ 0x22 ∷ 0x41 ∷ 0x41 ∷ 0x41 ∷ 0x41 ∷ 0x41 ∷ 0x22 ∷ 0x1c
        ∷ 0x00 ∷ 0x00 ∷ 0x00 ∷ [])
    ∷ (0x00 ∷ 0x00 ∷ 0x00 ∷ 0x00 ∷ 0x7e ∷ 0x43 ∷ 0x41 ∷ 0x41 ∷ 0x43 ∷ 0x7e ∷ 0x40 ∷ 0x40 ∷ 0x40
        ∷ 0x00 ∷ 0x00 ∷ 0x00 ∷ [])
    ∷ (0x00 ∷ 0x00 ∷ 0x00 ∷ 0x00 ∷ 0x1c ∷ 0x22 ∷ 0x41 ∷ 0x41 ∷ 0x41 ∷ 0x41 ∷ 0x41 ∷ 0x23 ∷ 0x1e
        ∷ 0x06 ∷ 0x02 ∷ 0x00 ∷ [])
    ∷ (0x00 ∷ 0x00 ∷ 0x00 ∷ 0x00 ∷ 0x7e ∷ 0x43 ∷ 0x41 ∷ 0x41 ∷ 0x7e ∷ 0x42 ∷ 0x41 ∷ 0x41 ∷ 0x40
        ∷ 0x00 ∷ 0x00 ∷ 0x00 ∷ [])
    ∷ (0x00 ∷ 0x00 ∷ 0x00 ∷ 0x00 ∷ 0x3e ∷ 0x61 ∷ 0x40 ∷ 0x60 ∷ 0x3e ∷ 0x03 ∷ 0x01 ∷ 0x43 ∷ 0x3e
        ∷ 0x00 ∷ 0x00 ∷ 0x00 ∷ [])
    ∷ (0x00 ∷ 0x00 ∷ 0x00 ∷ 0x00 ∷ 0xfe ∷ 0x10 ∷ 0x10 ∷ 0x10 ∷ 0x10 ∷ 0x10 ∷ 0x10 ∷ 0x10 ∷ 0x10
        ∷ 0x00 ∷ 0x00 ∷ 0x00 ∷ [])
    ∷ (0x00 ∷ 0x00 ∷ 0x00 ∷ 0x00 ∷ 0x41 ∷ 0x41 ∷ 0x41 ∷ 0x41 ∷ 0x41 ∷ 0x41 ∷ 0x41 ∷ 0x41 ∷ 0x3e
        ∷ 0x00 ∷ 0x00 ∷ 0x00 ∷ [])
    ∷ (0x00 ∷ 0x00 ∷ 0x00 ∷ 0x00 ∷ 0x41 ∷ 0x63 ∷ 0x22 ∷ 0x22 ∷ 0x22 ∷ 0x14 ∷ 0x14 ∷ 0x14 ∷ 0x08
        ∷ 0x00 ∷ 0x00 ∷ 0x00 ∷ [])
    ∷ (0x00 ∷ 0x00 ∷ 0x00 ∷ 0x00 ∷ 0x81 ∷ 0x81 ∷ 0x81 ∷ 0x5a ∷ 0x5a ∷ 0x5a ∷ 0x66 ∷ 0x66 ∷ 0x66
        ∷ 0x00 ∷ 0x00 ∷ 0x00 ∷ [])
    ∷ (0x00 ∷ 0x00 ∷ 0x00 ∷ 0x00 ∷ 0x63 ∷ 0x22 ∷ 0x14 ∷ 0x1c ∷ 0x08 ∷ 0x14 ∷ 0x36 ∷ 0x22 ∷ 0x41
        ∷ 0x00 ∷ 0x00 ∷ 0x00 ∷ [])
    ∷ (0x00 ∷ 0x00 ∷ 0x00 ∷ 0x00 ∷ 0x82 ∷ 0x44 ∷ 0x28 ∷ 0x28 ∷ 0x10 ∷ 0x10 ∷ 0x10 ∷ 0x10 ∷ 0x10
        ∷ 0x00 ∷ 0x00 ∷ 0x00 ∷ [])
    ∷ (0x00 ∷ 0x00 ∷ 0x00 ∷ 0x00 ∷ 0x7f ∷ 0x03 ∷ 0x06 ∷ 0x04 ∷ 0x08 ∷ 0x10 ∷ 0x30 ∷ 0x60 ∷ 0x7f
        ∷ 0x00 ∷ 0x00 ∷ 0x00 ∷ [])
    ∷ (0x00 ∷ 0x00 ∷ 0x1c ∷ 0x10 ∷ 0x10 ∷ 0x10 ∷ 0x10 ∷ 0x10 ∷ 0x10 ∷ 0x10 ∷ 0x10 ∷ 0x10 ∷ 0x10
        ∷ 0x1c ∷ 0x00 ∷ 0x00 ∷ [])
    ∷ (0x00 ∷ 0x00 ∷ 0x00 ∷ 0x00 ∷ 0x40 ∷ 0x20 ∷ 0x20 ∷ 0x10 ∷ 0x10 ∷ 0x18 ∷ 0x08 ∷ 0x08 ∷ 0x04
        ∷ 0x04 ∷ 0x02 ∷ 0x00 ∷ [])
    ∷ (0x00 ∷ 0x00 ∷ 0x38 ∷ 0x08 ∷ 0x08 ∷ 0x08 ∷ 0x08 ∷ 0x08 ∷ 0x08 ∷ 0x08 ∷ 0x08 ∷ 0x08 ∷ 0x08
        ∷ 0x38 ∷ 0x00 ∷ 0x00 ∷ [])
    ∷ (0x00 ∷ 0x00 ∷ 0x00 ∷ 0x00 ∷ 0x10 ∷ 0x28 ∷ 0x44 ∷ 0xc6 ∷ 0x00 ∷ 0x00 ∷ 0x00 ∷ 0x00 ∷ 0x00
        ∷ 0x00 ∷ 0x00 ∷ 0x00 ∷ [])
    ∷ (0x00 ∷ 0x00 ∷ 0x00 ∷ 0x00 ∷ 0x00 ∷ 0x00 ∷ 0x00 ∷ 0x00 ∷ 0x00 ∷ 0x00 ∷ 0x00 ∷ 0x00 ∷ 0x00
        ∷ 0x00 ∷ 0x00 ∷ 0xff ∷ [])
    ∷ (0x00 ∷ 0x00 ∷ 0x00 ∷ 0x10 ∷ 0x08 ∷ 0x00 ∷ 0x00 ∷ 0x00 ∷ 0x00 ∷ 0x00 ∷ 0x00 ∷ 0x00 ∷ 0x00
        ∷ 0x00 ∷ 0x00 ∷ 0x00 ∷ [])
    ∷ (0x00 ∷ 0x00 ∷ 0x00 ∷ 0x00 ∷ 0x00 ∷ 0x00 ∷ 0x1c ∷ 0x22 ∷ 0x02 ∷ 0x3e ∷ 0x42 ∷ 0x46 ∷ 0x3a
        ∷ 0x00 ∷ 0x00 ∷ 0x00 ∷ [])
    ∷ (0x00 ∷ 0x00 ∷ 0x40 ∷ 0x40 ∷ 0x40 ∷ 0x40 ∷ 0x7c ∷ 0x66 ∷ 0x42 ∷ 0x42 ∷ 0x42 ∷ 0x66 ∷ 0x7c
        ∷ 0x00 ∷ 0x00 ∷ 0x00 ∷ [])
    ∷ (0x00 ∷ 0x00 ∷ 0x00 ∷ 0x00 ∷ 0x00 ∷ 0x00 ∷ 0x1c ∷ 0x22 ∷ 0x40 ∷ 0x40 ∷ 0x40 ∷ 0x22 ∷ 0x1c
        ∷ 0x00 ∷ 0x00 ∷ 0x00 ∷ [])
    ∷ (0x00 ∷ 0x00 ∷ 0x02 ∷ 0x02 ∷ 0x02 ∷ 0x02 ∷ 0x3e ∷ 0x66 ∷ 0x42 ∷ 0x42 ∷ 0x42 ∷ 0x66 ∷ 0x3e
        ∷ 0x00 ∷ 0x00 ∷ 0x00 ∷ [])
    ∷ (0x00 ∷ 0x00 ∷ 0x00 ∷ 0x00 ∷ 0x00 ∷ 0x00 ∷ 0x3c ∷ 0x66 ∷ 0x42 ∷ 0x7e ∷ 0x40 ∷ 0x62 ∷ 0x3c
        ∷ 0x00 ∷ 0x00 ∷ 0x00 ∷ [])
    ∷ (0x00 ∷ 0x00 ∷ 0x0c ∷ 0x10 ∷ 0x10 ∷ 0x10 ∷ 0x7c ∷ 0x10 ∷ 0x10 ∷ 0x10 ∷ 0x10 ∷ 0x10 ∷ 0x10
        ∷ 0x00 ∷ 0x00 ∷ 0x00 ∷ [])
    ∷ (0x00 ∷ 0x00 ∷ 0x00 ∷ 0x00 ∷ 0x00 ∷ 0x00 ∷ 0x3e ∷ 0x66 ∷ 0x42 ∷ 0x42 ∷ 0x42 ∷ 0x66 ∷ 0x3a
        ∷ 0x02 ∷ 0x22 ∷ 0x1c ∷ [])
    ∷ (0x00 ∷ 0x00 ∷ 0x40 ∷ 0x40 ∷ 0x40 ∷ 0x40 ∷ 0x5c ∷ 0x62 ∷ 0x42 ∷ 0x42 ∷ 0x42 ∷ 0x42 ∷ 0x42
        ∷ 0x00 ∷ 0x00 ∷ 0x00 ∷ [])
    ∷ (0x00 ∷ 0x00 ∷ 0x10 ∷ 0x00 ∷ 0x00 ∷ 0x00 ∷ 0x70 ∷ 0x10 ∷ 0x10 ∷ 0x10 ∷ 0x10 ∷ 0x10 ∷ 0x7c
        ∷ 0x00 ∷ 0x00 ∷ 0x00 ∷ [])
    ∷ (0x00 ∷ 0x00 ∷ 0x08 ∷ 0x00 ∷ 0x00 ∷ 0x00 ∷ 0x38 ∷ 0x08 ∷ 0x08 ∷ 0x08 ∷ 0x08 ∷ 0x08 ∷ 0x08
        ∷ 0x08 ∷ 0x08 ∷ 0x70 ∷ [])
    ∷ (0x00 ∷ 0x00 ∷ 0x40 ∷ 0x40 ∷ 0x40 ∷ 0x40 ∷ 0x44 ∷ 0x48 ∷ 0x50 ∷ 0x70 ∷ 0x48 ∷ 0x44 ∷ 0x42
        ∷ 0x00 ∷ 0x00 ∷ 0x00 ∷ [])
    ∷ (0x00 ∷ 0x00 ∷ 0x70 ∷ 0x10 ∷ 0x10 ∷ 0x10 ∷ 0x10 ∷ 0x10 ∷ 0x10 ∷ 0x10 ∷ 0x10 ∷ 0x10 ∷ 0x0e
        ∷ 0x00 ∷ 0x00 ∷ 0x00 ∷ [])
    ∷ (0x00 ∷ 0x00 ∷ 0x00 ∷ 0x00 ∷ 0x00 ∷ 0x00 ∷ 0x7f ∷ 0x49 ∷ 0x49 ∷ 0x49 ∷ 0x49 ∷ 0x49 ∷ 0x49
        ∷ 0x00 ∷ 0x00 ∷ 0x00 ∷ [])
    ∷ (0x00 ∷ 0x00 ∷ 0x00 ∷ 0x00 ∷ 0x00 ∷ 0x00 ∷ 0x5c ∷ 0x62 ∷ 0x42 ∷ 0x42 ∷ 0x42 ∷ 0x42 ∷ 0x42
        ∷ 0x00 ∷ 0x00 ∷ 0x00 ∷ [])
    ∷ (0x00 ∷ 0x00 ∷ 0x00 ∷ 0x00 ∷ 0x00 ∷ 0x00 ∷ 0x3c ∷ 0x66 ∷ 0x42 ∷ 0x42 ∷ 0x42 ∷ 0x66 ∷ 0x3c
        ∷ 0x00 ∷ 0x00 ∷ 0x00 ∷ [])
    ∷ (0x00 ∷ 0x00 ∷ 0x00 ∷ 0x00 ∷ 0x00 ∷ 0x00 ∷ 0x7c ∷ 0x66 ∷ 0x42 ∷ 0x42 ∷ 0x42 ∷ 0x66 ∷ 0x7c
        ∷ 0x40 ∷ 0x40 ∷ 0x40 ∷ [])
    ∷ (0x00 ∷ 0x00 ∷ 0x00 ∷ 0x00 ∷ 0x00 ∷ 0x00 ∷ 0x3e ∷ 0x66 ∷ 0x42 ∷ 0x42 ∷ 0x42 ∷ 0x66 ∷ 0x3a
        ∷ 0x02 ∷ 0x02 ∷ 0x02 ∷ [])
    ∷ (0x00 ∷ 0x00 ∷ 0x00 ∷ 0x00 ∷ 0x00 ∷ 0x00 ∷ 0x3c ∷ 0x32 ∷ 0x20 ∷ 0x20 ∷ 0x20 ∷ 0x20 ∷ 0x20
        ∷ 0x00 ∷ 0x00 ∷ 0x00 ∷ [])
    ∷ (0x00 ∷ 0x00 ∷ 0x00 ∷ 0x00 ∷ 0x00 ∷ 0x00 ∷ 0x3c ∷ 0x42 ∷ 0x40 ∷ 0x3c ∷ 0x02 ∷ 0x42 ∷ 0x3c
        ∷ 0x00 ∷ 0x00 ∷ 0x00 ∷ [])
    ∷ (0x00 ∷ 0x00 ∷ 0x00 ∷ 0x00 ∷ 0x10 ∷ 0x10 ∷ 0x7e ∷ 0x10 ∷ 0x10 ∷ 0x10 ∷ 0x10 ∷ 0x10 ∷ 0x0e
        ∷ 0x00 ∷ 0x00 ∷ 0x00 ∷ [])
    ∷ (0x00 ∷ 0x00 ∷ 0x00 ∷ 0x00 ∷ 0x00 ∷ 0x00 ∷ 0x42 ∷ 0x42 ∷ 0x42 ∷ 0x42 ∷ 0x42 ∷ 0x46 ∷ 0x3a
        ∷ 0x00 ∷ 0x00 ∷ 0x00 ∷ [])
    ∷ (0x00 ∷ 0x00 ∷ 0x00 ∷ 0x00 ∷ 0x00 ∷ 0x00 ∷ 0x42 ∷ 0x66 ∷ 0x24 ∷ 0x24 ∷ 0x3c ∷ 0x18 ∷ 0x18
        ∷ 0x00 ∷ 0x00 ∷ 0x00 ∷ [])
    ∷ (0x00 ∷ 0x00 ∷ 0x00 ∷ 0x00 ∷ 0x00 ∷ 0x00 ∷ 0x81 ∷ 0x81 ∷ 0x5a ∷ 0x5a ∷ 0x5a ∷ 0x24 ∷ 0x24
        ∷ 0x00 ∷ 0x00 ∷ 0x00 ∷ [])
    ∷ (0x00 ∷ 0x00 ∷ 0x00 ∷ 0x00 ∷ 0x00 ∷ 0x00 ∷ 0x66 ∷ 0x24 ∷ 0x18 ∷ 0x18 ∷ 0x18 ∷ 0x24 ∷ 0x66
        ∷ 0x00 ∷ 0x00 ∷ 0x00 ∷ [])
    ∷ (0x00 ∷ 0x00 ∷ 0x00 ∷ 0x00 ∷ 0x00 ∷ 0x00 ∷ 0x42 ∷ 0x22 ∷ 0x24 ∷ 0x24 ∷ 0x14 ∷ 0x18 ∷ 0x08
        ∷ 0x08 ∷ 0x10 ∷ 0x30 ∷ [])
    ∷ (0x00 ∷ 0x00 ∷ 0x00 ∷ 0x00 ∷ 0x00 ∷ 0x00 ∷ 0x7e ∷ 0x02 ∷ 0x04 ∷ 0x18 ∷ 0x20 ∷ 0x40 ∷ 0x7e
        ∷ 0x00 ∷ 0x00 ∷ 0x00 ∷ [])
    ∷ (0x00 ∷ 0x00 ∷ 0x1c ∷ 0x10 ∷ 0x10 ∷ 0x10 ∷ 0x10 ∷ 0x60 ∷ 0x10 ∷ 0x10 ∷ 0x10 ∷ 0x10 ∷ 0x10
        ∷ 0x0c ∷ 0x00 ∷ 0x00 ∷ [])
    ∷ (0x00 ∷ 0x00 ∷ 0x10 ∷ 0x10 ∷ 0x10 ∷ 0x10 ∷ 0x10 ∷ 0x10 ∷ 0x10 ∷ 0x10 ∷ 0x10 ∷ 0x10 ∷ 0x10
        ∷ 0x10 ∷ 0x10 ∷ 0x00 ∷ [])
    ∷ (0x00 ∷ 0x00 ∷ 0x70 ∷ 0x10 ∷ 0x10 ∷ 0x10 ∷ 0x10 ∷ 0x0c ∷ 0x10 ∷ 0x10 ∷ 0x10 ∷ 0x10 ∷ 0x10
        ∷ 0x60 ∷ 0x00 ∷ 0x00 ∷ [])
    ∷ (0x00 ∷ 0x00 ∷ 0x00 ∷ 0x00 ∷ 0x00 ∷ 0x00 ∷ 0x00 ∷ 0x00 ∷ 0x39 ∷ 0x46 ∷ 0x00 ∷ 0x00 ∷ 0x00
        ∷ 0x00 ∷ 0x00 ∷ 0x00 ∷ [])
    ∷ []
