-- ===== src/Reconstruct/Tests.antt =====
-- The theorems on reconstruction at concrete numbers, and runs.
use air_tree.Common.{◌+◌, ◌*◌, ◌^◌, ◌≡◌, refl, arith}
use air_tree.Encoding.Bins.{shift_of}
use air_tree.Encoding.Codes.{create_internal_13bit, create_internal_16bit, create_internal_20bit}
use air_tree.Encoding.Codes.Layout.{fields64}
use air_tree.Reconstruct.{double_layout, spread, stream, rebuild, re_construct}
use air_tree.Reconstruct.RoundTrip.{IsLower, create_internal-re_construct, re_construct-IsLower}

-- The code of 5.0 is read back as 5.0; another length gives 0.
five_back :
    (re_construct double_layout (8 * 2 ^ 7 + 0x10) 13 ≡ 0x4014000000000000)
    × (re_construct double_layout 1040 14 ≡ 0)
unfolding re_construct spread stream rebuild
five_back = (refl, refl)

create_internal-re_construct_example :
    let fp = 1 * 2 ^ 63 + 1025 * 2 ^ 52 + 12345 in
    (create_internal_13bit (re_construct double_layout (create_internal_13bit fp) 13)
      ≡ create_internal_13bit fp)
    × (create_internal_16bit (re_construct double_layout (create_internal_16bit fp) 16)
        ≡ create_internal_16bit fp)
    × (create_internal_20bit (re_construct double_layout (create_internal_20bit fp) 20)
        ≡ create_internal_20bit fp)
create_internal-re_construct_example =
    create_internal-re_construct 1 1025 12345 (omega arith) (omega arith) (omega arith)

re_construct-IsLower_example :
    let fp = 0 * 2 ^ 63 + 1000 * 2 ^ 52 + 12345 in
    IsLower 0 1000 12345
      (shift_of 61 7 (fields64 7 1000 12345).0)
      (re_construct double_layout (create_internal_13bit fp) 13)
    × IsLower 0 1000 12345
        (shift_of 61 10 (fields64 10 1000 12345).0)
        (re_construct double_layout (create_internal_16bit fp) 16)
    × IsLower 0 1000 12345
        (shift_of 61 14 (fields64 14 1000 12345).0)
        (re_construct double_layout (create_internal_20bit fp) 20)
re_construct-IsLower_example =
    re_construct-IsLower 0 1000 12345 (omega arith) (omega arith) (omega arith)
