-- ===== src/ImgCtx/Tests.antt =====
-- The geometry of a small disk.
use partman.Base.{ℕ, ◌≡◌, ◌⊎◌, ◌↔◌, arith, true}
use partman.Examples.{disk}
use partman.ImgCtx.{img_ctx_validate, chs_tuple_to_int, chs_int_to_tuple}
use partman.ImgCtx.Validate.{IsImgCtx, img_ctx_validate_iff}
use partman.ImgCtx.Chs.{cylinder_comes_back_iff}

img_ctx_validate_iff_example : (img_ctx_validate disk ≡ true) ↔ IsImgCtx disk
img_ctx_validate_iff_example = img_ctx_validate_iff disk

abbrev cylinder : ℕ
cylinder = 700

cylinder_comes_back_iff_example :
    ((chs_int_to_tuple (chs_tuple_to_int cylinder 254 63)).0 ≡ cylinder)
    ↔ ((cylinder ≡ 0) ⊎ ((cylinder ≡ 341) ⊎ ((cylinder ≡ 682) ⊎ (cylinder ≡ 1023))))
cylinder_comes_back_iff_example =
    cylinder_comes_back_iff cylinder 254 63 (omega arith) (omega arith) (omega arith)
