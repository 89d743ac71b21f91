-- ===== src/Examples/Valid.antt =====
-- The examples are within the ranges that the code asks for.
use partman.Base.{refl, inl, arith}
use partman.Guid.{IsGuid}
use partman.ImgCtx.Validate.{IsImgCtx}
use partman.Examples.{disk, some_guid}

pub some_guid-IsGuid : IsGuid some_guid
some_guid-IsGuid = record {
  time_lo = omega arith;
  time_mid = omega arith;
  time_hi_ver = omega arith;
  cl_seq_hi_res = omega arith;
  cl_seq_lo = omega arith;
  node_count = refl;
  node_bytes = omega arith;
}

pub disk-IsImgCtx : IsImgCtx disk
disk-IsImgCtx = record {
  img_sz = omega arith;
  sec_sz = inl refl;
  hpc = omega arith;
  spt_low = omega arith;
  spt_high = omega arith;
}
