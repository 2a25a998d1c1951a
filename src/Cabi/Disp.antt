-- ===== src/Cabi/Disp.antt =====
-- Register classes of go-llvm-cabi-oracle.cpp, and their meet.
use dragongo.Common.{Bool, true, false}
use dragongo.Cabi.Types.{LlvmType, LlvmTypes, float, double, array, struct, nil, cons}

pub data TypDisp : Type 0 where
  sse int empty : TypDisp

abbrev pub is_sse : TypDisp → Bool
is_sse sse = true
is_sse _ = false

-- `dispMeet`
unfoldable pub disp_meet : TypDisp → TypDisp → TypDisp
disp_meet sse sse = sse
disp_meet int int = int
disp_meet empty d = d
disp_meet d empty = d
disp_meet sse int = int
disp_meet int sse = int

-- `getTypDisp`; the loop over a struct's elements carries the meet so far.
unfoldable mutual
  pub typ_disp : LlvmType → TypDisp
  typ_disp float = sse
  typ_disp double = sse
  typ_disp (array n t) = typ_disp t
  typ_disp (struct ts) = elements_disp ts empty
  typ_disp _ = int

  pub elements_disp : LlvmTypes → TypDisp → TypDisp
  elements_disp nil d = d
  elements_disp (cons t ts) d = elements_disp ts (disp_meet (typ_disp t) d)
