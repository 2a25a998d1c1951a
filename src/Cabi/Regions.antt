-- ===== src/Cabi/Regions.antt =====
-- Eight-byte regions of go-llvm-cabi-oracle.cpp: their contents, class and registers.
use dragongo.Common.{ℕ, ◌+◌, Bool, true, false, Option, List, [], ◌∷◌, if◌then◌else◌}
use dragongo.Cabi.Types.{LlvmType}
use dragongo.Cabi.Disp.{TypDisp, empty, is_sse, disp_meet, typ_disp}

pub data CabiParamAttr : Type 0 where
  attr_none struct_return by_val nest zext sext : CabiParamAttr

abbrev pub attr_is_none : CabiParamAttr → Bool
attr_is_none attr_none = true
attr_is_none _ = false

abbrev pub attr_eq : CabiParamAttr → CabiParamAttr → Bool
attr_eq attr_none attr_none = true
attr_eq struct_return struct_return = true
attr_eq by_val by_val = true
attr_eq nest nest = true
attr_eq zext zext = true
attr_eq sext sext = true
attr_eq _ _ = false

pub record EightByteRegion : Type 0 where
  pub types : List LlvmType
  pub offsets : List ℕ
  pub abi_direct_type : Option LlvmType
  pub attr : CabiParamAttr

unfoldable pub types_disp : List LlvmType → TypDisp → TypDisp
types_disp [] d = d
types_disp (t ∷ ts) d = types_disp ts (disp_meet (typ_disp t) d)

-- `EightByteRegion::getRegionTypDisp`
unfoldable pub region_disp : EightByteRegion → TypDisp
region_disp r = types_disp r.types empty

-- `EightByteInfo::getRegisterRequirements`: integer registers, then SSE registers.
unfoldable pub register_requirements : List EightByteRegion → ℕ × ℕ
register_requirements [] = (0, 0)
register_requirements (r ∷ rs) =
    let (ints, sses) = register_requirements rs in
    if is_sse (region_disp r) then (ints, sses + 1) else (ints + 1, sses)
