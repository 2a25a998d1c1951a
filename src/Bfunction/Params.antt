-- ===== src/Bfunction/Params.antt =====
-- What abiSetup of go-llvm-bfunction.cpp does with one parameter that the oracle has analysed.
use dragongo.Common.{
  ℕ, zero, suc, ◌+◌, ◌^◌, ◌≤◌, ◌<◌, ◌≡◌, refl, sym, ap, ◌≢◌, ◌⊎◌, inl, inr, ◌++◌, some, List, [],
  ◌∷◌, arith, length, length-append, get_elem?,
}
use dragongo.Common.Run.{ok}
use dragongo.Bnode.{set_elem}
use dragongo.Cabi.Types.{Btype, type}
use dragongo.Cabi.Regions.{attr_none, by_val, zext, sext}
use dragongo.Cabi.{direct, ignore, indirect, CabiParamInfo, AbiState, signature_types}
use dragongo.Cabi.Extended.{IsPassable}
use dragongo.Cabi.Places.{IsCounted}
use dragongo.Bfunction.{
  Value, argument, alloca, Argument, Alloca, Bfunction, change_argument, add_alloca,
  extend_argument, set_up_param, add_attr,
}

pub length-set_elem {ℓ} :
    {A : Type ℓ} (xs : List A) (i : ℕ) (y : A) → length (set_elem xs i y) ≡ length xs
unfolding set_elem
length-set_elem [] i y = refl
length-set_elem (x ∷ xs) zero y = refl
length-set_elem (x ∷ xs) (suc i) y = ap suc (length-set_elem xs i y)

get_elem?-some {ℓ} :
    {A : Type ℓ} (xs : List A) (i : ℕ) → i < length xs → (a : A) × (get_elem? xs i ≡ some a)
get_elem?-some [] i h = absurd (omega arith)
get_elem?-some (x ∷ xs) zero h = (x, refl)
get_elem?-some (x ∷ xs) (suc i) h = get_elem?-some xs i (omega arith)

-- What the set-up of one parameter does to the function, with the value `v` for the parameter.
pub record AddsValue (f f' : Bfunction) (v : Value) (fresh : ℕ) : Type 0 where
  pub values : f'.param_values ≡ f.param_values ++ (v ∷ [])
  pub many : length f'.arguments ≡ length f.arguments
  pub oracle : f'.oracle ≡ f.oracle
  pub allocated : length f'.allocas ≡ fresh + length f.allocas

-- An argument that exists can be changed.
pub change_argument-ok :
    (i : ℕ) (change : Argument → Argument) (f : Bfunction)
    → i < length f.arguments
    → (a : Argument) × (change_argument i change f
        ≡ ok (record f { arguments = set_elem f.arguments i (change a) }))
unfolding change_argument
change_argument-ok i change f h = let (a, e) = get_elem?-some f.arguments i h in (a, rw e refl)

set_up_memory :
    (info : CabiParamInfo) (bt : Btype) (f : Bfunction) (i : ℕ)
    → (info.disp ≡ indirect) × (length info.abi_types ≡ 1)
    → i + 1 < 2 ^ 31
    → i < length f.arguments
    → (f' : Bfunction) × (set_up_param info bt f i ≡ ok (f', i + 1)) × AddsValue f f' (argument i) 0
unfolding set_up_param
set_up_memory info bt f i (d, one) small h =
    let (a, e) = get_elem?-some f.arguments i h in
    let pushed : Bfunction = record f { param_values = f.param_values ++ (argument i ∷ []) } in
    let (b, c) = change_argument-ok i (add_attr by_val) pushed h in
    (
      record pushed { arguments = set_elem f.arguments i (add_attr by_val b) },
      ground (arith, e, c),
      record {
        values = refl;
        many = length-set_elem f.arguments i _;
        oracle = refl;
        allocated = omega arith;
      },
    )

set_up_ignored :
    (info : CabiParamInfo) (bt : Btype) (f : Bfunction) (i : ℕ)
    → info.disp ≡ ignore
    → (f' : Bfunction) × (set_up_param info bt f i ≡ ok (f', i))
      × AddsValue f f' (alloca (length f.allocas)) 1
unfolding set_up_param add_alloca
set_up_ignored info bt f i d =
    let slot : Alloca = record { allocated = type bt; name = [] } in
    (
      record f {
        allocas = f.allocas ++ (slot ∷ []);
        param_values = f.param_values ++ (alloca (length f.allocas) ∷ []);
      },
      rw d refl,
      record {
        values = refl;
        many = refl;
        oracle = refl;
        allocated = omega (arith, length-append f.allocas (slot ∷ []));
      },
    )

-- The attribute of a parameter in registers changes no argument, or the first of its registers.
pub extend_argument-ok :
    (info : CabiParamInfo) (i : ℕ) (f : Bfunction)
    → (info.attr ≡ attr_none)
      ⊎ (((info.attr ≡ sext) ⊎ (info.attr ≡ zext)) × (i < length f.arguments))
    → (args : List Argument) × (extend_argument info.attr i f ≡ ok (record f { arguments = args }))
      × (length args ≡ length f.arguments)
unfolding extend_argument
extend_argument-ok info i f (inl e) = (f.arguments, rw e refl, refl)
extend_argument-ok info i f (inr (inl e, h)) =
    let (a, c) = change_argument-ok i (add_attr sext) f h in
    (set_elem f.arguments i (add_attr sext a), rw e c, length-set_elem f.arguments i _)
extend_argument-ok info i f (inr (inr e, h)) =
    let (a, c) = change_argument-ok i (add_attr zext) f h in
    (set_elem f.arguments i (add_attr zext a), rw e c, length-set_elem f.arguments i _)

set_up_registers :
    (info : CabiParamInfo) (bt : Btype) (f : Bfunction) (i : ℕ)
    → info.disp ≡ direct
    → (info.attr ≡ attr_none)
      ⊎ (((info.attr ≡ sext) ⊎ (info.attr ≡ zext)) × (i < length f.arguments))
    → i + length info.abi_types < 2 ^ 31
    → (f' : Bfunction) × (set_up_param info bt f i ≡ ok (f', i + length info.abi_types))
      × AddsValue f f' (alloca (length f.allocas)) 1
unfolding set_up_param add_alloca
set_up_registers info bt f i d a small =
    let slot : Alloca = record { allocated = type bt; name = [] } in
    let pushed : Bfunction = record f {
      allocas = f.allocas ++ (slot ∷ []);
      param_values = f.param_values ++ (alloca (length f.allocas) ∷ []);
    } in
    let (args, e, many) = extend_argument-ok info i pushed a in
    (
      record pushed { arguments = args },
      ground (arith, e),
      record {
        values = refl;
        many = many;
        oracle = refl;
        allocated = omega (arith, length-append f.allocas (slot ∷ []));
      },
    )

-- The value of one parameter, where the running index is the count of the analysis.
pub record HasValue (info : CabiParamInfo) (bt : Btype) (f : Bfunction) (i next : ℕ) : Type 0 where
  pub after : Bfunction
  pub value : Value
  pub fresh : ℕ
  pub run : set_up_param info bt f i ≡ ok (after, next)
  pub adds : AddsValue f after value fresh
  pub stands :
      ((info.disp ≡ indirect) × (value ≡ argument info.sig_offset) × (fresh ≡ 0))
      ⊎ ((info.disp ≢ indirect) × (value ≡ alloca (length f.allocas)) × (fresh ≡ 1))

pub set_up_param-HasValue :
    (info : CabiParamInfo) (bt : Btype) (f : Bfunction) (s s' : AbiState)
    → IsCounted info s s'
    → IsPassable info
    → s'.arg_count ≤ length f.arguments
    → s'.arg_count < 2 ^ 31
    → HasValue info bt f s.arg_count s'.arg_count
unfolding signature_types
set_up_param-HasValue info bt f s s' c (inl d) h small =
    let (f', run, adds) = set_up_ignored info bt f s.arg_count d in
    let same : s'.arg_count ≡ s.arg_count = ground (arith, c.counted) in
    record {
      after = f';
      value = alloca (length f.allocas);
      fresh = 1;
      run = rw same run;
      adds = adds;
      stands = inr (ground arith, refl, refl);
    }
set_up_param-HasValue info bt f s s' c (inr (inl (d, one))) h small =
    let same : s'.arg_count ≡ s.arg_count + 1 = ground (arith, c.counted) in
    let at : info.sig_offset ≡ s.arg_count = ground (arith, c.place) in
    let (f', run, adds) =
      set_up_memory info bt f s.arg_count (d, one) (omega arith) (omega arith) in
    record {
      after = f';
      value = argument s.arg_count;
      fresh = 0;
      run = rw same run;
      adds = adds;
      stands = inl (d, ap argument (sym at), refl);
    }
set_up_param-HasValue info bt f s s' c (inr (inr a)) h small =
    let d : info.disp ≡ direct = ground arith in
    let same : s'.arg_count ≡ s.arg_count + length info.abi_types = ground (arith, c.counted) in
    let (f', run, adds) = set_up_registers info bt f s.arg_count d (ground arith) (omega arith) in
    record {
      after = f';
      value = alloca (length f.allocas);
      fresh = 1;
      run = rw same run;
      adds = adds;
      stands = inr (ground arith, refl, refl);
    }
