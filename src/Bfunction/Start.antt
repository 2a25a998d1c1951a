-- ===== src/Bfunction/Start.antt =====
-- What abiSetup of go-llvm-bfunction.cpp does with the result and the static chain.
use dragongo.Common.{
  ℕ, ◌+◌, ◌^◌, ◌%◌, ◌≤◌, ◌<◌, ◌≡◌, refl, ◌∙◌, ◌≢◌, ◌⊎◌, some, List, arith, length, codes,
}
use dragongo.Common.Run.{ok}
use dragongo.Bnode.{set_elem}
use dragongo.Cabi.Regions.{nest, struct_return}
use dragongo.Cabi.{direct, ignore, indirect, CabiParamDisp, CabiParamInfo, return_info, chain_info}
use dragongo.Bfunction.{
  Argument, argument, set_up_params, Bfunction, change_argument, set_name, add_attr, name_for,
  set_up_result, set_up_chain, populate, abi_setup,
}
use dragongo.Bfunction.Params.{length-set_elem, change_argument-ok}

-- What the set-up of the result and of the chain leave as it is.
pub record Keeps (f f' : Bfunction) : Type 0 where
  pub oracle : f'.oracle ≡ f.oracle
  pub param_types : f'.param_types ≡ f.param_types
  pub param_values : f'.param_values ≡ f.param_values
  pub allocas : f'.allocas ≡ f.allocas
  pub many : length f'.arguments ≡ length f.arguments

-- A name and an attribute for the same argument.
name_and_mark :
    (i : ℕ) (c d : Argument → Argument) (f : Bfunction)
    → i < length f.arguments
    → (args : List Argument) × (change_argument i c f ≡ ok (record f { arguments = args }))
      × (args₁ : List Argument) × (change_argument i d (record f { arguments = args })
          ≡ ok (record f { arguments = args₁ }))
      × (length args₁ ≡ length f.arguments)
name_and_mark i c d f h =
    let (a, e) = change_argument-ok i c f h in
    let same = length-set_elem f.arguments i (c a) in
    let (b, e₁) =
      change_argument-ok i d (record f { arguments = set_elem f.arguments i (c a) })
        (omega (arith, same)) in
    (
      set_elem f.arguments i (c a),
      e,
      set_elem (set_elem f.arguments i (c a)) i (d b),
      e₁,
      length-set_elem (set_elem f.arguments i (c a)) i (d b) ∙ same,
    )

pub set_up_result-Keeps :
    (disp : CabiParamDisp) (f : Bfunction) (i : ℕ)
    → ((disp ≡ indirect) × (i ≡ 1)) ⊎ ((disp ≢ indirect) × (i ≡ 0))
    → i ≤ length f.arguments
    → (f' : Bfunction) × (set_up_result disp f ≡ ok (f', i)) × Keeps f f'
unfolding set_up_result name_for
set_up_result-Keeps indirect f i at h =
    let one : i ≡ 1 = ground arith in
    let (name, f₁) = name_for (codes "sret.formal") f in
    let (args, e, args₁, e₁, many) =
      name_and_mark 0 (set_name name) (add_attr struct_return) f₁ (omega arith) in
    (
      record f₁ { arguments = args₁; rtn_value_mem = some (argument 0) },
      rw (e, e₁, one) refl,
      record {
        oracle = refl;
        param_types = refl;
        param_values = refl;
        allocas = refl;
        many = many;
      },
    )
set_up_result-Keeps direct f i at h = (
  f,
  ground arith,
  record { oracle = refl; param_types = refl; param_values = refl; allocas = refl; many = refl },
)
set_up_result-Keeps ignore f i at h = (
  f,
  ground arith,
  record { oracle = refl; param_types = refl; param_values = refl; allocas = refl; many = refl },
)

pub set_up_chain-Keeps :
    (f : Bfunction) (i : ℕ)
    → i < length f.arguments
    → i + 1 < 2 ^ 31
    → (f' : Bfunction) × (set_up_chain direct f i ≡ ok (f', i + 1)) × Keeps f f'
unfolding set_up_chain name_for
set_up_chain-Keeps f i h small =
    let (name, f₁) = name_for (codes "nest") f in
    let (args, e, args₁, e₁, many) = name_and_mark i (set_name name) (add_attr nest) f₁ h in
    let in_range : (i + 1) % 2 ^ 32 ≡ i + 1 = omega arith in
    (
      record f₁ { arguments = args₁; chain_val = some (argument i) },
      rw (e, e₁, in_range) refl,
      record {
        oracle = refl;
        param_types = refl;
        param_values = refl;
        allocas = refl;
        many = many;
      },
    )

-- The parts of the set-up in a row.
pub abi_setup-ok :
    (formals : List Argument) (f : Bfunction) {ret chain : CabiParamInfo} {f₁ f₂ f₃ : Bfunction}
    {i j k : ℕ}
    → return_info f.oracle ≡ some ret
    → set_up_result ret.disp (populate formals f) ≡ ok (f₁, i)
    → chain_info f.oracle ≡ some chain
    → set_up_chain chain.disp f₁ i ≡ ok (f₂, j)
    → set_up_params f.param_types 0 f₂ j ≡ ok (f₃, k)
    → abi_setup formals f ≡ ok f₃
unfolding abi_setup
abi_setup-ok formals f a b c d e = rw (a, b, c, d, e) refl
