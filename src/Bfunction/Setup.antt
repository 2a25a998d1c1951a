-- ===== src/Bfunction/Setup.antt =====
-- The loop of abiSetup of go-llvm-bfunction.cpp over the parameters.
use dragongo.Common.{
  ℕ, zero, suc, ◌+◌, ◌*◌, ◌^◌, ◌≤◌, ◌<◌, ◌≡◌, refl, sym, ◌∙◌, subst, ◌≢◌, ◌⊎◌, inl, inr, ◌++◌, some,
  List, [], ◌∷◌, arith, length, length-append, get_elem?, drop, All, append-nil, append_assoc,
}
use dragongo.Common.Run.{ok}
use dragongo.Cabi.Types.{Btype, DataLayout}
use dragongo.Cabi.{
  indirect, CabiParamInfo, AbiState, param_info, analyze_abi_params, signature_types,
  all_signature_types,
}
use dragongo.Cabi.State.{analyze_abi_param-ParamOutcome}
use dragongo.Cabi.Places.{outcome-IsCounted, params_cons}
use dragongo.Cabi.Extended.{IsPassable}
use dragongo.Bfunction.{Value, argument, alloca, Bfunction, set_up_params}
use dragongo.Bfunction.Params.{set_up_param-HasValue}

-- The values of the parameters: a parameter in memory is the argument at its offset, any other one an
-- alloca of its own, in order from number `n` on.
pub StandFor : List CabiParamInfo → List Value → ℕ → Type 0
StandFor [] [] n = Unit
StandFor (info ∷ infos) (v ∷ vs) n =
    ((info.disp ≡ indirect) × (v ≡ argument info.sig_offset) × StandFor infos vs n)
    ⊎ ((info.disp ≢ indirect) × (v ≡ alloca n) × StandFor infos vs (suc n))
StandFor _ _ n = ⊥

drop-cons {ℓ} :
    {A : Type ℓ} (xs : List A) (n : ℕ) {x : A} {ys : List A}
    → drop n xs ≡ x ∷ ys
    → (get_elem? xs n ≡ some x) × (drop (suc n) xs ≡ ys)
drop-cons [] zero e = ground arith
drop-cons [] (suc n) e = ground arith
drop-cons (x ∷ xs) zero e = ground arith
drop-cons (x ∷ xs) (suc n) e = drop-cons xs n e

-- The loop has put the values `values` behind those that were there.
pub record HaveValues (bts : List Btype) (infos : List CabiParamInfo) (f : Bfunction)
    (idx i next : ℕ) : Type 0 where
  pub after : Bfunction
  pub values : List Value
  pub run : set_up_params bts idx f i ≡ ok (after, next)
  pub added : after.param_values ≡ f.param_values ++ values
  pub stand : StandFor infos values (length f.allocas)

stand_one :
    (info : CabiParamInfo) (f f' : Bfunction) (infos : List CabiParamInfo) (vs : List Value)
    {v : Value} {fresh : ℕ}
    → length f'.allocas ≡ fresh + length f.allocas
    → ((info.disp ≡ indirect) × (v ≡ argument info.sig_offset) × (fresh ≡ 0))
      ⊎ ((info.disp ≢ indirect) × (v ≡ alloca (length f.allocas)) × (fresh ≡ 1))
    → StandFor infos vs (length f'.allocas)
    → StandFor (info ∷ infos) (v ∷ vs) (length f.allocas)
unfolding StandFor
stand_one info f f' infos vs n (inl (d, v, z)) rest =
    let same : length f'.allocas ≡ length f.allocas = omega arith in inl (d, v, rw same at rest)
stand_one info f f' infos vs n (inr (d, v, z)) rest =
    let same : length f'.allocas ≡ suc (length f.allocas) = omega arith in
    inr (d, v, rw same at rest)

module _ (dl : DataLayout) where
  -- The count of the analysis grows by the types of the entries.
  pub analyze_abi_params_count :
      (bts : List Btype) (s : AbiState) {infos : List CabiParamInfo} {s' : AbiState}
      → s.arg_count + 2 * length bts + 2 < 2 ^ 31
      → analyze_abi_params dl bts s ≡ some (infos, s')
      → (s'.arg_count ≡ s.arg_count + length (all_signature_types infos))
        × (s'.arg_count ≤ s.arg_count + 2 * length bts)
  unfolding analyze_abi_params all_signature_types
  analyze_abi_params_count [] s small e = ground arith
  analyze_abi_params_count (bt ∷ bts) s {infos} small e =
      let (info, s₁, infos₁, first, rest, same) = params_cons dl bt bts s e in
      let c =
        outcome-IsCounted dl bt s info s₁ (omega arith)
          (analyze_abi_param-ParamOutcome dl bt s first (omega arith)) in
      let (n, few) = analyze_abi_params_count bts s₁ (omega (arith, c.counted, c.few)) rest in
      rw same (
        omega (
          arith,
          c.counted,
          n,
          length-append (signature_types info) (all_signature_types infos₁),
        ),
        omega (arith, c.counted, c.few),
      )

  pub set_up_params-HaveValues :
      (bts : List Btype) (s s' : AbiState) (infos : List CabiParamInfo) (f : Bfunction) (idx : ℕ)
      → analyze_abi_params dl bts s ≡ some (infos, s')
      → drop (idx + 2) f.oracle.infov ≡ infos
      → All IsPassable infos
      → s'.arg_count ≤ length f.arguments
      → s.arg_count + 2 * length bts + 2 < 2 ^ 31
      → idx + length bts < 2 ^ 31
      → HaveValues bts infos f idx s.arg_count s'.arg_count
  unfolding analyze_abi_params set_up_params StandFor param_info
  set_up_params-HaveValues [] s s' infos f idx e at p room small few =
      let none_left : [] ≡ infos = ground arith in
      let same : s.arg_count ≡ s'.arg_count = ground arith in
      record {
        after = f;
        values = [];
        run = rw same refl;
        added = sym (append-nil f.param_values);
        stand = rw (← none_left) tt;
      }
  set_up_params-HaveValues (bt ∷ bts) s s' infos f idx e at p room small few =
      let (info, s₁, infos₁, first, rest, same) = params_cons dl bt bts s e in
      let c =
        outcome-IsCounted dl bt s info s₁ (omega arith)
          (analyze_abi_param-ParamOutcome dl bt s first (omega arith)) in
      let (n, few₁) = analyze_abi_params_count bts s₁ (omega (arith, c.counted, c.few)) rest in
      let (found, at₁) = drop-cons f.oracle.infov (idx + 2) (at ∙ same) in
      let one =
        set_up_param-HasValue info bt f s s₁ c (rw same at p).0 (omega arith)
          (omega (arith, c.counted, c.few)) in
      let next : idx + 1 + 2 ≡ suc (idx + 2) = omega arith in
      let more =
        set_up_params-HaveValues bts s₁ s' infos₁ one.after (idx + 1) rest
          (rw (one.adds.oracle, next) at₁) (rw same at p).1 (omega (arith, one.adds.many))
          (omega (arith, c.counted, c.few)) (omega arith) in
      record {
        after = more.after;
        values = one.value ∷ more.values;
        run = ground (arith, found, one.run, more.run);
        added =
            more.added
            ∙ rw one.adds.values (append_assoc f.param_values (one.value ∷ []) more.values);
        stand =
            subst (λ is. StandFor is (one.value ∷ more.values) (length f.allocas)) (sym same)
              (stand_one info f one.after infos₁ more.values one.adds.allocated one.stands
                more.stand);
      }
