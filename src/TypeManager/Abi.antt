-- ===== src/TypeManager/Abi.antt =====
-- Function types of go-llvm-typemanager.cpp and what go-llvm-cabi-oracle.cpp says of their parameters.
use dragongo.Common.{
  ℕ, ◌+◌, ◌*◌, ◌^◌, ◌<◌, ◌≡◌, sym, ap, ◌∙◌, zero, suc, [], ◌∷◌, true, Option, some, none, List, map,
  length, arith,
}
use dragongo.Common.Run.{Run, ok, >>=-eq-ok, deref, deref-ok, asserted}
use dragongo.Cabi.Types.{LlvmType, Btype, type}
use dragongo.Cabi.Outcomes.{IsAnalysed, analyze-IsAnalysed}
use dragongo.Cabi.{CabiOracle, analyze}
use dragongo.Cabi.Signature.{IsLaidOut, analyze-IsLaidOut}
use dragongo.TypeStore
use dragongo.TypeStore.{
  Store, at, Shape, array_t, float_t, function_t, integer_t, pointer_t, struct_t, aux_t,
}
use dragongo.TypeManager.{Llvm, TypeManager}
use dragongo.TypeManager.Functions.{
  oracle_fields, oracle_shape, oracle_type, oracle_types, abi_function_type,
}

asserted-ok {ℓ} : {A : Type ℓ} (o : Option A) {a : A} → asserted o ≡ ok a → o ≡ some a
asserted-ok (some b) e = ground arith
asserted-ok none e = ground arith

-- The LLVM type of a type in the store is that of the type as the oracle reads it.
pub record IsReading (lv : Llvm) (s : Store) (a : ℕ) (bt : Btype) : Type 0 where
  pub stored : TypeStore.Btype
  pub found : at s a ≡ ok stored
  pub llvm_type : ℕ
  pub typed : stored.type ≡ some llvm_type
  pub same_type : type bt ≡ lv.structure llvm_type

-- The analysis behind an LLVM function type: of which types it is, what it decides and what it cooks.
pub record IsAbiType (lv : Llvm) (n : ℕ) (m : TypeManager) (params : List ℕ) (result ft : ℕ)
    : Type 0 where
  pub types : List Btype
  pub returned : Btype
  pub oracle : CabiOracle
  pub read : oracle_types lv n m.types params ≡ ok types
  pub read_result : oracle_type lv n m.types result ≡ ok returned
  pub result_type : IsReading lv m.types result returned
  pub decided : IsAnalysed (lv.layout m.bodies) types returned oracle
  pub laid_out : IsLaidOut types oracle
  pub made :
      ft
      ≡ lv.function_of
          (lv.address_of oracle.fcn_type_for_abi.result)
          (map lv.address_of oracle.fcn_type_for_abi.params)

module _ (lv : Llvm) (n : ℕ) where
  length-oracle_types :
      (s : Store) (params : List ℕ) {bts : List Btype}
      → oracle_types lv n s params ≡ ok bts
      → length bts ≡ length params
  unfolding oracle_types
  length-oracle_types s [] {bts} e =
      let none_left : [] ≡ bts = ground arith in ap (λ (l : List Btype). length l) (sym none_left)
  length-oracle_types s (a ∷ rest) {bts} e =
      let (b, f, e₁) = >>=-eq-ok (oracle_type lv n s a) _ e in
      let (bs, g, e₂) = >>=-eq-ok (oracle_types lv n s rest) _ e₁ in
      let parts : b ∷ bs ≡ bts = ground arith in
      ap (λ (l : List Btype). length l) (sym parts) ∙ ap suc (length-oracle_types s rest g)

  oracle_shape-type :
      (part : ℕ → Run Btype) (sh : Shape) (t : LlvmType) {bt : Btype}
      → oracle_shape part sh t ≡ ok bt
      → type bt ≡ t
  unfolding oracle_shape
  oracle_shape-type part aux_t t e = ground arith
  oracle_shape-type part (float_t bits) t e = ground arith
  oracle_shape-type part (pointer_t to) t e = ground arith
  oracle_shape-type part (function_t g) t e = ground arith
  oracle_shape-type part (integer_t bits u) t e = ground arith
  oracle_shape-type part (array_t elem nelements) t e =
      let (c, _, e₁) = >>=-eq-ok (deref elem) _ e in
      let (b, _, e₂) = >>=-eq-ok (part c) _ e₁ in
      let (k, _, e₃) = >>=-eq-ok (deref nelements) _ e₂ in ground arith
  oracle_shape-type part (struct_t fields) t e =
      let (fs, _, e₁) = >>=-eq-ok (oracle_fields part fields) _ e in ground arith

  oracle_type-IsReading :
      (k : ℕ) (s : Store) (a : ℕ) {bt : Btype} → oracle_type lv k s a ≡ ok bt → IsReading lv s a bt
  unfolding oracle_type
  oracle_type-IsReading zero s a e = absurd (ground arith)
  oracle_type-IsReading (suc k) s a e =
      let (b, f, e₁) = >>=-eq-ok (at s a) _ e in
      let (t, g, e₂) = >>=-eq-ok (deref b.type) _ e₁ in
      record {
        stored = b;
        found = f;
        llvm_type = t;
        typed = deref-ok b.type g;
        same_type = oracle_shape-type (oracle_type lv k s) b.shape (lv.structure t) e₂;
      }

  -- The LLVM type that is made for a function under the calling convention is the one that the
  -- analysis of its parameters and its result cooks. The result, whose LLVM type is that of the
  -- function's result type in the store, is decided first: dropped where it is void or empty, moved to
  -- memory behind a hidden parameter where it has more than 16 bytes, else returned as its one or two
  -- classified regions; then each parameter travels as the registers left by those before it allow.
  -- Each entry that is not ignored finds its types in the function type at its offset, and a result in
  -- memory makes the function void. The condition keeps the argument count within an `int`.
  pub abi_function_type-IsAbiType :
      (m : TypeManager) (params : List ℕ) (result ft : ℕ)
      → 2 * length params + 5 < 2 ^ 31
      → abi_function_type lv n m params result true ≡ ok ft
      → IsAbiType lv n m params result ft
  unfolding abi_function_type
  abi_function_type-IsAbiType m params result ft small e =
      let (ps, f, e₁) = >>=-eq-ok (oracle_types lv n m.types params) _ e in
      let (r, g, e₂) = >>=-eq-ok (oracle_type lv n m.types result) _ e₁ in
      let (o, h, e₃) = >>=-eq-ok (asserted (analyze (lv.layout m.bodies) ps r true)) _ e₂ in
      let analysed = asserted-ok (analyze (lv.layout m.bodies) ps r true) h in
      let many = length-oracle_types m.types params f in
      let few : 2 * length ps + 5 < 2 ^ 31 = omega (arith, many, small) in
      record {
        types = ps;
        returned = r;
        oracle = o;
        read = f;
        read_result = g;
        result_type = oracle_type-IsReading n m.types result g;
        decided = analyze-IsAnalysed (lv.layout m.bodies) ps r o few analysed;
        laid_out = analyze-IsLaidOut (lv.layout m.bodies) ps r o few analysed;
        made = ground arith;
      }
