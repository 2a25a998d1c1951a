-- ===== src/TypeManager/Steps.antt =====
-- The steps of completing types in go-llvm-typemanager.cpp that are no recursion.
use dragongo.Common.{
  ℕ, zero, suc, Bool, true, false, Option, none, some, List, [], ◌∷◌, ◌≢◌, arith, get_elem?,
  if◌then◌else◌, ◌==◌,
}
use dragongo.Common.Run.{Run, ok, stop, out_of_rounds, >>=-rounds, deref, asserted}
use dragongo.Cabi.Types.{LlvmType}
use dragongo.Cabi.Types
use dragongo.Cabi.{analyze}
use dragongo.TypeStore.{
  BtypedIdentifier, Shape, array_t, pointer_t, struct_t, function_t, Store, at,
}
use dragongo.TypeStore.Equal.{equal, Hashes, hash, nel_size}
use dragongo.TypeStore.Depth.{equal-rounds}
use dragongo.TypeStore.Setters.{set_type, set_placeholder}
use dragongo.TypeManager.{Llvm, TypeManager}
use dragongo.TypeManager.Anon.{matches, find_equal, remove_anon_type, reinstall_anon_type}
use dragongo.TypeManager.Structs.{field_llvm_types}
use dragongo.TypeManager.Functions.{
  oracle_fields, oracle_shape, oracle_type, oracle_types, abi_function_type,
}
use dragongo.TypeManager.Resolve.{waits_for_more, set_body, replace_type, resolved_type}

-- A result that is not for want of rounds.
abbrev pub Ends {ℓ} : {A : Type ℓ} → Run A → Type ℓ
Ends r = r ≢ stop out_of_rounds

pub ok-Ends {ℓ} : {A : Type ℓ} (a : A) → Ends (ok a)
ok-Ends a e = ground arith

deref-Ends {ℓ} : {A : Type ℓ} (o : Option A) → Ends (deref o)
deref-Ends (some a) e = ground arith
deref-Ends none e = ground arith

asserted-Ends {ℓ} : {A : Type ℓ} (o : Option A) → Ends (asserted o)
asserted-Ends (some a) e = ground arith
asserted-Ends none e = ground arith

pub at-Ends : (s : Store) (a : ℕ) → Ends (at s a)
unfolding at
at-Ends s a = deref-Ends (get_elem? s a)

set_type-Ends : (s : Store) (a : ℕ) (t : Option ℕ) → Ends (set_type s a t)
unfolding set_type
set_type-Ends s a none = λ e. ground arith
set_type-Ends s a (some t) = >>=-rounds (at s a) _ (at-Ends s a) λ b h. ok-Ends _

set_placeholder-Ends : (s : Store) (a : ℕ) (v : Bool) → Ends (set_placeholder s a v)
unfolding set_placeholder
set_placeholder-Ends s a v = >>=-rounds (at s a) _ (at-Ends s a) λ b h. ok-Ends _

pub if-Ends {ℓ} :
    {A : Type ℓ} (v : Bool) (r q : Run A) → Ends r → Ends q → Ends (if v then r else q)
if-Ends true r q h k = h
if-Ends false r q h k = k

hit-Ends {ℓ} :
    {A : Type ℓ} (hit : Option ℕ) (f : ℕ → A) (a : A)
    → Ends (elim hit [ some e ↦ ok (f e) | none ↦ ok a ])
hit-Ends none f a = ok-Ends a
hit-Ends (some e) f a = ok-Ends (f e)

module _ (hs : Hashes) (fuel : ℕ) where
  matches-Ends : (s : Store) (a e : ℕ) → Ends (matches hs fuel s a e)
  unfolding matches
  matches-Ends s a e = >>=-rounds (at s a) _ (at-Ends s a) λ x h.
      >>=-rounds (at s e) _ (at-Ends s e) λ y k.
        if-Ends (hash hs x == hash hs y) (equal fuel s a e) (ok false) (equal-rounds fuel s a e)
          (ok-Ends false)

  find_equal-Ends : (s : Store) (a : ℕ) (es : List ℕ) → Ends (find_equal hs fuel s a es)
  unfolding find_equal
  find_equal-Ends s a [] = ok-Ends none
  find_equal-Ends s a (e ∷ es) = >>=-rounds (matches hs fuel s a e) _ (matches-Ends s a e) λ v h.
      if-Ends v (ok (some e)) (find_equal hs fuel s a es) (ok-Ends _) (find_equal-Ends s a es)

  remove_anon_type-Ends : (m : TypeManager) (a : ℕ) → Ends (remove_anon_type hs fuel m a)
  unfolding remove_anon_type
  remove_anon_type-Ends m a =
      >>=-rounds (find_equal hs fuel m.types a m.anon_types) _ (find_equal-Ends _ a _)
        λ hit h. hit-Ends hit _ _

  reinstall_anon_type-Ends : (m : TypeManager) (a : ℕ) → Ends (reinstall_anon_type hs fuel m a)
  unfolding reinstall_anon_type
  reinstall_anon_type-Ends m a =
      >>=-rounds (find_equal hs fuel m.types a m.anon_types) _ (find_equal-Ends _ a _)
        λ hit h. hit-Ends hit _ _

  pub replace_type-Ends :
      (lv : Llvm) (m : TypeManager) (r t : ℕ) → Ends (replace_type lv hs fuel m r t)
  unfolding replace_type
  replace_type-Ends lv m r t =
      >>=-rounds (remove_anon_type hs fuel m r) _ (remove_anon_type-Ends m r) λ (was, m₁) f.
        >>=-rounds (set_type m₁.types r (some t)) _ (set_type-Ends _ r _) λ u g.
          >>=-rounds (set_placeholder u r false) _ (set_placeholder-Ends u r false) λ v h.
            if-Ends was (reinstall_anon_type hs fuel (record m₁ { types = v }) r)
              (ok (record m₁ { types = v })) (reinstall_anon_type-Ends _ r) (ok-Ends _)

pub field_llvm_types-Ends : (s : Store) (fs : List BtypedIdentifier) → Ends (field_llvm_types s fs)
unfolding field_llvm_types
field_llvm_types-Ends s [] = ok-Ends _
field_llvm_types-Ends s (f ∷ fs) = >>=-rounds (at s f.btype) _ (at-Ends s _) λ b h.
    >>=-rounds (deref b.type) _ (deref-Ends b.type)
      λ t g. >>=-rounds (field_llvm_types s fs) _ (field_llvm_types-Ends s fs) λ ts k. ok-Ends _

pub waits_for_more-Ends :
    (s : Store) (a : ℕ) (fs : List BtypedIdentifier) → Ends (waits_for_more s a fs)
unfolding waits_for_more
waits_for_more-Ends s a [] = ok-Ends _
waits_for_more-Ends s a (f ∷ fs) =
    >>=-rounds (at s f.btype) _ (at-Ends s _)
      λ b h. >>=-rounds (waits_for_more s a fs) _ (waits_for_more-Ends s a fs) λ v k. ok-Ends _

pub set_body-Ends : (m : TypeManager) (r : ℕ) (elems : List ℕ) → Ends (set_body m r elems)
unfolding set_body
set_body-Ends m r elems = >>=-rounds (at m.types r) _ (at-Ends _ r) λ b h.
    >>=-rounds (deref b.type) _ (deref-Ends b.type) λ t g.
      >>=-rounds (set_placeholder m.types r false) _ (set_placeholder-Ends _ r false)
        λ u k. ok-Ends _

module _ (part : ℕ → Run Types.Btype) (ends : (a : ℕ) → Ends (part a)) where
  oracle_fields-Ends : (fs : List BtypedIdentifier) → Ends (oracle_fields part fs)
  unfolding oracle_fields
  oracle_fields-Ends [] = ok-Ends _
  oracle_fields-Ends (f ∷ fs) =
      >>=-rounds (part f.btype) _ (ends f.btype)
        λ b h. >>=-rounds (oracle_fields part fs) _ (oracle_fields-Ends fs) λ r k. ok-Ends _

  oracle_shape-Ends : (sh : Shape) (t : LlvmType) → Ends (oracle_shape part sh t)
  unfolding oracle_shape
  oracle_shape-Ends (array_t elem n) t = >>=-rounds (deref elem) _ (deref-Ends elem) λ c h.
      >>=-rounds (part c) _ (ends c) λ e g. >>=-rounds (deref n) _ (deref-Ends n) λ k f. ok-Ends _
  oracle_shape-Ends (struct_t fs) t =
      >>=-rounds (oracle_fields part fs) _ (oracle_fields-Ends fs) λ r k. ok-Ends _
  oracle_shape-Ends sh t = ok-Ends _

module _ (lv : Llvm) where
  oracle_type-Ends : (n : ℕ) (s : Store) (a : ℕ) → Ends (oracle_type lv n s a)
  unfolding oracle_type
  oracle_type-Ends zero s a = λ e. ground arith
  oracle_type-Ends (suc n) s a = >>=-rounds (at s a) _ (at-Ends s a) λ b h.
      >>=-rounds (deref b.type) _ (deref-Ends b.type) λ t g.
        oracle_shape-Ends (oracle_type lv n s) (oracle_type-Ends n s) b.shape (lv.structure t)

  oracle_types-Ends : (n : ℕ) (s : Store) (ts : List ℕ) → Ends (oracle_types lv n s ts)
  unfolding oracle_types
  oracle_types-Ends n s [] = ok-Ends _
  oracle_types-Ends n s (a ∷ rest) =
      >>=-rounds (oracle_type lv n s a) _ (oracle_type-Ends n s a) λ b h.
        >>=-rounds (oracle_types lv n s rest) _ (oracle_types-Ends n s rest) λ bs g. ok-Ends _

  abi_function_type-Ends :
      (n : ℕ) (m : TypeManager) (params : List ℕ) (result : ℕ) (follows_cabi : Bool)
      → Ends (abi_function_type lv n m params result follows_cabi)
  unfolding abi_function_type
  abi_function_type-Ends n m params result c =
      >>=-rounds (oracle_types lv n m.types params) _ (oracle_types-Ends n _ params) λ ps h.
        >>=-rounds (oracle_type lv n m.types result) _ (oracle_type-Ends n _ result) λ r g.
          >>=-rounds (asserted (analyze (lv.layout m.bodies) ps r c)) _ (asserted-Ends _)
            λ o k. ok-Ends _

  pub resolved_type-Ends :
      (hs : Hashes) (fuel : ℕ) (m : TypeManager) (a : ℕ) (sh : Shape)
      → Ends (resolved_type lv hs fuel m a sh)
  unfolding resolved_type
  resolved_type-Ends hs fuel m a (pointer_t to) =
      >>=-rounds (at m.types a) _ (at-Ends _ a)
        λ b h. >>=-rounds (deref b.type) _ (deref-Ends b.type) λ t g. ok-Ends _
  resolved_type-Ends hs fuel m a (array_t elem n) = >>=-rounds (nel_size n) _ (deref-Ends n) λ k f.
      >>=-rounds (at m.types a) _ (at-Ends _ a)
        λ b h. >>=-rounds (deref b.type) _ (deref-Ends b.type) λ t g. ok-Ends _
  resolved_type-Ends hs fuel m a (function_t g) =
      abi_function_type-Ends fuel m g.param_types g.rtype g.follows_cabi
  resolved_type-Ends hs fuel m a sh = λ e. ground arith
