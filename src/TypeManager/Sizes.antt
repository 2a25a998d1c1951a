-- ===== src/TypeManager/Sizes.antt =====
-- Sizes, alignments and offsets of go-llvm-typemanager.cpp, also of types that are still incomplete.
use dragongo.Common.{
  ℕ, zero, suc, Bool, not, ◌||◌, Option, none, some, List, [], ◌∷◌, ltb, ◌==◌, if◌then◌else◌,
}
use dragongo.Common.Run.{Run, ok, stop, assertion, too_deep, ◌>>=◌, ◌>>◌, assert, deref}
use dragongo.TypeStore.{BtypedIdentifier, Shape, array_t, function_t, pointer_t, struct_t, at}
use dragongo.TypeStore.Equal.{nel_size}
use dragongo.TypeManager.{Llvm, TypeManager, lookup, insert_at}

-- `pproxymap`: the stand-ins that have been made.
abbrev pub Proxies : Type 0
Proxies = List (ℕ × ℕ)

-- What LLVM computes for a type: its size with padding and its preferred alignment, in bytes, and the
-- offset of a field of a structure.
pub record Layout : Type 0 where
  pub alloc_size : ℕ → ℕ
  pub pref_alignment : ℕ → ℕ
  pub element_offset : ℕ → ℕ → ℕ
  pub is_struct : ℕ → Bool

module _ (lv : Llvm) (m : TypeManager) where
  -- `llvmPtrType_`
  abbrev pub llvm_ptr_type : ℕ
  llvm_ptr_type = lv.pointer_to (lv.integer_type 8)

  module _ (proxy : ℕ → Proxies → Run (ℕ × Proxies)) where
    unfoldable pub proxy_fields : List BtypedIdentifier → Proxies → Run (List ℕ × Proxies)
    proxy_fields [] pm = ok ([], pm)
    proxy_fields (f ∷ fs) pm = do
      (t, pm₁) ← proxy f.btype pm
      (ts, pm₂) ← proxy_fields fs pm₁
      ok (t ∷ ts, pm₂)

    -- The `switch` on the flavour; nothing gives null.
    unfoldable pub proxy_shape : ℕ → Shape → Proxies → Run (ℕ × Proxies)
    proxy_shape a (array_t elem nelements) pm = do
      c ← deref elem
      (t, pm₁) ← proxy c pm
      n ← nel_size nelements
      ok (lv.array_of t n, insert_at a (lv.array_of t n) pm₁)
    proxy_shape a (struct_t fields) pm = do
      (ts, pm₁) ← proxy_fields fields pm
      ok (lv.struct_of ts, insert_at a (lv.struct_of ts) pm₁)
    proxy_shape a (pointer_t to) pm = ok (llvm_ptr_type, pm)
    proxy_shape a (function_t g) pm = ok (llvm_ptr_type, pm)
    proxy_shape a _ pm = stop assertion

  -- `placeholderProxyType`: the fuel bounds how deep arrays and structures are nested.
  unfoldable pub placeholder_proxy_type : ℕ → ℕ → Proxies → Run (ℕ × Proxies)
  placeholder_proxy_type zero a pm = stop too_deep
  placeholder_proxy_type (suc fuel) a pm = do
    b ← at m.types a
    t ← deref b.type
    if lv.is_sized m.bodies t then ok (t, pm) else elim (lookup a pm) [
      | some p ↦ ok (p, pm)
      | none ↦ proxy_shape (placeholder_proxy_type fuel) a b.shape pm
    ]

  module _ (layout : Layout) where
    -- `typeSize`
    unfoldable pub type_size : ℕ → ℕ → Run ℕ
    type_size fuel a = if a == m.error_type then ok 1 else (do
      b ← at m.types a
      t ← deref b.type
      if lv.is_sized m.bodies t
          then ok (layout.alloc_size t)
          else (do (p, pm) ← placeholder_proxy_type fuel a []; ok (layout.alloc_size p)))

    -- `typeAlignment`
    unfoldable pub type_alignment : ℕ → Run ℕ
    type_alignment a =
        if a == m.error_type
        then ok 1
        else (do b ← at m.types a; t ← deref b.type; ok (layout.pref_alignment t))

    -- `typeFieldAlignment`; `none` is -1.
    unfoldable pub type_field_alignment : ℕ → Run (Option ℕ)
    type_field_alignment a = do
      b ← at m.types a
      t ← deref b.type
      if not (lv.is_sized m.bodies t) || (a == m.error_type) then ok none else (do
        let uoff = layout.element_offset (lv.struct_of (lv.integer_type 1 ∷ t ∷ [])) 1
        let talign = layout.pref_alignment t
        ok (some (if ltb uoff talign then uoff else talign)))

    -- `typeFieldOffset`
    unfoldable pub type_field_offset : ℕ → ℕ → Run ℕ
    type_field_offset a index = if a == m.error_type then ok 0 else (do
      b ← at m.types a
      t ← deref b.type
      assert (layout.is_struct t)
      ok (layout.element_offset t index))
