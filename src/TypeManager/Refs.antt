-- ===== src/TypeManager/Refs.antt =====
-- `addPlaceholderRefs` of go-llvm-typemanager.cpp: which unresolved types a type waits for.
use dragongo.Common.{ℕ, Bool, true, false, List, [], ◌∷◌, if◌then◌else◌}
use dragongo.Common.Run.{Run, ok, ◌>>=◌, deref}
use dragongo.TypeStore.{
  BtypedIdentifier, array_t, pointer_t, struct_t, at, is_unresolved_placeholder,
}
use dragongo.TypeManager.{TypeManager, add_ref}

-- One child of the type at `a`; the flag says whether it is recorded.
unfoldable pub add_child_ref : TypeManager → ℕ → ℕ → Run (Bool × TypeManager)
add_child_ref m a child = do
  c ← at m.types child
  ok (if is_unresolved_placeholder c then (true, add_ref m child a) else (false, m))

-- The loop over the fields.
unfoldable pub add_field_refs : TypeManager → ℕ → List BtypedIdentifier → Run (Bool × TypeManager)
add_field_refs m a [] = ok (false, m)
add_field_refs m a (f ∷ fs) = do
  (v, m₁) ← add_child_ref m a f.btype
  (w, m₂) ← add_field_refs m₁ a fs
  ok (if v then true else w, m₂)

-- `addPlaceholderRefs`
unfoldable pub add_placeholder_refs : TypeManager → ℕ → Run (Bool × TypeManager)
add_placeholder_refs m a = do
  b ← at m.types a
  elim b.shape [
    | array_t elem n ↦ do c ← deref elem; add_child_ref m a c
    | pointer_t to ↦ do c ← deref to; add_child_ref m a c
    | struct_t fields ↦ add_field_refs m a fields
    | _ ↦ ok (false, m)
  ]
