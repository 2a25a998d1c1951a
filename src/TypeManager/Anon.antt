-- ===== src/TypeManager/Anon.antt =====
-- The set of anonymous types of go-llvm-typemanager.cpp, whose elements are told apart by
-- `Btype::hash` and `Btype::equal`.
use dragongo.Common.{
  ℕ, Bool, true, false, Option, none, some, List, [], ◌∷◌, ◌++◌, length, ◌==◌, if◌then◌else◌,
}
use dragongo.Common.Run.{Run, ok, ◌>>=◌}
use dragongo.TypeStore.{Btype, Store, at}
use dragongo.TypeStore.Equal.{equal, Hashes, hash}
use dragongo.TypeManager.{TypeManager, new}

-- `std::unordered_set::erase` of an element.
unfoldable pub erase : ℕ → List ℕ → List ℕ
erase a [] = []
erase a (b ∷ bs) = let rest = erase a bs in if a == b then bs else b ∷ rest

-- `fuel` bounds the depth of a comparison.
module _ (hs : Hashes) (fuel : ℕ) where
  -- The set compares hashes first, and only then the types.
  unfoldable pub matches : Store → ℕ → ℕ → Run Bool
  matches s a e = do
    x ← at s a
    y ← at s e
    if hash hs x == hash hs y then equal fuel s a e else ok false

  -- `anonTypes_.find`
  unfoldable pub find_equal : Store → ℕ → List ℕ → Run (Option ℕ)
  find_equal s a [] = ok none
  find_equal s a (e ∷ es) = do v ← matches s a e; if v then ok (some e) else find_equal s a es

  -- The search for a candidate, which is an object beside the others.
  unfoldable pub find_candidate : TypeManager → Btype → Run (Option ℕ)
  find_candidate m cand = let s = (new m cand).types in find_equal s (length m.types) m.anon_types

  -- `anonTypes_.insert`: nothing happens where an equal type is there.
  unfoldable pub insert_anon : TypeManager → ℕ → Run TypeManager
  insert_anon m a = do
    hit ← find_equal m.types a m.anon_types
    elim hit [ some e ↦ ok m | none ↦ ok (record m { anon_types = m.anon_types ++ (a ∷ []) }) ]

  -- `removeAnonType`
  unfoldable pub remove_anon_type : TypeManager → ℕ → Run (Bool × TypeManager)
  remove_anon_type m a = do
    hit ← find_equal m.types a m.anon_types
    elim hit [
      | some e ↦ ok (true, record m { anon_types = erase e m.anon_types })
      | none ↦ ok (false, m)
    ]

  -- `reinstallAnonType`
  unfoldable pub reinstall_anon_type : TypeManager → ℕ → Run TypeManager
  reinstall_anon_type m a = do
    hit ← find_equal m.types a m.anon_types
    elim hit [
      | some e ↦ ok (record m { duplicates = a ∷ m.duplicates })
      | none ↦ ok (record m { anon_types = m.anon_types ++ (a ∷ []) })
    ]
