-- ===== src/Builder/Forgets.antt =====
-- What `freeExpr` of llvm-gofrontend/go-llvm-bnode.cpp does to the archive of expressions.
use dragongo.Common.{
  ℕ, zero, suc, ◌+◌, ◌≡◌, ◌≢◌, inl, inr, refl, ap, ◌∙◌, Option, none, some, List, [], ◌∷◌, arith,
  if◌then◌else◌, ◌==◌, Bool-cases, length, get_elem?,
}
use dragongo.Bnode.{set_elem}
use dragongo.Builder.Free.{drop_last}

-- The archive without its entry at `id`, which is gone altogether if it was the last one.
pub record Forgets (id : ℕ) (old new : List (Option ℕ)) : Type 0 where
  pub gone : (addr : ℕ) → get_elem? new id ≢ some (some addr)
  pub kept : (i : ℕ) → i ≢ id → get_elem? new i ≡ get_elem? old i
  pub shorter : id + 1 ≡ length old → length new + 1 ≡ length old

cleared_gone :
    (xs : List (Option ℕ)) (k addr : ℕ) → get_elem? (set_elem xs k none) k ≢ some (some addr)
unfolding set_elem
cleared_gone [] k addr = λ e. absurd (ground arith)
cleared_gone (x ∷ xs) zero addr = λ e. absurd (ground arith)
cleared_gone (x ∷ xs) (suc k) addr = cleared_gone xs k addr

cleared_kept :
    (xs : List (Option ℕ)) (k i : ℕ) → i ≢ k → get_elem? (set_elem xs k none) i ≡ get_elem? xs i
unfolding set_elem
cleared_kept [] k i h = refl
cleared_kept (x ∷ xs) zero zero h = absurd (h refl)
cleared_kept (x ∷ xs) zero (suc i) h = refl
cleared_kept (x ∷ xs) (suc k) zero h = refl
cleared_kept (x ∷ xs) (suc k) (suc i) h = cleared_kept xs k i (λ e. h (ap suc e))

length-cleared : (xs : List (Option ℕ)) (k : ℕ) → length (set_elem xs k none) ≡ length xs
unfolding set_elem
length-cleared [] k = refl
length-cleared (x ∷ xs) zero = refl
length-cleared (x ∷ xs) (suc k) = ap suc (length-cleared xs k)

-- Dropping the last element, number `k`.
dropped :
    {A : Type 0} (xs : List A) (k : ℕ)
    → k + 1 ≡ length xs
    → (get_elem? (drop_last xs) k ≡ none)
      × (length (drop_last xs) + 1 ≡ length xs)
      × ((i : ℕ) → i ≢ k → get_elem? (drop_last xs) i ≡ get_elem? xs i)
unfolding drop_last
dropped [] k h = absurd (omega arith)
dropped (x ∷ []) zero h = (refl, refl, only)
  where
    only : (i : ℕ) → i ≢ 0 → none ≡ get_elem? (x ∷ []) i
    only zero h = absurd (h refl)
    only (suc i) h = refl
dropped (x ∷ []) (suc k) h = absurd (omega arith)
dropped (x ∷ y ∷ xs) zero h = absurd (omega arith)
dropped (x ∷ y ∷ xs) (suc k) h =
    let (gone, short, kept) = dropped (y ∷ xs) k (omega arith) in
    (gone, omega (arith, short), others kept)
  where
    others :
        ((i : ℕ) → i ≢ k → get_elem? (drop_last (y ∷ xs)) i ≡ get_elem? (y ∷ xs) i)
        → (i : ℕ) → i ≢ suc k
        → get_elem? (x ∷ drop_last (y ∷ xs)) i ≡ get_elem? (x ∷ y ∷ xs) i
    others kept zero h = refl
    others kept (suc i) h = kept i (λ e. h (ap suc e))

pub forgotten :
    (xs : List (Option ℕ)) (id : ℕ)
    → Forgets id xs (
        if id + 1 == length (set_elem xs id none)
        then drop_last (set_elem xs id none)
        else set_elem xs id none)
forgotten xs id = elim (Bool-cases (id + 1 == length (set_elem xs id none))) [
  | inl last ↦
      let at : id + 1 ≡ length (set_elem xs id none) = ground arith in
      let (gone, short, kept) = dropped (set_elem xs id none) id at in
      rw last (record {
        gone = λ addr e. absurd (ground (arith, gone));
        kept = λ i h. kept i h ∙ cleared_kept xs id i h;
        shorter = λ h. short ∙ length-cleared xs id;
      })
  | inr inside ↦ rw inside (record {
    gone = cleared_gone xs id;
    kept = cleared_kept xs id;
    shorter = λ h. absurd (ground (arith, length-cleared xs id));
  })
]
