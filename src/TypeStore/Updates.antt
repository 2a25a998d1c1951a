-- ===== src/TypeStore/Updates.antt =====
-- Types that are replaced in place (llvm-gofrontend/go-llvm-btype.h): what an update leaves as it
-- was, and how many types are placeholders.
use dragongo.Common.{
  ℕ, zero, suc, ◌+◌, ◌≤◌, Bool, true, false, some, List, [], ◌∷◌, get_elem?, ◌==◌, if◌then◌else◌,
  ◌≡◌, ◌≢◌, refl, sym, ap, ◌∙◌, arith, Bool-cases, inl, inr, subst,
}
use dragongo.Common.Run.{ok, deref-ok}
use dragongo.Bnode.{set_elem}
use dragongo.TypeStore.{Btype, Store, at}
use dragongo.TypeStore.Setters.{put, set_type, set_placeholder}

found-set_elem {ℓ} :
    {A : Type ℓ} (xs : List A) (i : ℕ) (x y : A)
    → get_elem? xs i ≡ some x
    → get_elem? (set_elem xs i y) i ≡ some y
unfolding set_elem
found-set_elem [] i x y h = ground arith
found-set_elem (z ∷ xs) zero x y h = refl
found-set_elem (z ∷ xs) (suc i) x y h = found-set_elem xs i x y h

other-set_elem {ℓ} :
    {A : Type ℓ} (xs : List A) (i j : ℕ) (y : A)
    → i ≢ j
    → get_elem? (set_elem xs i y) j ≡ get_elem? xs j
unfolding set_elem
other-set_elem [] i j y h = refl
other-set_elem (z ∷ xs) zero zero y h = absurd (h refl)
other-set_elem (z ∷ xs) zero (suc j) y h = refl
other-set_elem (z ∷ xs) (suc i) zero y h = refl
other-set_elem (z ∷ xs) (suc i) (suc j) y h = other-set_elem xs i j y (λ e. h (omega arith))

set_elem-set_elem {ℓ} :
    {A : Type ℓ} (xs : List A) (i : ℕ) (x y : A) → set_elem (set_elem xs i x) i y ≡ set_elem xs i y
unfolding set_elem
set_elem-set_elem [] i x y = refl
set_elem-set_elem (z ∷ xs) zero x y = refl
set_elem-set_elem (z ∷ xs) (suc i) x y = ap (◌∷◌ z) (set_elem-set_elem xs i x y)

set_elem-found {ℓ} :
    {A : Type ℓ} (xs : List A) (i : ℕ) (x : A) → get_elem? xs i ≡ some x → set_elem xs i x ≡ xs
unfolding set_elem
set_elem-found [] i x h = refl
set_elem-found (z ∷ xs) zero x h = let e : z ≡ x = ground arith in rw e refl
set_elem-found (z ∷ xs) (suc i) x h = ap (◌∷◌ z) (set_elem-found xs i x h)

-- The number of placeholders.
unfoldable pub unresolved : Store → ℕ
unresolved [] = 0
unresolved (b ∷ s) = (if b.is_placeholder then 1 else 0) + unresolved s

-- One placeholder less.
fewer :
    (s : Store) (a : ℕ) (x y : Btype)
    → get_elem? s a ≡ some x
    → x.is_placeholder ≡ true
    → y.is_placeholder ≡ false
    → unresolved (set_elem s a y) + 1 ≡ unresolved s
unfolding set_elem unresolved
fewer [] a x y h p q = ground arith
fewer (z ∷ s) zero x y h p q = let e : z ≡ x = ground arith in rw (e, p, q) (omega arith)
fewer (z ∷ s) (suc a) x y h p q = let e = fewer s a x y h p q in omega arith

module _ (s : Store) (a : ℕ) where
  pub at-put : (x y : Btype) → at s a ≡ ok x → at (put s a y) a ≡ ok y
  unfolding at put
  at-put x y h = rw (found-set_elem s a x y (deref-ok (get_elem? s a) h)) refl

  -- The setters, and two of them in a row.
  pub set_type-put :
      (x : Btype) (t : ℕ)
      → at s a ≡ ok x
      → set_type s a (some t) ≡ ok (put s a (record x { type = some t }))
  unfolding set_type
  set_type-put x t h = rw h refl

  pub set_placeholder-put :
      (x : Btype) (v : Bool)
      → at s a ≡ ok x
      → set_placeholder s a v ≡ ok (put s a (record x { is_placeholder = v }))
  unfolding set_placeholder
  set_placeholder-put x v h = rw h refl

  pub put-put : (x y : Btype) → put (put s a x) a y ≡ put s a y
  unfolding put
  put-put x y = set_elem-set_elem s a x y

  pub put-at : (x : Btype) → at s a ≡ ok x → put s a x ≡ s
  unfolding put at
  put-at x h = set_elem-found s a x (deref-ok (get_elem? s a) h)

  pub at-put_other : (b : ℕ) (y : Btype) → a ≢ b → at (put s a y) b ≡ at s b
  unfolding at put
  at-put_other b y h = rw (other-set_elem s a b y h) refl

  pub unresolved-put :
      (x y : Btype)
      → at s a ≡ ok x
      → x.is_placeholder ≡ true
      → y.is_placeholder ≡ false
      → unresolved (put s a y) + 1 ≡ unresolved s
  unfolding at put
  unresolved-put x y h p q = fewer s a x y (deref-ok (get_elem? s a) h) p q

-- A type before and after others were completed: a concrete one is as it was, and a placeholder
-- keeps its name and its shape.
pub record IsSettled (x y : Btype) : Type 0 where
  pub shape : y.shape ≡ x.shape
  pub name : y.name ≡ x.name
  pub concrete : x.is_placeholder ≡ false → y ≡ x

pub record Settles (s t : Store) : Type 0 where
  pub types : (a : ℕ) (x : Btype) → at s a ≡ ok x → (y : Btype) × (at t a ≡ ok y) × IsSettled x y
  pub no_more : unresolved t ≤ unresolved s

IsSettled-refl : {x : Btype} → IsSettled x x
IsSettled-refl = record { shape = refl; name = refl; concrete = λ p. refl }

IsSettled-trans : {x y z : Btype} → IsSettled x y → IsSettled y z → IsSettled x z
IsSettled-trans {x} {y} {z} h k = record {
  shape = k.shape ∙ h.shape;
  name = k.name ∙ h.name;
  concrete = λ p.
      let e = h.concrete p in
      k.concrete (subst (λ (t : Btype). t.is_placeholder ≡ false) (sym e) p) ∙ e;
}

pub Settles-refl : {s : Store} → Settles s s
Settles-refl {s} = record { types = λ a x h. (x, h, IsSettled-refl); no_more = omega arith }

pub Settles-trans : {s t u : Store} → Settles s t → Settles t u → Settles s u
Settles-trans {s} {t} {u} h k = record {
  types = λ a x at_a.
      let (y, at_t, p) = h.types a x at_a in
      let (z, at_u, q) = k.types a y at_t in (z, at_u, IsSettled-trans p q);
  no_more = omega (arith, h.no_more, k.no_more);
}

-- A placeholder is completed.
pub put-Settles :
    (s : Store) (a : ℕ) (x y : Btype)
    → at s a ≡ ok x
    → x.is_placeholder ≡ true
    → y.is_placeholder ≡ false
    → y.shape ≡ x.shape
    → y.name ≡ x.name
    → Settles s (put s a y)
put-Settles s a x y at_a p q sh nm = record {
  types = λ b z at_b. elim (Bool-cases (a == b)) [
    | inl e ↦
        let same : a ≡ b = ground arith in
        let at_a₂ : at s b ≡ ok x = subst (λ k. at s k ≡ ok x) same at_a in
        let r : x ≡ z = ground arith in
        (
          y,
          subst (λ k. at (put s a y) k ≡ ok y) same (at-put s a x y at_a),
          subst (λ k. IsSettled k y) r
              (record { shape = sh; name = nm; concrete = λ f. absurd (ground arith) }),
        )
    | inr e ↦ (z, at-put_other s a b y (ground arith) ∙ at_b, IsSettled-refl)
  ];
  no_more = omega (arith, unresolved-put s a x y at_a p q);
}
