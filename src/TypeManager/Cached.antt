-- ===== src/TypeManager/Cached.antt =====
-- The set of anonymous types of go-llvm-typemanager.cpp: what a search finds after an insertion.
use dragongo.Common.{
  ℕ, suc, ◌<◌, Bool, true, false, none, some, List, [], ◌∷◌, ◌++◌, length, ◌≡◌, ◌≢◌, refl, sym,
  subst, ◌∙◌, arith, ◌==◌, Bool-cases, inl, inr, All, get_elem?, get_elem?-lt,
}
use dragongo.Common.Run.{ok, >>=-eq-ok, deref-ok}
use dragongo.TypeStore.{Btype, Store, at}
use dragongo.TypeStore.Equal.{equal, Hashes, hash}
use dragongo.TypeStore.Clone.{is_set, shapes_self, equal_self, at-append, at-new}
use dragongo.TypeStore.Members.{SameMembers-refl}
use dragongo.TypeStore.Transitive.{equal_at_same}
use dragongo.TypeStore.Extend.{equal-append, equal-twin}
use dragongo.TypeManager.{TypeManager, new}
use dragongo.TypeManager.Anon.{matches, find_equal, find_candidate, insert_anon}

pub at-lt : (s : Store) (a : ℕ) {x : Btype} → at s a ≡ ok x → a < length s
unfolding at
at-lt s a h = get_elem?-lt s a (deref-ok (get_elem? s a) h)

module _ (hs : Hashes) (fuel : ℕ) where
  matches-append :
      (s t : Store) (a e : ℕ) (v : Bool)
      → matches hs fuel s a e ≡ ok v
      → matches hs fuel (s ++ t) a e ≡ ok v
  unfolding matches
  matches-append s t a e v k =
      let (x, at_a, k₁) = >>=-eq-ok (at s a) _ k in
      let (y, at_e, k₂) = >>=-eq-ok (at s e) _ k₁ in
      elim (Bool-cases (hash hs x == hash hs y)) [
        | inl h ↦
            rw (at-append s t a at_a, at-append s t e at_e, h)
              (equal-append fuel s t a e v (rw h at k₂))
        | inr h ↦ rw (at-append s t a at_a, at-append s t e at_e, h) (rw h at k₂)
      ]

  matches-twin :
      (s : Store) (a b e : ℕ) (x : Btype)
      → at s a ≡ ok x
      → at s b ≡ ok x
      → a ≢ e
      → b ≢ e
      → matches hs fuel s a e ≡ matches hs fuel s b e
  unfolding matches
  matches-twin s a b e x at_a at_b u v =
      rw (at_a, at_b, equal-twin fuel s a b e x at_a at_b u v) refl

  find_none :
      (s : Store) (a : ℕ) (es : List ℕ)
      → find_equal hs fuel s a es ≡ ok none
      → All (λ e. matches hs fuel s a e ≡ ok false) es
  unfolding find_equal
  find_none s a [] k = tt
  find_none s a (e ∷ es) k =
      let (v, m, k₁) = >>=-eq-ok (matches hs fuel s a e) _ k in
      elim (Bool-cases v) [
        | inl h ↦ let j = rw h at k₁ in ground arith
        | inr h ↦ (rw h at m, find_none s a es (rw h at k₁))
      ]

  pub find_some :
      (s : Store) (a : ℕ) (es : List ℕ) (e : ℕ)
      → find_equal hs fuel s a es ≡ ok (some e)
      → matches hs fuel s a e ≡ ok true
  unfolding find_equal
  find_some s a [] e k = ground arith
  find_some s a (d ∷ es) e k =
      let (v, m, k₁) = >>=-eq-ok (matches hs fuel s a d) _ k in
      elim (Bool-cases v) [
        | inl h ↦
            let same : d ≡ e = let j = rw h at k₁ in ground arith in
            subst (λ t. matches hs fuel s a t ≡ ok true) same (rw h at m)
        | inr h ↦ find_some s a es e (rw h at k₁)
      ]

  find_last :
      (s : Store) (a : ℕ) (es : List ℕ) (p : ℕ)
      → All (λ e. matches hs fuel s a e ≡ ok false) es
      → matches hs fuel s a p ≡ ok true
      → find_equal hs fuel s a (es ++ (p ∷ [])) ≡ ok (some p)
  unfolding find_equal
  find_last s a [] p h k = rw k refl
  find_last s a (e ∷ es) p h k = rw h.0 (find_last s a es p h.1 k)

  -- What was missed is inserted at the end.
  pub insert_anon-missed :
      (m m₁ : TypeManager) (cand : Btype)
      → find_candidate hs fuel m cand ≡ ok none
      → m₁.types ≡ (new m cand).types
      → m₁.anon_types ≡ m.anon_types
      → insert_anon hs fuel m₁ (length m.types)
        ≡ ok (record m₁ { anon_types = m₁.anon_types ++ (length m.types ∷ []) })
  unfolding insert_anon find_candidate
  insert_anon-missed m m₁ cand miss types anon =
      let missed : find_equal hs fuel m₁.types (length m.types) m₁.anon_types ≡ ok none =
        rw (types, anon) miss in
      rw missed refl

-- A comparison needs depth 2 to see that two objects have the same children.
abbrev pub depth : ℕ → ℕ
depth n = suc (suc n)

module _ (hs : Hashes) (n : ℕ) where
  matches_new :
      (s : Store) (cand : Btype) (p q : ℕ)
      → is_set cand.shape ≡ true
      → at s p ≡ ok cand
      → at s q ≡ ok cand
      → matches hs (depth n) s q p ≡ ok true
  unfolding matches equal
  matches_new s cand p q set at_p at_q =
      let h : (hash hs cand == hash hs cand) ≡ true = ground arith in
      rw (at_p, at_q, h)
        (equal_at_same s (equal (suc n) s) q p cand cand at_q at_p SameMembers-refl
          (shapes_self (equal (suc n) s) cand.shape (equal_self n s) set))

  matched-at :
      (s : Store) (p e : ℕ) (v : Bool)
      → matches hs (depth n) s p e ≡ ok v
      → (x : Btype) × (at s e ≡ ok x)
  unfolding matches
  matched-at s p e v k =
      let (x, at_p, k₁) = >>=-eq-ok (at s p) _ k in
      let (y, at_e, k₂) = >>=-eq-ok (at s e) _ k₁ in (y, at_e)

  -- What missed the candidate misses its twin in a bigger store.
  still_missed :
      (s : Store) (cand : Btype) (p e : ℕ)
      → is_set cand.shape ≡ true
      → at s p ≡ ok cand
      → matches hs (depth n) s p e ≡ ok false
      → matches hs (depth n) (s ++ (cand ∷ [])) (length s) e ≡ ok false
  still_missed s cand p e set at_p k =
      let (x, at_x) = matched-at s p e false k in
      let low = at-lt s e at_x in
      let t = s ++ (cand ∷ []) in
      let other : p ≢ e = λ r.
        let hit = matches_new s cand p p set at_p at_p in
        let here = subst (λ d. matches hs (depth n) s p d ≡ ok false) (sym r) k in ground arith in
      sym (
        matches-twin hs (depth n) t p (length s) e cand (at-append s (cand ∷ []) p at_p)
          (at-new s cand) other (λ r. omega (arith, low)))
      ∙ matches-append hs (depth n) s (cand ∷ []) p e false k

  all_missed :
      (s : Store) (cand : Btype) (p : ℕ) (es : List ℕ)
      → is_set cand.shape ≡ true
      → at s p ≡ ok cand
      → All (λ e. matches hs (depth n) s p e ≡ ok false) es
      → All (λ e. matches hs (depth n) (s ++ (cand ∷ [])) (length s) e ≡ ok false) es
  all_missed s cand p [] set at_p h = tt
  all_missed s cand p (e ∷ es) set at_p h =
      (still_missed s cand p e set at_p h.0, all_missed s cand p es set at_p h.1)

  -- A candidate that was missed, and has been installed, is found again.
  pub find_candidate-installed :
      (m m₁ : TypeManager) (cand : Btype)
      → is_set cand.shape ≡ true
      → find_candidate hs (depth n) m cand ≡ ok none
      → m₁.types ≡ (new m cand).types
      → m₁.anon_types ≡ m.anon_types ++ (length m.types ∷ [])
      → find_candidate hs (depth n) m₁ cand ≡ ok (some (length m.types))
  unfolding find_candidate
  find_candidate-installed m m₁ cand set miss types anon =
      let s = m.types ++ (cand ∷ []) in
      let p = length m.types in
      let at_p = at-new m.types cand in
      let found =
        find_last hs (depth n) (s ++ (cand ∷ [])) (length s) m.anon_types p
          (all_missed s cand p m.anon_types set at_p (find_none hs (depth n) s p m.anon_types miss))
          (matches_new (s ++ (cand ∷ [])) cand p (length s) set (at-append s (cand ∷ []) p at_p)
            (at-new s cand)) in
      rw (types, anon) found
