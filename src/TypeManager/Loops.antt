-- ===== src/TypeManager/Loops.antt =====
-- Loops of circular pointer types in go-llvm-typemanager.cpp, from the marker to the closing link.
use dragongo.Common.{
  ℕ, ◌+◌, true, false, some, List, [], ◌∷◌, ◌++◌, ◌≡◌, refl, sym, subst, ◌∙◌, arith, ◌==◌,
  Bool-cases, Option-cases, inl, inr, ap, All, append-nil, append_assoc,
}
use dragongo.Common.Run.{ok, >>=-eq-ok, assert}
use dragongo.TypeManager.{Llvm, TypeManager, lookup, insert_at}
use dragongo.TypeManager.Make.{make_aux_type}
use dragongo.TypeManager.Circular.{
  is_empty, back, second_or_first, close_loop, follow_from, follow_loop, new_circular_pointer_type,
  circular_pointer_type, circular_type_load_conversion, circular_type_addr_conversion,
}

lookup-insert_at {ℓ} :
    {A : Type ℓ} (k : ℕ) (v : A) (m : List (ℕ × A)) → lookup k (insert_at k v m) ≡ some v
unfolding lookup insert_at
lookup-insert_at k v [] = let e : (k == k) ≡ true = ground arith in rw e refl
lookup-insert_at k v ((j, w) ∷ m) = elim (Bool-cases (k == j)) [
  | inl e ↦ let r : (k == k) ≡ true = ground arith in rw (e, r) refl
  | inr e ↦ rw (e, e) (lookup-insert_at k v m)
]

lookup-insert_other {ℓ} :
    {A : Type ℓ} (k j : ℕ) (v : A) (m : List (ℕ × A))
    → (j == k) ≡ false
    → lookup j (insert_at k v m) ≡ lookup j m
unfolding lookup insert_at
lookup-insert_other k j v [] h = rw h refl
lookup-insert_other k j v ((i, w) ∷ m) h = elim (Bool-cases (k == i)) [
  | inl e ↦ let r : (j == i) ≡ false = ground arith in rw (e, h, r) refl
  | inr e ↦ elim (Bool-cases (j == i)) [
    | inl f ↦ rw (e, f) refl
    | inr f ↦ rw (e, f) (lookup-insert_other k j v m h)
  ]
]

-- Two keys that are given the same value.
both_found {ℓ} :
    {A : Type ℓ} (j k : ℕ) (v : A) (m : List (ℕ × A))
    → (lookup j (insert_at j v (insert_at k v m)) ≡ some v)
      × (lookup k (insert_at j v (insert_at k v m)) ≡ some v)
both_found j k v m = (
  lookup-insert_at j v (insert_at k v m),
  elim (Bool-cases (k == j)) [
    | inl e ↦
        let same : k ≡ j = ground arith in
        subst (λ i. lookup i (insert_at j v (insert_at k v m)) ≡ some v) (sym same)
          (lookup-insert_at j v (insert_at k v m))
    | inr e ↦ lookup-insert_other j k v (insert_at k v m) e ∙ lookup-insert_at k v m
  ],
)

-- The redirections that happen while a loop is followed, in their order.
abbrev pub follow_all : TypeManager → List (ℕ × ℕ) → TypeManager
follow_all m [] = m
follow_all m ((placeholder, to) ∷ links) = follow_all (follow_loop m placeholder to) links

-- Redirections that do not reach the marker only make the loop longer.
follow_all-loop :
    (m : TypeManager) (p : ℕ × ℕ) (ps links : List (ℕ × ℕ))
    → m.circular_pointer_loop ≡ p ∷ ps
    → All (λ (l : ℕ × ℕ). (l.1 == p.1) ≡ false) links
    → (follow_all m links).circular_pointer_loop ≡ p ∷ (ps ++ links)
unfolding follow_loop follow_from
follow_all-loop m p ps [] h far = rw append-nil h
follow_all-loop m p ps ((placeholder, to) ∷ links) h far =
    let m₁ = follow_loop m placeholder to in
    let longer : m₁.circular_pointer_loop ≡ p ∷ (ps ++ ((placeholder, to) ∷ [])) =
      rw (h, far.0) refl in
    follow_all-loop m₁ p (ps ++ ((placeholder, to) ∷ [])) links longer far.1
    ∙ ap (λ l. p ∷ l) (append_assoc ps ((placeholder, to) ∷ []) links)

-- What a loop that has been closed says about conversions.
pub record IsClosed (m : TypeManager) (marker closing : ℕ) (p : ℕ × ℕ) (links : List (ℕ × ℕ))
    : Type 0 where
  pub over : m.circular_pointer_loop ≡ []
  pub load_closing : circular_type_load_conversion m closing ≡ some (back p links).1
  pub load_marker : circular_type_load_conversion m marker ≡ some (back p links).1
  pub addr_placeholder : circular_type_addr_conversion m (second_or_first p links).0 ≡ some marker
  pub addr_target : circular_type_addr_conversion m (second_or_first p links).1 ≡ some marker

close_loop-IsClosed :
    (m : TypeManager) (placeholder to : ℕ) (p : ℕ × ℕ) (ps : List (ℕ × ℕ))
    → IsClosed (close_loop m placeholder to p ps) to placeholder p ps
unfolding close_loop circular_type_load_conversion circular_type_addr_conversion
close_loop-IsClosed m placeholder to p ps =
    let ad = second_or_first p ps in
    let (l₁, l₂) = both_found placeholder to (back p ps).1 m.circular_load_map in
    let (a₁, a₂) = both_found ad.1 ad.0 to m.circular_addr_map in
    record {
      over = refl;
      load_closing = l₁;
      load_marker = l₂;
      addr_placeholder = a₂;
      addr_target = a₁;
    }

-- The loop of a circular pointer type: once the marker is made for `first`, any redirections that
-- do not lead to the marker keep the loop open, and the first one that does closes it. Then the
-- marker and the placeholder that led back to it are loaded as the target of the last redirection,
-- and taking the address of the second pair of the loop (of the first, if it is alone) gives the
-- marker.
pub follow_loop-IsClosed :
    (m : TypeManager) (first marker placeholder : ℕ) (links : List (ℕ × ℕ))
    → m.circular_pointer_loop ≡ (first, marker) ∷ []
    → All (λ (l : ℕ × ℕ). (l.1 == marker) ≡ false) links
    → IsClosed
        (follow_loop (follow_all m links) placeholder marker)
        marker
        placeholder
        (first, marker)
        links
unfolding follow_loop follow_from
follow_loop-IsClosed m first marker placeholder links h far =
    let open_loop = follow_all-loop m (first, marker) [] links h far in
    let here : (marker == marker) ≡ true = ground arith in
    rw (open_loop, here)
      (close_loop-IsClosed (follow_all m links) placeholder marker (first, marker) links)

make_aux_type-map :
    (m : TypeManager) (t : ℕ)
    → ((make_aux_type m t).1.circular_pointer_type_map ≡ m.circular_pointer_type_map)
      × ((make_aux_type m t).1.error_type ≡ m.error_type)
unfolding make_aux_type
make_aux_type-map m t = elim (Option-cases (lookup t m.aux_type_map)) [
  | inl e ↦ rw (e, make_aux_type) (refl, refl)
  | inr (a, e) ↦ rw (e, make_aux_type) (refl, refl)
]

new_marker :
    (lv : Llvm) (m m₁ : TypeManager) (placeholder a : ℕ)
    → new_circular_pointer_type lv m placeholder ≡ ok (a, m₁)
    → (lookup placeholder m₁.circular_pointer_type_map ≡ some a) × (m₁.error_type ≡ m.error_type)
unfolding new_circular_pointer_type
new_marker lv m m₁ placeholder a e =
    let t = lv.pointer_to (lv.identified m.identified_count) in
    let m₀ = record m { identified_count = m.identified_count + 1 } in
    let made = make_aux_type m₀ t in
    let (maps, errors) = make_aux_type-map m₀ t in
    let (u, f, e₁) = >>=-eq-ok (assert (is_empty made.1.circular_pointer_loop)) _ e in
    let address : made.0 ≡ a = ground arith in
    let state : m₁ ≡ record made.1 {
      circular_pointer_types = t ∷ made.1.circular_pointer_types;
      circular_pointer_type_map = insert_at placeholder made.0 made.1.circular_pointer_type_map;
      circular_pointer_loop = (placeholder, made.0) ∷ [];
    } =
      ground arith in
    (
      ap (λ (k : TypeManager). lookup placeholder k.circular_pointer_type_map) state
          ∙ lookup-insert_at placeholder made.0 made.1.circular_pointer_type_map
          ∙ ap some address,
      ap (λ (k : TypeManager). k.error_type) state ∙ errors,
    )

-- Asking for the marker of the same placeholder again gives the same marker and changes nothing.
pub circular_pointer_type_again :
    (lv : Llvm) (m m₁ : TypeManager) (placeholder a : ℕ)
    → circular_pointer_type lv m placeholder ≡ ok (a, m₁)
    → circular_pointer_type lv m₁ placeholder ≡ ok (a, m₁)
unfolding circular_pointer_type new_circular_pointer_type
circular_pointer_type_again lv m m₁ placeholder a e =
    elim (Bool-cases (placeholder == m.error_type)) [
      | inl err ↦
          let k = rw err at e in
          let same : m ≡ m₁ = ground arith in
          subst (λ t. circular_pointer_type lv t placeholder ≡ ok (a, m₁)) same e
      | inr ne ↦ elim (Option-cases (lookup placeholder m.circular_pointer_type_map)) [
        | inr (b, n) ↦
            let k = rw (ne, n) at e in
            let same : m ≡ m₁ = ground arith in
            subst (λ t. circular_pointer_type lv t placeholder ≡ ok (a, m₁)) same e
        | inl n ↦
            let (found, error) = new_marker lv m m₁ placeholder a (rw (ne, n) at e) in
            let ne₁ = subst (λ d. (placeholder == d) ≡ false) (sym error) ne in rw (ne₁, found) refl
      ]
    ]
