-- ===== src/Bnode/Clone.antt =====
-- What `cloneSubtree` of llvm-gofrontend/go-llvm-bnode.cpp makes.
use dragongo.Common.{
  ℕ, zero, suc, ◌+◌, ◌≤◌, ◌≡◌, ◌⊎◌, inl, inr, refl, sym, ap, ◌∙◌, subst, ◌++◌, append-nil,
  append_assoc, true, false, Option, none, some, List, [], ◌∷◌, arith, if◌then◌else◌, assert,
  >>=-eq-some, of_some, Bool-cases, Option-cases, length, length-append, get_elem?,
  get_elem?-append_left, get_elem?-append_length, get_elem?-lt,
}
use dragongo.Bnode.{
  inst_is, Value, instruction, constant, Bnode, is_stmt, Arena, node_at, own_value,
  clone_instructions, cloned, clone_node, clone_kids, clone_subtree,
}

-- The node's own data, the children apart.
pub record SameNode (n n' : Bnode) : Type 0 where
  pub flavor : n'.flavor ≡ n.flavor
  pub value : n'.value ≡ n.value
  pub btype : n'.btype ≡ n.btype
  pub payload : n'.payload ≡ n.payload
  pub instructions : length n'.instructions ≡ length n.instructions

abbrev pub AllPairs : (ℕ → ℕ → Type 0) → List ℕ → List ℕ → Type 0
AllPairs R [] [] = Unit {0}
AllPairs R (x ∷ xs) (y ∷ ys) = R x y × AllPairs R xs ys
AllPairs R _ _ = ⊥

-- A copy of a tree: nodes with the same data and copies as children, all at addresses from `from` on.
abbrev pub IsCopy : ℕ → ℕ → List Bnode → ℕ → ℕ → Type 0
IsCopy zero from nodes a a' = ⊥
IsCopy (suc fuel) from nodes a a' =
    (n : Bnode) × (n' : Bnode) × (get_elem? nodes a ≡ some n)
    × (get_elem? nodes a' ≡ some n')
    × (from ≤ a')
    × SameNode n n'
    × AllPairs (IsCopy fuel from nodes) n.kids n'.kids

-- The arena only grows.
abbrev pub Grows : Arena → Arena → Type 0
Grows ar ar' = (more : List Bnode) × (ar'.nodes ≡ ar.nodes ++ more)

pub Grows-trans : (ar ar₁ ar₂ : Arena) → Grows ar ar₁ → Grows ar₁ ar₂ → Grows ar ar₂
Grows-trans ar ar₁ ar₂ (more, e) (more', e') =
    (more ++ more', e' ∙ ap (λ l. l ++ more') e ∙ append_assoc ar.nodes more more')

inst_is_sound : (iv : Option Value) (i : ℕ) → inst_is iv i ≡ true → some (instruction i) ≡ iv
inst_is_sound (some (instruction j)) i h = ground arith
inst_is_sound (some (constant j)) i h = absurd (ground arith)
inst_is_sound none i h = absurd (ground arith)

own_value_lem :
    (iv newv : Option Value) (is : List ℕ) {r : Option Value}
    → own_value iv is newv ≡ some r
    → (newv ≡ none) ⊎ (newv ≡ iv)
    → (r ≡ none) ⊎ (r ≡ iv)
unfolding own_value
own_value_lem iv newv [] e h = subst (λ k. (k ≡ none) ⊎ (k ≡ iv)) (of_some e) h
own_value_lem iv newv (i ∷ is) e h = elim (Bool-cases (inst_is iv i)) [
  | inr b ↦ own_value_lem iv newv is (rw b at e) h
  | inl b ↦ elim (Option-cases newv) [
    | inr (v, some') ↦ absurd (ground arith)
    | inl gone ↦
        own_value_lem iv (some (instruction i)) is (rw (b, gone) at e) (inr (inst_is_sound iv i b))
  ]
]

length-clone_instructions :
    (next : ℕ) (is : List ℕ) → length (clone_instructions next is) ≡ length is
unfolding clone_instructions
length-clone_instructions next [] = refl
length-clone_instructions next (i ∷ is) = ap suc (length-clone_instructions (next + 1) is)

cloned-SameNode :
    (n : Bnode) (kids : List ℕ) (id insts : ℕ) (newv : Option Value)
    → (newv ≡ none) ⊎ (newv ≡ n.value)
    → SameNode n (cloned n kids id insts newv)
unfolding cloned
cloned-SameNode n kids id insts newv h = record {
  flavor = refl;
  value = ground arith;
  btype = refl;
  payload = refl;
  instructions = length-clone_instructions insts n.instructions;
}

-- The new node stands at the end of the arena.
pub clone_node_lem :
    (n : Bnode) (kids : List ℕ) (ar : Arena) {a' : ℕ} {ar' : Arena}
    → clone_node n kids ar ≡ some (a', ar')
    → (n' : Bnode) × (ar'.nodes ≡ ar.nodes ++ (n' ∷ []))
      × (a' ≡ length ar.nodes)
      × (n'.kids ≡ kids)
      × (n'.instructions ≡ clone_instructions ar.insts n.instructions)
      × SameNode n n'
unfolding clone_node cloned
clone_node_lem n kids ar e =
    let (newv, own, done) = >>=-eq-some (own_value n.value n.instructions none) _ e in
    let kept = own_value_lem n.value none n.instructions own (inl refl) in
    let made = of_some done in
    (
      cloned n kids (length ar.earchive) ar.insts newv,
      sym (ap (λ (r : ℕ × Arena). r.1.nodes) made),
      sym (ap (λ (r : ℕ × Arena). r.0) made),
      refl,
      refl,
      cloned-SameNode n kids (length ar.earchive) ar.insts newv kept,
    )

AllPairs-mono :
    (R S : ℕ → ℕ → Type 0) (xs ys : List ℕ)
    → ((x y : ℕ) → R x y → S x y)
    → AllPairs R xs ys
    → AllPairs S xs ys
AllPairs-mono R S [] [] h r = tt
AllPairs-mono R S [] (y ∷ ys) h r = absurd r
AllPairs-mono R S (x ∷ xs) [] h r = absurd r
AllPairs-mono R S (x ∷ xs) (y ∷ ys) h r = (h x y r.0, AllPairs-mono R S xs ys h r.1)

pub found_grown :
    (nodes more : List Bnode) (a : ℕ) (n : Bnode)
    → get_elem? nodes a ≡ some n
    → get_elem? (nodes ++ more) a ≡ some n
found_grown nodes more a n e = get_elem?-append_left nodes more a (get_elem?-lt nodes a e) ∙ e

-- A copy stays one in a larger arena and from a smaller address.
IsCopy-grown :
    (fuel from from' : ℕ) (nodes more : List Bnode) (a a' : ℕ)
    → from' ≤ from
    → IsCopy fuel from nodes a a'
    → IsCopy fuel from' (nodes ++ more) a a'
IsCopy-grown zero from from' nodes more a a' le c = absurd c
IsCopy-grown (suc fuel) from from' nodes more a a' le (n, n', at, at', fresh, same, kids) = (
  n,
  n',
  found_grown nodes more a n at,
  found_grown nodes more a' n' at',
  omega arith,
  same,
  AllPairs-mono (IsCopy fuel from nodes) (IsCopy fuel from' (nodes ++ more)) n.kids n'.kids
      (λ x y c. IsCopy-grown fuel from from' nodes more x y le c) kids,
)

abbrev Copies : ℕ → Arena → ℕ → ℕ → Arena → Type 0
Copies fuel ar a a' ar' = Grows ar ar' × IsCopy fuel (length ar.nodes) ar'.nodes a a'

abbrev KidsCopied : ℕ → Arena → List ℕ → List ℕ → Arena → Type 0
KidsCopied fuel ar ks ks' ar' =
    Grows ar ar' × AllPairs (IsCopy fuel (length ar.nodes) ar'.nodes) ks ks'

Grows-le : (ar ar' : Arena) → Grows ar ar' → length ar.nodes ≤ length ar'.nodes
Grows-le ar ar' (more, e) = omega (arith, ap length e, length-append ar.nodes more)

IsCopy-later :
    (fuel : ℕ) (ar ar' : Arena) (from from' a a' : ℕ)
    → Grows ar ar'
    → from' ≤ from
    → IsCopy fuel from ar.nodes a a'
    → IsCopy fuel from' ar'.nodes a a'
IsCopy-later fuel ar ar' from from' a a' (more, e) le c =
    subst (λ l. IsCopy fuel from' l a a') (sym e)
      (IsCopy-grown fuel from from' ar.nodes more a a' le c)

kids_copied :
    (fuel : ℕ) (ar ar₁ ar₂ : Arena) (k k' : ℕ) (ks ks' : List ℕ)
    → Copies fuel ar k k' ar₁
    → KidsCopied fuel ar₁ ks ks' ar₂
    → KidsCopied fuel ar (k ∷ ks) (k' ∷ ks') ar₂
kids_copied fuel ar ar₁ ar₂ k k' ks ks' (grown, copy) (grown', copies) = (
  Grows-trans ar ar₁ ar₂ grown grown',
  (
    IsCopy-later fuel ar₁ ar₂ (length ar.nodes) (length ar.nodes) k k' grown' (omega arith) copy,
    AllPairs-mono (IsCopy fuel (length ar₁.nodes) ar₂.nodes)
        (IsCopy fuel (length ar.nodes) ar₂.nodes) ks ks'
        (λ x y c.
          IsCopy-later fuel ar₂ ar₂ (length ar₁.nodes) (length ar.nodes) x y
            ([], sym (append-nil ar₂.nodes)) (Grows-le ar ar₁ grown) c)
        copies,
  ),
)

node_copied :
    (fuel a : ℕ) (ar ar₁ ar' : Arena) (n n' : Bnode) (a' : ℕ)
    → get_elem? ar.nodes a ≡ some n
    → KidsCopied fuel ar n.kids n'.kids ar₁
    → ar'.nodes ≡ ar₁.nodes ++ (n' ∷ [])
    → a' ≡ length ar₁.nodes
    → SameNode n n'
    → Copies (suc fuel) ar a a' ar'
node_copied fuel a ar ar₁ ar' n n' a' at ((more, e), kids) added at_end same =
    let grown₁ : Grows ar₁ ar' = (n' ∷ [], added) in
    let grown = Grows-trans ar ar₁ ar' (more, e) grown₁ in
    let old : get_elem? ar'.nodes a ≡ some n =
      subst (λ l. get_elem? l a ≡ some n) (sym grown.1) (found_grown ar.nodes grown.0 a n at) in
    let new : get_elem? ar'.nodes a' ≡ some n' =
      rw (added, at_end) (get_elem?-append_length ar₁.nodes [] n') in
    (
      grown,
      (
        n,
        n',
        old,
        new,
        omega (arith, Grows-le ar ar₁ (more, e)),
        same,
        AllPairs-mono (IsCopy fuel (length ar.nodes) ar₁.nodes)
            (IsCopy fuel (length ar.nodes) ar'.nodes) n.kids n'.kids
            (λ x y c.
              IsCopy-later fuel ar₁ ar' (length ar.nodes) (length ar.nodes) x y grown₁ (omega arith)
                c)
            kids,
      ),
    )

clone_kids_lem :
    (clone : ℕ → Arena → Option (ℕ × Arena)) (fuel : ℕ) (ks : List ℕ) (ar : Arena) {ks' : List ℕ}
    {ar' : Arena}
    → ((k : ℕ) (ar₁ : Arena) (k' : ℕ) (ar₂ : Arena)
        → clone k ar₁ ≡ some (k', ar₂)
        → Copies fuel ar₁ k k' ar₂)
    → clone_kids clone ks ar ≡ some (ks', ar')
    → KidsCopied fuel ar ks ks' ar'
unfolding clone_kids
clone_kids_lem clone fuel [] ar each e =
    subst (λ (r : List ℕ × Arena). KidsCopied fuel ar [] r.0 r.1) (of_some e)
      (([], sym (append-nil ar.nodes)), tt)
clone_kids_lem clone fuel (k ∷ ks) ar each e =
    let ((k', ar₁), first, e₁) = >>=-eq-some (clone k ar) _ e in
    let ((ks₁, ar₂), rest, e₂) = >>=-eq-some (clone_kids clone ks ar₁) _ e₁ in
    subst (λ (r : List ℕ × Arena). KidsCopied fuel ar (k ∷ ks) r.0 r.1) (of_some e₂)
      (kids_copied fuel ar ar₁ ar₂ k k' ks ks₁ (each k ar k' ar₁ first)
        (clone_kids_lem clone fuel ks ar₁ each rest))

-- Cloning an expression adds nodes to the arena and changes none: the result is a copy of the whole
-- tree, with the same flavours, types and values and as many instructions in each node, all of it
-- at new addresses.
pub clone_subtree-IsCopy :
    (fuel a : ℕ) (ar : Arena) (a' : ℕ) (ar' : Arena)
    → clone_subtree fuel a ar ≡ some (a', ar')
    → Grows ar ar' × IsCopy fuel (length ar.nodes) ar'.nodes a a'
unfolding clone_subtree
clone_subtree-IsCopy zero a ar a' ar' e = ground arith
clone_subtree-IsCopy (suc fuel) a ar a' ar' e =
    let (n, at, e₁) = >>=-eq-some (node_at ar a) _ e in
    let (_, _, e₂) = >>=-eq-some (assert (if is_stmt n then false else true)) _ e₁ in
    let ((ks, ar₁), below, e₃) = >>=-eq-some (clone_kids (clone_subtree fuel) n.kids ar) _ e₂ in
    let (n', grown, at_end, kids, _, same) = clone_node_lem n ks ar₁ e₃ in
    node_copied fuel a ar ar₁ ar' n n' a' at
      (subst (λ l. KidsCopied fuel ar n.kids l ar₁) (sym kids)
        (clone_kids_lem (clone_subtree fuel) fuel n.kids ar
          (λ k ar₂ k' ar₃ h. clone_subtree-IsCopy fuel k ar₂ k' ar₃ h) below))
      grown at_end same
