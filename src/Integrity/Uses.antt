-- ===== src/Integrity/Uses.antt =====
-- The walk of llvm-gofrontend/go-llvm-tree-integrity.cpp as a list: every use of a tracked node by
-- its parent, and of an instruction by its expression, in the order of the walk.
use dragongo.Common.{
  ℕ, zero, suc, ◌+◌, ◌≡◌, refl, sym, ap, ◌∙◌, ◌++◌, append-nil, Bool, true, false, Option, none,
  some, List, [], ◌∷◌, arith, if◌then◌else◌, ◌>>=◌, >>=-eq-some, of_some,
}
use dragongo.Bnode.{Arena, Bnode, is_stmt, node_at}
use dragongo.Integrity.{
  Parslot, TreeIntegCtl, IntegrityVisitor, ValueExprmap, should_be_tracked, set_tracked_parent,
  set_parent, set_inst_parent, set_inst_parents, visit_kids, visit,
}

-- A node, with whether it is a statement, or an instruction, and where it is used.
pub data Use : Type 0 where
  node_use : Bool → ℕ → Parslot → Use
  inst_use : ℕ → Parslot → Use

unfoldable pub inst_uses : ℕ → ℕ → List ℕ → List Use
inst_uses parent idx [] = []
inst_uses parent idx (i ∷ is) = inst_use i (parent, idx) ∷ inst_uses parent (idx + 1) is

abbrev pub own_uses : Bnode → ℕ → List Use
own_uses n addr = if is_stmt n then [] else inst_uses addr 0 n.instructions

module _ (scope : ValueExprmap) (ctl : TreeIntegCtl) where
  unfoldable pub kid_uses : (ℕ → Option (List Use)) → Arena → ℕ → ℕ → List ℕ → Option (List Use)
  kid_uses uses_of ar parent idx [] = some []
  kid_uses uses_of ar parent idx (k ∷ ks) = do
    below ← uses_of k
    n ← node_at ar k
    tracked ← should_be_tracked scope ctl ar n
    rest ← kid_uses uses_of ar parent (idx + 1) ks
    some (below ++ ((if tracked then node_use (is_stmt n) k (parent, idx) ∷ [] else []) ++ rest))

  -- The uses in the tree of a node, on fuel.
  unfoldable pub uses : ℕ → Arena → ℕ → Option (List Use)
  uses zero ar addr = none
  uses (suc fuel) ar addr = do
    n ← node_at ar addr
    below ← kid_uses (uses fuel ar) ar addr 0 n.kids
    some (below ++ own_uses n addr)

  unfoldable pub record_use : Use → IntegrityVisitor → IntegrityVisitor
  record_use (node_use stmt c (p, s)) vis = set_tracked_parent scope ctl stmt c p s vis
  record_use (inst_use i (p, s)) vis = set_inst_parent scope ctl i p s vis

  unfoldable pub replay : List Use → IntegrityVisitor → IntegrityVisitor
  replay [] vis = vis
  replay (u ∷ us) vis = replay us (record_use u vis)

  pub replay-append :
      (us vs : List Use) (vis : IntegrityVisitor)
      → replay (us ++ vs) vis ≡ replay vs (replay us vis)
  unfolding replay
  replay-append [] vs vis = refl
  replay-append (u ∷ us) vs vis = replay-append us vs (record_use u vis)

  replay-inst_uses :
      (parent idx : ℕ) (is : List ℕ) (vis : IntegrityVisitor)
      → set_inst_parents scope ctl parent idx is vis ≡ replay (inst_uses parent idx is) vis
  unfolding replay inst_uses record_use set_inst_parents
  replay-inst_uses parent idx [] vis = refl
  replay-inst_uses parent idx (i ∷ is) vis =
      replay-inst_uses parent (idx + 1) is (set_inst_parent scope ctl i parent idx vis)

  kid_step :
      (n : Bnode) (k : ℕ) (ps : Parslot) (tracked : Bool) (below rest us : List Use)
      (vis : IntegrityVisitor)
      → below ++ ((if tracked then node_use (is_stmt n) k ps ∷ [] else []) ++ rest) ≡ us
      → replay rest (
          if tracked
          then set_tracked_parent scope ctl (is_stmt n) k ps.0 ps.1 (replay below vis)
          else replay below vis)
        ≡ replay us vis
  unfolding replay record_use
  kid_step n k ps true below rest us vis e =
      sym (replay-append below (node_use (is_stmt n) k ps ∷ rest) vis) ∙ ap (λ l. replay l vis) e
  kid_step n k ps false below rest us vis e =
      sym (replay-append below rest vis) ∙ ap (λ l. replay l vis) e

  own_step :
      (stmt : Bool) (is : List ℕ) (addr : ℕ) (below us : List Use) (vis : IntegrityVisitor)
      → below ++ (if stmt then [] else inst_uses addr 0 is) ≡ us
      → (if stmt then replay below vis else set_inst_parents scope ctl addr 0 is (replay below vis))
        ≡ replay us vis
  own_step true is addr below us vis e = ap (λ l. replay l vis) (sym (append-nil below) ∙ e)
  own_step false is addr below us vis e =
      replay-inst_uses addr 0 is (replay below vis)
      ∙ sym (replay-append below (inst_uses addr 0 is) vis)
      ∙ ap (λ l. replay l vis) e

  -- Visiting the children is replaying their uses, if that holds for each child.
  visit_kids-replay :
      (f : ℕ → IntegrityVisitor → Option IntegrityVisitor) (g : ℕ → Option (List Use)) (ar : Arena)
      (parent idx : ℕ) (ks : List ℕ) (vis : IntegrityVisitor) (us : List Use)
      → ((k : ℕ) (v : IntegrityVisitor) (below : List Use)
          → g k ≡ some below
          → f k v ≡ some (replay below v))
      → kid_uses g ar parent idx ks ≡ some us
      → visit_kids scope ctl f ar parent idx ks vis ≡ some (replay us vis)
  unfolding visit_kids kid_uses set_parent replay
  visit_kids-replay f g ar parent idx [] vis us each e = ap (λ l. some (replay l vis)) (of_some e)
  visit_kids-replay f g ar parent idx (k ∷ ks) vis us each e =
      let (below, e₁, r₁) = >>=-eq-some (g k) _ e in
      let (n, e₂, r₂) = >>=-eq-some (node_at ar k) _ r₁ in
      let (tracked, e₃, r₃) = >>=-eq-some (should_be_tracked scope ctl ar n) _ r₂ in
      let (rest, e₄, r₄) = >>=-eq-some (kid_uses g ar parent (idx + 1) ks) _ r₃ in
      rw (each k vis below e₁, e₂, e₃)
        (visit_kids-replay f g ar parent (idx + 1) ks _ rest each e₄
          ∙ ap some (kid_step n k (parent, idx) tracked below rest us vis (of_some r₄)))

  -- The walk does to the visitor what recording the uses one after the other does.
  pub visit-replay :
      (fuel : ℕ) (ar : Arena) (addr : ℕ) (vis : IntegrityVisitor) (us : List Use)
      → uses fuel ar addr ≡ some us
      → visit scope ctl fuel ar addr vis ≡ some (replay us vis)
  unfolding uses visit
  visit-replay zero ar addr vis us e = ground arith
  visit-replay (suc fuel) ar addr vis us e =
      let (n, e₁, r₁) = >>=-eq-some (node_at ar addr) _ e in
      let (below, e₂, r₂) = >>=-eq-some (kid_uses (uses fuel ar) ar addr 0 n.kids) _ r₁ in
      let step =
        visit_kids-replay (visit scope ctl fuel ar) (uses fuel ar) ar addr 0 n.kids vis below
          (λ k v b h. visit-replay fuel ar k v b h) e₂ in
      rw (e₁, step) (ap some (own_step (is_stmt n) n.instructions addr below us vis (of_some r₂)))
