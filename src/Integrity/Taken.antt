-- ===== src/Integrity/Taken.antt =====
-- One use recorded by llvm-gofrontend/go-llvm-tree-integrity.cpp: taken, or counted as shared.
use dragongo.Common.{
  ℕ, ◌+◌, ◌^◌, ◌<◌, ◌≡◌, ◌≢◌, ◌⊎◌, inl, inr, refl, sym, ap, ◌∙◌, subst, Bool, true, false, Option,
  some, List, [], ◌∷◌, arith, ◌==◌, ==_iff, of_some, Bool-cases, Option-cases, All,
}
use dragongo.Integrity.{
  Parslot, TreeIntegCtl, IntegrityVisitor, ValueExprmap, find, same_slot, set_tracked_parent,
  set_inst_parent,
}
use dragongo.Integrity.Uses.{Use, node_use, inst_use, record_use}

-- The uses of one node, or of one instruction.
unfoldable pub same_key : Use → Use → Bool
same_key (node_use _ c _) (node_use _ d _) = c == d
same_key (inst_use i _) (inst_use j _) = i == j
same_key _ _ = false

abbrev pub place : Use → Parslot
place (node_use _ _ ps) = ps
place (inst_use _ ps) = ps

-- Two uses of one node, or of one instruction, are in the same place.
abbrev pub Agree : Use → Use → Type 0
Agree u v = same_key u v ≡ true → place u ≡ place v

-- No node and no instruction is used in two places.
abbrev pub OneParent : List Use → Type 0
OneParent [] = Unit {0}
OneParent (u ∷ us) = All (Agree u) us × OneParent us

abbrev pub total : IntegrityVisitor → ℕ
total vis = vis.inst_share_count + vis.stmt_share_count + vis.expr_share_count

abbrev pub lookup : IntegrityVisitor → Use → Option Parslot
lookup vis (node_use _ c _) = find vis.nparent c
lookup vis (inst_use i _) = find vis.iparent i

-- The visitor knows no other place of what is used.
abbrev pub Seen : IntegrityVisitor → Use → Type 0
Seen vis u = (qs : Parslot) → lookup vis u ≡ some qs → qs ≡ place u

same_slot_sound : (a b : Parslot) → same_slot a b ≡ true → a ≡ b
same_slot_sound (p, s) (q, t) h = ground arith

same_slot_refl : (a : Parslot) → same_slot a a ≡ true
same_slot_refl (p, s) = ground arith

-- The visitor after a use of a new place, after one of a known place, and after another one.
pub record Taken (u : Use) (vis vis' : IntegrityVisitor) : Type 0 where
  pub seen : Seen vis u
  pub kept : total vis' ≡ total vis
  pub known : (v : Use) → same_key u v ≡ true → lookup vis' v ≡ some (place u)
  pub others : (v : Use) → same_key u v ≡ false → lookup vis' v ≡ lookup vis v

pub record Shared (u : Use) (vis vis' : IntegrityVisitor) : Type 0 where
  pub other : (qs : Parslot) × (lookup vis u ≡ some qs) × (qs ≢ place u)
  pub counted : total vis + 1 < 2 ^ 32 → total vis' ≡ total vis + 1

abbrev entered : ℕ → Parslot → IntegrityVisitor → IntegrityVisitor
entered c ps vis = record vis { nparent = (c, ps) ∷ vis.nparent }

abbrev inst_entered : ℕ → Parslot → IntegrityVisitor → IntegrityVisitor
inst_entered i ps vis = record vis { iparent = (i, ps) ∷ vis.iparent }

entered_known :
    (stmt : Bool) (c : ℕ) (ps : Parslot) (vis : IntegrityVisitor) (v : Use)
    → same_key (node_use stmt c ps) v ≡ true
    → lookup (entered c ps vis) v ≡ some ps
unfolding same_key find
entered_known stmt c ps vis (node_use b d qs) h = rw h refl
entered_known stmt c ps vis (inst_use j qs) h = absurd (ground arith)

entered_others :
    (stmt : Bool) (c : ℕ) (ps : Parslot) (vis : IntegrityVisitor) (v : Use)
    → same_key (node_use stmt c ps) v ≡ false
    → lookup (entered c ps vis) v ≡ lookup vis v
unfolding same_key find
entered_others stmt c ps vis (node_use b d qs) h = rw h refl
entered_others stmt c ps vis (inst_use j qs) h = refl

inst_entered_known :
    (i : ℕ) (ps : Parslot) (vis : IntegrityVisitor) (v : Use)
    → same_key (inst_use i ps) v ≡ true
    → lookup (inst_entered i ps vis) v ≡ some ps
unfolding same_key find
inst_entered_known i ps vis (inst_use j qs) h = rw h refl
inst_entered_known i ps vis (node_use b d qs) h = absurd (ground arith)

inst_entered_others :
    (i : ℕ) (ps : Parslot) (vis : IntegrityVisitor) (v : Use)
    → same_key (inst_use i ps) v ≡ false
    → lookup (inst_entered i ps vis) v ≡ lookup vis v
unfolding same_key find
inst_entered_others i ps vis (inst_use j qs) h = rw h refl
inst_entered_others i ps vis (node_use b d qs) h = refl

pub lookup-same_key :
    (vis : IntegrityVisitor) (u v : Use) → same_key u v ≡ true → lookup vis v ≡ lookup vis u
unfolding same_key
lookup-same_key vis (node_use a c ps) (node_use b d qs) h =
    ap (find vis.nparent) (sym ((==_iff c d).0 h))
lookup-same_key vis (inst_use i ps) (inst_use j qs) h =
    ap (find vis.iparent) (sym ((==_iff i j).0 h))
lookup-same_key vis (node_use a c ps) (inst_use j qs) h = absurd (ground arith)
lookup-same_key vis (inst_use i ps) (node_use b d qs) h = absurd (ground arith)

same-Taken : (u : Use) (vis : IntegrityVisitor) → lookup vis u ≡ some (place u) → Taken u vis vis
same-Taken u vis e = record {
  seen = λ qs h. of_some (sym h ∙ e);
  kept = refl;
  known = λ v h. lookup-same_key vis u v h ∙ e;
  others = λ v h. refl;
}

module _ (scope : ValueExprmap) (ctl : TreeIntegCtl) where
  counted_node :
      (stmt : Bool) (c p s : ℕ) (qs : Parslot) (vis : IntegrityVisitor)
      → find vis.nparent c ≡ some qs
      → same_slot qs (p, s) ≡ false
      → total vis + 1 < 2 ^ 32
      → total (set_tracked_parent scope ctl stmt c p s vis) ≡ total vis + 1
  unfolding set_tracked_parent
  counted_node true c p s qs vis e b small = rw (e, set_tracked_parent) (rw b (omega arith))
  counted_node false c p s qs vis e b small = rw (e, set_tracked_parent) (rw b (omega arith))

  counted_inst :
      (i p s : ℕ) (qs : Parslot) (vis : IntegrityVisitor)
      → find vis.iparent i ≡ some qs
      → same_slot qs (p, s) ≡ false
      → total vis + 1 < 2 ^ 32
      → total (set_inst_parent scope ctl i p s vis) ≡ total vis + 1
  unfolding set_inst_parent
  counted_inst i p s qs vis e b small = rw (e, set_inst_parent) (rw b (omega arith))

  -- Recording a use takes it or counts it as shared.
  pub record_use-Taken :
      (u : Use) (vis : IntegrityVisitor)
      → Taken u vis (record_use scope ctl u vis) ⊎ Shared u vis (record_use scope ctl u vis)
  unfolding record_use set_tracked_parent set_inst_parent
  record_use-Taken (node_use stmt c (p, s)) vis = elim (Option-cases (find vis.nparent c)) [
    | inl e ↦
        let same : set_tracked_parent scope ctl stmt c p s vis ≡ entered c (p, s) vis =
          rw (e, set_tracked_parent) refl in
        inl (
          subst (Taken (node_use stmt c (p, s)) vis) (sym same) (record {
            seen = λ qs h. ground arith;
            kept = refl;
            known = entered_known stmt c (p, s) vis;
            others = entered_others stmt c (p, s) vis;
          }))
    | inr (qs, e) ↦ elim (Bool-cases (same_slot qs (p, s))) [
      | inl b ↦
          let same : set_tracked_parent scope ctl stmt c p s vis ≡ vis =
            rw (e, set_tracked_parent) (rw b refl) in
          inl (
            subst (Taken (node_use stmt c (p, s)) vis) (sym same)
              (same-Taken (node_use stmt c (p, s)) vis (e ∙ ap some (same_slot_sound qs (p, s) b))))
      | inr b ↦ inr (record {
        other = (qs, e, λ same. ground (arith, same_slot_refl qs));
        counted = counted_node stmt c p s qs vis e b;
      })
    ]
  ]
  record_use-Taken (inst_use i (p, s)) vis = elim (Option-cases (find vis.iparent i)) [
    | inl e ↦
        let same : set_inst_parent scope ctl i p s vis ≡ inst_entered i (p, s) vis =
          rw (e, set_inst_parent) refl in
        inl (
          subst (Taken (inst_use i (p, s)) vis) (sym same) (record {
            seen = λ qs h. ground arith;
            kept = refl;
            known = inst_entered_known i (p, s) vis;
            others = inst_entered_others i (p, s) vis;
          }))
    | inr (qs, e) ↦ elim (Bool-cases (same_slot qs (p, s))) [
      | inl b ↦
          let same : set_inst_parent scope ctl i p s vis ≡ vis =
            rw (e, set_inst_parent) (rw b refl) in
          inl (
            subst (Taken (inst_use i (p, s)) vis) (sym same)
              (same-Taken (inst_use i (p, s)) vis (e ∙ ap some (same_slot_sound qs (p, s) b))))
      | inr b ↦ inr (record {
        other = (qs, e, λ same. ground (arith, same_slot_refl qs));
        counted = counted_inst i p s qs vis e b;
      })
    ]
  ]
