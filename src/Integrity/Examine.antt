-- ===== src/Integrity/Examine.antt =====
-- What `examine` of llvm-gofrontend/go-llvm-tree-integrity.cpp answers.
use dragongo.Common.{
  ℕ, ◌^◌, ◌<◌, ◌≡◌, Bool, true, false, not, ◌||◌, some, List, [], ◌∷◌, arith, ◌==◌, if◌then◌else◌,
  All, length, ◌↔◌,
}
use dragongo.Bnode.{Arena}
use dragongo.Integrity.{TreeIntegCtl, IntegrityVisitor, new_visitor, ValueExprmap, examine, find}
use dragongo.Integrity.Uses.{Use, node_use, inst_use, uses, replay, visit-replay}
use dragongo.Integrity.Taken.{OneParent, total, Seen}
use dragongo.Integrity.Sharing.{replay_sound, replay_complete}

new-Seen : (us : List Use) → All (Seen new_visitor) us
unfolding new_visitor find
new-Seen [] = tt
new-Seen (node_use b c ps ∷ us) = ((λ qs e. ground arith), new-Seen us)
new-Seen (inst_use i ps ∷ us) = ((λ qs e. ground arith), new-Seen us)

-- The answer, by the counts after the walk.
abbrev answer : IntegrityVisitor → Bool
answer vis =
    if not (vis.inst_share_count == 0) || not (vis.stmt_share_count == 0)
    then false
    else vis.expr_share_count == 0

answer-total : (vis : IntegrityVisitor) → (answer vis ≡ true) ↔ (total vis ≡ 0)
answer-total vis = ground arith

module _ (scope : ValueExprmap) (ctl : TreeIntegCtl) where
  -- A tree without sharing passes the examination, with repairs or without, and stays as it is.
  -- Sharing is a node that is tracked, or an instruction, in two places of the tree; the tree is
  -- walked within the fuel.
  pub examine_unshared :
      (fuel : ℕ) (ar : Arena) (root : ℕ) (us : List Use)
      → uses scope ctl fuel ar root ≡ some us
      → OneParent us
      → examine scope ctl fuel ar root new_visitor ≡ some (true, ar)
  unfolding examine new_visitor
  examine_unshared fuel ar root us walked ones =
      let counts = replay_complete scope ctl us new_visitor (new-Seen us) ones in
      rw (visit-replay scope ctl fuel ar root new_visitor us walked) (ground (arith, counts))

  -- Without repairs, the examination fails exactly on sharing, and changes nothing: it answers true
  -- if and only if no tracked node and no instruction is in two places of the tree, for a tree that
  -- is walked within the fuel and has fewer than 2 ^ 32 such uses.
  pub examine_sharing :
      (fuel : ℕ) (ar : Arena) (root : ℕ) (us : List Use)
      → ctl.repair_sharing ≡ false
      → uses scope ctl fuel ar root ≡ some us
      → length us < 2 ^ 32
      → (b : Bool) × (examine scope ctl fuel ar root new_visitor ≡ some (b, ar))
        × ((b ≡ true) ↔ OneParent us)
  unfolding examine new_visitor
  examine_sharing fuel ar root us plain walked small =
      let vis = replay scope ctl us new_visitor in
      (
        answer vis,
        rw (visit-replay scope ctl fuel ar root new_visitor us walked) (ground (arith, plain)),
        (
          (λ yes.
              (replay_sound scope ctl us new_visitor (omega arith) ((answer-total vis).0 yes)).2),
          (λ ones.
              (answer-total vis).1 (replay_complete scope ctl us new_visitor (new-Seen us) ones)),
        ),
      )
