-- ===== src/Walker/Visits.antt =====
-- Which hooks the walkers of llvm-gofrontend/go-llvm-bnode.h call, in which order.
use dragongo.Common.{
  ℕ, zero, suc, ◌+◌, ◌≡◌, refl, sym, ap, ◌∙◌, inl, inr, Option, none, some, List, [], ◌∷◌, ◌++◌,
  ◌>>=◌, Option-cases,
}
use dragongo.Bnode.{Arena, node_at}
use dragongo.Walker.{
  VisitDisp, continue_walk, stop_walk, SimpleVisitor, UpdatingVisitor, Visited, simple_walk,
  update_kid, update_kids, update_walk, update_walk_nodes,
}
use dragongo.Walker.Same.{replace_if_same, updating, walk_same}

-- A call of a hook: on a node before and behind its children, on a child before and behind its walk.
pub data Visit : Type 0 where
  enters leaves : ℕ → Visit
  enters_child leaves_child : (parent child : ℕ) → Visit

-- The visits of the children of `parent`, with those that the walk of each makes.
unfoldable pub kid_visits : (ℕ → Option (List Visit)) → ℕ → List ℕ → Option (List Visit)
kid_visits below parent [] = some []
kid_visits below parent (k ∷ ks) = do
  inside ← below k
  rest ← kid_visits below parent ks
  some (enters_child parent k ∷ (inside ++ (leaves_child parent k ∷ rest)))

-- The visits of the tree at `node`, in preorder and postorder at once; none where the tree is deeper
-- than the fuel or a node is missing.
unfoldable pub visits : Arena → ℕ → ℕ → Option (List Visit)
visits ar zero node = none
visits ar (suc fuel) node = do
  n ← node_at ar node
  inside ← kid_visits (visits ar fuel) node n.kids
  some (enters node ∷ (inside ++ (leaves node ∷ [])))

module _ {S : Type 0} where
  -- One visit after the other.
  abbrev pub play : (Visit → S → Option S) → List Visit → S → Option S
  play on [] s = some s
  play on (e ∷ es) s = on e s >>= λ s₁. play on es s₁

  -- A hook that replaces nothing and lets the walk go on, in the arena `ar`.
  abbrev pub stays : ℕ → Arena → Option S → Option (Visited S)
  stays node ar o = o >>= λ s. some (continue_walk, node, s, ar)

  -- In `ar` every hook of the visitor replaces nothing and lets the walk go on, and `on` is what it
  -- does to the visitor's state.
  pub record Keeps (w : UpdatingVisitor S) (on : Visit → S → Option S) (ar : Arena) : Type 0 where
    pub node_pre :
        (node : ℕ) (s : S) → w.visit_node_pre node s ar ≡ stays node ar (on (enters node) s)
    pub child_pre :
        (parent child : ℕ) (s : S)
        → w.visit_child_pre parent child s ar ≡ stays child ar (on (enters_child parent child) s)
    pub child_post :
        (parent child : ℕ) (s : S)
        → w.visit_child_post parent child s ar ≡ stays child ar (on (leaves_child parent child) s)
    pub node_post :
        (node : ℕ) (s : S) → w.visit_node_post node s ar ≡ stays node ar (on (leaves node) s)

  -- All visits, where they can be listed.
  abbrev pub played : (Visit → S → Option S) → Option (List Visit) → S → Option S
  played on o s = o >>= λ es. play on es s

  abbrev kids_stay : Arena → Option S → Option (VisitDisp × S × Arena)
  kids_stay ar o = o >>= λ s. some (continue_walk, s, ar)

  play-append :
      (on : Visit → S → Option S) (es fs : List Visit) (s : S)
      → play on (es ++ fs) s ≡ (play on es s >>= λ s₁. play on fs s₁)
  play-append on [] fs s = refl
  play-append on (e ∷ es) fs s = elim (Option-cases (on e s)) [
    | inl gone ↦ rw gone refl
    | inr (s₁, there) ↦ rw there (play-append on es fs s₁)
  ]

  module _ (w : UpdatingVisitor S) (on : Visit → S → Option S) (ar : Arena)
      (keeps : Keeps w on ar) where
    kid_stays :
        (f : ℕ → S → Arena → Option (Visited S)) (g : ℕ → S → Option S) (node idx k : ℕ) (s : S)
        → ((s₁ : S) → f k s₁ ar ≡ stays k ar (g k s₁))
        → update_kid w f node idx k s ar
          ≡ kids_stay ar
              (on (enters_child node k) s >>= λ s₁. g k s₁ >>= λ s₂. on (leaves_child node k) s₂)
    unfolding update_kid
    kid_stays f g node idx k s each = elim (Option-cases (on (enters_child node k) s)) [
      | inl gone ↦ rw (keeps.child_pre node k s, gone) refl
      | inr (s₁, first) ↦ elim (Option-cases (g k s₁)) [
        | inl gone ↦
            rw (keeps.child_pre node k s, first, replace_if_same node idx k ar, each s₁, gone) refl
        | inr (s₂, second) ↦ elim (Option-cases (on (leaves_child node k) s₂)) [
          | inl gone ↦
              rw (keeps.child_pre node k s, first, replace_if_same node idx k ar, each s₁, second)
                (rw (replace_if_same node idx k ar) (rw (keeps.child_post node k s₂, gone) refl))
          | inr (s₃, third) ↦
              rw (keeps.child_pre node k s, first, replace_if_same node idx k ar, each s₁, second)
                (rw (replace_if_same node idx k ar) (
                  rw (keeps.child_post node k s₂, third) (rw (replace_if_same node idx k ar) refl)))
        ]
      ]
    ]

    nothing_behind : (o : Option S) → ◌≡◌ {A = Option S} none (o >>= λ s₃. none)
    nothing_behind none = refl
    nothing_behind (some s₃) = refl

    -- The visits of one child in a row with those of the others.
    played-kid :
        (below : Option (List Visit)) (rest : Option (List Visit)) (node k : ℕ) (s : S)
        → played on
            (below >>= λ inside. rest >>= λ more.
              some (enters_child node k ∷ (inside ++ (leaves_child node k ∷ more))))
            s
          ≡ ((on (enters_child node k) s >>= λ s₁.
                played on below s₁ >>= λ s₂. on (leaves_child node k) s₂)
              >>= λ s₃. played on rest s₃)
    played-kid none rest node k s = elim (Option-cases (on (enters_child node k) s)) [
      | inl gone ↦ rw gone refl
      | inr (s₁, first) ↦ rw first refl
    ]
    played-kid (some inside) none node k s = nothing_behind _
    played-kid (some inside) (some more) node k s =
        elim (Option-cases (on (enters_child node k) s)) [
          | inl gone ↦ rw gone refl
          | inr (s₁, first) ↦
              rw (first, play-append on inside (leaves_child node k ∷ more) s₁)
                (elim (Option-cases (play on inside s₁)) [
                  | inl gone ↦ rw gone refl
                  | inr (s₂, second) ↦ rw second refl
                ])
        ]

    kids_stay_on :
        (f : ℕ → S → Arena → Option (Visited S)) (below : ℕ → Option (List Visit)) (node idx : ℕ)
        (ks : List ℕ) (s : S)
        → ((k : ℕ) (s₁ : S) → f k s₁ ar ≡ stays k ar (played on (below k) s₁))
        → update_kids w f node idx ks s ar ≡ kids_stay ar (played on (kid_visits below node ks) s)
    unfolding update_kids kid_visits
    kids_stay_on f below node idx [] s each = refl
    kids_stay_on f below node idx (k ∷ ks) s each =
        rw
          (
            kid_stays f (λ j s₁. played on (below j) s₁) node idx k s (each k),
            played-kid (below k) (kid_visits below node ks) node k s,
          )
          (elim (Option-cases (
            on (enters_child node k) s >>= λ s₁.
            played on (below k) s₁ >>= λ s₂. on (leaves_child node k) s₂)) [
              | inl gone ↦ rw gone refl
              | inr (s₃, done) ↦ rw done (kids_stay_on f below node (idx + 1) ks s₃ each)
            ])

    played-node :
        (below : Option (List Visit)) (node : ℕ) (s : S)
        → played on (below >>= λ inside. some (enters node ∷ (inside ++ (leaves node ∷ [])))) s
          ≡ (on (enters node) s >>= λ s₁. played on below s₁ >>= λ s₂. on (leaves node) s₂)
    played-node none node s = nothing_behind (on (enters node) s)
    played-node (some inside) node s = elim (Option-cases (on (enters node) s)) [
      | inl gone ↦ rw gone refl
      | inr (s₁, first) ↦
          rw (first, play-append on inside (leaves node ∷ []) s₁)
            (elim (Option-cases (play on inside s₁)) [
              | inl gone ↦ rw gone refl
              | inr (s₂, second) ↦ rw second (last (on (leaves node) s₂))
            ])
    ]
      where
        last : (o : Option S) → (o >>= λ s₃. some s₃) ≡ o
        last none = refl
        last (some s₃) = refl

    -- The end of the walk over a node.
    leaves_node :
        (node : ℕ) (o : Option S)
        → (kids_stay ar o >>= λ x. elim x.0 as (λ _. Option (Visited S)) [
          | continue_walk ↦ w.visit_node_post node x.1 x.2
          | stop_walk ↦ some (stop_walk, node, x.1, x.2)
        ])
          ≡ stays node ar (o >>= λ s. on (leaves node) s)
    leaves_node node none = refl
    leaves_node node (some s) = keeps.node_post node s

    walk_stays :
        (fuel node : ℕ) (s : S)
        → update_walk w fuel node s ar ≡ stays node ar (played on (visits ar fuel node) s)
    unfolding update_walk visits
    walk_stays zero node s = refl
    walk_stays (suc fuel) node s = elim (Option-cases (node_at ar node)) [
      | inl gone ↦ elim (Option-cases (on (enters node) s)) [
        | inl no_entry ↦ rw (keeps.node_pre node s, no_entry, gone) refl
        | inr (s₁, first) ↦ rw (keeps.node_pre node s, first, gone) refl
      ]
      | inr (n, at) ↦
          rw (keeps.node_pre node s, at)
            (rw (played-node (kid_visits (visits ar fuel) node n.kids) node s)
              (elim (Option-cases (on (enters node) s)) [
                | inl gone ↦ rw gone refl
                | inr (s₁, first) ↦
                    rw (first, at)
                      (rw
                        (kids_stay_on (update_walk w fuel) (visits ar fuel) node 0 n.kids s₁
                          (λ k s₂. walk_stays fuel k s₂))
                        (leaves_node node (played on (kid_visits (visits ar fuel) node n.kids) s₁)))
              ]))
    ]

  -- What a simple visitor does in a visit: nothing on children.
  abbrev pub on_nodes : SimpleVisitor S → Visit → S → Option S
  on_nodes v (enters node) s = some (v.visit_node_pre node s)
  on_nodes v (leaves node) s = some (v.visit_node_post node s)
  on_nodes v (enters_child parent child) s = some s
  on_nodes v (leaves_child parent child) s = some s

  updating-Keeps : (v : SimpleVisitor S) (ar : Arena) → Keeps (updating v) (on_nodes v) ar
  unfolding updating
  updating-Keeps v ar = record {
    node_pre = λ node s. refl;
    child_pre = λ parent child s. refl;
    child_post = λ parent child s. refl;
    node_post = λ node s. refl;
  }

  state_of_walk :
      (node : ℕ) (ar : Arena) (o : Option S) → (stays node ar o >>= λ (x : Visited S). some x.2) ≡ o
  state_of_walk node ar none = refl
  state_of_walk node ar (some s) = refl

  simple_walk-visits :
      (v : SimpleVisitor S) (ar : Arena) (fuel root : ℕ) (s : S)
      → simple_walk v ar fuel root s ≡ played (on_nodes v) (visits ar fuel root) s
  simple_walk-visits v ar fuel root s =
      sym (state_of_walk root ar (simple_walk v ar fuel root s))
      ∙ ap (λ (o : Option (Visited S)). o >>= λ (x : Visited S). some x.2)
          (sym (walk_same v fuel root s ar)
            ∙ walk_stays (updating v) (on_nodes v) ar (updating-Keeps v ar) fuel root s)
      ∙ state_of_walk root ar (played (on_nodes v) (visits ar fuel root) s)

  -- Both walkers make the visits of `visits` in that order: each node before and behind its children,
  -- and in an updating walk each child before and behind its own walk, with the parent. With any
  -- updating visitor whose hooks, in this arena, replace nothing and let the walk go on, the updating
  -- walk gives back its root and the arena, and the state after those visits; it fails exactly where a
  -- hook fails, a node is missing or the fuel ends. The simple walk gives the state after those visits
  -- with the hooks on nodes alone.
  pub walks_visits :
      (w : UpdatingVisitor S) (on : Visit → S → Option S) (v : SimpleVisitor S) (ar : Arena)
      (fuel root : ℕ) (s : S)
      → Keeps w on ar
      → (update_walk_nodes w fuel root s ar
          ≡ (played on (visits ar fuel root) s >>= λ s₁. some (root, s₁, ar)))
        × (simple_walk v ar fuel root s ≡ played (on_nodes v) (visits ar fuel root) s)
  unfolding update_walk_nodes
  walks_visits w on v ar fuel root s keeps = (
    rw (walk_stays w on ar keeps fuel root s) (ends (played on (visits ar fuel root) s)),
    simple_walk-visits v ar fuel root s,
  )
    where
      ends :
          (o : Option S)
          → ◌>>=◌ {B = ℕ × S × Arena} (stays root ar o) (λ x. some (x.1, x.2, x.3))
            ≡ (o >>= λ s₁. some (root, s₁, ar))
      ends none = refl
      ends (some s₁) = refl
