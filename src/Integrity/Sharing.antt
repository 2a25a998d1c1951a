-- ===== src/Integrity/Sharing.antt =====
-- All uses recorded by llvm-gofrontend/go-llvm-tree-integrity.cpp.
use dragongo.Common.{
  ◌+◌, ◌^◌, ◌≤◌, ◌<◌, ◌≡◌, inl, inr, refl, sym, ◌∙◌, List, [], ◌∷◌, arith, of_some, Bool-cases, All,
  length,
}
use dragongo.Integrity.{TreeIntegCtl, IntegrityVisitor, ValueExprmap}
use dragongo.Integrity.Uses.{Use, record_use, replay}
use dragongo.Integrity.Taken.{
  OneParent, Agree, total, Seen, Taken, same_key, place, lookup-same_key, record_use-Taken,
}

Taken-Seen :
    (u v : Use) (vis vis' : IntegrityVisitor)
    → Taken u vis vis'
    → Seen vis' v
    → Seen vis v × Agree u v
Taken-Seen u v vis vis' t h = elim (Bool-cases (same_key u v)) [
  | inl k ↦
      let agree : place u ≡ place v = h (place u) (t.known v k) in
      ((λ qs e. t.seen qs (sym (lookup-same_key vis u v k) ∙ e) ∙ agree), λ _. agree)
  | inr k ↦ ((λ qs e. h qs (t.others v k ∙ e)), λ k'. absurd (ground arith))
]

Seen-Taken :
    (u v : Use) (vis vis' : IntegrityVisitor)
    → Taken u vis vis'
    → Seen vis v
    → Agree u v
    → Seen vis' v
Seen-Taken u v vis vis' t h agree qs e = elim (Bool-cases (same_key u v)) [
  | inl k ↦ of_some (sym e ∙ t.known v k) ∙ agree k
  | inr k ↦ h qs (sym (t.others v k) ∙ e)
]

uses_before-Seen :
    (u : Use) (us : List Use) (vis vis' : IntegrityVisitor)
    → Taken u vis vis'
    → All (Seen vis') us
    → All (Seen vis) us × All (Agree u) us
uses_before-Seen u [] vis vis' t h = (tt, tt)
uses_before-Seen u (v ∷ us) vis vis' t h =
    let (seen, agree) = Taken-Seen u v vis vis' t h.0 in
    let (seens, agrees) = uses_before-Seen u us vis vis' t h.1 in ((seen, seens), (agree, agrees))

uses_after-Seen :
    (u : Use) (us : List Use) (vis vis' : IntegrityVisitor)
    → Taken u vis vis'
    → All (Seen vis) us
    → All (Agree u) us
    → All (Seen vis') us
uses_after-Seen u [] vis vis' t h agrees = tt
uses_after-Seen u (v ∷ us) vis vis' t h agrees =
    (Seen-Taken u v vis vis' t h.0 agrees.0, uses_after-Seen u us vis vis' t h.1 agrees.1)

module _ (scope : ValueExprmap) (ctl : TreeIntegCtl) where
  record_small :
      (u : Use) (vis : IntegrityVisitor)
      → total vis + 1 < 2 ^ 32
      → total (record_use scope ctl u vis) ≤ total vis + 1
  record_small u vis small = elim (record_use-Taken scope ctl u vis) [
    | inl t ↦ omega (arith, t.kept)
    | inr s ↦ omega (arith, s.counted small)
  ]

  -- Counts that stay 0 say that every use had its one place.
  pub replay_sound :
      (us : List Use) (vis : IntegrityVisitor)
      → total vis + length us < 2 ^ 32
      → total (replay scope ctl us vis) ≡ 0
      → (total vis ≡ 0) × All (Seen vis) us × OneParent us
  unfolding replay
  replay_sound [] vis small e = (e, tt, tt)
  replay_sound (u ∷ us) vis small e =
      let vis' = record_use scope ctl u vis in
      let (none_yet, seens, ones) =
        replay_sound us vis' (omega (arith, record_small u vis (omega arith))) e in
      elim (record_use-Taken scope ctl u vis) [
        | inl t ↦
            let (new-Seen, agree) = uses_before-Seen u us vis vis' t seens in
            (sym t.kept ∙ none_yet, (t.seen, new-Seen), (agree, ones))
        | inr s ↦ absurd (omega (arith, s.counted (omega arith), none_yet))
      ]

  pub replay_complete :
      (us : List Use) (vis : IntegrityVisitor)
      → All (Seen vis) us
      → OneParent us
      → total (replay scope ctl us vis) ≡ total vis
  unfolding replay
  replay_complete [] vis seens ones = refl
  replay_complete (u ∷ us) vis seens ones = elim (record_use-Taken scope ctl u vis) [
    | inl t ↦
        replay_complete us (record_use scope ctl u vis)
          (uses_after-Seen u us vis _ t seens.1 ones.0) ones.1
        ∙ t.kept
    | inr s ↦ absurd (s.other.2 (seens.0 s.other.0 s.other.1))
  ]
