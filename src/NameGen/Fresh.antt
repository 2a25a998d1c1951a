-- ===== src/NameGen/Fresh.antt =====
-- The names of namegen.h whose versions the generator chooses.
use dragongo.Common.{
  ℕ, suc, ◌+◌, ◌^◌, ◌≤◌, ◌<◌, ◌≡◌, refl, sym, ap, ◌∙◌, ◌≢◌, inl, inr, ◌&&◌, of_some, some, List, [],
  ◌∷◌, arith, Text, text_eq, text_eq_iff, text_eq_refl, ◌==◌, if◌then◌else◌, length, Bool-cases,
  Option-cases,
}
use dragongo.NameGen.{NameGen, empty, choose_ver, find, assign, spell, next_count, namegen, run}
use dragongo.NameGen.Spelling.{spell-injective}

find-assign :
    (k j : Text) (v : ℕ) (m : List (Text × ℕ))
    → find j (assign k v m) ≡ (if text_eq k j then some v else find j m)
unfolding find assign
find-assign k j v [] = refl
find-assign k j v ((i, w) ∷ m) =
    ground (arith, text_eq_iff k j, text_eq_iff i k, text_eq_iff i j, find-assign k j v m)

-- No counter reaches the end within `n` further requests.
abbrev Room : ℕ → NameGen → Type 0
Room n g = (tag : Text) (c : ℕ) → find tag g.nametags ≡ some c → c + n < 2 ^ 32

next_count_lt : (g : NameGen) (tag : Text) → next_count g tag < 2 ^ 32
unfolding next_count
next_count_lt g tag = ground arith

next_count-Room :
    (n : ℕ) (g : NameGen) (tag : Text) → n < 2 ^ 32 → Room (suc n) g → next_count g tag + n < 2 ^ 32
unfolding next_count
next_count-Room n g tag small room = elim (Option-cases (find tag g.nametags)) [
  | inl e ↦ rw (e, next_count) (omega arith)
  | inr (c, e) ↦ rw (e, next_count) (omega (arith, room tag c e))
]

next_count_known :
    (g : NameGen) (tag : Text) (c : ℕ)
    → find tag g.nametags ≡ some c
    → c + 1 < 2 ^ 32
    → next_count g tag ≡ c + 1
unfolding next_count
next_count_known g tag c e small = rw (e, next_count) (omega arith)

-- The counters behind a request.
find-namegen :
    (g : NameGen) (tag : Text) (expl : ℕ) (tag' : Text)
    → find tag' (namegen g tag expl).1.nametags ≡ (
        if (expl == choose_ver) && text_eq tag tag'
        then some (next_count g tag)
        else find tag' g.nametags)
unfolding namegen
find-namegen g tag expl tag' = ground (arith, find-assign tag tag' (next_count g tag) g.nametags)

namegen-Room :
    (n : ℕ) (g : NameGen) (tag : Text) (expl : ℕ)
    → n < 2 ^ 32
    → Room (suc n) g
    → Room n (namegen g tag expl).1
namegen-Room n g tag expl small room tag' c e =
    elim (Bool-cases ((expl == choose_ver) && text_eq tag tag')) [
      | inl t ↦
          let same : next_count g tag ≡ c =
            of_some (rw t at (sym (find-namegen g tag expl tag') ∙ e)) in
          rw (← same) (next_count-Room n g tag small room)
      | inr t ↦
          let old : find tag' g.nametags ≡ some c =
            rw t at (sym (find-namegen g tag expl tag') ∙ e) in
          omega (arith, room tag' c old)
    ]

-- A counter only grows.
namegen-find :
    (n : ℕ) (g : NameGen) (tag : Text) (expl : ℕ) (tag' : Text) (c : ℕ)
    → Room (suc n) g
    → find tag' g.nametags ≡ some c
    → (c' : ℕ) × (find tag' (namegen g tag expl).1.nametags ≡ some c') × (c ≤ c')
namegen-find n g tag expl tag' c room e =
    elim (Bool-cases ((expl == choose_ver) && text_eq tag tag')) [
      | inl t ↦
          let same : tag ≡ tag' = (text_eq_iff tag tag').0 (ground arith) in
          let known = next_count_known g tag c (rw same e) (omega (arith, room tag' c e)) in
          (next_count g tag, rw (find-namegen, t), omega arith)
      | inr t ↦ (c, rw (find-namegen, t) e, omega arith)
    ]

Room-le : {m n : ℕ} (g : NameGen) → m ≤ n → Room n g → Room m g
Room-le g le room tag c e = omega (arith, room tag c e)

run-Room :
    (rs : List (Text × ℕ)) (n : ℕ) (g : NameGen)
    → length rs + n < 2 ^ 32
    → Room (length rs + n) g
    → Room n (run g rs)
unfolding run
run-Room [] n g small room = Room-le g (omega arith) room
run-Room ((t, expl) ∷ rs) n g small room =
    run-Room rs n (namegen g t expl).1 (omega arith)
      (namegen-Room (length rs + n) g t expl (omega arith) (Room-le g (omega arith) room))

run-find :
    (rs : List (Text × ℕ)) (n : ℕ) (g : NameGen) (tag : Text) (c : ℕ)
    → length rs + n < 2 ^ 32
    → Room (length rs + n) g
    → find tag g.nametags ≡ some c
    → (c' : ℕ) × (find tag (run g rs).nametags ≡ some c') × (c ≤ c')
unfolding run
run-find [] n g tag c small room e = (c, e, omega arith)
run-find ((t, expl) ∷ rs) n g tag c small room e =
    let room' : Room (suc (length rs + n)) g = Room-le g (omega arith) room in
    let (c₁, e₁, le₁) = namegen-find (length rs + n) g t expl tag c room' e in
    let (c₂, e₂, le₂) =
      run-find rs n (namegen g t expl).1 tag c₁ (omega arith)
        (namegen-Room (length rs + n) g t expl (omega arith) room') e₁ in
    (c₂, e₂, omega arith)

-- The name of a request that leaves the version to the generator, and the counter behind it.
namegen_chosen :
    (g : NameGen) (tag : Text)
    → ((namegen g tag choose_ver).0 ≡ spell tag (next_count g tag))
      × (find tag (namegen g tag choose_ver).1.nametags ≡ some (next_count g tag))
unfolding namegen
namegen_chosen g tag =
    (refl, rw (find-assign tag tag (next_count g tag) g.nametags, text_eq_refl tag))

-- From an empty generator, two names whose versions the generator chooses are different, whatever is
-- requested before the first and between the two, for fewer than 2 ^ 32 requests in all.
pub namegen_fresh :
    (before between : List (Text × ℕ)) (tag tag' : Text)
    → length before + length between + 2 < 2 ^ 32
    → let (first, g) = namegen (run empty before) tag choose_ver in
      first ≢ (namegen (run g between) tag' choose_ver).0
unfolding empty
namegen_fresh before between tag tag' small same =
    let g = run empty before in
    let g₁ = (namegen g tag choose_ver).1 in
    let g₂ = run g₁ between in
    let room : Room (length between + 2) g =
      run-Room before (length between + 2) empty (omega arith)
        (λ t c e. absurd (unfold find in ground arith)) in
    let room₁ : Room (length between + 1) g₁ =
      namegen-Room (length between + 1) g tag choose_ver (omega arith)
        (Room-le g (omega arith) room) in
    let (name, known) = namegen_chosen g tag in
    let (name', _) = namegen_chosen g₂ tag' in
    let (tags, counts) =
      spell-injective tag tag' (next_count g tag) (next_count g₂ tag') (next_count_lt g tag)
        (next_count_lt g₂ tag') (sym name ∙ same ∙ name') in
    let (c, later, le) = run-find between 1 g₁ tag (next_count g tag) (omega arith) room₁ known in
    let room₂ : Room 1 g₂ = run-Room between 1 g₁ (omega arith) room₁ in
    let next = next_count_known g₂ tag c later (room₂ tag c later) in
    let next' : next_count g₂ tag ≡ next_count g₂ tag' = ap (next_count g₂) tags in omega arith
