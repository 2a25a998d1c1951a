-- ===== src/NameGen/Runs.antt =====
-- Requests for names, as namegen.h answers them.
use dragongo.Common.{ℕ, ◌≡◌, refl, ◌≢◌, List, [], ◌∷◌, arith, Text, codes}
use dragongo.Common.Decimal.{decimal}
use dragongo.NameGen.{choose_ver, empty, find, assign, spell, next_count, namegen, run}
use dragongo.NameGen.Spelling.{spell-injective}
use dragongo.NameGen.Fresh.{namegen_fresh}

abbrev earlier : List (Text × ℕ)
earlier = (codes "add", choose_ver) ∷ (codes "ld", choose_ver) ∷ (codes "add", 7) ∷ []

second_add : (namegen (run empty earlier) (codes "add") choose_ver).0 ≡ codes "add.1"
unfolding namegen run empty find assign spell next_count decimal
second_add = refl

spell-injective_example : (codes "add" ≡ codes "add") × (◌≡◌ {A = ℕ} 12 12)
spell-injective_example =
    spell-injective (codes "add") (codes "add") 12 12 (omega arith) (omega arith) refl

namegen_fresh_example :
    (namegen (run empty earlier) (codes "add") choose_ver).0
    ≢ (namegen
        (run (namegen (run empty earlier) (codes "add") choose_ver).1 earlier)
        (codes "ld")
        choose_ver).0
namegen_fresh_example = namegen_fresh earlier earlier (codes "add") (codes "ld") (omega arith)

-- A version that the caller gives may repeat one that the generator chose.
explicit_may_repeat :
    (namegen (namegen empty (codes "add") choose_ver).1 (codes "add") 0).0
    ≡ (namegen empty (codes "add") choose_ver).0
unfolding namegen empty find assign spell next_count
explicit_may_repeat = refl
