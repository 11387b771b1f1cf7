-- ===== src/VecMap/Tests.antt =====
-- Instances of the theorems on the map.
use packetry.Base.{ℕ, ◌≡◌, refl, some, none, [], ◌∷◌, ok, ◌==◌, if◌then◌else◌}
use packetry.VecMap.{VecMap, get, insert, push, id_key}
use packetry.VecMap.Laws.{get-insert, push-get}

abbrev two_values : VecMap ℕ
two_values = record { vec = some 7 ∷ none ∷ some 8 ∷ [] }

get-insert_example : get (insert two_values 5 9) 2 ≡ (if 5 == 2 then some 9 else get two_values 2)
get-insert_example = get-insert two_values 5 2 9

push-get_example :
    (m' : VecMap ℕ) × (push id_key two_values 9 ≡ ok (4, m'))
    × (get m' 3 ≡ some 9)
    × (get m' 4 ≡ none)
push-get_example = push-get id_key two_values 9 refl
