-- ===== src/Stringy/Tests.antt =====
-- Add, Union and Uniq on numbers.
use nsq.Base.{◌≡◌, refl, [], ◌∷◌, ◌==◌}
use nsq.Stringy.{found, union, uniq}

unions : union (λ x y. x == y) (1 ∷ 2 ∷ []) (2 ∷ 3 ∷ []) ≡ 1 ∷ 2 ∷ 3 ∷ []
unfolding union found
unions = refl

uniq_once : uniq (λ x y. x == y) (1 ∷ 2 ∷ 1 ∷ []) ≡ 1 ∷ 2 ∷ []
unfolding uniq union found
uniq_once = refl
