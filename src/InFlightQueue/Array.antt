-- ===== src/InFlightQueue/Array.antt =====
-- Slices of pointers: what a write, an append and a cut do to each entry.
use nsq.Base.{
  ℕ, zero, suc, ◌<◌, ◌≡◌, refl, arith, some, List, [], ◌∷◌, ◌++◌, length, get_elem?, set, take,
  ◌==◌, if◌then◌else◌,
}

-- The entry at `i`, which exists where `i` is below the length.
unfoldable pub at : List ℕ → ℕ → ℕ
at [] i = 0
at (x ∷ a) zero = x
at (x ∷ a) (suc i) = at a i

pub get_elem?-at : (a : List ℕ) (i : ℕ) → i < length a → get_elem? a i ≡ some (at a i)
unfolding at
get_elem?-at [] i h = elim h [ ]
get_elem?-at (x ∷ a) zero h = refl
get_elem?-at (x ∷ a) (suc i) h = get_elem?-at a i (omega arith)

pub at-set :
    (a : List ℕ) (i k v : ℕ) → i < length a → at (set a i v) k ≡ (if i == k then v else at a k)
unfolding at
at-set [] i k v h = elim h [ ]
at-set (x ∷ a) zero zero v h = refl
at-set (x ∷ a) zero (suc k) v h = ground arith
at-set (x ∷ a) (suc i) zero v h = ground arith
at-set (x ∷ a) (suc i) (suc k) v h = ground (arith, at-set a i k v)

pub at-append : (a b : List ℕ) (k : ℕ) → k < length a → at (a ++ b) k ≡ at a k
unfolding at
at-append [] b k h = elim h [ ]
at-append (x ∷ a) b zero h = refl
at-append (x ∷ a) b (suc k) h = at-append a b k (omega arith)

pub at-length : (a : List ℕ) (x : ℕ) → at (a ++ (x ∷ [])) (length a) ≡ x
unfolding at
at-length [] x = refl
at-length (y ∷ a) x = at-length a x

pub at-take : (n : ℕ) (a : List ℕ) (k : ℕ) → k < n → at (take n a) k ≡ at a k
unfolding at
at-take zero a k h = elim h [ ]
at-take (suc n) [] k h = refl
at-take (suc n) (x ∷ a) zero h = refl
at-take (suc n) (x ∷ a) (suc k) h = at-take n a k (omega arith)
