-- ===== src/Common/Lists.antt =====
-- Lists measured and indexed by native numbers, as arrays of the source.
use Prim.Native.Nat.{ℕ, zero, suc, ◌+◌, ◌≤◌, ◌<◌}
use mathlib.Core.Path.{◌≡◌, refl, sym, ap, ◌∙◌}
use mathlib.Core.List.{List, [], ◌∷◌, ◌++◌, map}
use mathlib.Core.Bool.{Bool, true, false, ◌&&◌}
use native.Mathlib.Omega.{arith}
use pi_ssc_ssd_ssa.Common.Tests.{ltb, leb, ◌==◌, if◌then◌else◌}

module _ {ℓ} {A : Type ℓ} where
  abbrev pub length : List A → ℕ
  length [] = 0
  length (x ∷ xs) = suc (length xs)

  unfoldable pub get_or : List A → ℕ → A → A
  get_or [] i d = d
  get_or (x ∷ xs) zero d = x
  get_or (x ∷ xs) (suc i) d = get_or xs i d

  -- A write out of bounds changes nothing.
  unfoldable pub set : List A → ℕ → A → List A
  set [] i v = []
  set (x ∷ xs) zero v = v ∷ xs
  set (x ∷ xs) (suc i) v = x ∷ set xs i v

  unfoldable pub replicate : ℕ → A → List A
  replicate zero a = []
  replicate (suc n) a = a ∷ replicate n a

  pub length-append : (xs ys : List A) → length (xs ++ ys) ≡ length xs + length ys
  length-append [] ys = omega arith
  length-append (x ∷ xs) ys = omega (arith, length-append xs ys)

  pub length-set : (xs : List A) (i : ℕ) (v : A) → length (set xs i v) ≡ length xs
  unfolding set
  length-set [] i v = refl
  length-set (x ∷ xs) zero v = refl
  length-set (x ∷ xs) (suc i) v = ap suc (length-set xs i v)

  pub length-replicate : (n : ℕ) (a : A) → length (replicate n a) ≡ n
  unfolding replicate
  length-replicate zero a = refl
  length-replicate (suc n) a = ap suc (length-replicate n a)

  pub get_or-replicate : (n i : ℕ) (a : A) → get_or (replicate n a) i a ≡ a
  unfolding replicate get_or
  get_or-replicate zero i a = refl
  get_or-replicate (suc n) zero a = refl
  get_or-replicate (suc n) (suc i) a = get_or-replicate n i a

  pub get_or-set :
      (xs : List A) (i j : ℕ) (v d : A)
      → i < length xs
      → get_or (set xs i v) j d ≡ (if i == j then v else get_or xs j d)
  unfolding set get_or
  get_or-set [] i j v d h = absurd (omega arith)
  get_or-set (x ∷ xs) zero zero v d h = refl
  get_or-set (x ∷ xs) zero (suc j) v d h = ground arith
  get_or-set (x ∷ xs) (suc i) zero v d h = ground arith
  get_or-set (x ∷ xs) (suc i) (suc j) v d h = ground (arith, get_or-set xs i j v d)

  -- The test whether a list is empty.
  abbrev pub is_nil : List A → Bool
  is_nil [] = true
  is_nil (x ∷ xs) = false

  pub is_nil-nil : (xs : List A) → is_nil xs ≡ true → xs ≡ []
  is_nil-nil [] h = refl
  is_nil-nil (x ∷ xs) h = cc

  pub is_nil-cons : (xs : List A) → is_nil xs ≡ false → (x : A) × (r : List A) × (xs ≡ x ∷ r)
  is_nil-cons [] h = cc
  is_nil-cons (x ∷ xs) h = (x, xs, refl)

  -- How many elements pass a test.
  unfoldable pub count_if : (A → Bool) → List A → ℕ
  count_if p [] = 0
  count_if p (x ∷ xs) = let n = count_if p xs in if p x then suc n else n

  pub count_if-append :
      (p : A → Bool) (xs ys : List A) → count_if p (xs ++ ys) ≡ count_if p xs + count_if p ys
  unfolding count_if
  count_if-append p [] ys = omega arith
  count_if-append p (x ∷ xs) ys = ground (arith, count_if-append p xs ys)

-- `for (i = lo; i < lo + n; i++) a[i] = f(i)`
module _ {A : Type 0} where
  unfoldable pub fill : ℕ → ℕ → (ℕ → A) → List A → List A
  fill zero lo f a = a
  fill (suc n) lo f a = fill n (suc lo) f (set a lo (f lo))

  pub length-fill : (n lo : ℕ) (f : ℕ → A) (a : List A) → length (fill n lo f a) ≡ length a
  unfolding fill
  length-fill zero lo f a = refl
  length-fill (suc n) lo f a = length-fill n (suc lo) f (set a lo (f lo)) ∙ length-set a lo (f lo)

  -- The loop writes the places from `lo` on, and no other.
  pub get_or-fill :
      (n lo : ℕ) (f : ℕ → A) (a : List A) (j : ℕ) (d : A)
      → lo + n ≤ length a
      → get_or (fill n lo f a) j d ≡ (if leb lo j && ltb j (lo + n) then f j else get_or a j d)
  unfolding fill
  get_or-fill zero lo f a j d h = ground arith
  get_or-fill (suc n) lo f a j d h =
      let a' = set a lo (f lo) in
      let room : suc lo + n ≤ length a' = rw (length-set a lo (f lo)) (omega arith) in
      let ih = get_or-fill n (suc lo) f a' j d room in
      let old = get_or-set a lo j (f lo) d (omega arith) in ground (arith, ih, old)

-- Lists of the same length that agree at each place are equal.
pub get_or_ext {ℓ} :
    {A : Type ℓ} (d : A) (xs ys : List A)
    → length xs ≡ length ys
    → ((j : ℕ) → get_or xs j d ≡ get_or ys j d)
    → xs ≡ ys
unfolding get_or
get_or_ext d [] [] n h = refl
get_or_ext d [] (y ∷ ys) n h = absurd (omega arith)
get_or_ext d (x ∷ xs) [] n h = absurd (omega arith)
get_or_ext d (x ∷ xs) (y ∷ ys) n h =
    cc (h 0, get_or_ext d xs ys (omega (arith, n)) (λ j. h (suc j)))

pub length-map {ℓ κ} :
    {A : Type ℓ} {B : Type κ} (f : A → B) (xs : List A) → length (map f xs) ≡ length xs
length-map f [] = refl
length-map f (x ∷ xs) = ap suc (length-map f xs)

pub get_or-map {ℓ κ} :
    {A : Type ℓ} {B : Type κ} (f : A → B) (xs : List A) (j : ℕ) (d : A) (c : B)
    → get_or (map f xs) j c ≡ (if ltb j (length xs) then f (get_or xs j d) else c)
unfolding get_or
get_or-map f [] j d c = ground arith
get_or-map f (x ∷ xs) zero d c = ground arith
get_or-map f (x ∷ xs) (suc j) d c = ground (arith, get_or-map f xs j d c)

pub get_or_past {ℓ} : {A : Type ℓ} (xs : List A) (j : ℕ) (d : A) → length xs ≤ j → get_or xs j d ≡ d
unfolding get_or
get_or_past [] j d h = refl
get_or_past (x ∷ xs) zero d h = absurd (omega arith)
get_or_past (x ∷ xs) (suc j) d h = get_or_past xs j d (omega (arith, h))

place_after_first :
    {A : Type 0} (f : A → A) (x d : A) (xs : List A) (j : ℕ)
    → (if leb 1 j && ltb j (1 + length xs) then f (get_or (x ∷ xs) j d) else get_or (x ∷ xs) j d)
      ≡ get_or (x ∷ map f xs) j d
unfolding get_or
place_after_first f x d xs zero = ground arith
place_after_first f x d xs (suc j) = ground (arith, get_or-map f xs j d d, get_or_past xs j d)

-- A loop over all places but the first that puts a function of each place back into it.
pub fill-map :
    {A : Type 0} (f : A → A) (x d : A) (xs : List A)
    → fill (length xs) 1 (λ i. f (get_or (x ∷ xs) i d)) (x ∷ xs) ≡ x ∷ map f xs
fill-map f x d xs =
    get_or_ext d _ _ (length-fill (length xs) 1 _ (x ∷ xs) ∙ ap suc (sym (length-map f xs)))
      (λ j. get_or-fill (length xs) 1 _ (x ∷ xs) j d (omega arith) ∙ place_after_first f x d xs j)
