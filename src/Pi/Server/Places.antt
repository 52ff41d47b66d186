-- ===== src/Pi/Server/Places.antt =====
-- The free places among those of the clients.
use pi_ssc_ssd_ssa.Common.{
  ℕ, suc, ◌+◌, ◌-◌, ◌≤◌, ◌≡◌, ◌≢◌, refl, not, none, some, List, [], ◌∷◌, arith, ltb, ◌==◌, length,
  set, count_if,
}
use pi_ssc_ssd_ssa.Pi.Server.{Fd, max_client, is_open, free_place, clients}

-- How many of the places are free.
unfoldable pub free_places : List Fd → ℕ
free_places l = count_if (λ f. not (is_open f)) l

pub free_place-le : (i : ℕ) (l : List Fd) → (i ≤ free_place i l) × (free_place i l ≤ i + length l)
unfolding free_place
free_place-le i [] = omega arith
free_place-le i (none ∷ l) = omega arith
free_place-le i (some f ∷ l) = omega (arith, free_place-le (i + 1) l)

-- The search leaves the array exactly if no place is free.
free_place-full :
    (i : ℕ) (l : List Fd) → ltb (free_place i l) (i + length l) ≡ not (free_places l == 0)
unfolding free_place free_places count_if
free_place-full i [] = ground arith
free_place-full i (none ∷ l) = ground arith
free_place-full i (some f ∷ l) = ground (arith, free_place-full (i + 1) l)

-- The place that is found is free, and taking it leaves one free place less.
pub free_places-set :
    (i : ℕ) (l : List Fd) (f : ℕ)
    → free_places l ≢ 0
    → free_places (set l (free_place i l - i) (some f)) + 1 ≡ free_places l
unfolding free_place free_places count_if set
free_places-set i [] f h = absurd (h refl)
free_places-set i (none ∷ l) f h = rw (let e : i - i ≡ 0 = omega arith in e) (ground arith)
free_places-set i (some g ∷ l) f h =
    let far = (free_place-le (i + 1) l).0 in
    rw (let e : free_place (i + 1) l - i ≡ suc (free_place (i + 1) l - (i + 1)) = omega arith in e)
      (ground (arith, free_places-set (i + 1) l f))

pub length-clients : (l : List Fd) → length l ≡ max_client → length (clients l) ≡ max_client - 1
length-clients [] e = absurd (omega arith)
length-clients (f ∷ l) e = omega arith

pub free_place-lt :
    (l : List Fd)
    → length l ≡ max_client
    → ltb (free_place 1 (clients l)) max_client ≡ not (free_places (clients l) == 0)
free_place-lt l n = let test = free_place-full 1 (clients l) in rw (length-clients l n) at test
