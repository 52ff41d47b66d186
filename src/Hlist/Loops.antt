-- ===== src/Hlist/Loops.antt =====
-- The loops `hlist_for_each_safe` that the sources write, and what they do to the walk of a chain.
-- The macro reads the next node before the body runs, so it goes on along the chain as it was; the
-- loop's arguments are the place of the current node, the nodes still to visit and the chain.
use mathlib.Core.List.{append_assoc}
use pi_ssc_ssd_ssa.Common.{
  ℕ, zero, suc, ◌+◌, ◌≡◌, refl, sym, ◌∙◌, inl, inr, Bool, true, false, List, [], ◌∷◌, ◌++◌, length,
  length-append, if◌then◌else◌, Bool-cases, count_if,
}
use pi_ssc_ssd_ssa.Hlist.{Hlist}

module _ {A : Type 0} (p : A → Bool) where
  -- The list with its first hit replaced, or taken out, or with all hits taken out.
  unfoldable pub change_first : (A → A) → List A → List A
  change_first f [] = []
  change_first f (x ∷ xs) = if p x then f x ∷ xs else x ∷ change_first f xs

  unfoldable pub remove_first : List A → List A
  remove_first [] = []
  remove_first (x ∷ xs) = if p x then xs else x ∷ remove_first xs

  unfoldable pub remove_all : List A → List A
  remove_all [] = []
  remove_all (x ∷ xs) = let r = remove_all xs in if p x then r else x ∷ r

  unfoldable pub any : List A → Bool
  any [] = false
  any (x ∷ xs) = if p x then true else any xs

-- One step for each hit.
unfoldable pub repeat : {S : Type 0} → (S → S) → ℕ → S → S
repeat f zero s = s
repeat f (suc n) s = repeat f n (f s)

snoc {ℓ} : {A : Type ℓ} (pre rest : List A) (x : A) → pre ++ (x ∷ rest) ≡ (pre ++ x ∷ []) ++ rest
snoc pre rest x = sym (append_assoc pre (x ∷ []) rest)

length-snoc {ℓ} : {A : Type ℓ} (pre : List A) (x : A) → length (pre ++ x ∷ []) ≡ length pre + 1
length-snoc pre x = length-append pre (x ∷ [])

module _ {A : Type 0} (H : Hlist A) (p : A → Bool) where
  open H use {Head, walk}

  -- The body writes to the first hit and returns.
  unfoldable pub change_loop : (A → A) → ℕ → List A → Head → Head × Bool
  change_loop f pos [] h = (h, false)
  change_loop f pos (x ∷ rest) h =
      if p x then (H.store pos (f x) h, true) else change_loop f (pos + 1) rest h

  -- The body unlinks and frees the first hit and returns.
  unfoldable pub remove_loop : ℕ → List A → Head → Head × Bool
  remove_loop pos [] h = (h, false)
  remove_loop pos (x ∷ rest) h = if p x then (H.del pos h, true) else remove_loop (pos + 1) rest h

  -- The body unlinks and frees each hit, and counts it by `hit`.
  unfoldable pub clear_loop : {S : Type 0} → (S → S) → ℕ → List A → Head → S → Head × S
  clear_loop hit pos [] h s = (h, s)
  clear_loop hit pos (x ∷ rest) h s = elim (p x) [
    | true ↦ clear_loop hit pos rest (H.del pos h) (hit s)
    | false ↦ clear_loop hit (pos + 1) rest h s
  ]

  walk-change_loop :
      (f : A → A) (pre rest : List A) (h : Head)
      → walk h ≡ pre ++ rest
      → (walk (change_loop f (length pre) rest h).0 ≡ pre ++ change_first p f rest)
        × ((change_loop f (length pre) rest h).1 ≡ any p rest)
  unfolding change_loop change_first any
  walk-change_loop f pre [] h e = (e, refl)
  walk-change_loop f pre (x ∷ rest) h e = elim (Bool-cases (p x)) [
    | inl t ↦ rw t (H.walk-store pre rest x (f x) h e, refl)
    | inr t ↦
        let ih = walk-change_loop f (pre ++ x ∷ []) rest h (e ∙ snoc pre rest x) in
        rw (t, snoc pre (change_first p f rest) x, ← length-snoc pre x) ih
  ]

  walk-remove_loop :
      (pre rest : List A) (h : Head)
      → walk h ≡ pre ++ rest
      → (walk (remove_loop (length pre) rest h).0 ≡ pre ++ remove_first p rest)
        × ((remove_loop (length pre) rest h).1 ≡ any p rest)
  unfolding remove_loop remove_first any
  walk-remove_loop pre [] h e = (e, refl)
  walk-remove_loop pre (x ∷ rest) h e = elim (Bool-cases (p x)) [
    | inl t ↦ rw t (H.walk-del pre rest x h e, refl)
    | inr t ↦
        let ih = walk-remove_loop (pre ++ x ∷ []) rest h (e ∙ snoc pre rest x) in
        rw (t, snoc pre (remove_first p rest) x, ← length-snoc pre x) ih
  ]

  walk-clear_loop :
      {S : Type 0} (hit : S → S) (pre rest : List A) (h : Head) (s : S)
      → walk h ≡ pre ++ rest
      → (walk (clear_loop hit (length pre) rest h s).0 ≡ pre ++ remove_all p rest)
        × ((clear_loop hit (length pre) rest h s).1 ≡ repeat hit (count_if p rest) s)
  unfolding clear_loop remove_all repeat count_if
  walk-clear_loop hit pre [] h s e = (e, refl)
  walk-clear_loop hit pre (x ∷ rest) h s e = elim (Bool-cases (p x)) [
    | inl t ↦
        rw (t, clear_loop)
          (walk-clear_loop hit pre rest (H.del (length pre) h) (hit s) (H.walk-del pre rest x h e))
    | inr t ↦
        let ih = walk-clear_loop hit (pre ++ x ∷ []) rest h s (e ∙ snoc pre rest x) in
        rw (t, clear_loop, snoc pre (remove_all p rest) x, ← length-snoc pre x) ih
  ]

  -- The loops started at a chain's head.
  pub change_loop-walk :
      (f : A → A) (h : Head)
      → (walk (change_loop f 0 (walk h) h).0 ≡ change_first p f (walk h))
        × ((change_loop f 0 (walk h) h).1 ≡ any p (walk h))
  change_loop-walk f h = walk-change_loop f [] (walk h) h refl

  pub remove_loop-walk :
      (h : Head)
      → (walk (remove_loop 0 (walk h) h).0 ≡ remove_first p (walk h))
        × ((remove_loop 0 (walk h) h).1 ≡ any p (walk h))
  remove_loop-walk h = walk-remove_loop [] (walk h) h refl

  pub clear_loop-walk :
      {S : Type 0} (hit : S → S) (h : Head) (s : S)
      → (walk (clear_loop hit 0 (walk h) h s).0 ≡ remove_all p (walk h))
        × ((clear_loop hit 0 (walk h) h s).1 ≡ repeat hit (count_if p (walk h)) s)
  clear_loop-walk hit h s = walk-clear_loop hit [] (walk h) h s refl
