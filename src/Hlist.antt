-- ===== src/Hlist.antt =====
-- What the programs rely on of <rg_sys/list.h>, which is not in the repository: chains of entries
-- behind a `struct hlist_head`. `walk` lists the entries in the order of `hlist_for_each`; a node
-- inside a chain is named by how many nodes that walk passes before it.
pub mod Loops
use pi_ssc_ssd_ssa.Common.{ℕ, ◌≡◌, Bool, List, [], ◌∷◌, ◌++◌, length, is_nil}

pub record Hlist (A : Type 0) : Type 1 where
  pub Head : Type 0
  pub walk : Head → List A
  -- `INIT_HLIST_HEAD`
  pub init : Head
  -- `head.first == NULL`
  pub no_first : Head → Bool
  -- `hlist_add_head`, and `hlist_add_before` of the node at a place
  pub add_head : A → Head → Head
  pub add_before : ℕ → A → Head → Head
  -- a store through the pointer to an entry, and `hlist_del`
  pub store : ℕ → A → Head → Head
  pub del : ℕ → Head → Head
  pub walk-init : walk init ≡ []
  pub no_first-walk : (h : Head) → no_first h ≡ is_nil (walk h)
  pub walk-add_head : (a : A) (h : Head) → walk (add_head a h) ≡ a ∷ walk h
  pub walk-add_before :
      (pre post : List A) (x a : A) (h : Head)
      → walk h ≡ pre ++ (x ∷ post)
      → walk (add_before (length pre) a h) ≡ pre ++ (a ∷ x ∷ post)
  pub walk-store :
      (pre post : List A) (x a : A) (h : Head)
      → walk h ≡ pre ++ (x ∷ post)
      → walk (store (length pre) a h) ≡ pre ++ (a ∷ post)
  pub walk-del :
      (pre post : List A) (x : A) (h : Head)
      → walk h ≡ pre ++ (x ∷ post)
      → walk (del (length pre) h) ≡ pre ++ post
