-- ===== src/MsgList.antt =====
-- What the management process relies on of `struct list_head` in <rg_sys/list.h>, which is not in
-- the repository: a doubly linked list of queued messages. `items` lists them from `head->next` on.
use pi_ssc_ssd_ssa.Common.{◌≡◌, Bool, List, [], ◌∷◌, is_nil}

pub record ListHead (A : Type 0) : Type 1 where
  pub Head : Type 0
  pub items : Head → List A
  pub init : Head
  pub list_empty : Head → Bool
  pub list_add : A → Head → Head
  -- `list_del(head->next)`
  pub list_del_next : Head → Head
  pub items-init : items init ≡ []
  pub list_empty-items : (h : Head) → list_empty h ≡ is_nil (items h)
  -- `list_add` puts the new node directly behind the head.
  pub items-list_add : (a : A) (h : Head) → items (list_add a h) ≡ a ∷ items h
  pub items-list_del_next :
      (a : A) (rest : List A) (h : Head) → items h ≡ a ∷ rest → items (list_del_next h) ≡ rest
