-- ===== src/Tests/Instances.antt =====
-- The list library's chains and queues as plain lists, and sample entries.
use pi_ssc_ssd_ssa.Common.{
  ℕ, zero, suc, ◌≡◌, refl, ap, List, [], ◌∷◌, ◌++◌, length, set, is_nil, true,
}
use pi_ssc_ssd_ssa.Public.{Entry, Mac}
use pi_ssc_ssd_ssa.Hlist.{Hlist}
use pi_ssc_ssd_ssa.MsgList.{ListHead}
use pi_ssc_ssd_ssa.Pi.Receive.{MsgQueue}
use pi_ssc_ssd_ssa.Pi.Db.{Env}

module _ {A : Type 0} where
  unfoldable pub insert_at : ℕ → A → List A → List A
  insert_at zero a xs = a ∷ xs
  insert_at (suc n) a [] = []
  insert_at (suc n) a (x ∷ xs) = x ∷ insert_at n a xs

  unfoldable pub remove_at : ℕ → List A → List A
  remove_at n [] = []
  remove_at zero (x ∷ xs) = xs
  remove_at (suc n) (x ∷ xs) = x ∷ remove_at n xs

  unfoldable pub tail : List A → List A
  tail [] = []
  tail (x ∷ xs) = xs

  pub insert_at_middle :
      (pre post : List A) (x a : A) (h : List A)
      → h ≡ pre ++ (x ∷ post)
      → insert_at (length pre) a h ≡ pre ++ (a ∷ x ∷ post)
  unfolding insert_at
  insert_at_middle [] post x a h e = rw e
  insert_at_middle (y ∷ pre) post x a h e =
      rw e (ap (λ l. y ∷ l) (insert_at_middle pre post x a _ refl))

  pub set_middle :
      (pre post : List A) (x a : A) (h : List A)
      → h ≡ pre ++ (x ∷ post)
      → set h (length pre) a ≡ pre ++ (a ∷ post)
  unfolding set
  set_middle [] post x a h e = rw e
  set_middle (y ∷ pre) post x a h e = rw e (ap (λ l. y ∷ l) (set_middle pre post x a _ refl))

  pub remove_at_middle :
      (pre post : List A) (x : A) (h : List A)
      → h ≡ pre ++ (x ∷ post)
      → remove_at (length pre) h ≡ pre ++ post
  unfolding remove_at
  remove_at_middle [] post x h e = rw e
  remove_at_middle (y ∷ pre) post x h e =
      rw e (ap (λ l. y ∷ l) (remove_at_middle pre post x _ refl))

  pub tail_next : (a : A) (rest h : List A) → h ≡ a ∷ rest → tail h ≡ rest
  unfolding tail
  tail_next a rest h e = rw e

abbrev pub chains : Hlist Entry
chains = record {
  Head = List Entry;
  walk = λ h. h;
  init = [];
  no_first = λ h. is_nil h;
  add_head = λ a h. a ∷ h;
  add_before = insert_at;
  store = λ n a h. set h n a;
  del = remove_at;
  walk-init = refl;
  no_first-walk = λ h. refl;
  walk-add_head = λ a h. refl;
  walk-add_before = insert_at_middle;
  walk-store = set_middle;
  walk-del = remove_at_middle;
}

abbrev pub queues : ListHead MsgQueue
queues = record {
  Head = List MsgQueue;
  items = λ h. h;
  init = [];
  list_empty = λ h. is_nil h;
  list_add = λ a h. a ∷ h;
  list_del_next = tail;
  items-init = refl;
  list_empty-items = λ h. refl;
  items-list_add = λ a h. refl;
  items-list_del_next = tail_next;
}

abbrev pub env : Env
env = record { mem = true; junk = 0xbeef }

abbrev pub plain_mac : Mac
plain_mac = record { b0 = 8; b1 = 17; b2 = 34; b3 = 51; b4 = 68; b5 = 85 }

abbrev pub host : Entry
host = record { mac = plain_mac; flags = 1; vlan_id = 10; port_id = 3; addr_type = 0 }

abbrev pub moved_host : Entry
moved_host = record host { port_id = 7 }

-- Two addresses that begin with a zero byte and share a chain.
abbrev pub zero_host_a : Entry
zero_host_a = record host {
  mac = record { b0 = 0; b1 = 1; b2 = 5; b3 = 1; b4 = 1; b5 = 1 };
  vlan_id = 1;
}

abbrev pub zero_host_b : Entry
zero_host_b = record host {
  mac = record { b0 = 0; b1 = 1; b2 = 5; b3 = 1; b4 = 2; b5 = 2 };
  vlan_id = 1;
}
