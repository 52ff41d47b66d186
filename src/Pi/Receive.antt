-- ===== src/Pi/Receive.antt =====
-- The queue of received messages: hash_tab_oper.c (`insert_msg_to_queue`, `get_msg_data`,
-- `del_dealed_msg`) and pi_comm_ssc.c (`pi_recevie_msg_ssc`, the loop of `deal_info_func`).
use pi_ssc_ssd_ssa.Common.{
  ℕ, zero, suc, Bool, true, false, Option, none, some, [], ◌∷◌, if◌then◌else◌,
}
use pi_ssc_ssd_ssa.Public.Message.{Msg}
use pi_ssc_ssd_ssa.MsgList.{ListHead}

-- `struct msg_queue`: the pointer to the data; `none` is NULL.
pub record MsgQueue : Type 0 where
  pub msg : Option Msg

-- How the loop ends: with a queue and a state, by a fault of a handler, or not with this fuel.
pub data Run (Q S : Type 0) : Type 0 where
  done : Q → S → Run Q S
  fault : Run Q S
  out_of_fuel : Run Q S

module _ (L : ListHead MsgQueue) where
  open L use {Head, items}

  unfoldable pub insert_msg_to_queue : MsgQueue → Head → Head
  insert_msg_to_queue entry head = L.list_add entry head

  unfoldable pub get_msg_data : Head → Option Msg
  get_msg_data head = elim (items head) [ [] ↦ none | entry ∷ rest ↦ entry.msg ]

  unfoldable pub del_dealed_msg : Head → Head
  del_dealed_msg head = L.list_del_next head

  -- The queue and `g_data`.
  pub record Inbox : Type 0 where
    pub queue : Head
    pub pending : Bool

  -- `none` for the text is NULL; the flags tell whether the two calls of `malloc` succeed.
  unfoldable pub pi_recevie_msg_ssc : Bool → Bool → Option Msg → Inbox → Inbox
  pi_recevie_msg_ssc mem_entry mem_data none box = box
  pi_recevie_msg_ssc mem_entry mem_data (some m) box =
      if mem_entry
      then (if mem_data
          then record {
            queue = insert_msg_to_queue (record { msg = some m }) box.queue;
            pending = true;
          }
          else box)
      else box

  module _ {S : Type 0} (deal : Msg → S → Option S) where
    -- `while (!list_empty(&g_msg_head))`, on fuel. `deal` is the `switch`; `none` is a fault in it.
    unfoldable pub deal_loop : ℕ → Head → S → Run Head S
    deal_loop zero q s = out_of_fuel
    deal_loop (suc fuel) q s = elim (L.list_empty q) [
      | true ↦ done q s
      | false ↦ elim (get_msg_data q) [
        | none ↦ deal_loop fuel q s
        | some m ↦ elim (deal m s) [ none ↦ fault | some s' ↦ deal_loop fuel (del_dealed_msg q) s' ]
      ]
    ]

    -- One round of `deal_info_func`; with `g_data` at 0 the thread waits.
    unfoldable pub deal_round : ℕ → Inbox → S → Run Inbox S
    deal_round fuel box s = elim box.pending [
      | false ↦ done box s
      | true ↦ elim (deal_loop fuel box.queue s) [
        | done q s' ↦ done (record { queue = q; pending = false }) s'
        | fault ↦ fault
        | out_of_fuel ↦ out_of_fuel
      ]
    ]
