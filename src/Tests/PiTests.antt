-- ===== src/Tests/PiTests.antt =====
-- The theorems on the management process at concrete inputs.
use pi_ssc_ssd_ssa.Common.{
  ℕ, ◌≡◌, refl, true, false, [], ◌∷◌, List, arith, none, some, get_or, Option, ap, if◌then◌else◌,
  ◌==◌,
}
use pi_ssc_ssd_ssa.Public.{Entry, Key, StaticMac, key_of, zero_entry, u32_mod, port_num}
use pi_ssc_ssd_ssa.Public.Message.{ConfInfo, Msg, static_mac, nothing, message, msgid_mac_add_addr}
use pi_ssc_ssd_ssa.Table.Chain.{lookup}
use pi_ssc_ssd_ssa.Table.Place.{empty_table-entries}
use pi_ssc_ssd_ssa.Pi.Db.{Db, IsDb, pi_default_args_init}
use pi_ssc_ssd_ssa.Pi.Local.{
  call_clear_local_mac, clear_vlan_mac, pi_local_learn_sta, pi_update_local_db, enable_text,
  pi_local_set_static_addr, learn_status,
}
use pi_ssc_ssd_ssa.Pi.Clear.{Cleared, call_clear_local_mac-Cleared}
use pi_ssc_ssd_ssa.Pi.Ports.{pi_local_learn_sta-ports, pi_default_args_init-IsDb}
use pi_ssc_ssd_ssa.Pi.Handlers.{Pi, pi_deal_notify_msg, deal_conf_info, deal_msg}
use pi_ssc_ssd_ssa.Pi.Invariant.{deal_msg-IsDb, pi_update_local_db-IsDb}
use pi_ssc_ssd_ssa.Pi.Learn.{dyn_at, static_at, sync_static, sync_static_lost}
use pi_ssc_ssd_ssa.Pi.Receive.{MsgQueue, Inbox, done, fault, deal_loop, deal_round}
use pi_ssc_ssd_ssa.Pi.Order.{
  deal_all, receive_all, deal_loop-done, deal_loop-fault, deal_round-reverse,
}
use pi_ssc_ssd_ssa.Pi.Stale.{learnt, aged, stale_address}
use pi_ssc_ssd_ssa.Tests.Instances.{chains, queues, env, host, plain_mac}
use pi_ssc_ssd_ssa.Tests.TableTests.{plain_mac-IsPlain}

abbrev pub fresh : Db chains
fresh = pi_default_args_init chains

pub fresh-IsDb : IsDb chains fresh
fresh-IsDb = (pi_default_args_init-IsDb chains).0

-- The database with one learnt host.
abbrev learnt_db : Db chains
learnt_db = pi_deal_notify_msg chains env host fresh

abbrev idle : Pi chains
idle = record { db = fresh; threads = 0 }

abbrev empty_box : Inbox queues
empty_box = record { queue = []; pending = false }

-- A handler that notes the types of the messages, and faults at type 99.
note_type : Msg → List ℕ → Option (List ℕ)
note_type m seen = if m.msg_type == 99 then none else some (m.msg_type ∷ seen)

fresh_absent : dyn_at chains (key_of host) fresh ≡ none
unfolding pi_default_args_init lookup
fresh_absent = ap (lookup (key_of host)) (empty_table-entries chains)

call_clear_local_mac-Cleared_example :
    Cleared chains 2
      (clear_vlan_mac 10)
      fresh
      (call_clear_local_mac chains 2 (clear_vlan_mac 10) fresh)
call_clear_local_mac-Cleared_example =
    call_clear_local_mac-Cleared chains 2 (clear_vlan_mac 10) fresh fresh-IsDb

pi_local_learn_sta-ports_example :
    get_or (pi_local_learn_sta chains enable_text fresh).port_status 24 0
    ≡ get_or fresh.port_status 24 0
unfolding learn_status pi_ssc_ssd_ssa.Public.Compare.same_text
pi_local_learn_sta-ports_example = pi_local_learn_sta-ports chains enable_text fresh 24 fresh-IsDb

deal_msg-IsDb_example : IsDb chains learnt_db
unfolding deal_msg pi_ssc_ssd_ssa.Pi.Handlers.notify_of
deal_msg-IsDb_example =
    deal_msg-IsDb chains env true (learnt host) idle (record idle { db = learnt_db }) fresh-IsDb
      refl

abbrev router : StaticMac
router = record { mac = plain_mac; vlan_id = 20; port_id = 1 }

pi_update_local_db-IsDb_example : IsDb chains (pi_local_set_static_addr chains env router fresh)
unfolding pi_update_local_db pi_ssc_ssd_ssa.Pi.Local.set_static_addr_of
pi_update_local_db-IsDb_example =
    pi_update_local_db-IsDb chains env msgid_mac_add_addr (static_mac router) fresh _ fresh-IsDb
      refl

abbrev conf : ConfInfo
conf = record { age_time = 60; port_status = 3 ∷ 2 ∷ 1 ∷ [] }

sync_static_lost_example :
    static_at chains (key_of host) (sync_static chains ((env, host) ∷ (env, host) ∷ []) fresh)
    ≡ static_at chains (key_of host) fresh
sync_static_lost_example =
    sync_static_lost chains ((env, host) ∷ (env, host) ∷ []) fresh (key_of host) fresh-IsDb
      (λ e. cc)

deal_loop-done_example :
    (q : List MsgQueue) × (deal_loop queues note_type 5
        (record { msg = some (message 6 nothing) } ∷ [])
        []
      ≡ done q (6 ∷ []))
    × (q ≡ [])
unfolding deal_all note_type
deal_loop-done_example =
    deal_loop-done queues note_type 5 (record { msg = some (message 6 nothing) } ∷ [])
      (message 6 nothing ∷ []) [] (6 ∷ []) refl (omega arith) refl

deal_loop-fault_example :
    deal_loop queues note_type 5 (record { msg = some (message 99 nothing) } ∷ []) [] ≡ fault
unfolding deal_all note_type
deal_loop-fault_example =
    deal_loop-fault queues note_type 5 (record { msg = some (message 99 nothing) } ∷ [])
      (message 99 nothing ∷ []) [] refl (omega arith) refl

deal_round-reverse_example :
    (box : Inbox queues) × (deal_round queues note_type 5
        (receive_all queues (message 6 nothing ∷ message 8 nothing ∷ []) empty_box)
        []
      ≡ done box (6 ∷ 8 ∷ []))
    × (box.queue ≡ [])
    × (box.pending ≡ false)
unfolding deal_all note_type
deal_round-reverse_example =
    deal_round-reverse queues note_type 5 (message 6 nothing ∷ message 8 nothing ∷ []) empty_box []
      (6 ∷ 8 ∷ []) refl (λ e. cc) (omega arith) refl

stale_address_example :
    (box : Inbox queues) × (s : Pi chains) × (deal_round queues
        (deal_msg chains env true)
        5
        (receive_all queues (learnt host ∷ aged host ∷ []) empty_box)
        idle
      ≡ done box s)
    × (dyn_at chains (key_of host) s.db ≡ some host)
stale_address_example =
    stale_address chains queues env true 5 host empty_box idle fresh-IsDb refl (omega arith) refl
      (omega arith) plain_mac-IsPlain fresh_absent
