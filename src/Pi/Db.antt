-- ===== src/Pi/Db.antt =====
-- pi_comm_ssc.h, `pi_db_mac_info_t`: the database of the management process, and its start
-- (`pi_default_args_init`). A function here is one step on the database. The functions of
-- pi_comm_ssc.c on the tables, and deal_conf_info, hold its mutex meanwhile; pi_local_learn_sta,
-- pi_local_set_agetime, pthread_ds_fun, pi_show_mac_count and pi_show_mac_agetime take none, and what
-- may happen between their parts is modelled in Pi.Race only.
use pi_ssc_ssd_ssa.Common.{
  ℕ, zero, suc, ◌+◌, ◌-◌, ◌%◌, ◌≡◌, Bool, List, arith, length, fill, replicate,
}
use pi_ssc_ssd_ssa.Public.{Entry, port_num, u32_mod}
use pi_ssc_ssd_ssa.Public.Message.{mac_fwd_learn}
use pi_ssc_ssd_ssa.Hlist.{Hlist}
use pi_ssc_ssd_ssa.Hlist.Loops.{repeat}
use pi_ssc_ssd_ssa.Table.{Table, entries, empty_table}
use pi_ssc_ssd_ssa.Table.Place.{IsTable}

-- What an operation meets outside the database: whether `malloc` succeeds, and the unset bytes of
-- `hash_function`.
pub record Env : Type 0 where
  pub mem : Bool
  pub junk : ℕ

-- `x++` and `x--` on a u32
unfoldable pub inc32 : ℕ → ℕ
inc32 n = (n + 1) % u32_mod

unfoldable pub dec32 : ℕ → ℕ
dec32 n = (n + (u32_mod - 1)) % u32_mod

pub inc32-mod : (n : ℕ) → inc32 (n % u32_mod) ≡ (n + 1) % u32_mod
unfolding inc32
inc32-mod n = omega arith

pub dec32-mod : (n : ℕ) → dec32 ((n + 1) % u32_mod) ≡ n % u32_mod
unfolding dec32
dec32-mod n = omega arith

-- One step down for each entry that goes.
pub repeat-dec32 : (k m : ℕ) → repeat dec32 k ((m + k) % u32_mod) ≡ m % u32_mod
unfolding repeat
repeat-dec32 zero m = omega arith
repeat-dec32 (suc k) m =
    let e : dec32 ((m + suc k) % u32_mod) ≡ (m + k) % u32_mod =
      rw (let a : m + suc k ≡ m + k + 1 = omega arith in a) (dec32-mod (m + k)) in
    rw e (repeat-dec32 k m)

module _ (H : Hlist Entry) where
  pub record Db : Type 0 where
    pub age_time : ℕ
    pub dyn_addr_count : ℕ
    pub static_addr_count : ℕ
    pub port_status : List ℕ
    pub static_tbl : Table H
    pub dyn_tbl : Table H

  -- The array of ports is a global, so it starts as zeros; ports 1 to 24 are then set to learn.
  unfoldable pub pi_default_args_init : Db
  pi_default_args_init = record {
    age_time = 300;
    dyn_addr_count = 0;
    static_addr_count = 0;
    port_status = fill port_num 1 (λ i. mac_fwd_learn) (replicate (port_num + 1) 0);
    static_tbl = empty_table H;
    dyn_tbl = empty_table H;
  }

  -- The tables are in order, and the counts are those of their entries, as far as a u32 can hold.
  pub record IsDb (db : Db) : Type 0 where
    pub static_table : IsTable H db.static_tbl
    pub dyn_table : IsTable H db.dyn_tbl
    pub static_count : db.static_addr_count ≡ length (entries H db.static_tbl) % u32_mod
    pub dyn_count : db.dyn_addr_count ≡ length (entries H db.dyn_tbl) % u32_mod
    pub ports : length db.port_status ≡ port_num + 1
