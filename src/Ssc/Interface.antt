-- ===== src/Ssc/Interface.antt =====
-- The command that clears an interface, through the management process and the SSC.
use pi_ssc_ssd_ssa.Common.{ℕ, ◌≡◌, refl, true, false, some, List, [], ◌∷◌, ◌++◌}
use pi_ssc_ssd_ssa.Public.{Entry, Key}
use pi_ssc_ssd_ssa.Public.Message.{message, int_arg, msgid_clear_inter_dyn}
use pi_ssc_ssd_ssa.Hlist.{Hlist}
use pi_ssc_ssd_ssa.Table.{entries}
use pi_ssc_ssd_ssa.Table.Chain.{lookup, discard}
use pi_ssc_ssd_ssa.Table.Clear.{clear_table, clear_table-entries, clear_table-IsTable}
use pi_ssc_ssd_ssa.Pi.Db.{Env, IsDb}
use pi_ssc_ssd_ssa.Pi.Local.{
  clear_inter_mac, call_clear_local_mac, pi_update_local_db, clear_local_mac,
}
use pi_ssc_ssd_ssa.Pi.Clear.{call_clear_local_mac-Cleared, lookup-cleared}
use pi_ssc_ssd_ssa.Pi.Learn.{dyn_at, static_at}
use pi_ssc_ssd_ssa.Pi.Server.{Fd, send_loop}
use pi_ssc_ssd_ssa.Pi.Cli.{Net, Console, clear_interface, command}
use pi_ssc_ssd_ssa.Pi.Cli.Done.{command-Done}
use pi_ssc_ssd_ssa.Ssc.Db.{lock, unlock, on_port, no_count, ssc_del_int_addr}
use pi_ssc_ssd_ssa.Ssc.Comm.{
  Platform, Ssc, ssc_clear_inter_func, ssc_send_ssd_conf, ssc_recevie_msg_pi,
}
use pi_ssc_ssd_ssa.Ssc.Invariant.{IsSscDb}
use pi_ssc_ssd_ssa.Ssc.Notice.{Told}
use pi_ssc_ssd_ssa.Ssc.Remove.{after_send}

module _ (H : Hlist Entry) where
  -- The SSC clears its dynamic table by the converted number.
  ssc_clear_inter :
      (env : Env) (platform : Platform) (n : ℕ) (s : Ssc H)
      → IsSscDb H s.db
      → (s' : Ssc H) × (ssc_recevie_msg_pi H env platform
            (message msgid_clear_inter_dyn (int_arg n))
            s
          ≡ some s')
        × IsSscDb H s'.db
        × ((q : Key)
            → lookup q (entries H s'.db.dyn_tbl)
              ≡ discard (on_port (platform.phyid n)) (lookup q (entries H s.db.dyn_tbl)))
  unfolding ssc_recevie_msg_pi ssc_clear_inter_func ssc_del_int_addr lock unlock
  ssc_clear_inter env platform n s v =
      let phy_id = platform.phyid n in
      let kept = clear_table-entries H (on_port phy_id) no_count s.db.dyn_tbl tt in
      let db = record s.db {
        dyn_tbl = (clear_table H (on_port phy_id) no_count s.db.dyn_tbl tt).0;
        locked = false;
      } in
      (
        record (ssc_send_ssd_conf H env platform msgid_clear_inter_dyn (int_arg phy_id) s) {
          db = db;
        },
        after_send H env platform msgid_clear_inter_dyn (int_arg phy_id) (ssc_del_int_addr H phy_id)
            s db (simp v.free),
        record {
          static_table = v.static_table;
          dyn_table = clear_table-IsTable H (on_port phy_id) no_count s.db.dyn_tbl tt v.dyn_table;
          free = refl;
        },
        λ q. lookup-cleared H q (on_port phy_id) s.db.dyn_tbl _ v.dyn_table kept.0,
      )

  -- Let both processes be in order and know the same dynamic addresses, and there be memory for the
  -- message of the command that clears interface n. Both come to their end, and are in order. The
  -- management process has then lost, from both tables, the addresses whose port is n; the SSC has
  -- lost, of the same dynamic addresses, those whose port is what n is converted to.
  pub clear_interface_command-sides :
      (env : Env) (net : Net) (junk n : ℕ) (listening : Fd) (l : List Fd) (c : Console H)
      (platform : Platform) (s : Ssc H)
      → net.mem ≡ true
      → c.g_client ≡ listening ∷ l
      → Told H s.db c.db
      → let m = message msgid_clear_inter_dyn (int_arg n) in
        (c' : Console H) × (s' : Ssc H) × (command H env net junk (clear_interface n) c ≡ some c')
        × (c'.sent ≡ c.sent ++ ((m, send_loop net.wrote listening l) ∷ []))
        × (ssc_recevie_msg_pi H env platform m s ≡ some s')
        × IsDb H c'.db
        × IsSscDb H s'.db
        × ((q : Key)
            → (dyn_at H q c'.db ≡ discard (on_port n) (dyn_at H q c.db))
              × (static_at H q c'.db ≡ discard (on_port n) (static_at H q c.db))
              × (lookup q (entries H s'.db.dyn_tbl)
                  ≡ discard (on_port (platform.phyid n)) (dyn_at H q c.db)))
  unfolding pi_update_local_db clear_local_mac on_port clear_inter_mac
  clear_interface_command-sides env net junk n listening l c platform s mem g told =
      let (c', run, d) =
        command-Done H env net junk listening l (clear_interface n) c mem g told.pi_ok in
      let (s', run', ok, ssc) = ssc_clear_inter env platform n s told.ssc_ok in
      let pi' = call_clear_local_mac H msgid_clear_inter_dyn (clear_inter_mac n) c.db in
      let cleared =
        call_clear_local_mac-Cleared H msgid_clear_inter_dyn (clear_inter_mac n) c.db told.pi_ok in
      let same : some pi' ≡ some c'.db = d.changed in
      let done : pi' ≡ c'.db = cc in
      (
        c',
        s',
        run,
        d.sent,
        run',
        d.valid,
        ok,
        λ q. (
          rw (← done) (
              lookup-cleared H q (clear_inter_mac n) c.db.dyn_tbl _ told.pi_ok.dyn_table
                cleared.dyn),
          rw (← done) (
              lookup-cleared H q (clear_inter_mac n) c.db.static_tbl _ told.pi_ok.static_table
                cleared.static),
          rw (← told.agree q) (ssc q),
        ),
      )
