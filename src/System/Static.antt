-- ===== src/System/Static.antt =====
-- A static address on its way from a command through the SSC and the SSD to the chip.
use pi_ssc_ssd_ssa.Common.{ℕ, ◌%◌, ◌^◌, ◌≡◌, refl, ap, arith, ◌∙◌, true, some, List, [], ◌∷◌, ◌++◌}
use pi_ssc_ssd_ssa.Public.{Entry, Key, StaticMac}
use pi_ssc_ssd_ssa.Public.Compare.{memcmp_key, memcmp_key_iff}
use pi_ssc_ssd_ssa.Public.Message.{
  Msg, message, static_mac, msgid_mac_add_addr, msgid_clear_vlan_mac,
}
use pi_ssc_ssd_ssa.Hlist.{Hlist}
use pi_ssc_ssd_ssa.Table.{entries}
use pi_ssc_ssd_ssa.Table.Chain.{lookup, merge}
use pi_ssc_ssd_ssa.Table.Insert.{insert_hash_table-Inserted}
use pi_ssc_ssd_ssa.Pi.Db.{Env, Db, IsDb}
use pi_ssc_ssd_ssa.Pi.Local.{
  static_entry, add_static, pi_local_set_static_addr, set_static_addr_of, pi_update_local_db,
}
use pi_ssc_ssd_ssa.Pi.Learn.{static_at}
use pi_ssc_ssd_ssa.Pi.Server.{Fd, send_loop}
use pi_ssc_ssd_ssa.Pi.Cli.{Net, Console, set_static, command}
use pi_ssc_ssd_ssa.Pi.Cli.Done.{command-Done}
use pi_ssc_ssd_ssa.Ssc.Comm.{Platform, Ssc, ssc_send_ssd_conf, ssc_recevie_msg_pi}
use pi_ssc_ssd_ssa.Ssc.Invariant.{IsSscDb}
use pi_ssc_ssd_ssa.Ssc.Static.{stored, merge-port}
use pi_ssc_ssd_ssa.Ssd.{Card, Ssd, ssd_add_static_func, ssd_mac_recv_ssc_command}
use pi_ssc_ssd_ssa.Ssd.Forward.{send-out}
use pi_ssc_ssd_ssa.Ssa.Driver.{Chip, L2Addr}
use pi_ssc_ssd_ssa.Ssa.{Ssa, esw_mac_flag_to_hw, ssa_add_static_func, ssa_mac_recv_ssd_comm}

module _ (H : Hlist Entry) (env : Env) where
  -- The management process has the address in its static table, at the port of the command.
  local_static :
      (a : StaticMac) (db db' : Db H)
      → env.mem ≡ true
      → IsDb H db
      → pi_update_local_db H env msgid_mac_add_addr (static_mac a) db ≡ some db'
      → let key : Key = record { mac = a.mac; vlan_id = a.vlan_id } in
        (e : Entry) × (static_at H key db' ≡ some e) × (e.port_id ≡ a.port_id)
  unfolding pi_update_local_db set_static_addr_of pi_local_set_static_addr add_static
  local_static a db db' mem v run =
      let key : Key = record { mac = a.mac; vlan_id = a.vlan_id } in
      let e = static_entry H a in
      let old = static_at H key db in
      let ins = insert_hash_table-Inserted H env.junk e db.static_tbl v.static_table in
      let same : memcmp_key key e ≡ true = (memcmp_key_iff key e).1 refl in
      let done : some (add_static H env e db) ≡ some db' = rw mem at run in
      let eq : add_static H env e db ≡ db' = cc in
      (merge e old, rw (← eq) (ins.reads key ∙ rw same refl), merge-port e old)

  module _ (chip : Chip) (card : Card) (platform : Platform) where
    -- What the chip is told for a static address at a port.
    abbrev pub chip_addr : StaticMac → L2Addr
    chip_addr a = record {
      mac = a.mac;
      vid = a.vlan_id % 2 ^ 16;
      port = chip.port_to_hw chip.mac_flag_static (card.ce2fe (platform.phyid a.port_id));
      modid = 0;
      flags = esw_mac_flag_to_hw chip chip.mac_flag_static;
    }

    -- The message at the SSD, and what comes of it at the SSA.
    sent_down :
        (a : StaticMac) (ssd : Ssd) (ssa : Ssa chip)
        → card.alloc ≡ true
        → let a' = record a { port_id = platform.phyid a.port_id } in
          let m =
            message msgid_mac_add_addr
              (static_mac (record a { port_id = card.ce2fe a'.port_id })) in
          (ssd_mac_recv_ssc_command card (message msgid_mac_add_addr (static_mac a')) ssd
            ≡ some (record ssd { to_ssa = ssd.to_ssa ++ (m ∷ []) }))
          × (ssa_mac_recv_ssd_comm chip m ssa
              ≡ some (record ssa { hw = chip.l2_addr_add (chip_addr a) ssa.hw }))
    unfolding ssd_mac_recv_ssc_command ssd_add_static_func ssa_mac_recv_ssd_comm ssa_add_static_func
    sent_down a ssd ssa alloc =
        let a' = record a { port_id = card.ce2fe (platform.phyid a.port_id) } in
        let m = message msgid_mac_add_addr (static_mac a') in
        (ap some (send-out card msgid_clear_vlan_mac m ssd alloc (omega arith)), refl)

    -- Let there be memory in all processes, both databases be in order, and the command come that
    -- sets a static address. The management process sends one message and has the address at the
    -- port of the command; of it the SSC makes one to the line card and has the address at the port
    -- converted once; of that the SSD makes one to the SSA, which adds the address to the chip at
    -- the port converted three times, with the VLAN modulo 2^16.
    pub static_command-chip :
        (net : Net) (junk : ℕ) (listening : Fd) (l : List Fd) (a : StaticMac) (c : Console H)
        (s : Ssc H) (ssd : Ssd) (ssa : Ssa chip)
        → env.mem ≡ true
        → net.mem ≡ true
        → platform.alloc ≡ true
        → card.alloc ≡ true
        → c.g_client ≡ listening ∷ l
        → IsDb H c.db
        → IsSscDb H s.db
        → let key : Key = record { mac = a.mac; vlan_id = a.vlan_id } in
          (m1 : Msg) × (m2 : Msg) × (m3 : Msg) × (c' : Console H) × (s' : Ssc H) × (ssd' : Ssd)
          × (e1 : Entry) × (e2 : Entry) × (command H env net junk
                (set_static a.mac a.vlan_id a.port_id)
                c
              ≡ some c')
          × (c'.sent ≡ c.sent ++ ((m1, send_loop net.wrote listening l) ∷ []))
          × (static_at H key c'.db ≡ some e1)
          × (e1.port_id ≡ a.port_id)
          × (ssc_recevie_msg_pi H env platform m1 s ≡ some s')
          × (s'.to_ssd ≡ s.to_ssd ++ (m2 ∷ []))
          × (lookup key (entries H s'.db.static_tbl) ≡ some e2)
          × (e2.port_id ≡ platform.phyid a.port_id)
          × (ssd_mac_recv_ssc_command card m2 ssd ≡ some ssd')
          × (ssd'.to_ssa ≡ ssd.to_ssa ++ (m3 ∷ []))
          × (ssa_mac_recv_ssd_comm chip m3 ssa
              ≡ some (record ssa { hw = chip.l2_addr_add (chip_addr a) ssa.hw }))
          × IsDb H c'.db
          × IsSscDb H s'.db
    unfolding ssc_send_ssd_conf
    static_command-chip net junk listening l a c s ssd ssa mem nmem palloc calloc g v w =
        let a' = record a { port_id = platform.phyid a.port_id } in
        let m3 =
          message msgid_mac_add_addr (static_mac (record a { port_id = card.ce2fe a'.port_id })) in
        let (c', run, d) =
          command-Done H env net junk listening l (set_static a.mac a.vlan_id a.port_id) c nmem g
            v in
        let (e1, there, port) = local_static a c.db c'.db mem v d.changed in
        let (s', e2, run', there', port', sent, w') = stored H env platform a s mem w in
        let (passed, added) = sent_down a ssd ssa calloc in
        (
          message msgid_mac_add_addr (static_mac a),
          message msgid_mac_add_addr (static_mac a'),
          m3,
          c',
          s',
          record ssd { to_ssa = ssd.to_ssa ++ (m3 ∷ []) },
          e1,
          e2,
          run,
          d.sent,
          there,
          port,
          run',
          sent ∙ rw palloc refl,
          there',
          port',
          passed,
          refl,
          added,
          d.valid,
          w',
        )
