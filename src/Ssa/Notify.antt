-- ===== src/Ssa/Notify.antt =====
-- A dynamic address that the chip tells of, from the SSA through the SSD.
use Prim.Native.Nat.{bit_and}
use pi_ssc_ssd_ssa.Common.{ℕ, ◌≡◌, ◌%◌, ◌^◌, true, some, [], ◌∷◌, ◌++◌, ◌==◌, ==_iff}
use pi_ssc_ssd_ssa.Public.{Entry}
use pi_ssc_ssd_ssa.Public.Message.{Msg, message, mac_entry}
use pi_ssc_ssd_ssa.Ssa.Driver.{Chip, L2Addr}
use pi_ssc_ssd_ssa.Ssa.{Ssa, mac_clbk, ssa_send_to_ssd}
use pi_ssc_ssd_ssa.Ssd.{Card, Ssd, ssd_mac_recv_ssa_msg, ssd_send_msg_ssc}

module _ (chip : Chip) (card : Card) where
  -- The notice that the SSC gets: the flag is the low byte of `insert`, and the port of the chip is
  -- converted twice.
  abbrev pub notice : L2Addr → ℕ → Entry
  notice l2addr insert = record {
    mac = l2addr.mac;
    flags = insert % 2 ^ 8;
    vlan_id = l2addr.vid;
    port_id = card.fe2ce (chip.phyid_from_chip_port l2addr.modid l2addr.port);
    addr_type = chip.mac_flag_dyn;
  }

  -- With memory in both processes, the SSA sends one message about an address that is not static,
  -- and the SSD makes of that message one to the SSC with the notice.
  pub mac_clbk-notice :
      (junk insert : ℕ) (l2addr : L2Addr) (s : Ssa chip) (ssd : Ssd)
      → chip.alloc ≡ true
      → card.alloc ≡ true
      → bit_and l2addr.flags chip.l2_static ≡ 0
      → (m : Msg) × ((mac_clbk chip junk l2addr insert s).to_ssd ≡ s.to_ssd ++ (m ∷ []))
        × (ssd_mac_recv_ssa_msg card m ssd
            ≡ some (record ssd {
              to_ssc = ssd.to_ssc ++ (message junk (mac_entry (notice l2addr insert)) ∷ []);
            }))
  unfolding mac_clbk ssa_send_to_ssd ssd_mac_recv_ssa_msg ssd_send_msg_ssc
  mac_clbk-notice junk insert l2addr s ssd a b dyn =
      let test : (bit_and l2addr.flags chip.l2_static == 0) ≡ true =
        (==_iff (bit_and l2addr.flags chip.l2_static) 0).1 dyn in
      (
        message junk (
            mac_entry (record (notice l2addr insert) {
              port_id = chip.phyid_from_chip_port l2addr.modid l2addr.port;
            })),
        simp (test, a),
        simp b,
      )
