-- ===== src/System.antt =====
-- The four processes together: an address that the chip learns, from the SSA through the SSD and the
-- SSC to the management process.
pub mod Wire
pub mod Static
use Prim.Native.Nat.{bit_and}
use pi_ssc_ssd_ssa.Common.{
  ℕ, ◌%◌, ◌^◌, ◌≡◌, ◌≢◌, refl, ◌∙◌, inl, inr, Bool, true, false, some, [], ◌∷◌, ◌++◌, arith, ◌==◌,
  ==_iff, Option-cases,
}
use pi_ssc_ssd_ssa.Public.{Entry, Key, key_of}
use pi_ssc_ssd_ssa.Public.Compare.{IsPlain, memcmp_key_iff}
use pi_ssc_ssd_ssa.Public.Message.{Msg, message, mac_entry, msgid_mac_addr_notify}
use pi_ssc_ssd_ssa.Hlist.{Hlist}
use pi_ssc_ssd_ssa.Pi.Db.{Env, Db, IsDb}
use pi_ssc_ssd_ssa.Pi.Handlers.{Pi, deal_msg, notify_of, pi_deal_notify_msg}
use pi_ssc_ssd_ssa.Pi.Learn.{dyn_at, notify_learn}
use pi_ssc_ssd_ssa.Ssc.Comm.{Platform, Ssc, on_db, ssc_send_msg_pi, ssc_mac_update_recv}
use pi_ssc_ssd_ssa.Ssc.Notice.{Told, learn-Told}
use pi_ssc_ssd_ssa.Ssd.{Card, Ssd, ssd_mac_recv_ssa_msg}
use pi_ssc_ssd_ssa.Ssa.Driver.{Chip, L2Addr}
use pi_ssc_ssd_ssa.Ssa.{Ssa, mac_clbk}
use pi_ssc_ssd_ssa.Ssa.Notify.{notice, mac_clbk-notice}

module _ (H : Hlist Entry) (env : Env) where
  -- After a notice that an address is learnt, the address is known at the port of the notice.
  learnt_port :
      (e : Entry) (db : Db H)
      → IsDb H db
      → env.mem ≡ true
      → e.flags ≢ 0
      → (a : Entry) × (dyn_at H (key_of e) (pi_deal_notify_msg H env e db) ≡ some a)
        × (a.port_id ≡ e.port_id)
  learnt_port e db v m f =
      let n = (notify_learn H env e db (key_of e) v m f).0 in
      let same = (memcmp_key_iff (key_of e) e).1 refl in
      elim (Option-cases (dyn_at H (key_of e) db)) [
        | inl gone ↦ (e, n ∙ rw (same, gone) refl, refl)
        | inr (a, there) ↦ (record a { port_id = e.port_id }, n ∙ rw (same, there) refl, refl)
      ]

  module _ (chip : Chip) (card : Card) (platform : Platform) where
    -- Let there be memory in all four processes, the SSC and the management process be in order and
    -- know the same dynamic addresses, and the chip tell of an address that is not static, with no
    -- zero byte among its first five, by a kind whose low byte is not zero. Then the SSA sends one
    -- message, of which the SSD makes one to the SSC, of which the SSC makes one to the management
    -- process; when that has handled it, it knows the address at the port that the chip told,
    -- converted three times, and it and the SSC are in order and know the same dynamic addresses.
    pub learnt_address :
        (create : Bool) (junk insert : ℕ) (l2addr : L2Addr) (ssa : Ssa chip) (ssd : Ssd)
        (ssc : Ssc H) (pi : Pi H)
        → chip.alloc ≡ true
        → card.alloc ≡ true
        → env.mem ≡ true
        → bit_and l2addr.flags chip.l2_static ≡ 0
        → IsPlain l2addr.mac
        → insert % 2 ^ 8 ≢ 0
        → Told H ssc.db pi.db
        → let key : Key = record { mac = l2addr.mac; vlan_id = l2addr.vid } in
          let port =
            platform.user_ifx (card.fe2ce (chip.phyid_from_chip_port l2addr.modid l2addr.port)) in
          (m1 : Msg) × (m2 : Msg) × (m3 : Msg) × (ssd' : Ssd) × (ssc' : Ssc H) × (pi' : Pi H)
          × (a : Entry) × ((mac_clbk chip junk l2addr insert ssa).to_ssd ≡ ssa.to_ssd ++ (m1 ∷ []))
          × (ssd_mac_recv_ssa_msg card m1 ssd ≡ some ssd')
          × (ssd'.to_ssc ≡ ssd.to_ssc ++ (m2 ∷ []))
          × (ssc_mac_update_recv H env platform m2.msg ssc ≡ some ssc')
          × (ssc'.to_pi ≡ ssc.to_pi ++ (m3 ∷ []))
          × (deal_msg H env create m3 pi ≡ some pi')
          × (dyn_at H key pi'.db ≡ some a)
          × (a.port_id ≡ port)
          × Told H ssc'.db pi'.db
    unfolding ssc_mac_update_recv on_db ssc_send_msg_pi deal_msg notify_of
    learnt_address create junk insert l2addr ssa ssd ssc pi ca da mem dyn plain kind told =
        let e = notice chip card l2addr insert in
        let e' = record e { port_id = platform.user_ifx e.port_id } in
        let msg = message msgid_mac_addr_notify (mac_entry e') in
        let (m1, sent, forwarded) =
          mac_clbk-notice chip card junk insert l2addr ssa ssd ca da dyn in
        let (db, run, t) = learn-Told H env e' ssc.db pi.db told mem plain kind in
        let (a, known, port) = learnt_port e' pi.db told.pi_ok mem kind in
        let set_flag : (e.flags == 0) ≡ false = ground (arith, ==_iff e.flags 0) in
        (
          m1,
          message junk (mac_entry e),
          msg,
          record ssd { to_ssc = ssd.to_ssc ++ (message junk (mac_entry e) ∷ []) },
          record ssc { db = db; to_pi = ssc.to_pi ++ (msg ∷ []) },
          record pi { db = pi_deal_notify_msg H env e' pi.db },
          a,
          sent,
          forwarded,
          refl,
          simp (set_flag, mem, run),
          refl,
          refl,
          known,
          port,
          t,
        )
