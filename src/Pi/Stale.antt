-- ===== src/Pi/Stale.antt =====
-- A learnt address whose ageing arrives in the same batch.
use pi_ssc_ssd_ssa.Common.{
  ℕ, ◌<◌, ◌≡◌, ◌≢◌, refl, ◌∙◌, Bool, true, none, some, [], ◌∷◌, arith, ==_iff,
}
use pi_ssc_ssd_ssa.Public.{Entry, key_of}
use pi_ssc_ssd_ssa.Public.Compare.{memcmp_key_refl, IsPlain}
use pi_ssc_ssd_ssa.Public.Message.{Msg, message, mac_entry, msgid_mac_addr_notify}
use pi_ssc_ssd_ssa.Hlist.{Hlist}
use pi_ssc_ssd_ssa.MsgList.{ListHead}
use pi_ssc_ssd_ssa.Table.Delete.{exact}
use pi_ssc_ssd_ssa.Pi.Db.{Env, IsDb}
use pi_ssc_ssd_ssa.Pi.Handlers.{Pi, deal_msg, notify_of, pi_deal_notify_msg}
use pi_ssc_ssd_ssa.Pi.Receive.{MsgQueue, Inbox, done, deal_round}
use pi_ssc_ssd_ssa.Pi.Invariant.{pi_deal_notify_msg-IsDb}
use pi_ssc_ssd_ssa.Pi.Learn.{dyn_at, notify_learn, notify_age}
use pi_ssc_ssd_ssa.Pi.Order.{deal_all, receive_all, deal_round-reverse}

-- The two notices of the SSC about an address: learnt, and aged out.
abbrev pub learnt : Entry → Msg
learnt e = message msgid_mac_addr_notify (mac_entry e)

abbrev pub aged : Entry → Msg
aged e = message msgid_mac_addr_notify (mac_entry (record e { flags = 0 }))

module _ (H : Hlist Entry) where
  two_notices :
      (env : Env) (create : Bool) (a b : Entry) (s : Pi H)
      → deal_all
          (deal_msg H env create)
          (message msgid_mac_addr_notify (mac_entry a)
            ∷ message msgid_mac_addr_notify (mac_entry b)
            ∷ [])
          s
        ≡ some (record s { db = pi_deal_notify_msg H env b (pi_deal_notify_msg H env a s.db) })
  unfolding deal_all deal_msg notify_of
  two_notices env create a b s = refl

  -- Handled as they arrived, the two notices leave no entry under the key, if there was none before.
  pub in_order :
      (env : Env) (create : Bool) (e : Entry) (s : Pi H)
      → IsDb H s.db
      → env.mem ≡ true
      → e.flags ≢ 0
      → IsPlain e.mac
      → dyn_at H (key_of e) s.db ≡ none
      → (s' : Pi H) × (deal_all (deal_msg H env create) (learnt e ∷ aged e ∷ []) s ≡ some s')
        × (dyn_at H (key_of e) s'.db ≡ none)
  unfolding exact
  in_order env create e s v m f p absent =
      let k = key_of e in
      let db = pi_deal_notify_msg H env e s.db in
      let l = (notify_learn H env e s.db k v m f).0 in
      let a =
        (notify_age H env (record e { flags = 0 }) db k (pi_deal_notify_msg-IsDb H env e s.db v) p
          refl).0 in
      let there : dyn_at H k db ≡ some e = l ∙ rw (memcmp_key_refl e, absent) in
      let hit : exact (record e { flags = 0 }) e ≡ true =
        rw (memcmp_key_refl e) (ground (arith, ==_iff e.port_id e.port_id)) in
      (_, two_notices env create e (record e { flags = 0 }) s, a ∙ rw (there, hit))

  -- The management process puts each message before those that wait, so of two notices that arrive
  -- while its thread is busy it handles the ageing first: the address stays in the table.
  pub stale_address :
      (L : ListHead MsgQueue) (env : Env) (create : Bool) (fuel : ℕ) (e : Entry) (box : Inbox L)
      (s : Pi H)
      → IsDb H s.db
      → L.items box.queue ≡ []
      → 2 < fuel
      → env.mem ≡ true
      → e.flags ≢ 0
      → IsPlain e.mac
      → dyn_at H (key_of e) s.db ≡ none
      → (box' : Inbox L) × (s' : Pi H) × (deal_round L
            (deal_msg H env create)
            fuel
            (receive_all L (learnt e ∷ aged e ∷ []) box)
            s
          ≡ done box' s')
        × (dyn_at H (key_of e) s'.db ≡ some e)
  stale_address L env create fuel e box s v start enough m f p absent =
      let k = key_of e in
      let old = record e { flags = 0 } in
      let db = pi_deal_notify_msg H env old s.db in
      let a = (notify_age H env old s.db k v p refl).0 in
      let l = (notify_learn H env e db k (pi_deal_notify_msg-IsDb H env old s.db v) m f).0 in
      let (box', run, _, _) =
        deal_round-reverse L (deal_msg H env create) fuel (learnt e ∷ aged e ∷ []) box s _ start
          (λ q. cc) enough (two_notices env create old e s) in
      let gone : dyn_at H k db ≡ none = a ∙ rw absent in
      (box', _, run, l ∙ rw (memcmp_key_refl e, gone))
