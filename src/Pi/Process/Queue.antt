-- ===== src/Pi/Process/Queue.antt =====
-- The queue of received messages holds messages that can be handled.
use pi_ssc_ssd_ssa.Common.{
  ℕ, zero, suc, ◌+◌, ◌-◌, ◌≡◌, refl, ◌∙◌, ap, ltb, inl, inr, Bool, true, false, ◌&&◌, Option, none,
  some, List, [], ◌∷◌, arith, ◌==◌, leb, get_or, if◌then◌else◌, Bool-cases, Option-cases, if_both,
  both_tests,
}
use pi_ssc_ssd_ssa.Public.{Entry}
use pi_ssc_ssd_ssa.Public.Message.{
  Msg, msgid_start, msgid_ing, msgid_end, msgid_mac_addr_notify, msgid_mac_fetch,
}
use pi_ssc_ssd_ssa.Public.Kinds.{is_entry, is_ds, by_entry, by_ds}
use pi_ssc_ssd_ssa.Hlist.{Hlist}
use pi_ssc_ssd_ssa.MsgList.{ListHead}
use pi_ssc_ssd_ssa.Pi.Db.{Env, IsDb}
use pi_ssc_ssd_ssa.Pi.Handlers.{Pi, deal_msg, ds_ing_of, notify_of}
use pi_ssc_ssd_ssa.Pi.Invariant.{deal_msg-IsDb}
use pi_ssc_ssd_ssa.Pi.Receive.{MsgQueue, Inbox, pi_recevie_msg_ssc, insert_msg_to_queue}
use pi_ssc_ssd_ssa.Pi.Order.{nodes, deal_all}
use pi_ssc_ssd_ssa.Pi.Server.{
  Answers, Server, Round, read_loop, add_client, read_clients, place_client, poll_round, clients,
  free_place, max_client,
}

-- A message whose body is the structure that its handler reads; other types have no handler that
-- reads a body.
unfoldable pub can_handle : Msg → Bool
can_handle m =
    if m.msg_type == msgid_mac_fetch
    then true
    else if m.msg_type == msgid_start
    then true
    else if m.msg_type == msgid_ing
    then is_ds m.msg
    else if m.msg_type == msgid_end
    then true
    else if m.msg_type == msgid_mac_addr_notify
    then is_entry m.msg
    else true

abbrev pub all_can : List Msg → Bool
all_can [] = true
all_can (m ∷ ms) = can_handle m && all_can ms

abbrev pub can_read : Option Msg → Bool
can_read none = true
can_read (some m) = can_handle m

module _ (H : Hlist Entry) (env : Env) (create : Bool) where
  deal_msg-Returns :
      (m : Msg) (s : Pi H)
      → can_handle m ≡ true
      → (s' : Pi H) × (deal_msg H env create m s ≡ some s')
  unfolding deal_msg can_handle ds_ing_of notify_of
  deal_msg-Returns m s ok =
      let Q : Option (Pi H) → Type 0 = λ o. (s' : Pi H) × (o ≡ some s') in
      let t = m.msg_type in
      both_tests Q (t == msgid_mac_fetch) _ _ _ _ (λ h. (_, refl))
        (both_tests Q (t == msgid_start) _ _ _ _ (λ h. (_, refl))
          (both_tests Q (t == msgid_ing) _ _ _ _
            (by_ds (λ p. Q (ds_ing_of H env p s)) (λ d. (_, refl)) m.msg)
            (both_tests Q (t == msgid_end) _ _ _ _ (λ h. (_, refl))
              (both_tests Q (t == msgid_mac_addr_notify) _ _ _ _
                (by_entry (λ p. Q (notify_of H env p s)) (λ e. (_, refl)) m.msg)
                (λ h. (_, refl))))))
        ok

  -- The messages of a queue that can be handled are handled.
  pub deal_all-Returns :
      (ms : List Msg) (s : Pi H)
      → all_can ms ≡ true
      → IsDb H s.db
      → (s' : Pi H) × (deal_all (deal_msg H env create) ms s ≡ some s') × IsDb H s'.db
  unfolding deal_all
  deal_all-Returns [] s ok v = (s, refl, v)
  deal_all-Returns (m ∷ ms) s ok v =
      let (s1, run) = deal_msg-Returns m s (ground (arith, ok)) in
      let (s2, rest, v2) =
        deal_all-Returns ms s1 (ground (arith, ok)) (deal_msg-IsDb H env create m s s1 v run) in
      (s2, rw (run, deal_all) rest, v2)

module _ (L : ListHead MsgQueue) where
  -- The nodes of the queue hold messages that can be handled.
  pub record Queued (box : Inbox L) : Type 0 where
    pub ms : List Msg
    pub there : L.items box.queue ≡ nodes ms
    pub can : all_can ms ≡ true

  receive-Queued :
      (mem : Bool) (m : Msg) (box : Inbox L)
      → can_handle m ≡ true
      → Queued box
      → Queued (pi_recevie_msg_ssc L mem mem (some m) box)
  unfolding pi_recevie_msg_ssc insert_msg_to_queue
  receive-Queued true m box ok q = record {
    ms = m ∷ q.ms;
    there = L.items-list_add _ box.queue ∙ ap (λ l. record { msg = some m } ∷ l) q.there;
    can = ground (arith, ok, q.can);
  }
  receive-Queued false m box ok q = q

  read_loop-Queued :
      (mem : Bool) (pollin : ℕ → Bool) (reads : ℕ → Option Msg) (n i n_ready : ℕ) (s : Server L)
      → ((j : ℕ) → can_read (reads j) ≡ true)
      → Queued s.inbox
      → Queued (read_loop L mem pollin reads n i n_ready s).inbox
  unfolding read_loop
  read_loop-Queued mem pollin reads zero i n_ready s ok q = q
  read_loop-Queued mem pollin reads (suc n) i n_ready s ok q =
      elim (Option-cases (get_or s.g_client i none)) [
        | inl bare ↦
            rw (bare, read_loop) (read_loop-Queued mem pollin reads n (i + 1) n_ready s ok q)
        | inr (f, there) ↦ elim (Bool-cases (pollin i)) [
          | inr idle ↦
              rw (there, idle, read_loop)
                (read_loop-Queued mem pollin reads n (i + 1) n_ready s ok q)
          | inl ready ↦ elim (Option-cases (reads i)) [
            | inl gone ↦ rw (there, ready, gone, read_loop) q
            | inr (m, got) ↦
                let s1 = record s { inbox = pi_recevie_msg_ssc L mem mem (some m) s.inbox } in
                let q1 = receive-Queued mem m s.inbox (rw got at (ok i)) q in
                elim (Bool-cases (leb n_ready 1)) [
                  | inl last ↦ rw (there, ready, got, last, read_loop) q1
                  | inr more ↦
                      rw (there, ready, got, more, read_loop)
                        (read_loop-Queued mem pollin reads n (i + 1) (n_ready - 1) s1 ok q1)
                ]
          ]
        ]
      ]

  abbrev pub Goes : Round L → Type 0
  Goes Round.fault = Unit
  Goes (Round.went s) = Queued s.inbox

  -- A round of the server, where it goes on, leaves such a queue.
  place_client-Queued :
      (mem : Bool) (a : Answers) (s : Server L)
      → ((j : ℕ) → can_read (a.reads j) ≡ true)
      → Queued s.inbox
      → Goes (place_client L mem a s)
  unfolding place_client read_clients add_client
  place_client-Queued mem a s ok q =
      let i = free_place 1 (clients s.g_client) in
      let s1 = add_client L i s in
      if_both Goes (ltb i max_client) _ _
        (if_both (λ (r : Server L). Queued r.inbox) (leb a.n_ready 1) s1 _ q
          (read_loop-Queued mem a.pollin a.reads s1.maxi 1 (a.n_ready - 1) s1 ok q))
        tt

  pub poll_round-Queued :
      (mem : Bool) (a : Answers) (s : Server L)
      → ((j : ℕ) → can_read (a.reads j) ≡ true)
      → Queued s.inbox
      → Goes (poll_round L mem a s)
  unfolding poll_round
  poll_round-Queued mem a s ok q = elim (Bool-cases (a.pollin 0)) [
    | inr silent ↦ rw silent (place_client-Queued mem a s ok q)
    | inl call ↦ elim (Option-cases a.accepted) [
      | inl lost ↦ rw (call, lost) q
      | inr (f, came) ↦ rw (call, came) (place_client-Queued mem a _ ok q)
    ]
  ]
