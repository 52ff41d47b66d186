-- ===== src/Pi/Order.antt =====
-- The order in which the queued messages are handled.
use mathlib.Core.List.{reverse, reverse-cons, map-append, append_assoc, append-nil}
use pi_ssc_ssd_ssa.Common.{
  ℕ, zero, suc, ◌<◌, ◌≡◌, ◌≢◌, refl, sym, ◌∙◌, ap, true, false, Option, none, some, Option-cases,
  inl, inr, List, [], ◌∷◌, ◌++◌, map, arith, length, length-append,
}
use pi_ssc_ssd_ssa.Public.Message.{Msg}
use pi_ssc_ssd_ssa.MsgList.{ListHead}
use pi_ssc_ssd_ssa.Pi.Receive.{
  MsgQueue, done, fault, insert_msg_to_queue, get_msg_data, del_dealed_msg, Inbox,
  pi_recevie_msg_ssc, deal_loop, deal_round,
}

-- The nodes that hold the given messages.
abbrev pub nodes : List Msg → List MsgQueue
nodes ms = map (λ m. record { msg = some m }) ms

-- A list of messages handled from its front.
unfoldable pub deal_all : {S : Type 0} → (Msg → S → Option S) → List Msg → S → Option S
deal_all deal [] s = some s
deal_all deal (m ∷ ms) s = elim (deal m s) [ none ↦ none | some s' ↦ deal_all deal ms s' ]

length-reverse : (ms : List Msg) → length (reverse ms) ≡ length ms
length-reverse [] = refl
length-reverse (m ∷ ms) =
    rw reverse-cons (omega (arith, length-append (reverse ms) (m ∷ []), length-reverse ms))

module _ (L : ListHead MsgQueue) where
  open L use {Head, items}

  module _ {S : Type 0} (deal : Msg → S → Option S) where
    -- The loop handles the messages from the front of the queue, and ends with an empty queue.
    pub deal_loop-done :
        (fuel : ℕ) (q : Head) (ms : List Msg) (s s' : S)
        → items q ≡ nodes ms
        → length ms < fuel
        → deal_all deal ms s ≡ some s'
        → (q' : Head) × (deal_loop L deal fuel q s ≡ done q' s') × (items q' ≡ [])
    unfolding deal_loop deal_all get_msg_data del_dealed_msg
    deal_loop-done zero q ms s s' e h d = absurd (omega arith)
    deal_loop-done (suc fuel) q [] s s' e h d =
        let bare : L.list_empty q ≡ true = rw (L.list_empty-items q, e) in
        let same : s ≡ s' = cc in (q, rw (bare, deal_loop, same), e)
    deal_loop-done (suc fuel) q (m ∷ ms) s s' e h d =
        let full : L.list_empty q ≡ false = rw (L.list_empty-items q, e) in
        let head : get_msg_data L q ≡ some m = rw (get_msg_data, e) in
        let rest = L.items-list_del_next _ (nodes ms) q e in
        elim (Option-cases (deal m s)) [
          | inl bad ↦ cc (rw (bad, deal_all) at d)
          | inr (s₁, good) ↦
              let (q', run, empty) =
                deal_loop-done fuel (del_dealed_msg L q) ms s₁ s' rest (omega arith)
                  (rw (good, deal_all) at d) in
              (q', rw (full, head, good, deal_loop) run, empty)
        ]

    -- A handler that faults ends the loop with that fault.
    pub deal_loop-fault :
        (fuel : ℕ) (q : Head) (ms : List Msg) (s : S)
        → items q ≡ nodes ms
        → length ms < fuel
        → deal_all deal ms s ≡ none
        → deal_loop L deal fuel q s ≡ fault
    unfolding deal_loop deal_all get_msg_data del_dealed_msg
    deal_loop-fault zero q ms s e h d = absurd (omega arith)
    deal_loop-fault (suc fuel) q [] s e h d = cc
    deal_loop-fault (suc fuel) q (m ∷ ms) s e h d =
        let full : L.list_empty q ≡ false = rw (L.list_empty-items q, e) in
        let head : get_msg_data L q ≡ some m = rw (get_msg_data, e) in
        let rest = L.items-list_del_next _ (nodes ms) q e in
        elim (Option-cases (deal m s)) [
          | inl bad ↦ rw (full, head, bad, deal_loop)
          | inr (s₁, good) ↦
              rw (full, head, good, deal_loop)
                (deal_loop-fault fuel (del_dealed_msg L q) ms s₁ rest (omega arith)
                  (rw (good, deal_all) at d))
        ]

  -- Messages that arrive one after the other, with memory for each.
  unfoldable pub receive_all : List Msg → Inbox L → Inbox L
  receive_all [] box = box
  receive_all (m ∷ ms) box = receive_all ms (pi_recevie_msg_ssc L true true (some m) box)

  pub receive_all-items :
      (ms : List Msg) (box : Inbox L)
      → items (receive_all ms box).queue ≡ nodes (reverse ms) ++ items box.queue
  unfolding receive_all pi_recevie_msg_ssc insert_msg_to_queue
  receive_all-items [] box = refl
  receive_all-items (m ∷ ms) box =
      let ih = receive_all-items ms (pi_recevie_msg_ssc L true true (some m) box) in
      rw (ih, L.items-list_add, reverse-cons, map-append)
        (sym (append_assoc (nodes (reverse ms)) _ _))

  receive_all_pending :
      (ms : List Msg) (box : Inbox L) → box.pending ≡ true → (receive_all ms box).pending ≡ true
  unfolding receive_all pi_recevie_msg_ssc
  receive_all_pending [] box h = h
  receive_all_pending (m ∷ ms) box h = receive_all_pending ms _ refl

  receive_some : (ms : List Msg) (box : Inbox L) → ms ≢ [] → (receive_all ms box).pending ≡ true
  unfolding receive_all pi_recevie_msg_ssc
  receive_some [] box h = absurd (h refl)
  receive_some (m ∷ ms) box h = receive_all_pending ms _ refl

  -- Messages that arrived while the thread was busy are handled from the last to the first, and the
  -- round ends with an empty queue and nothing pending.
  pub deal_round-reverse :
      {S : Type 0} (deal : Msg → S → Option S) (fuel : ℕ) (ms : List Msg) (box : Inbox L) (s s' : S)
      → items box.queue ≡ []
      → ms ≢ []
      → length ms < fuel
      → deal_all deal (reverse ms) s ≡ some s'
      → (box' : Inbox L) × (deal_round L deal fuel (receive_all ms box) s ≡ done box' s')
        × (items box'.queue ≡ [])
        × (box'.pending ≡ false)
  unfolding deal_round
  deal_round-reverse deal fuel ms box s s' start some_ms enough d =
      let pending = receive_some ms box some_ms in
      let queued : items (receive_all ms box).queue ≡ nodes (reverse ms) =
        receive_all-items ms box ∙ ap (◌++◌ (nodes (reverse ms))) start ∙ append-nil _ in
      let (q, run, empty) =
        deal_loop-done deal fuel _ (reverse ms) s s' queued (rw length-reverse enough) d in
      (record { queue = q; pending = false }, rw (pending, run, deal_round), empty, refl)
