-- ===== src/Ssd/Forward.antt =====
-- What the SSA gets of a command.
use pi_ssc_ssd_ssa.Common.{
  ℕ, ◌+◌, ◌<◌, ◌^◌, ◌≡◌, refl, ap, Bool, true, false, ◌&&◌, Option, none, some, List, [], ◌∷◌, ◌++◌,
  map, arith, ltb, ◌==◌, length, fill, get_or, fill-map, if◌then◌else◌,
}
use pi_ssc_ssd_ssa.Public.{port_num}
use pi_ssc_ssd_ssa.Public.Message.{
  Payload, int_arg, static_mac, learn_sta, Msg, message, msg_len, msgid_mac_add_addr,
  msgid_mac_clear_dyn, msgid_clear_vlan_mac, msgid_clear_inter_dyn, msgid_mac_inter_learn,
  msgid_mac_agetime,
}
use pi_ssc_ssd_ssa.Ssd.{
  Card, Ssd, learn_ports, ssd_send_ssa_conf, ssd_add_static_func, ssd_clear_dyn_func,
  ssd_clear_vlan_func, ssd_clear_inter_func, ssd_modify_inter_lean_sta, ssd_modify_age_time,
  ssd_mac_recv_ssc_command,
}

-- A function of the results stands for the choice of a choice.
if_map {ℓ κ} :
    {A : Type ℓ} {B : Type κ} (g : B → A) (b : Bool) (x y : A) (u v : B)
    → x ≡ g u
    → y ≡ g v
    → (if b then x else y) ≡ g (if b then u else v)
if_map g true x y u v e f = e
if_map g false x y u v e f = f

-- All elements but the first.
abbrev pub after_first {ℓ} : {A : Type ℓ} → (A → A) → List A → List A
after_first f [] = []
after_first f (x ∷ xs) = x ∷ map f xs

-- The array of a learning state has its places.
abbrev pub Full : Payload → Type 0
Full (learn_sta t) = length t.port_id ≡ port_num + 1
Full p = Unit

module _ (card : Card) where
  -- The number of a port on the supervisor is taken for that on the line card: in a static address, in
  -- an int, and in the places 1 to 24 of a learning state. None where the body is another structure.
  abbrev pub static_here : Payload → Option Payload
  static_here (static_mac a) = some (static_mac (record a { port_id = card.ce2fe a.port_id }))
  static_here p = none

  abbrev pub port_here : Payload → Option Payload
  port_here (int_arg n) = some (int_arg (card.ce2fe n))
  port_here p = none

  abbrev pub ports_here : Payload → Option Payload
  ports_here (learn_sta t) =
      some (learn_sta (record t { port_id = after_first card.ce2fe t.port_id }))
  ports_here p = none

  -- The body that a command of a type has on the line card; none where there is no such command.
  unfoldable pub converted : ℕ → Payload → Option Payload
  converted type p =
      if type == msgid_mac_add_addr
      then static_here p
      else if type == msgid_mac_clear_dyn
      then some p
      else if type == msgid_clear_vlan_mac
      then some p
      else if type == msgid_clear_inter_dyn
      then port_here p
      else if type == msgid_mac_inter_learn
      then ports_here p
      else if type == msgid_mac_agetime
      then some p
      else none

  -- The SSA gets a message of that type with that body, and the SSC none.
  abbrev pub forwarded : ℕ → Ssd → Option Payload → Option Ssd
  forwarded type s none = none
  forwarded type s (some p) = some (record s { to_ssa = s.to_ssa ++ (message type p ∷ []) })

  pub send-out :
      (msgid : ℕ) (m : Msg) (s : Ssd)
      → card.alloc ≡ true
      → msg_len m < 2 ^ 31
      → ssd_send_ssa_conf card msgid m s ≡ record s { to_ssa = s.to_ssa ++ (m ∷ []) }
  unfolding ssd_send_ssa_conf
  send-out msgid m s a n =
      let whole : (ltb 0 (msg_len m) && ltb (msg_len m) (2 ^ 31)) ≡ true = ground arith in
      rw (a, whole) refl

  sent :
      (msgid t : ℕ) (p : Payload) (s : Ssd)
      → card.alloc ≡ true
      → msg_len (message t p) < 2 ^ 31
      → some (ssd_send_ssa_conf card msgid (message t p) s) ≡ forwarded t s (some p)
  sent msgid t p s a n = ap some (send-out msgid (message t p) s a n)

  add_static-forwarded :
      (t : ℕ) (p : Payload) (s : Ssd)
      → card.alloc ≡ true
      → ssd_add_static_func card (message t p) s ≡ forwarded t s (static_here p)
  unfolding ssd_add_static_func
  add_static-forwarded t p s a =
      elim p as (λ p. ssd_add_static_func card (message t p) s ≡ forwarded t s (static_here p)) [
        | static_mac m ↦ sent _ t _ s a (omega arith)
        | _ ↦ refl
      ]

  clear_inter-forwarded :
      (t : ℕ) (p : Payload) (s : Ssd)
      → card.alloc ≡ true
      → ssd_clear_inter_func card (message t p) s ≡ forwarded t s (port_here p)
  unfolding ssd_clear_inter_func
  clear_inter-forwarded t p s a =
      elim p as (λ p. ssd_clear_inter_func card (message t p) s ≡ forwarded t s (port_here p)) [
        | int_arg n ↦ sent _ t _ s a (omega arith)
        | _ ↦ refl
      ]

  -- The loop over the ports takes all places but the first.
  learn_ports-after_first :
      (l : List ℕ)
      → length l ≡ port_num + 1
      → fill port_num 1 (λ i. card.ce2fe (get_or l i 0)) l ≡ after_first card.ce2fe l
  learn_ports-after_first [] n = absurd (omega arith)
  learn_ports-after_first (x ∷ xs) n =
      let size : length xs ≡ port_num = omega (arith, n) in rw size at (fill-map card.ce2fe x 0 xs)

  learn-forwarded :
      (t : ℕ) (p : Payload) (s : Ssd)
      → card.alloc ≡ true
      → Full p
      → ssd_modify_inter_lean_sta card (message t p) s ≡ forwarded t s (ports_here p)
  unfolding ssd_modify_inter_lean_sta learn_ports
  learn-forwarded t p s a =
      elim p
        as (λ p.
          Full p → ssd_modify_inter_lean_sta card (message t p) s ≡ forwarded t s (ports_here p)) [
            | learn_sta l ↦
                λ full. rw (← learn_ports-after_first l.port_id full) (sent _ t _ s a (omega arith))
            | _ ↦ λ full. refl
          ]

  -- Let there be memory for the message, its length be one that an int holds, and a learning state
  -- have its places. If the SSD has a command of its type, and the body is what that command reads, the
  -- SSA gets one message, of the same type, and the SSC none: of a static address, of a clearing by
  -- port, and at the places 1 to 24 of a learning state, the port is converted, and nothing else is
  -- changed. Else there is no result.
  pub ssd_mac_recv_ssc_command-converted :
      (m : Msg) (s : Ssd)
      → card.alloc ≡ true
      → msg_len m < 2 ^ 31
      → Full m.msg
      → ssd_mac_recv_ssc_command card m s ≡ forwarded m.msg_type s (converted m.msg_type m.msg)
  unfolding ssd_mac_recv_ssc_command converted ssd_clear_dyn_func ssd_clear_vlan_func
      ssd_modify_age_time
  ssd_mac_recv_ssc_command-converted m s a n full =
      let t = m.msg_type in
      let p = m.msg in
      let next = if_map (forwarded t s) in
      next (t == msgid_mac_add_addr) _ _ _ _ (add_static-forwarded t p s a) (
        next (t == msgid_mac_clear_dyn) _ _ _ _ (sent _ t p s a n) (
          next (t == msgid_clear_vlan_mac) _ _ _ _ (sent _ t p s a n) (
            next (t == msgid_clear_inter_dyn) _ _ _ _ (clear_inter-forwarded t p s a) (
              next (t == msgid_mac_inter_learn) _ _ _ _ (learn-forwarded t p s a full)
                (next (t == msgid_mac_agetime) _ _ _ _ (sent _ t p s a n) refl)))))
