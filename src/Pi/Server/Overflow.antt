-- ===== src/Pi/Server/Overflow.antt =====
-- How soon the server writes past the array of descriptors.
use pi_ssc_ssd_ssa.Common.{
  ◌≡◌, ◌↔◌, refl, ◌∙◌, inl, inr, Bool, true, false, not, ◌&&◌, Option, none, some, ◌==◌, Bool-cases,
  Option-cases, ==_iff,
}
use pi_ssc_ssd_ssa.Public.Message.{Msg}
use pi_ssc_ssd_ssa.MsgList.{ListHead}
use pi_ssc_ssd_ssa.Pi.Receive.{MsgQueue}
use pi_ssc_ssd_ssa.Pi.Server.{
  Fd, is_open, clients, Answers, Server, fault, place_client, poll_round,
}
use pi_ssc_ssd_ssa.Pi.Server.Places.{free_places}
use pi_ssc_ssd_ssa.Pi.Server.Bounds.{IsServer, Safe, place_client-bounds, poll_round-Safe}

-- `accept` is called, and fails.
abbrev pub rejected : Answers → Bool
rejected a = a.pollin 0 && not (is_open a.accepted)

abbrev pub reads_some : Option Msg → Bool
reads_some none = false
reads_some (some m) = true

with_true {ℓ κ} : {A : Type ℓ} {B : Type κ} → (A ↔ B) → A ↔ (B × (false ≡ false))
with_true h = (λ a. (h.0 a, refl), λ b. h.1 b.0)

module _ (L : ListHead MsgQueue) where
  place_client-fault :
      (mem : Bool) (a : Answers) (s : Server L)
      → IsServer L s
      → (place_client L mem a s ≡ fault) ↔ (free_places (clients s.g_client) ≡ 0)
  place_client-fault mem a s v =
      let n = free_places (clients s.g_client) in
      let e = place_client-bounds L mem a s v in
      (
        λ h. elim (Bool-cases (n == 0)) [ inl z ↦ (==_iff n 0).0 z | inr nz ↦ cc (rw nz at e) ],
        λ h. e ∙ rw ((==_iff n 0).1 h) refl,
      )

  -- In a server in order, a round writes past the array exactly if each place of a client holds a
  -- descriptor, and the round is not one in which `accept` fails; else it ends in a server in order.
  pub poll_round-bounds :
      (mem : Bool) (a : Answers) (s : Server L)
      → IsServer L s
      → ((poll_round L mem a s ≡ fault)
          ↔ ((free_places (clients s.g_client) ≡ 0) × (rejected a ≡ false)))
        × Safe L (poll_round L mem a s)
  unfolding poll_round
  poll_round-bounds mem a s v =
      let v' = λ (t : Fd).
        let w : IsServer L (record s { tmp = t }) = record {
          size = v.size;
          last = v.last;
          above = v.above;
        } in
        w in
      (
        elim (Bool-cases (a.pollin 0)) [
          | inl call ↦ elim (Option-cases a.accepted) [
            | inl lost ↦ rw (call, lost) (λ h. cc, λ h. cc)
            | inr (f, came) ↦ rw (call, came) (with_true (place_client-fault mem a _ (v' (some f))))
          ]
          | inr silent ↦ rw silent (with_true (place_client-fault mem a s v))
        ],
        poll_round-Safe L mem a s v,
      )
