-- ===== src/Pi/Server/Bounds.antt =====
-- The accesses of `cli_comm_ssc_init` to the array of descriptors.
use pi_ssc_ssd_ssa.Common.{
  ℕ, zero, suc, ◌+◌, ◌-◌, ◌<◌, ◌≡◌, refl, ◌∙◌, inl, inr, Bool, Option, none, some, List, [], ◌∷◌,
  arith, leb, ◌==◌, length, length-set, get_or, set, get_or-set, if◌then◌else◌, Bool-cases,
  Option-cases, if_both,
}
use pi_ssc_ssd_ssa.Public.Message.{Msg}
use pi_ssc_ssd_ssa.MsgList.{ListHead}
use pi_ssc_ssd_ssa.Pi.Receive.{MsgQueue, pi_recevie_msg_ssc}
use pi_ssc_ssd_ssa.Pi.Server.Places.{free_places, free_place-lt}
use pi_ssc_ssd_ssa.Pi.Server.{
  Fd, max_client, Answers, free_place, Server, Round, went, fault, read_loop, place_client,
  poll_round, clients, add_client, read_clients,
}

module _ (L : ListHead MsgQueue) where
  -- Five places, of which those from `maxi + 1` on are free, so that `poll` looks at all descriptors.
  pub record IsServer (s : Server L) : Type 0 where
    pub size : length s.g_client ≡ max_client
    pub last : s.maxi < max_client
    pub above : (j : ℕ) → s.maxi < j → get_or s.g_client j none ≡ none

  -- What the loop that reads leaves as it was: the array's size, its free places, and two variables.
  pub record Kept (s s' : Server L) : Type 0 where
    pub size : length s'.g_client ≡ length s.g_client
    pub free : (j : ℕ) → get_or s.g_client j none ≡ none → get_or s'.g_client j none ≡ none
    pub maxi : s'.maxi ≡ s.maxi
    pub tmp : s'.tmp ≡ s.tmp

  set-none : (l : List Fd) (i j : ℕ) → get_or l j none ≡ none → get_or (set l i none) j none ≡ none
  unfolding get_or set
  set-none [] i j h = refl
  set-none (f ∷ l) zero zero h = refl
  set-none (f ∷ l) zero (suc j) h = h
  set-none (f ∷ l) (suc i) zero h = h
  set-none (f ∷ l) (suc i) (suc j) h = set-none l i j h

  read_loop-Kept :
      (mem : Bool) (pollin : ℕ → Bool) (reads : ℕ → Option Msg) (n i n_ready : ℕ) (s : Server L)
      → Kept s (read_loop L mem pollin reads n i n_ready s)
  unfolding read_loop
  read_loop-Kept mem pollin reads zero i n_ready s = record {
    size = refl;
    free = λ j h. h;
    maxi = refl;
    tmp = refl;
  }
  read_loop-Kept mem pollin reads (suc n) i n_ready s =
      elim (Option-cases (get_or s.g_client i none)) [
        | inl bare ↦ rw (bare, read_loop) (read_loop-Kept mem pollin reads n (i + 1) n_ready s)
        | inr (f, there) ↦ elim (Bool-cases (pollin i)) [
          | inr idle ↦
              rw (there, idle, read_loop) (read_loop-Kept mem pollin reads n (i + 1) n_ready s)
          | inl ready ↦ elim (Option-cases (reads i)) [
            | inl gone ↦
                rw (there, ready, gone, read_loop)
                  (record {
                    size = length-set s.g_client i none;
                    free = λ j h. set-none s.g_client i j h;
                    maxi = refl;
                    tmp = refl;
                  })
            | inr (m, got) ↦
                let s1 = record s { inbox = pi_recevie_msg_ssc L mem mem (some m) s.inbox } in
                let k = read_loop-Kept mem pollin reads n (i + 1) (n_ready - 1) s1 in
                elim (Bool-cases (leb n_ready 1)) [
                  | inl last ↦
                      rw (there, ready, got, last, read_loop)
                        (record { size = refl; free = λ j h. h; maxi = refl; tmp = refl })
                  | inr more ↦
                      rw (there, ready, got, more, read_loop)
                        (record { size = k.size; free = k.free; maxi = k.maxi; tmp = k.tmp })
                ]
          ]
        ]
      ]

  pub read_clients-Kept :
      (mem : Bool) (a : Answers) (s : Server L) → Kept s (read_clients L mem a s)
  unfolding read_clients
  read_clients-Kept mem a s =
      if_both (Kept s) (leb a.n_ready 1) s _
        (record { size = refl; free = λ j h. h; maxi = refl; tmp = refl })
        (read_loop-Kept mem a.pollin a.reads s.maxi 1 (a.n_ready - 1) s)

  pub Kept-IsServer : (s s' : Server L) → IsServer s → Kept s s' → IsServer s'
  Kept-IsServer s s' v k = record {
    size = k.size ∙ v.size;
    last = rw k.maxi v.last;
    above = λ j h. k.free j (v.above j (rw k.maxi at h));
  }

  pub add_client-IsServer :
      (i : ℕ) (s : Server L) → IsServer s → i < max_client → IsServer (add_client L i s)
  unfolding add_client
  add_client-IsServer i s v room = record {
    size = length-set s.g_client i s.tmp ∙ v.size;
    last = ground (arith, v.last);
    above =
        λ j h. get_or-set s.g_client i j s.tmp none (rw v.size room) ∙ ground (arith, v.above j);
  }

  -- A round with a client, or with none that called, ends in a server in order if a place is free,
  -- and writes past the array if none is.
  pub place_client-bounds :
      (mem : Bool) (a : Answers) (s : Server L)
      → IsServer s
      → let full = free_places (clients s.g_client) == 0 in
        let i = free_place 1 (clients s.g_client) in
        place_client L mem a s
        ≡ (if full then fault else went (read_clients L mem a (add_client L i s)))
  unfolding place_client
  place_client-bounds mem a s v =
      let t = free_place-lt s.g_client v.size in
      elim (Bool-cases (free_places (clients s.g_client) == 0)) [
        | inl full ↦ rw (t, full) refl
        | inr room ↦ rw (t, room) refl
      ]

  -- The server goes on from a server in order, or has written past the array.
  abbrev pub Safe : Round L → Type 0
  Safe fault = Unit
  Safe (went s) = IsServer s

  place_client-Safe :
      (mem : Bool) (a : Answers) (s : Server L) → IsServer s → Safe (place_client L mem a s)
  place_client-Safe mem a s v =
      let i = free_place 1 (clients s.g_client) in
      elim (Bool-cases (free_places (clients s.g_client) == 0)) [
        | inl full ↦ rw (place_client-bounds mem a s v, full) tt
        | inr room ↦
            rw (place_client-bounds mem a s v, room)
              (Kept-IsServer (add_client L i s) _
                (add_client-IsServer i s v (ground (arith, free_place-lt s.g_client v.size)))
                (read_clients-Kept mem a (add_client L i s)))
      ]

  pub poll_round-Safe :
      (mem : Bool) (a : Answers) (s : Server L) → IsServer s → Safe (poll_round L mem a s)
  unfolding poll_round
  poll_round-Safe mem a s v =
      let v' = λ (t : Fd).
        let w : IsServer (record s { tmp = t }) = record {
          size = v.size;
          last = v.last;
          above = v.above;
        } in
        w in
      elim (Bool-cases (a.pollin 0)) [
        | inl call ↦ elim (Option-cases a.accepted) [
          | inl lost ↦ rw (call, lost) (v' none)
          | inr (f, came) ↦ rw (call, came) (place_client-Safe mem a _ (v' (some f)))
        ]
        | inr silent ↦ rw silent (place_client-Safe mem a s v)
      ]
