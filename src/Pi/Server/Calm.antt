-- ===== src/Pi/Server/Calm.antt =====
-- Rounds of the server in which nobody is turned away and nobody leaves.
use pi_ssc_ssd_ssa.Common.{
  ℕ, zero, suc, ◌+◌, ◌-◌, ◌≤◌, ◌<◌, ◌≡◌, ◌≢◌, refl, ◌∙◌, ap, inl, inr, Bool, true, false, Option,
  none, some, List, [], ◌∷◌, arith, leb, ◌==◌, length, get_or, set, replicate, count_if, Bool-cases,
  Option-cases, if_both, ==_iff, get_or-replicate,
}
use pi_ssc_ssd_ssa.Public.Message.{Msg}
use pi_ssc_ssd_ssa.MsgList.{ListHead}
use pi_ssc_ssd_ssa.Pi.Receive.{MsgQueue, Inbox, pi_recevie_msg_ssc}
use pi_ssc_ssd_ssa.Pi.Server.{
  Fd, max_client, clients, Answers, free_place, Server, went, fault, listen_start, read_loop,
  add_client, read_clients, place_client, poll_round, poll_rounds, cli_comm_ssc_init,
}
use pi_ssc_ssd_ssa.Pi.Server.Places.{free_places, free_place-le, free_places-set, free_place-lt}
use pi_ssc_ssd_ssa.Pi.Server.Bounds.{
  IsServer, read_clients-Kept, Kept-IsServer, add_client-IsServer, place_client-bounds,
}
use pi_ssc_ssd_ssa.Pi.Server.Overflow.{rejected, reads_some, poll_round-bounds}

-- A round in which nobody is turned away, and no client leaves.
pub record IsCalm (a : Answers) : Type 0 where
  pub welcome : rejected a ≡ false
  pub stays : (i : ℕ) → reads_some (a.reads i) ≡ true

abbrev pub AllCalm : List Answers → Type 0
AllCalm [] = Unit
AllCalm (a ∷ rounds) = IsCalm a × AllCalm rounds

module _ (L : ListHead MsgQueue) where
  read_loop_calm :
      (mem : Bool) (pollin : ℕ → Bool) (reads : ℕ → Option Msg) (n i n_ready : ℕ) (s : Server L)
      → ((j : ℕ) → reads_some (reads j) ≡ true)
      → (read_loop L mem pollin reads n i n_ready s).g_client ≡ s.g_client
  unfolding read_loop
  read_loop_calm mem pollin reads zero i n_ready s c = refl
  read_loop_calm mem pollin reads (suc n) i n_ready s c =
      elim (Option-cases (get_or s.g_client i none)) [
        | inl bare ↦ rw (bare, read_loop) (read_loop_calm mem pollin reads n (i + 1) n_ready s c)
        | inr (f, there) ↦ elim (Bool-cases (pollin i)) [
          | inr idle ↦
              rw (there, idle, read_loop) (read_loop_calm mem pollin reads n (i + 1) n_ready s c)
          | inl ready ↦ elim (Option-cases (reads i)) [
            | inl gone ↦ cc (rw gone at (c i))
            | inr (m, got) ↦
                let s1 = record s { inbox = pi_recevie_msg_ssc L mem mem (some m) s.inbox } in
                elim (Bool-cases (leb n_ready 1)) [
                  | inl last ↦ rw (there, ready, got, last, read_loop) refl
                  | inr more ↦
                      rw (there, ready, got, more, read_loop)
                        (read_loop_calm mem pollin reads n (i + 1) (n_ready - 1) s1 c)
                ]
          ]
        ]
      ]

  read_clients_calm :
      (mem : Bool) (a : Answers) (s : Server L)
      → ((j : ℕ) → reads_some (a.reads j) ≡ true)
      → (read_clients L mem a s).g_client ≡ s.g_client
  unfolding read_clients
  read_clients_calm mem a s c =
      if_both (λ (r : Server L). r.g_client ≡ s.g_client) (leb a.n_ready 1) s _ refl
        (read_loop_calm mem a.pollin a.reads s.maxi 1 (a.n_ready - 1) s c)

  clients-set :
      (l : List Fd) (i : ℕ) (t : Fd) → 1 ≤ i → clients (set l i t) ≡ set (clients l) (i - 1) t
  unfolding set
  clients-set [] i t h = refl
  clients-set (f ∷ l) zero t h = absurd (omega arith)
  clients-set (f ∷ l) (suc i) t h = rw (let e : suc i - 1 ≡ i = omega arith in e) refl

  with_tmp : (s : Server L) (t : Fd) → IsServer L s → IsServer L (record s { tmp = t })
  with_tmp s t v = record { size = v.size; last = v.last; above = v.above }

  add_client_tmp : (i : ℕ) (s : Server L) → (add_client L i s).tmp ≡ s.tmp
  unfolding add_client
  add_client_tmp i s = refl

  add_client_places : (i : ℕ) (s : Server L) → (add_client L i s).g_client ≡ set s.g_client i s.tmp
  unfolding add_client
  add_client_places i s = refl

  -- A number in `tmp` takes a free place in each calm round, also when no client has come.
  place_client_calm :
      (mem : Bool) (a : Answers) (s : Server L) (f : ℕ)
      → IsServer L s
      → s.tmp ≡ some f
      → ((j : ℕ) → reads_some (a.reads j) ≡ true)
      → free_places (clients s.g_client) ≢ 0
      → (s' : Server L) × (place_client L mem a s ≡ went s')
        × IsServer L s'
        × (s'.tmp ≡ some f)
        × (free_places (clients s'.g_client) + 1 ≡ free_places (clients s.g_client))
  place_client_calm mem a s f v t c room =
      let i = free_place 1 (clients s.g_client) in
      let s' = read_clients L mem a (add_client L i s) in
      let k = read_clients-Kept L mem a (add_client L i s) in
      let taken = free_places-set 1 (clients s.g_client) f room in
      (
        s',
        place_client-bounds L mem a s v
            ∙ rw (let e : (free_places (clients s.g_client) == 0) ≡ false = ground arith in e) refl,
        Kept-IsServer L (add_client L i s) s'
            (add_client-IsServer L i s v (ground (arith, free_place-lt s.g_client v.size))) k,
        k.tmp ∙ add_client_tmp i s ∙ t,
        rw
            (
              read_clients_calm mem a (add_client L i s) c,
              add_client_places i s,
              clients-set s.g_client i s.tmp (free_place-le 1 (clients s.g_client)).0,
              t,
            )
            taken,
      )

  -- A calm round of a server whose `tmp` holds a number takes a place, whoever called.
  poll_round_calm :
      (mem : Bool) (a : Answers) (s : Server L) (f : ℕ)
      → IsServer L s
      → s.tmp ≡ some f
      → IsCalm a
      → free_places (clients s.g_client) ≢ 0
      → (s' : Server L) × (g : ℕ) × (poll_round L mem a s ≡ went s')
        × IsServer L s'
        × (s'.tmp ≡ some g)
        × (free_places (clients s'.g_client) + 1 ≡ free_places (clients s.g_client))
  unfolding poll_round
  poll_round_calm mem a s f v t c room = elim (Bool-cases (a.pollin 0)) [
    | inl call ↦ elim (Option-cases a.accepted) [
      | inl lost ↦ cc (rw (call, lost) at c.welcome)
      | inr (g, came) ↦
          let w = with_tmp s (some g) v in
          let (s', e, v', t', n) = place_client_calm mem a _ g w refl c.stays room in
          rw (call, came) (s', g, e, v', t', n)
    ]
    | inr silent ↦
        let (s', e, v', t', n) = place_client_calm mem a s f v t c.stays room in
        rw silent (s', f, e, v', t', n)
  ]

  -- From a server in order whose `tmp` holds a descriptor, more calm rounds than there are free places
  -- end in a write past the array, whether clients come or not.
  poll_rounds-fault :
      (mem : Bool) (rounds : List Answers) (s : Server L) (f : ℕ)
      → IsServer L s
      → s.tmp ≡ some f
      → AllCalm rounds
      → free_places (clients s.g_client) < length rounds
      → poll_rounds L mem rounds s ≡ fault
  unfolding poll_rounds
  poll_rounds-fault mem [] s f v t c more = absurd (omega arith)
  poll_rounds-fault mem (a ∷ as') s f v t (c, cs) more =
      elim (Bool-cases (free_places (clients s.g_client) == 0)) [
        | inl full ↦
            let e = (poll_round-bounds L mem a s v).0.1 ((==_iff _ 0).0 full, c.welcome) in
            rw (e, poll_rounds) refl
        | inr room ↦
            let (s', g, e, v', t', left) = poll_round_calm mem a s f v t c (ground arith) in
            rw (e, poll_rounds) (poll_rounds-fault mem as' s' g v' t' cs (omega arith))
      ]

  start_above :
      (sock_fd j : ℕ)
      → 0 < j
      → get_or (some sock_fd ∷ replicate (max_client - 1) none) j none ≡ none
  unfolding get_or
  start_above sock_fd zero h = absurd (omega arith)
  start_above sock_fd (suc j) h = get_or-replicate 4 j none

  -- Before the first round the server is in order, with four free places.
  pub listen_start-IsServer :
      (sock_fd : ℕ) (junk : Fd) (box : Inbox L)
      → IsServer L (listen_start L sock_fd junk box)
        × (free_places (clients (listen_start L sock_fd junk box).g_client) ≡ 4)
  unfolding listen_start free_places count_if replicate
  listen_start-IsServer sock_fd junk box =
      (record { size = refl; last = omega arith; above = start_above sock_fd }, refl)

  -- Let the socket be opened, a client call in the first round, and at least four rounds follow, and
  -- let in no round anyone be turned away or a client leave. Then the thread writes past the array,
  -- whether more clients come or not.
  pub cli_comm_ssc_init-fault :
      (mem : Bool) (sock_fd f : ℕ) (junk : Fd) (box : Inbox L) (a : Answers) (rounds : List Answers)
      → a.pollin 0 ≡ true
      → a.accepted ≡ some f
      → AllCalm (a ∷ rounds)
      → 3 < length rounds
      → cli_comm_ssc_init L mem (some sock_fd) junk box (a ∷ rounds) ≡ some fault
  unfolding cli_comm_ssc_init poll_rounds poll_round
  cli_comm_ssc_init-fault mem sock_fd f junk box a rounds call came (c, cs) more =
      let s = listen_start L sock_fd junk box in
      let (v, four) = listen_start-IsServer sock_fd junk box in
      let s1 = record s { tmp = some f } in
      let (s2, e, v2, t2, left) =
        place_client_calm mem a s1 f (with_tmp s (some f) v) refl c.stays (omega (arith, four)) in
      rw (call, came, e, poll_rounds)
        (ap some (poll_rounds-fault mem rounds s2 f v2 t2 cs (omega (arith, four, left))))
