-- ===== src/Pi/Server/Clients.antt =====
-- Which clients `pi_send_msg_ssc` writes a message to.
use pi_ssc_ssd_ssa.Common.{
  ℕ, ◌≡◌, refl, Bool, true, false, not, ◌&&◌, ◌||◌, none, some, List, [], ◌∷◌, arith, ◌==◌,
  count_if, if◌then◌else◌, Bool-cases, inl, inr,
}
use pi_ssc_ssd_ssa.Public.Message.{Msg}
use pi_ssc_ssd_ssa.Pi.Server.{Fd, same_fd, send_loop, pi_send_msg_ssc}

-- A place holds the descriptor.
unfoldable pub holds : ℕ → List Fd → Bool
holds f [] = false
holds f (g ∷ l) = same_fd (some f) g || holds f l

abbrev starts : ℕ → List Fd → Bool
starts f [] = false
starts f (g ∷ l) = same_fd (some f) g

-- The places with the same descriptor stand side by side.
unfoldable pub grouped : List Fd → Bool
grouped [] = true
grouped (none ∷ l) = grouped l
grouped (some f ∷ l) = (starts f l || not (holds f l)) && grouped l

-- A list up to the first element that fails, which it takes with it.
unfoldable pub up_to_failure : (ℕ → Bool) → List ℕ → List ℕ
up_to_failure p [] = []
up_to_failure p (x ∷ l) = if p x then x ∷ up_to_failure p l else x ∷ []

send_loop-once :
    (f : ℕ) (last : Fd) (l : List Fd)
    → grouped (last ∷ l) ≡ true
    → count_if (λ g. g == f) (send_loop (λ g. true) last l)
      ≡ (if same_fd (some f) last then 0 else if holds f l then 1 else 0)
unfolding send_loop grouped holds count_if
send_loop-once f none [] h = refl
send_loop-once f (some k) [] h = ground arith
send_loop-once f none (none ∷ l) h = send_loop-once f none l h
send_loop-once f (some k) (none ∷ l) h = ground (arith, send_loop-once f none l)
send_loop-once f none (some g ∷ l) h = ground (arith, send_loop-once f (some g) l h)
send_loop-once f (some k) (some g ∷ l) h = ground (arith, send_loop-once f (some g) l)

send_loop-up_to_failure :
    (wrote : ℕ → Bool) (last : Fd) (l : List Fd)
    → send_loop wrote last l ≡ up_to_failure wrote (send_loop (λ g. true) last l)
unfolding send_loop up_to_failure
send_loop-up_to_failure wrote last [] = refl
send_loop-up_to_failure wrote last (none ∷ l) = send_loop-up_to_failure wrote none l
send_loop-up_to_failure wrote last (some g ∷ l) = elim (Bool-cases (same_fd (some g) last)) [
  | inl same ↦ rw same (send_loop-up_to_failure wrote (some g) l)
  | inr other ↦ rw (other, send_loop-up_to_failure wrote (some g) l) refl
]

-- Let there be memory, and the places with the same descriptor, the listening one included, stand
-- side by side. Then there is a list of descriptors in which each other than the listening one
-- stands once if a client has it, and not at all else, and the message is written to those from the
-- front up to the first where the write fails.
pub pi_send_msg_ssc-once :
    (wrote : ℕ → Bool) (m : Msg) (listening : ℕ) (l : List Fd)
    → grouped (some listening ∷ l) ≡ true
    → (all : List ℕ) × (pi_send_msg_ssc true wrote m (some listening ∷ l)
        ≡ some (m, up_to_failure wrote all))
      × ((f : ℕ)
          → count_if (λ g. g == f) all ≡ (if f == listening then 0 else if holds f l then 1 else 0))
unfolding pi_send_msg_ssc
pi_send_msg_ssc-once wrote m listening l h = (
  send_loop (λ g. true) (some listening) l,
  rw (← send_loop-up_to_failure wrote (some listening) l) refl,
  λ f. send_loop-once f (some listening) l h,
)
