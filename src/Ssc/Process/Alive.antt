-- ===== src/Ssc/Process/Alive.antt =====
-- The SSC goes on: no event that can come makes it wait for ever.
use pi_ssc_ssd_ssa.Common.{
  ℕ, ◌≡◌, refl, sym, ◌∙◌, ◌⊎◌, inl, inr, Bool, true, false, ◌&&◌, if◌then◌else◌, arith, ltb,
  if_both, some, List, [], ◌∷◌, get_or, set, Bool-cases,
}
use pi_ssc_ssd_ssa.Public.{Entry}
use pi_ssc_ssd_ssa.Public.Message.{Payload, Msg}
use pi_ssc_ssd_ssa.Hlist.{Hlist}
use pi_ssc_ssd_ssa.Pi.Db.{Env}
use pi_ssc_ssd_ssa.Ssc.Db.{lock, unlock}
use pi_ssc_ssd_ssa.Ssc.Comm.{Platform, Ssc, ssc_send_msg_pi, ssc_recevie_msg_pi, ssc_deal_ds}
use pi_ssc_ssd_ssa.Ssc.Invariant.{IsSscDb}
use pi_ssc_ssd_ssa.Ssc.Process.{
  Link, connecting, reading, stopped, Part, sync_start, sync_conf, sync_static, sync_dyn, sync_end,
  Event, connect, read, read_failed, notified, sync, looked, Process, sync_part, pthread_deal_func,
  sync_thread, step,
}
use pi_ssc_ssd_ssa.Ssc.Process.Kinds.{well_formed}
use pi_ssc_ssd_ssa.Public.Kinds.{is_entry, by_entry}
use pi_ssc_ssd_ssa.Ssc.Process.Handlers.{Returns, recevie-Returns, notified-Returns}
use pi_ssc_ssd_ssa.Ssc.Sync.{
  send_up, ssc_send_pi_fetch, ssc_ds_conf_info, ssc_ds_static_info, ssc_ds_dyn_info,
}

-- Being at a place in the loop decides the place.
abbrev is_connecting : Link → Bool
is_connecting connecting = true
is_connecting reading = false
is_connecting stopped = false

abbrev is_reading : Link → Bool
is_reading connecting = false
is_reading reading = true
is_reading stopped = false

by_connecting : (l : Link) → is_connecting l ≡ true → l ≡ connecting
by_connecting connecting h = refl
by_connecting reading h = cc
by_connecting stopped h = cc

by_reading : (l : Link) → is_reading l ≡ true → l ≡ reading
by_reading connecting h = cc
by_reading reading h = refl
by_reading stopped h = cc

List-cases {ℓ} : {A : Type ℓ} (l : List A) → (l ≡ []) ⊎ ((a : A) × (rest : List A) × (l ≡ a ∷ rest))
List-cases [] = inl refl
List-cases (a ∷ rest) = inr (a, rest, refl)

module _ (H : Hlist Entry) (env : Env) (platform : Platform) where
  part-Returns :
      (part : Part) (s : Ssc H)
      → env.mem ≡ true
      → IsSscDb H s.db
      → Returns H env platform (sync_part H env platform part s)
  unfolding sync_part ssc_send_msg_pi ssc_ds_conf_info ssc_ds_static_info ssc_ds_dyn_info send_up
      lock unlock
  part-Returns sync_start s mem v = rw mem (_, refl, v)
  part-Returns sync_conf s mem v =
      rw (mem, v.free)
        (_, refl, record { static_table = v.static_table; dyn_table = v.dyn_table; free = refl })
  part-Returns sync_static s mem v =
      rw (mem, v.free)
        (_, refl, record { static_table = v.static_table; dyn_table = v.dyn_table; free = refl })
  part-Returns sync_dyn s mem v =
      rw (mem, v.free)
        (_, refl, record { static_table = v.static_table; dyn_table = v.dyn_table; free = refl })
  part-Returns sync_end s mem v = rw mem (_, refl, v)

  -- An event that can come at a state: a connection where there is none, a message of a known type
  -- or the end where there is one, a notice with an entry, a thread that is not at its end, and one that waits
  -- for the flag.
  abbrev pub can_come : Event → Process H → Bool
  can_come (connect ok create) p = is_connecting p.link
  can_come (read m) p = is_reading p.link && well_formed m.msg_type m.msg
  can_come (read_failed opened) p = is_reading p.link
  can_come (notified body) p = is_entry body
  can_come looked p = ltb 0 p.ssc.waiting
  can_come (sync k) p = elim (get_or p.threads k []) [ [] ↦ false | part ∷ rest ↦ true ]

  -- A step that is made, to a state in order.
  abbrev pub Steps : Event → Process H → Type 0
  Steps e p = (p' : Process H) × (step H env platform e p ≡ some p') × IsSscDb H p'.ssc.db

  connect-Steps :
      (opened create : Bool) (p : Process H)
      → env.mem ≡ true
      → IsSscDb H p.ssc.db
      → can_come (connect opened create) p ≡ true
      → Steps (connect opened create) p
  unfolding step pthread_deal_func ssc_send_pi_fetch ssc_send_msg_pi
  connect-Steps opened create p mem v ok =
      let away = by_connecting p.link ok in
      elim (Bool-cases opened) [
        | inl good ↦ rw (away, good, mem) (_, refl, v)
        | inr bad ↦ (record p { link = connecting }, rw (away, bad, pthread_deal_func) refl, v)
      ]

  read-run :
      (m : Msg) (p : Process H) (s : Ssc H)
      → p.link ≡ reading
      → ssc_recevie_msg_pi H env platform m p.ssc ≡ some s
      → step H env platform (read m) p ≡ some (record p { ssc = s; link = reading })
  unfolding step pthread_deal_func
  read-run m p s there run = rw (there, pthread_deal_func, run) refl

  read-Steps :
      (m : Msg) (p : Process H)
      → env.mem ≡ true
      → IsSscDb H p.ssc.db
      → can_come (read m) p ≡ true
      → Steps (read m) p
  read-Steps m p mem v ok =
      let there = by_reading p.link (ground (arith, ok)) in
      let (s, run, v') = recevie-Returns H env platform m p.ssc mem v (ground (arith, ok)) in
      (record p { ssc = s; link = reading }, read-run m p s there run, v')

  read_failed-Steps :
      (opened : Bool) (p : Process H)
      → IsSscDb H p.ssc.db
      → can_come (read_failed opened) p ≡ true
      → Steps (read_failed opened) p
  unfolding step pthread_deal_func
  read_failed-Steps opened p v ok =
      let there = by_reading p.link ok in
      (
        record p { link = if opened then connecting else stopped },
        rw (there, pthread_deal_func) refl,
        v,
      )

  sync-Steps :
      (k : ℕ) (p : Process H)
      → env.mem ≡ true
      → IsSscDb H p.ssc.db
      → can_come (sync k) p ≡ true
      → Steps (sync k) p
  unfolding step sync_thread
  sync-Steps k p mem v ok = elim (List-cases (get_or p.threads k [])) [
    | inl ended ↦ cc (rw (ended, can_come) at ok)
    | inr (part, rest, there) ↦
        let (s, run, v') = part-Returns part p.ssc mem v in
        (
          record p { ssc = s; threads = set p.threads k rest },
          rw (there, sync_thread, run) refl,
          v',
        )
  ]

  looked-IsSscDb : (s : Ssc H) → IsSscDb H s.db → IsSscDb H (ssc_deal_ds H env platform s).db
  unfolding ssc_deal_ds
  looked-IsSscDb s v = if_both (λ (r : Ssc H). IsSscDb H r.db) s.ds_is_end _ _ v v

  -- An event that can come is dealt with, and leaves the database in order.
  pub step-IsSscDb :
      (e : Event) (p : Process H)
      → env.mem ≡ true
      → IsSscDb H p.ssc.db
      → can_come e p ≡ true
      → Steps e p
  unfolding step
  step-IsSscDb (connect opened create) p mem v ok = connect-Steps opened create p mem v ok
  step-IsSscDb (read m) p mem v ok = read-Steps m p mem v ok
  step-IsSscDb (read_failed opened) p mem v ok = read_failed-Steps opened p v ok
  step-IsSscDb looked p mem v ok = (_, refl, looked-IsSscDb p.ssc v)
  step-IsSscDb (sync k) p mem v ok = sync-Steps k p mem v ok
  step-IsSscDb (notified body) p mem v ok =
      by_entry (λ (b : Payload). Steps (notified b) p)
        (λ e.
          let (s, run, v') = notified-Returns H env platform e p.ssc mem v in
          (record p { ssc = s }, rw run refl, v'))
        body ok

  -- The states that a sequence of events leads to, each of which can come where it does.
  pub data Reach (p : Process H) : Process H → Type 0 where
    start : Reach p p
    after :
        {q r : Process H}
        → Reach p q
        → (e : Event) → can_come e q ≡ true
        → step H env platform e q ≡ some r
        → Reach p r

  reached-IsSscDb :
      (p q : Process H) → env.mem ≡ true → IsSscDb H p.ssc.db → Reach p q → IsSscDb H q.ssc.db
  reached-IsSscDb p q mem v start = v
  reached-IsSscDb p q mem v (after {q = t} path e ok run) =
      let (r, run', v') = step-IsSscDb e t mem (reached-IsSscDb p t mem v path) ok in
      let same : some r ≡ some q = sym run' ∙ run in let eq : r ≡ q = cc in rw (← eq) v'

  -- Let the SSC begin with its database in order and the mutex free, and let there be memory. In
  -- whatever order its threads go on, messages and notices of known types come in and connections are
  -- made and lost, each state that is reached has its database in order and the mutex free, and each
  -- event that can come next is dealt with.
  pub process-goes_on :
      (p q : Process H) (e : Event)
      → env.mem ≡ true
      → IsSscDb H p.ssc.db
      → Reach p q
      → can_come e q ≡ true
      → IsSscDb H q.ssc.db × (r : Process H) × (step H env platform e q ≡ some r) × Reach p r
  process-goes_on p q e mem v path ok =
      let w = reached-IsSscDb p q mem v path in
      let (r, run, v') = step-IsSscDb e q mem w ok in (w, r, run, after path e ok run)
