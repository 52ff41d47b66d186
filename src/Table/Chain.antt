-- ===== src/Table/Chain.antt =====
-- Lists of entries: the entry under a key, and what the loops over chains do to it.
use pi_ssc_ssd_ssa.Common.{
  ℕ, suc, ◌+◌, ◌≤◌, ◌≡◌, refl, Bool, true, false, Option, none, some, List, [], ◌∷◌, ◌++◌, arith,
  length, count_if, count_if-append, if◌then◌else◌,
}
use pi_ssc_ssd_ssa.Public.{Entry, Key, key_of}
use pi_ssc_ssd_ssa.Public.Compare.{memcmp_key, memcmp_key_congr, memcmp_key_same}
use pi_ssc_ssd_ssa.Hlist.Loops.{change_first, remove_first, remove_all, any}
use pi_ssc_ssd_ssa.Table.{move_port}

-- The first entry under a key.
unfoldable pub lookup : Key → List Entry → Option Entry
lookup q [] = none
lookup q (a ∷ l) = if memcmp_key q a then some a else lookup q l

unfoldable pub count : Key → List Entry → ℕ
count q l = count_if (memcmp_key q) l

abbrev pub is_some {ℓ} : {A : Type ℓ} → Option A → Bool
is_some none = false
is_some (some a) = true

-- What an entry offers to a table that may have one under its key: a new port.
abbrev pub merge : Entry → Option Entry → Entry
merge e none = e
merge e (some a) = move_port e.port_id a

-- What is left of an optional entry when those that pass a test go.
abbrev pub discard : (Entry → Bool) → Option Entry → Option Entry
discard p none = none
discard p (some a) = if p a then none else some a

abbrev pub orelse : Option Entry → Option Entry → Option Entry
orelse none o = o
orelse (some a) o = some a

pub lookup-append :
    (q : Key) (l m : List Entry) → lookup q (l ++ m) ≡ orelse (lookup q l) (lookup q m)
unfolding lookup
lookup-append q [] m = refl
lookup-append q (a ∷ l) m = ground (arith, lookup-append q l m)

pub count-append : (q : Key) (l m : List Entry) → count q (l ++ m) ≡ count q l + count q m
unfolding count
count-append q l m = count_if-append (memcmp_key q) l m

pub lookup-none : (q : Key) (l : List Entry) → count q l ≡ 0 → lookup q l ≡ none
unfolding lookup count count_if
lookup-none q [] h = refl
lookup-none q (a ∷ l) h = ground (arith, lookup-none q l)

-- What a search finds has the key.
pub lookup-key :
    (q : Key) (l : List Entry) (a : Entry) → lookup q l ≡ some a → memcmp_key q a ≡ true
unfolding lookup
lookup-key q [] a h = cc
lookup-key q (b ∷ l) a h = ground (arith, lookup-key q l a)

pub count-zero : (q : Key) (l : List Entry) → lookup q l ≡ none → count q l ≡ 0
unfolding lookup count count_if
count-zero q [] h = refl
count-zero q (a ∷ l) h = ground (arith, count-zero q l)

-- One more entry.
pub count-cons :
    (q : Key) (e : Entry) (l : List Entry)
    → count q (e ∷ l) ≡ (if memcmp_key q e then suc (count q l) else count q l)
unfolding count count_if
count-cons q e l = refl

-- A search for the key of an entry answers whether there is one under it.
pub any-lookup : (q : Key) (l : List Entry) → any (memcmp_key q) l ≡ is_some (lookup q l)
unfolding lookup any
any-lookup q [] = refl
any-lookup q (a ∷ l) = ground (arith, any-lookup q l)

-- Setting a port changes no key.
memcmp_key-move_port :
    (q : Key) (a : Entry) (port : ℕ) → memcmp_key q (move_port port a) ≡ memcmp_key q a
unfolding memcmp_key
memcmp_key-move_port q a port = refl

pub count-change_first :
    (q : Key) (p : Entry → Bool) (port : ℕ) (l : List Entry)
    → count q (change_first p (move_port port) l) ≡ count q l
unfolding count count_if change_first
count-change_first q p port [] = refl
count-change_first q p port (a ∷ l) =
    ground (arith, memcmp_key-move_port q a port, count-change_first q p port l)

pub length-change_first :
    (p : Entry → Bool) (f : Entry → Entry) (l : List Entry) → length (change_first p f l) ≡ length l
unfolding change_first
length-change_first p f [] = refl
length-change_first p f (a ∷ l) = ground (arith, length-change_first p f l)

-- After a successful search for the key of `e`, that key has the new port and no other key changed.
pub lookup-change_first :
    (q : Key) (e : Entry) (l : List Entry)
    → any (memcmp_key (key_of e)) l ≡ true
    → lookup q (change_first (memcmp_key (key_of e)) (move_port e.port_id) l)
      ≡ (if memcmp_key q e then some (merge e (lookup q l)) else lookup q l)
unfolding lookup change_first any
lookup-change_first q e [] h = cc
lookup-change_first q e (a ∷ l) h = ground (
  arith,
  memcmp_key-move_port q a e.port_id,
  memcmp_key_congr q a e,
  memcmp_key_congr (key_of e) a e,
  memcmp_key_same q e a,
  lookup-change_first q e l,
)

pub change_first_miss :
    (p : Entry → Bool) (f : Entry → Entry) (l : List Entry)
    → any p l ≡ false
    → change_first p f l ≡ l
unfolding change_first any
change_first_miss p f [] h = refl
change_first_miss p f (a ∷ l) h = ground (arith, change_first_miss p f l)

pub count-remove_first :
    (q : Key) (p : Entry → Bool) (l : List Entry) → count q (remove_first p l) ≤ count q l
unfolding count count_if remove_first
count-remove_first q p [] = omega arith
count-remove_first q p (a ∷ l) = ground (arith, count-remove_first q p l)

pub length-remove_first :
    (p : Entry → Bool) (l : List Entry)
    → length (remove_first p l) + (if any p l then 1 else 0) ≡ length l
unfolding remove_first any
length-remove_first p [] = refl
length-remove_first p (a ∷ l) = ground (arith, length-remove_first p l)

pub count-remove_all :
    (q : Key) (p : Entry → Bool) (l : List Entry) → count q (remove_all p l) ≤ count q l
unfolding count count_if remove_all
count-remove_all q p [] = omega arith
count-remove_all q p (a ∷ l) = ground (arith, count-remove_all q p l)

pub lookup-remove_all :
    (q : Key) (p : Entry → Bool) (l : List Entry)
    → count q l ≤ 1
    → lookup q (remove_all p l) ≡ discard p (lookup q l)
unfolding lookup count count_if remove_all
lookup-remove_all q p [] h = refl
lookup-remove_all q p (a ∷ l) h =
    let rest : count q (remove_all p l) ≤ count q l = count-remove_all q p l in
    ground (arith, lookup-remove_all q p l, lookup-none q l, lookup-none q (remove_all p l), rest)

pub length-remove_all :
    (p : Entry → Bool) (l : List Entry) → length (remove_all p l) + count_if p l ≡ length l
unfolding remove_all count_if
length-remove_all p [] = refl
length-remove_all p (a ∷ l) = ground (arith, length-remove_all p l)

pub remove_all-append :
    (p : Entry → Bool) (l m : List Entry) → remove_all p (l ++ m) ≡ remove_all p l ++ remove_all p m
unfolding remove_all
remove_all-append p [] m = refl
remove_all-append p (a ∷ l) m = ground (arith, remove_all-append p l m)

-- The entry of an option passes a test.
abbrev pub hits : (Entry → Bool) → Option Entry → Bool
hits p none = false
hits p (some a) = p a

-- A test that only entries under one key can pass finds the entry under it, if there is only one.
module _ (k : Key) (p : Entry → Bool)
    (under : (a : Entry) → p a ≡ true → memcmp_key k a ≡ true) where
  count_if-under : (l : List Entry) → count_if p l ≤ count k l
  unfolding count count_if
  count_if-under [] = omega arith
  count_if-under (a ∷ l) = ground (arith, under a, count_if-under l)

  remove_all_miss : (l : List Entry) → count_if p l ≡ 0 → remove_all p l ≡ l
  unfolding count_if remove_all
  remove_all_miss [] h = refl
  remove_all_miss (a ∷ l) h = ground (arith, remove_all_miss l)

  pub remove_first-eq-all : (l : List Entry) → count k l ≤ 1 → remove_first p l ≡ remove_all p l
  unfolding count count_if remove_first remove_all
  remove_first-eq-all [] h = refl
  remove_first-eq-all (a ∷ l) h =
      let few : count_if p l ≤ count k l = count_if-under l in
      ground (arith, under a, remove_all_miss l, remove_first-eq-all l, few)

  pub any-hits : (l : List Entry) → count k l ≤ 1 → any p l ≡ hits p (lookup k l)
  unfolding count count_if any lookup
  any-hits [] h = refl
  any-hits (a ∷ l) h = ground (arith, under a, any-hits l, any_under l)
    where
      any_under : (m : List Entry) → count_if (memcmp_key k) m ≡ 0 → any p m ≡ false
      any_under [] z = refl
      any_under (b ∷ m) z = ground (arith, under b, any_under m)
