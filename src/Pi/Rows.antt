-- ===== src/Pi/Rows.antt =====
-- Rows of a listing, how they print, and selections among them.
use mathlib.Core.List.{append_assoc, map-append}
use pi_ssc_ssd_ssa.Common.{
  ℕ, suc, ◌+◌, ◌≡◌, refl, sym, ◌∙◌, ap, inl, inr, Bool, true, false, not, List, [], ◌∷◌, ◌++◌, map,
  arith, length, if◌then◌else◌, Bool-cases,
}
use pi_ssc_ssd_ssa.Public.{Entry}
use pi_ssc_ssd_ssa.Pi.Show.{Printed, static_col, dynamic_col, print_entry, show_chain}

-- A row of a listing: an entry, and whether it is dynamic.
pub record Row : Type 0 where
  pub dynamic : Bool
  pub entry : Entry

abbrev pub row : Bool → Entry → Row
row d e = record { dynamic = d; entry = e }

abbrev pub is_static : Row → Bool
is_static r = not r.dynamic

abbrev pub is_dynamic : Row → Bool
is_dynamic r = r.dynamic

-- The last column by the kind of a row.
abbrev pub port_col : Bool → ℕ → Printed
port_col true port = dynamic_col port
port_col false port = static_col port

unfoldable pub select : (Row → Bool) → List Row → List Row
select p [] = []
select p (r ∷ rs) = let rest = select p rs in if p r then r ∷ rest else rest

unfoldable pub print_rows : List Row → List Printed
print_rows [] = []
print_rows (r ∷ rs) = print_entry (port_col r.dynamic) r.entry ++ print_rows rs

pub select-append : (p : Row → Bool) (a b : List Row) → select p (a ++ b) ≡ select p a ++ select p b
unfolding select
select-append p [] b = refl
select-append p (r ∷ a) b = ground (arith, select-append p a b)

pub print_rows-append : (a b : List Row) → print_rows (a ++ b) ≡ print_rows a ++ print_rows b
unfolding print_rows
print_rows-append [] b = refl
print_rows-append (r ∷ a) b =
    rw (print_rows-append a b)
      (sym (append_assoc (print_entry (port_col r.dynamic) r.entry) (print_rows a) (print_rows b)))

-- All rows of one kind pass the test for the kind, and none of the other.
select_all :
    (p : Row → Bool) (d : Bool) (es : List Entry)
    → ((e : Entry) → p (row d e) ≡ true)
    → select p (map (row d) es) ≡ map (row d) es
unfolding select
select_all p d [] h = refl
select_all p d (e ∷ es) h = rw (h e) (ap (λ l. row d e ∷ l) (select_all p d es h))

select_none :
    (p : Row → Bool) (d : Bool) (es : List Entry)
    → ((e : Entry) → p (row d e) ≡ false)
    → select p (map (row d) es) ≡ []
unfolding select
select_none p d [] h = refl
select_none p d (e ∷ es) h = rw (h e) (select_none p d es h)

pub show_chain-rows :
    (test : Entry → Bool) (d : Bool) (es : List Entry)
    → show_chain test (port_col d) es ≡ print_rows (select (λ r. test r.entry) (map (row d) es))
unfolding show_chain select print_rows
show_chain-rows test d [] = refl
show_chain-rows test d (e ∷ es) = elim (Bool-cases (test e)) [
  | inl hit ↦ rw hit (ap (λ l. print_entry (port_col d) e ++ l) (show_chain-rows test d es))
  | inr miss ↦ rw miss (show_chain-rows test d es)
]

map-entry : (d : Bool) (es : List Entry) → map (λ r. r.entry) (map (row d) es) ≡ es
map-entry d [] = refl
map-entry d (e ∷ es) = ap (λ l. e ∷ l) (map-entry d es)

-- One round's rows, and the rest: the rows of a kind come from the chain of its table.
pub select_static-round :
    (a b : List Entry) (rest : List Row)
    → select is_static (map (row false) a ++ (map (row true) b ++ rest))
      ≡ map (row false) a ++ select is_static rest
select_static-round a b rest =
    rw
      (
        select-append is_static (map (row false) a) (map (row true) b ++ rest),
        select-append is_static (map (row true) b) rest,
        select_all is_static false a (λ e. refl),
        select_none is_static true b (λ e. refl),
      )
      refl

pub select_dynamic-round :
    (a b : List Entry) (rest : List Row)
    → select is_dynamic (map (row false) a ++ (map (row true) b ++ rest))
      ≡ map (row true) b ++ select is_dynamic rest
select_dynamic-round a b rest =
    rw
      (
        select-append is_dynamic (map (row false) a) (map (row true) b ++ rest),
        select-append is_dynamic (map (row true) b) rest,
        select_none is_dynamic false a (λ e. refl),
        select_all is_dynamic true b (λ e. refl),
      )
      refl

pub map-entry-round :
    (d : Bool) (es : List Entry) (rest : List Row)
    → map (λ r. r.entry) (map (row d) es ++ rest) ≡ es ++ map (λ r. r.entry) rest
map-entry-round d es rest =
    map-append (λ (r : Row). r.entry) (map (row d) es) rest
    ∙ ap (λ l. l ++ map (λ (r : Row). r.entry) rest) (map-entry d es)

pub length-kinds :
    (rs : List Row) → length rs ≡ length (select is_dynamic rs) + length (select is_static rs)
unfolding select
length-kinds [] = refl
length-kinds (r ∷ rs) = ground (arith, length-kinds rs)

pub length-map-entry : (rs : List Row) → length (map (λ r. r.entry) rs) ≡ length rs
length-map-entry [] = refl
length-map-entry (r ∷ rs) = ap suc (length-map-entry rs)
