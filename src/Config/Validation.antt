-- ===== src/Config/Validation.antt =====
-- What `validate_ports` of src/vds_config.cc leaves: the same ports, increasing and in range.
use windows_vds.Prelude.{
  ℕ, ◌≤◌, ◌<◌, ◌≡◌, refl, ◌||◌, List, [], ◌∷◌, arith, ok, ◌==◌, none, All, ◌∙◌, ap, ◌^◌,
}
use windows_vds.Config.Ports.{
  insert_sorted, sort, adjacent_find, check_range, check_sorted, validate_ports, contains,
  max_port_count,
}

abbrev IsSorted : List ℕ → Type 0
IsSorted [] = Unit
IsSorted (n ∷ []) = Unit
IsSorted (n ∷ m ∷ ns) = (n ≤ m) × IsSorted (m ∷ ns)

-- Strictly increasing, and every element a port.
abbrev pub IsPortList : List ℕ → Type 0
IsPortList [] = Unit
IsPortList (n ∷ []) = n < max_port_count
IsPortList (n ∷ m ∷ ns) = (n < m) × (n < max_port_count) × IsPortList (m ∷ ns)

insert_sorted-IsSorted : (n : ℕ) (ns : List ℕ) → IsSorted ns → IsSorted (insert_sorted n ns)
unfolding insert_sorted
insert_sorted-IsSorted n [] h = tt
insert_sorted-IsSorted n (m ∷ []) h = ground arith
insert_sorted-IsSorted n (m ∷ l ∷ ns) h = ground (arith, insert_sorted-IsSorted n (l ∷ ns) h.1)

sort-IsSorted : (ns : List ℕ) → IsSorted (sort ns)
unfolding sort
sort-IsSorted [] = tt
sort-IsSorted (n ∷ ns) = insert_sorted-IsSorted n (sort ns) (sort-IsSorted ns)

contains-insert_sorted :
    (n : ℕ) (ns : List ℕ) (p : ℕ) → contains (insert_sorted n ns) p ≡ (n == p || contains ns p)
unfolding contains insert_sorted
contains-insert_sorted n [] p = refl
contains-insert_sorted n (m ∷ ns) p = ground (arith, contains-insert_sorted n ns p)

contains-sort : (ns : List ℕ) (p : ℕ) → contains (sort ns) p ≡ contains ns p
unfolding sort contains
contains-sort [] p = refl
contains-sort (n ∷ ns) p =
    contains-insert_sorted n (sort ns) p ∙ ap (λ b. n == p || b) (contains-sort ns p)

checked-IsPortList :
    (ns : List ℕ) → IsSorted ns → adjacent_find ns ≡ none → check_range ns ≡ ok tt → IsPortList ns
unfolding adjacent_find check_range
checked-IsPortList [] s a r = tt
checked-IsPortList (n ∷ []) s a r = ground arith
checked-IsPortList (n ∷ m ∷ ns) s a r = ground (arith, checked-IsPortList (m ∷ ns) s.1)

check_sorted-eq-ok :
    (ns ps : List ℕ)
    → check_sorted ns ≡ ok ps
    → (adjacent_find ns ≡ none) × (check_range ns ≡ ok tt) × (ns ≡ ps)
unfolding check_sorted
check_sorted-eq-ok ns ps = ground arith

sort-IsPortList : (ns : List ℕ) → IsPortList ns → sort ns ≡ ns
unfolding sort
sort-IsPortList [] h = refl
sort-IsPortList (n ∷ []) h = refl
sort-IsPortList (n ∷ m ∷ ns) h =
    ap (insert_sorted n) (sort-IsPortList (m ∷ ns) h.2) ∙ (unfold insert_sorted in ground arith)

adjacent_find-IsPortList : (ns : List ℕ) → IsPortList ns → adjacent_find ns ≡ none
unfolding adjacent_find
adjacent_find-IsPortList [] h = refl
adjacent_find-IsPortList (n ∷ []) h = refl
adjacent_find-IsPortList (n ∷ m ∷ ns) h = ground (arith, adjacent_find-IsPortList (m ∷ ns) h.2)

check_range-IsPortList : (ns : List ℕ) → IsPortList ns → check_range ns ≡ ok tt
unfolding check_range
check_range-IsPortList [] h = refl
check_range-IsPortList (n ∷ []) h = ground arith
check_range-IsPortList (n ∷ m ∷ ns) h = ground (arith, check_range-IsPortList (m ∷ ns) h.2)

-- A valid list passes unchanged.
pub validate_ports-IsPortList : (ns : List ℕ) → IsPortList ns → validate_ports ns ≡ ok ns
validate_ports-IsPortList ns h =
    unfold validate_ports in
    rw (sort-IsPortList ns h) (
      unfold check_sorted in
      rw (adjacent_find-IsPortList ns h, check_range-IsPortList ns h, check_sorted))

-- A list that `validate_ports` accepts is left strictly increasing and below the port count, and
-- holds just the ports that were given.
pub validate_ports-eq-ok :
    (ns ps : List ℕ)
    → validate_ports ns ≡ ok ps
    → IsPortList ps × ((p : ℕ) → contains ps p ≡ contains ns p)
unfolding validate_ports
validate_ports-eq-ok ns ps h =
    let (a, r, e) = check_sorted-eq-ok (sort ns) ps h in
    (
      rw (← e) (checked-IsPortList (sort ns) (sort-IsSorted ns) a r),
      λ p. rw (← e) (contains-sort ns p),
    )

pub IsPortList-IsNumbers : (ns : List ℕ) → IsPortList ns → All (λ n. n < 2 ^ 32) ns
IsPortList-IsNumbers [] h = tt
IsPortList-IsNumbers (n ∷ []) h = (omega arith, tt)
IsPortList-IsNumbers (n ∷ m ∷ ns) h = (omega arith, IsPortList-IsNumbers (m ∷ ns) h.2)
