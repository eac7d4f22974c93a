-- ===== src/Interceptor/Counter.antt =====
-- interceptor/counter.go: the counters of the calls, and what PrintRpcCounter prints of them.
pub mod Concurrent
pub mod Served
use lunaship.Base.{
  ℕ, zero, suc, ◌+◌, ◌≤◌, ◌%◌, String, Bool, true, false, Option, none, some, List, [], ◌∷◌, ◌++◌,
  ◌≡◌, refl, if◌then◌else◌, ◌==◌, ltb, leb, take, drop, length, All, arith, map, All-map,
  Bool-cases, inl, inr,
}

-- lo.Entries of the counters: their keys, each with its value.
abbrev pub Entry : Type 0
Entry = String × ℕ

unfoldable pub insert_by_value : Entry → List Entry → List Entry
insert_by_value e [] = e ∷ []
insert_by_value e (d ∷ ds) =
    let rest = insert_by_value e ds in if ltb d.1 e.1 then d ∷ rest else e ∷ d ∷ ds

-- sort.Slice by the values, the smaller ones first; the order of equal values is not fixed.
unfoldable pub sort_by_value : List Entry → List Entry
sort_by_value [] = []
sort_by_value (e ∷ es) = insert_by_value e (sort_by_value es)

-- The number of entries that are printed.
abbrev tail_size : ℕ → ℕ → ℕ
tail_size topk size = if ltb size topk then size else topk

-- entries[:tail], the entries that one round of PrintRpcCounter prints.
unfoldable pub printed_counters : ℕ → List Entry → List Entry
printed_counters topk entries = take (tail_size topk (length entries)) (sort_by_value entries)

-- The entries that a round leaves out.
unfoldable pub unprinted_counters : ℕ → List Entry → List Entry
unprinted_counters topk entries = drop (tail_size topk (length entries)) (sort_by_value entries)

abbrev IsAscending : List Entry → Type 0
IsAscending [] = Unit
IsAscending (e ∷ es) = All (λ d. e.1 ≤ d.1) es × IsAscending es

All-insert :
    (n : ℕ) (e : Entry) (es : List Entry)
    → n ≤ e.1
    → All (λ d. n ≤ d.1) es
    → All (λ d. n ≤ d.1) (insert_by_value e es)
unfolding insert_by_value
All-insert n e [] le h = (le, tt)
All-insert n e (d ∷ ds) le h = elim (Bool-cases (ltb d.1 e.1)) [
  | inl less ↦ rw (less, insert_by_value) (h.0, All-insert n e ds le h.1)
  | inr more ↦ rw (more, insert_by_value) (le, h)
]

All-weaken : (m n : ℕ) (es : List Entry) → m ≤ n → All (λ d. n ≤ d.1) es → All (λ d. m ≤ d.1) es
All-weaken m n es le = All-map (λ d. n ≤ d.1) (λ d. m ≤ d.1) es (λ d h. omega arith)

insert-IsAscending :
    (e : Entry) (es : List Entry) → IsAscending es → IsAscending (insert_by_value e es)
unfolding insert_by_value
insert-IsAscending e [] h = (tt, tt)
insert-IsAscending e (d ∷ ds) h = elim (Bool-cases (ltb d.1 e.1)) [
  | inl less ↦
      rw (less, insert_by_value)
        (All-insert d.1 e ds (ground arith) h.0, insert-IsAscending e ds h.1)
  | inr more ↦
      let le : e.1 ≤ d.1 = ground arith in
      rw (more, insert_by_value) ((le, All-weaken e.1 d.1 ds le h.0), h)
]

sort-IsAscending : (es : List Entry) → IsAscending (sort_by_value es)
unfolding sort_by_value
sort-IsAscending [] = tt
sort-IsAscending (e ∷ es) = insert-IsAscending e (sort_by_value es) (sort-IsAscending es)

All-drop {κ} : (P : Entry → Type κ) (n : ℕ) (es : List Entry) → All P es → All P (drop n es)
All-drop P zero es h = h
All-drop P (suc n) [] h = h
All-drop P (suc n) (e ∷ es) h = All-drop P n es h.1

take-drop :
    (n : ℕ) (es : List Entry)
    → IsAscending es
    → All (λ e. All (λ d. e.1 ≤ d.1) (drop n es)) (take n es)
take-drop zero es h = tt
take-drop (suc n) [] h = tt
take-drop (suc n) (e ∷ es) h = (All-drop (λ d. e.1 ≤ d.1) n es h.0, take-drop n es h.1)

-- The counters that PrintRpcCounter prints are the smallest ones: each is at most every counter that
-- it leaves out.
pub printed-least :
    (topk : ℕ) (entries : List Entry)
    → All
        (λ e. All (λ d. e.1 ≤ d.1) (unprinted_counters topk entries))
        (printed_counters topk entries)
unfolding printed_counters unprinted_counters
printed-least topk entries =
    take-drop (tail_size topk (length entries)) (sort_by_value entries) (sort-IsAscending entries)
