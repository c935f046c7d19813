-- ===== src/Tests/Pools.antt =====
-- The pool at concrete inputs.
use standalone_dhcp.Prelude.{
  ℕ, ◌≡◌, ◌<◌, ◌+◌, ◌-◌, refl, true, nat_eq, string_eq, none, some, List, [], ◌∷◌, length, arith,
  ◌==◌, ltb, ◌⊎◌,
}
use standalone_dhcp.Prelude.Int.{pos, int_eq}
use standalone_dhcp.Prelude.Map.{has, lookup, insert, delete}
use standalone_dhcp.Pool.{
  DhcpPool, new_dhcp_pool, fill, reserve_ip_index, free_ip_index, get_free_ip_index, free_mac,
  pool_full, released_free, sort_by_value, sort_insert, first_key, choose_available,
}
use standalone_dhcp.Pool.Invariant.{IsValid, reserve_ip_index-IsValid}
use standalone_dhcp.Pool.Choose.{IsOldest}
use standalone_dhcp.Pool.Allocate.{assign, get_free_ip_index_cases, get_free_ip_index-IsOldest}
use standalone_dhcp.Pool.Create.{new_dhcp_pool-IsValid, new_dhcp_pool-free}
use standalone_dhcp.Pool.View.{
  view, at, hold, let_go, reserve_answer, free_answer, view-reserve_ip_index, view-free_ip_index,
}
use standalone_dhcp.Pool.Run.{
  here, next, reserves, frees, Reach-new_dhcp_pool, allocate, AreFresh, allocate-AreFresh,
}
use standalone_dhcp.Tests.Libraries.{first_choice, first_choice-IsChoice}

-- Four indices, by algorithm 2.
abbrev pub four : DhcpPool
four = new_dhcp_pool (λ i. 10 - i) 4 (pos 2)

pub four-IsValid : IsValid four
four-IsValid = new_dhcp_pool-IsValid (λ i. 10 - i) 4 (pos 2)

-- One of them is held.
abbrev pub three : DhcpPool
three = (reserve_ip_index 1 "02:00:00:00:00:01" four).0

pub three-IsValid : IsValid three
three-IsValid = reserve_ip_index-IsValid 1 "02:00:00:00:00:01" four four-IsValid

length-four : length four.free ≡ 4
unfolding new_dhcp_pool fill insert
length-four = refl

oldest : (get_free_ip_index (first_choice four) "02:00:00:00:00:02" four).1 ≡ 3
unfolding new_dhcp_pool fill insert get_free_ip_index choose_available released_free sort_by_value
    sort_insert first_key lookup
oldest = refl

taken_twice : (reserve_ip_index 1 "02:00:00:00:00:02" three).2 ≡ free_mac
unfolding new_dhcp_pool fill insert reserve_ip_index lookup delete
taken_twice = refl

Reach-new_dhcp_pool_example : IsValid (free_ip_index 9 1 three).0
Reach-new_dhcp_pool_example =
    Reach-new_dhcp_pool (λ i. 10 - i) 4 (pos 2)
      (next (next here (reserves 1 "02:00:00:00:00:01")) (frees 9 1))

allocate-AreFresh_example :
    AreFresh four (allocate first_choice "02:00:00:00:00:02" 3 four).1
    × (length (allocate first_choice "02:00:00:00:00:02" 3 four).0.free + 3 ≡ length four.free)
    × IsValid (allocate first_choice "02:00:00:00:00:02" 3 four).0
allocate-AreFresh_example =
    allocate-AreFresh first_choice (λ p v. first_choice-IsChoice p) "02:00:00:00:00:02" 3 four
      four-IsValid (rw length-four (omega arith))

view-reserve_ip_index_example :
    ((j : ℕ)
      → view (reserve_ip_index 1 "02:00:00:00:00:01" four).0 j
        ≡ at 1 (hold "02:00:00:00:00:01") (view four) j)
    × ((reserve_ip_index 1 "02:00:00:00:00:01" four).1
        ≡ (reserve_answer "02:00:00:00:00:01" (view four 1)).0)
    × ((reserve_ip_index 1 "02:00:00:00:00:01" four).2
        ≡ (reserve_answer "02:00:00:00:00:01" (view four 1)).1)
view-reserve_ip_index_example = view-reserve_ip_index 1 "02:00:00:00:00:01" four

view-free_ip_index_example :
    ((j : ℕ) → view (free_ip_index 9 1 three).0 j ≡ at 1 let_go (view three) j)
    × ((free_ip_index 9 1 three).1 ≡ free_answer (view three 1))
view-free_ip_index_example = view-free_ip_index 9 1 three

get_free_ip_index_cases_example :
    ((length three.free ≡ 0)
      × (get_free_ip_index (first_choice three) "02:00:00:00:00:02" three
          ≡ (three, 0, free_mac, some pool_full)))
    ⊎ ((i : ℕ) × (has i three.free ≡ true)
        × (i < three.capacity)
        × (get_free_ip_index (first_choice three) "02:00:00:00:00:02" three
            ≡ (assign i "02:00:00:00:00:02" three, i, "02:00:00:00:00:02", none)))
get_free_ip_index_cases_example =
    get_free_ip_index_cases three (first_choice three) "02:00:00:00:00:02" three-IsValid
      (first_choice-IsChoice three)

algorithm-four : (four.algorithm == pos 2) ≡ true
unfolding new_dhcp_pool fill
algorithm-four = refl

get_free_ip_index-IsOldest_example :
    IsOldest four (get_free_ip_index (first_choice four) "02:00:00:00:00:02" four).1
get_free_ip_index-IsOldest_example =
    get_free_ip_index-IsOldest four (first_choice four) "02:00:00:00:00:02" four-IsValid
      (first_choice-IsChoice four) algorithm-four (rw length-four (omega arith))

abbrev visited : List ℕ
visited = 5 ∷ 7 ∷ 2 ∷ []

new_dhcp_pool-free_example : has 3 (new_dhcp_pool (λ i. 10 - i) 4 (pos 2)).free ≡ ltb 3 4
new_dhcp_pool-free_example = new_dhcp_pool-free (λ i. 10 - i) 4 (pos 2) 3
