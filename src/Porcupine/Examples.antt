-- ===== src/Porcupine/Examples.antt =====
-- src/porcupine: the theorems at concrete inputs.
use mit_distributed_systems.Prelude.{
  List, Bool, false, replicate, zero, suc, ℕ, ◌+◌, ◌≡◌, refl, [], ◌∷◌, Option, none, some,
  minus_one, arith, ◌==◌, if◌then◌else◌,
}
use mit_distributed_systems.Porcupine.History.{
  Event, call_event, return_event, Entry, EntryKind, call_entry, return_entry, renumber,
  renumber_from,
}
use mit_distributed_systems.Porcupine.Bitset.{new_bitset, hash, popcnt, xor_all}
use mit_distributed_systems.Porcupine.Bits.{IsWide}
use mit_distributed_systems.Porcupine.Cache.{CacheEntry}
use mit_distributed_systems.Porcupine.Links.{Node, insert_before, make_links, lift, unlift}
use mit_distributed_systems.Porcupine.Restore.{IsBetween, InList, inner, unlift-lift}

abbrev called : ℕ → Event ℕ
called i = record { client_id = 0; kind = call_event; value = 3; id = i }

abbrev returned : ℕ → Event ℕ
returned i = record { client_id = 0; kind = return_event; value = 4; id = i }

renumber_test :
    renumber (called 7 ∷ called 2 ∷ returned 7 ∷ returned 2 ∷ [])
    ≡ called 0 ∷ called 1 ∷ returned 0 ∷ returned 1 ∷ []
unfolding renumber renumber_from
renumber_test = refl

abbrev entry : EntryKind → ℕ → Entry ℕ
entry k i = record { kind = k; value = 3; id = i; time = 0; client_id = 0 }

abbrev blank : Node ℕ
blank = record { value = none; matching = none; id = minus_one; next = none; prev = none }

-- Two operations that overlap, behind a head with the number 4.
abbrev linked : (ℕ → Node ℕ) × ((ℕ → Option ℕ) × Option ℕ)
linked =
    make_links (λ x. blank) 0
      (entry call_entry 0 ∷ entry call_entry 1 ∷ entry return_entry 0 ∷ entry return_entry 1 ∷ [])

abbrev with_head : ℕ → Node ℕ
with_head = insert_before linked.0 4 linked.1.1

abbrev rank : ℕ → ℕ
rank x = if x == 4 then 0 else x + 1

first_call : IsBetween with_head rank 4 0 1
unfolding make_links insert_before
first_call = record {
  to_prev = refl;
  to_next = refl;
  from_prev = refl;
  from_next = refl;
  prev_first = omega arith;
  next_last = omega arith;
}

first_return : InList with_head rank 2
unfolding make_links insert_before
first_return = inner 1 3 (record {
  to_prev = refl;
  to_next = refl;
  from_prev = refl;
  from_next = refl;
  prev_first = omega arith;
  next_last = omega arith;
})

unlift-lift_example :
    (s' : ℕ → Node ℕ) × (lift with_head 0 ≡ some s') × (unlift s' 0 ≡ some with_head)
unfolding make_links insert_before
unlift-lift_example = unlift-lift with_head rank 4 0 1 2 first_call refl (omega arith) first_return

abbrev one_word : List (List Bool)
one_word = new_bitset 10

one_word-IsWide : IsWide one_word
unfolding new_bitset
one_word-IsWide zero w h = ground arith
one_word-IsWide (suc i) w h = cc

hash_test : hash one_word ≡ replicate 64 false
unfolding hash popcnt xor_all new_bitset
hash_test = refl

abbrev visited : CacheEntry ℕ
visited = record { linearized = one_word; state = 5 }
