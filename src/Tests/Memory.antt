-- ===== src/Tests/Memory.antt =====
-- The theorems on counted references at concrete inputs, and runs of the operations on a small memory.
use webvtt.Base.{ℕ, zero, suc, ◌+◌, ◌<◌, ◌≡◌, refl, none, some, arith, List, [], ◌∷◌, ◌++◌}
use webvtt.Memory.{Memory, Block, Kind, string, stringlist, node, at, null, string_data, get, slots}
use webvtt.Memory.Handles.{
  initial, statics, empty_string, empty_node, push, add_reference, create_string, create_stringlist,
  create_head_node, create_internal_node, create_text_node, attach_node, copy, copy_string,
}
use webvtt.Memory.Program.{
  Program, Operation, perform, refer, drop, new_string, new_list, push_string, new_head_node,
  new_text_node, attach_child_node,
}
use webvtt.Memory.Program.Operations.{Works}
use webvtt.Memory.Program.Reach.{Reach, here, next, start, Reach-Works, Reach-IsSound}
use webvtt.Memory.Program.Rest.{Reach-freed}
use webvtt.Memory.Release.{
  release, release_string, drop_reference, release_stringlist, release_slots, release_slot,
  release_node, release_node_data,
}
use webvtt.Memory.Release.Total.{remaining, release-IsCounted}
use webvtt.Memory.Sums.{IsCounted, count, refs_at, dead, sum}
use webvtt.Memory.Token.{text, TokenObject, create_token, delete_token, members}
use webvtt.Memory.Token.RoundTrip.{delete_token-create_token}
use webvtt.StringList.{stringlist_push, attach_child}
use webvtt.Parser.{Run, done, ◌>>=◌}

-- A list is created, a string is created and pushed to it, and both are given up.
abbrev run_all : List Operation → Program → Run Program
run_all [] s = done s
run_all (op ∷ ops) s = perform op s >>= run_all ops

abbrev freed_memory : Memory
freed_memory = initial ++ none ∷ none ∷ []

list_test :
    run_all
      (new_list ∷ new_string 8 ∷ push_string 2 3 ∷ drop string 3 ∷ drop stringlist 2 ∷ [])
      start
    ≡ done (record { memory = freed_memory; owners = [] })
unfolding perform push release create_string create_stringlist stringlist_push sum release_string
    drop_reference release_stringlist release_slots release_slot
list_test = refl

-- A string with two pointers in variables, and one that has been given up.
abbrev two_pointers : Program
two_pointers = record {
  memory = initial ++ some (record { refs = 2; body = string_data 8 [] }) ∷ [];
  owners = at string 2 ∷ at string 2 ∷ [];
}

one_string : Reach (record {
  memory = initial ++ some (record { refs = 1; body = string_data 8 [] }) ∷ [];
  owners = at string 2 ∷ [];
})
unfolding perform create_string sum
one_string = next (new_string 8) here (omega arith) (omega arith) refl

two_strings : Reach two_pointers
unfolding perform sum add_reference
two_strings = next (refer string 2) one_string (omega arith) (omega arith) refl

two_pointers-IsCounted : IsCounted (at string 2 ∷ statics ++ at string 2 ∷ []) two_pointers.memory
two_pointers-IsCounted l c = let h = (Reach-IsSound two_strings).counted l c in omega (arith)

release-IsCounted_example :
    (b : Block) × (m' : Memory) × (get two_pointers.memory 2 ≡ some b)
    × (release 5 (at string 2) two_pointers.memory ≡ done m')
    × IsCounted (statics ++ at string 2 ∷ []) m'
    × (dead m' ≡ dead two_pointers.memory)
    × (get m' 2 ≡ remaining b)
release-IsCounted_example =
    release-IsCounted 5 string 2 two_pointers.memory (statics ++ at string 2 ∷ [])
      two_pointers-IsCounted (unfold sum in omega arith)

Reach-Works_example : Works (drop string 2) two_pointers
Reach-Works_example =
    Reach-Works (drop string 2) two_pointers two_strings (omega arith) (unfold sum in omega arith)

abbrev no_pointers : Program
no_pointers = record { memory = initial ++ none ∷ []; owners = [] }

no_pointers-Reach : Reach no_pointers
unfolding perform release release_string drop_reference sum
no_pointers-Reach = next (drop string 2) one_string (omega arith) (omega arith) refl

no_slots_left :
    (a : ℕ) {b : Block} (k : Kind) (c : ℕ)
    → get no_pointers.memory a ≡ some b
    → 0 < count k c (slots b.body)
    → 0 < 0
no_slots_left zero k c found pos = ground arith
no_slots_left (suc zero) k c found pos = ground arith
no_slots_left (suc (suc zero)) k c found pos = cc
no_slots_left (suc (suc (suc a))) k c found pos = cc

Reach-freed_example :
    ((a : ℕ) → 1 < a → get no_pointers.memory a ≡ none)
    × (refs_at string empty_string no_pointers.memory ≡ 1)
    × (refs_at node empty_node no_pointers.memory ≡ 1)
Reach-freed_example =
    Reach-freed no_pointers (λ _. 0) 1 no_pointers-Reach refl
      (record { bounded = λ a. omega arith; lowest = refl; lower = no_slots_left })

delete_token-create_token_example :
    (t : TokenObject) × (m1 : Memory) × (m2 : Memory) × (create_token null
        (text 2)
        two_pointers.memory
      ≡ done (t, m1))
    × ((k : Kind) (a : ℕ)
        → refs_at k a m1 ≡ refs_at k a two_pointers.memory + count k a (members t))
    × (delete_token 1 t m1 ≡ done m2)
    × ((x : ℕ) → get m2 x ≡ get two_pointers.memory x)
delete_token-create_token_example =
    delete_token-create_token 0 two_pointers null (text 2) two_strings (unfold sum in omega arith)
      (unfold sum in omega arith)

-- A head, a string of 8 bytes and a text node with it, which is attached; the last of the variables to
-- give up its pointer is the one with the head.
tree_test :
    run_all
      (new_head_node
        ∷ new_string 8
        ∷ new_text_node (at node 2) 3
        ∷ attach_child_node 2 4
        ∷ drop string 3
        ∷ drop node 4
        ∷ drop node 2
        ∷ [])
      start
    ≡ done (record { memory = initial ++ none ∷ none ∷ none ∷ []; owners = [] })
unfolding perform release create_head_node create_internal_node create_text_node attach_node
    attach_child create_string copy copy_string release_string drop_reference release_node
    release_node_data release_slots release_slot sum
tree_test = refl
