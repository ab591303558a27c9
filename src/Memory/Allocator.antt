-- ===== src/Memory/Allocator.antt =====
-- src/libwebvtt/alloc.c: the allocator that all objects come from: which functions it calls, and how many
-- objects it has given out. The functions are the caller's, or malloc and free; what they answer is
-- an argument here. The counter is a 32-bit number.
use webvtt.Base.{
  ℕ, ◌+◌, ◌-◌, ◌%◌, ◌^◌, ◌<◌, ◌≡◌, Bool, true, false, ◌&&◌, not, Option, none, some, arith, ◌==◌,
  if◌then◌else◌,
}

same_count : (n : ℕ) → n + 1 < 2 ^ 32 → (n + 1) % 2 ^ 32 ≡ n + 1
same_count n few = omega arith

-- `alloc`, `free` and `alloc_data`; the fields are none for `default_alloc`, `default_free` and 0.
pub record Allocator (Alloc Free UserData : Type 0) : Type 0 where
  pub n_alloc : ℕ
  pub alloc : Option Alloc
  pub free : Option Free
  pub alloc_data : Option UserData

module _ {Alloc Free UserData : Type 0} where
  choose_functions :
      Option Alloc
      → Option Free
      → UserData
      → Allocator Alloc Free UserData
      → Allocator Alloc Free UserData
  choose_functions (some a) (some f) userdata s = record s {
    alloc = some a;
    free = some f;
    alloc_data = some userdata;
  }
  choose_functions none none userdata s = record s { alloc = none; free = none; alloc_data = none }
  choose_functions (some a) none userdata s = s
  choose_functions none (some f) userdata s = s

  unfoldable pub set_allocator :
      Option Alloc
      → Option Free
      → UserData
      → Allocator Alloc Free UserData
      → Allocator Alloc Free UserData
  unfolding choose_functions
  set_allocator a f userdata s = if s.n_alloc == 0 then choose_functions a f userdata s else s

  -- `webvtt_alloc` and `webvtt_alloc0`; `ret` is that the function gave memory.
  unfoldable pub alloc_object : Bool → Allocator Alloc Free UserData → Allocator Alloc Free UserData
  alloc_object ret s = if ret then record s { n_alloc = (s.n_alloc + 1) % 2 ^ 32 } else s

  -- `webvtt_free`, of a pointer that is there or null; whether the memory is given back.
  unfoldable pub free_object :
      Bool → Allocator Alloc Free UserData → Allocator Alloc Free UserData × Bool
  free_object given s =
      if given && not (s.n_alloc == 0)
      then (record s { n_alloc = s.n_alloc - 1 }, true)
      else (s, false)

  -- What an object was allocated by is not replaced while the object is there: it is still the
  -- allocator when the object is freed, and then may be replaced.
  pub free_object-set_allocator-alloc_object :
      (a : Option Alloc) (f : Option Free) (userdata : UserData) (s : Allocator Alloc Free UserData)
      → s.n_alloc + 1 < 2 ^ 32
      → free_object true (set_allocator a f userdata (alloc_object true s)) ≡ (s, true)
  unfolding set_allocator alloc_object free_object
  free_object-set_allocator-alloc_object a f userdata s few =
      ground (arith, same_count s.n_alloc few)
