-- ===== src/Memory/Program/Reach.antt =====
-- The operations of Program.antt one after the other, from the memory that holds the static objects.
use webvtt.Base.{zero, suc, ◌≡◌, refl, sym, ap, subst, ◌∙◌, arith, []}
use webvtt.Memory.Handles.{initial, statics}
use webvtt.Memory.Program.{Program, Operation, perform, IsLegal}
use webvtt.Memory.Program.Changes
use webvtt.Memory.Program.Operations
use webvtt.Memory.Program.Operations.{HasFew, Works}
use webvtt.Memory.Program.Pop.{pop-Works, init_node-Works}
use webvtt.Memory.Program.Steps.{IsSound}
use webvtt.Memory.Sums.{IsCounted, sum}
use webvtt.Parser.{Run, done, fault, too_long, out_of_fuel}

-- Only `empty_string` and `empty_node`.
abbrev pub start : Program
start = record { memory = initial; owners = [] }

-- What a program can get to.
pub data Reach : Program → Type 0 where
  here : Reach start
  next :
      (op : Operation) {s s' : Program}
      → Reach s
      → IsLegal op s
      → HasFew s
      → perform op s ≡ done s'
      → Reach s'

perform-Works : (op : Operation) (s : Program) → IsSound s → HasFew s → IsLegal op s → Works op s
perform-Works Operation.new_empty_string s sound few h =
    Operations.new_empty_string-Works s sound (omega arith)
perform-Works (Operation.new_string alloc) s sound few h =
    Operations.new_string-Works s sound (omega arith) alloc
perform-Works Operation.new_list s sound few h = Operations.new_list-Works s sound (omega arith)
perform-Works (Operation.new_timestamp_node p t) s sound few h =
    Operations.new_timestamp_node-Works s sound (omega arith) p t
perform-Works (Operation.new_text_node p text) s sound few h =
    Operations.new_text_node-Works s sound (omega arith) p text h
perform-Works (Operation.new_internal_node p k c a) s sound few h =
    Operations.new_internal_node-Works s sound (omega arith) p k c a h.0 h.1
perform-Works (Operation.new_lang_node p c l) s sound few h =
    Operations.new_lang_node-Works s sound (omega arith) p c l h.0 h.1
perform-Works Operation.new_head_node s sound few h =
    Operations.new_head_node-Works s sound (omega arith)
perform-Works Operation.new_cue s sound few h = Operations.new_cue-Works s sound (omega arith)
perform-Works (Operation.refer k a) s sound few h =
    Operations.refer-Works s sound (omega arith) k a h
perform-Works (Operation.drop k a) s sound few h = Changes.drop-Works s sound (omega arith) k a h
perform-Works (Operation.detach_string a) s sound few h =
    Changes.detach-Works s sound (omega arith) a h
perform-Works (Operation.push_string a x) s sound few h =
    Changes.push-Works s sound (omega arith) a x h.0 h.1
perform-Works (Operation.attach_child_node a x) s sound few h =
    Changes.attach-Works s sound (omega arith) a x h.0 h.1
perform-Works (Operation.pop_string a) s sound few h = pop-Works s a sound (omega arith) h
perform-Works (Operation.init_node_variable a) s sound few h =
    init_node-Works s a sound (omega arith) h

start-IsCounted : IsCounted statics initial
unfolding sum
start-IsCounted l zero = ground arith
start-IsCounted l (suc zero) = ground arith
start-IsCounted l (suc (suc c)) = ground arith

start-IsSound : IsSound start
unfolding sum
start-IsSound = record { counted = start-IsCounted; none_dead = refl }

run_value : Program → Run Program → Program
run_value d (done s) = s
run_value d fault = d
run_value d too_long = d
run_value d out_of_fuel = d

pub Reach-IsSound : {s : Program} → Reach s → IsSound s
unfolding run_value
Reach-IsSound here = start-IsSound
Reach-IsSound (next op {s} {s'} r legal few run) =
    let (t, ran, sound) = perform-Works op s (Reach-IsSound r) few legal in
    subst IsSound (ap (run_value t) (sym ran ∙ run)) sound

-- A program starts with the two static objects only and has so far used the library's operations that
-- create, copy, detach, fill, empty and release strings, lists, nodes and cues, each on objects that
-- one of its variables or one of the objects leads to, or on one that a variable leads to, where its
-- pointer is given up; arrays had room below a capacity of 2 ^ 28, new strings were below 2 ^ 31 bytes, inner nodes had an inner
-- kind, and no count was close to overflowing. The next such
-- operation, under the same conditions, ends without a fault, so nothing is used after it is freed or freed twice; each count is then the number
-- of the pointers to its object, in the variables and in the objects, and no object stays whose count
-- is zero.
pub Reach-Works : (op : Operation) (s : Program) → Reach s → IsLegal op s → HasFew s → Works op s
Reach-Works op s r legal few = perform-Works op s (Reach-IsSound r) few legal
