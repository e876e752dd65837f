-- ===== src/BlockQueue/Tests.antt =====
-- block_queue at concrete inputs.
use Prim.Native.Nat.{ℕ}
use cpp_server.Prelude.{◌≡◌, refl, some, [], ◌∷◌, List, pos, negsuc, arith}
use cpp_server.BlockQueue.{BlockQueue, Op, pushes, takes, wakes, run, pop, take_next, step, push}
use cpp_server.BlockQueue.Refine.{Holds}
use cpp_server.BlockQueue.Wait.{Agrees, fifo_pop, pop-Agrees}

-- A queue of three that went round once: 8 and 9 are in it.
abbrev wrapped : BlockQueue ℕ
wrapped = record { array = 9 ∷ 7 ∷ 8 ∷ []; size = 2; max_size = 3; front = pos 1; back = pos 0 }

wrapped-Holds : Holds wrapped (8 ∷ 9 ∷ [])
wrapped-Holds = record {
  valid = record {
    room = omega arith;
    storage = omega arith;
    size_in = omega arith;
    front_in = omega arith;
    back_in = omega arith;
    used = λ _. omega arith;
    linked = refl;
  };
  counted = refl;
  window = (refl, (refl, tt));
}

abbrev hollow : BlockQueue ℕ
hollow = record { array = 0 ∷ 0 ∷ []; size = 0; max_size = 2; front = negsuc 0; back = negsuc 0 }

hollow-Holds : Holds hollow []
hollow-Holds = record {
  valid = record {
    room = omega arith;
    storage = omega arith;
    size_in = omega arith;
    front_in = tt;
    back_in = tt;
    used = λ h. absurd (omega arith);
    linked = refl;
  };
  counted = refl;
  window = tt;
}

abbrev script : List (Op ℕ)
script = pushes 1 ∷ pushes 2 ∷ takes ∷ takes ∷ pushes 3 ∷ []

-- A run through the end of the array.
run-script :
    run hollow script
    ≡ some (record hollow { array = 3 ∷ 2 ∷ []; size = 1; front = pos 1; back = pos 0 })
unfolding run step push take_next
run-script = refl

pop-Agrees_example :
    Agrees
      (pop
        (wakes [] ∷ wakes (pushes 4 ∷ takes ∷ []) ∷ wakes (pushes 5 ∷ pushes 6 ∷ []) ∷ [])
        hollow)
      (fifo_pop 2
        (wakes [] ∷ wakes (pushes 4 ∷ takes ∷ []) ∷ wakes (pushes 5 ∷ pushes 6 ∷ []) ∷ [])
        [])
pop-Agrees_example =
    pop-Agrees (wakes [] ∷ wakes (pushes 4 ∷ takes ∷ []) ∷ wakes (pushes 5 ∷ pushes 6 ∷ []) ∷ [])
      hollow-Holds

abbrev one_in : BlockQueue ℕ
one_in = record { array = 4 ∷ 0 ∷ []; size = 1; max_size = 2; front = negsuc 0; back = pos 0 }
