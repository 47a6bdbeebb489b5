-- ===== src/Examples/Readers.antt =====
-- The theorems on any number of readers of oox/oox.h for two of them, in a concrete memory.
use oox_kirkon_fork.Base.{
  ℕ, ◌+◌, ◌≡◌, refl, ◌==◌, if◌then◌else◌, List, [], ◌∷◌, ◌++◌, length, arith,
}
use oox_kirkon_fork.Runtime.Store.Execute.{returns, throws}
use oox_kirkon_fork.Runtime.Store.Execute.Lifecycle.{Ends}
use oox_kirkon_fork.Runtime.Store.Execute.Readers.{make_all, AreDifferent}
use oox_kirkon_fork.Runtime.Store.Execute.Between.{produced, consumed, readers_between}
use oox_kirkon_fork.Runtime.Store.Execute.Late.{
  late_readers, late_writer, late_consumed, late_order,
}
use oox_kirkon_fork.Runtime.Store.Execute.Apart.{rev_onto}
use oox_kirkon_fork.Examples.Tasks.{memory}

abbrev result_of : ℕ → ℕ
result_of u = u + 20

abbrev readers : List ℕ
readers = 11 ∷ 13 ∷ []

-- The second reader runs first.
abbrev order : List ℕ
order = 13 ∷ 11 ∷ []

readers-AreDifferent : AreDifferent 10 3 result_of readers 12
readers-AreDifferent = record {
  producer_apart = (refl, (refl, tt));
  next_apart = refl;
  writer_apart = (refl, (refl, tt));
  readers_apart = ((refl, tt), (tt, tt));
  results_apart = (refl, (refl, tt));
  last_apart = refl;
}

readers_between_example :
    Ends (make_all 7 10 3 result_of readers 12 99 memory) (λ e. e.spawned ≡ 10 ∷ [])
    × Ends
        (produced 7 10 3 result_of readers 12 99 returns memory)
        (λ e. e.spawned ≡ readers ++ 10 ∷ [])
    × Ends
        (consumed 7 10 3 result_of readers 12 99
          (λ u. if u == 11 then throws else returns)
          order
          memory)
        (λ e. e.spawned ≡ (
          if length order == length readers then 12 ∷ readers ++ 10 ∷ [] else readers ++ 10 ∷ []))
    × Ends (produced 7 10 3 result_of readers 12 99 throws memory) (λ e. e.spawned ≡ 12 ∷ 10 ∷ [])
readers_between_example =
    readers_between memory 5 10 3 result_of readers 12 99 (λ u. if u == 11 then throws else returns)
      order readers-AreDifferent (omega arith) (omega arith) ((refl, tt), (tt, tt))
      (refl, (refl, tt)) (omega arith)

abbrev second : List ℕ
second = 13 ∷ []

late_order_example :
    Ends
      (late_readers 7 10 3 result_of readers 99 returns memory)
      (λ e. e.spawned ≡ rev_onto readers (10 ∷ []))
    × Ends
        (late_writer 7 10 3 result_of readers 12 99 memory)
        (λ e. e.spawned ≡ rev_onto readers (10 ∷ []))
    × Ends (late_consumed 7 10 3 result_of readers 12 99 (λ u. throws) second memory) (λ e.
      e.spawned ≡ (
        if length second == length readers
        then 12 ∷ rev_onto readers (10 ∷ [])
        else rev_onto readers (10 ∷ [])))
    × Ends (late_readers 7 10 3 result_of readers 99 throws memory) (λ e. e.spawned ≡ 10 ∷ [])
late_order_example =
    late_order memory 5 10 3 result_of readers 12 99 (λ u. throws) second readers-AreDifferent
      (omega arith) (tt, tt) (refl, tt) (omega arith)
