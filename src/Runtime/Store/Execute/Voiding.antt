-- ===== src/Runtime/Store/Execute/Voiding.antt =====
-- The conversion of a variable of oox/oox.h into a `var<void>`. It releases the storage, and the copy
-- keeps the offset of the storage, by which it releases it again.
use oox_kirkon_fork.Base.{ℕ, suc, ◌≡◌, refl, ◌≢◌, ◌==◌, Bool, true, false, [], arith}
use oox_kirkon_fork.Runtime.Store.{Store, fault, assertion, Cmd, ◌>>◌}
use oox_kirkon_fork.Runtime.Store.Vars.{var_release, void_var}
use oox_kirkon_fork.Runtime.Store.Execute.{
  value, run, Outcome, returns, throws, returns_variable, execute,
}

-- A task without arguments whose result is converted before or after it is executed; then the result
-- is dropped.
pub convert_first : ℕ → ℕ → ℕ → ℕ → Bool → Outcome → Cmd (Unit {0})
unfolding run execute var_release void_var
convert_first f t r w can_throw o = do
  run f t r value []
  void_var f w r
  execute f can_throw t o
  var_release f w

pub convert_last : ℕ → ℕ → ℕ → ℕ → Bool → Outcome → Cmd (Unit {0})
unfolding run execute var_release void_var
convert_last f t r w can_throw o = do
  run f t r value []
  execute f can_throw t o
  void_var f w r
  var_release f w

-- Let the result of a task without arguments be converted into another variable, a `var<void>`, before
-- or after the execution of the task. When that variable is dropped, an assertion fails, whether the
-- functor returns or, if the task can throw, throws: the storage is released for the second time.
pub voided_result_fails :
    (s : Store) (f t r w : ℕ) (can_throw : Bool) (o : Outcome)
    → (r == w) ≡ false
    → (can_throw ≡ false → o ≢ throws)
    → (convert_first (suc (suc f)) t r w can_throw o s ≡ fault assertion)
      × (convert_last (suc (suc f)) t r w can_throw o s ≡ fault assertion)
unfolding convert_first convert_last
voided_result_fails s f t r w false returns ne calm = (ground arith, ground arith)
voided_result_fails s f t r w false (returns_variable v) ne calm = (ground arith, ground arith)
voided_result_fails s f t r w false throws ne calm = absurd (calm refl refl)
voided_result_fails s f t r w true returns ne calm = (ground arith, ground arith)
voided_result_fails s f t r w true throws ne calm = (ground arith, ground arith)
voided_result_fails s f t r w true (returns_variable v) ne calm = (ground arith, ground arith)
