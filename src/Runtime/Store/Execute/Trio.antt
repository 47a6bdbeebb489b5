-- ===== src/Runtime/Store/Execute/Trio.antt =====
-- Three tasks of oox/oox.h that share a variable, from `oox::run` to the release of their results.
use oox_kirkon_fork.Base.{ℕ, true, [], ◌∷◌}
use oox_kirkon_fork.Runtime.Store.{Cmd, ◌>>◌}
use oox_kirkon_fork.Runtime.Store.Vars.{var_release}
use oox_kirkon_fork.Runtime.Store.Execute.{value, reads, writes, run, returns, execute}

-- The order in which the results of the producer, the consumer and the writer are dropped.
pub data Order : Type 0 where
  pcw pwc cpw cwp wpc wcp : Order

-- A producer `t` with its result in `r`, a consumer `u` of that result with its own in `q`, and a task
-- `w` that writes the first, with its own in `p`.
unfoldable pub publish_all : ℕ → ℕ → ℕ → ℕ → ℕ → ℕ → ℕ → ℕ → Cmd (Unit {0})
unfolding run
publish_all f t r u q w p spare = do
  run f t r value []
  run f u q value (reads r spare ∷ [])
  run f w p value (writes r spare ∷ [])

unfoldable pub execute_all : ℕ → ℕ → ℕ → ℕ → Cmd (Unit {0})
unfolding execute
execute_all f t u w = do
  execute f true t returns
  execute f true u returns
  execute f true w returns

unfoldable pub drop_all : ℕ → ℕ → ℕ → ℕ → Order → Cmd (Unit {0})
unfolding var_release
drop_all f r q p pcw = do var_release f r; var_release f q; var_release f p
drop_all f r q p pwc = do var_release f r; var_release f p; var_release f q
drop_all f r q p cpw = do var_release f q; var_release f r; var_release f p
drop_all f r q p cwp = do var_release f q; var_release f p; var_release f r
drop_all f r q p wpc = do var_release f p; var_release f r; var_release f q
drop_all f r q p wcp = do var_release f p; var_release f q; var_release f r

-- The three tasks, from the first to the last.
unfoldable pub whole_life : ℕ → ℕ → ℕ → ℕ → ℕ → ℕ → ℕ → ℕ → Order → Cmd (Unit {0})
unfolding publish_all execute_all drop_all
whole_life f t r u q w p spare order = do
  publish_all f t r u q w p spare
  execute_all f t u w
  drop_all f r q p order
