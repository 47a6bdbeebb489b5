-- ===== src/Clients/Wavefront/Serial.antt =====
-- `Serial::LCS` of examples/wavefront.h computes the length of a longest common subsequence.
use oox_kirkon_fork.Base.{
  ℕ, zero, suc, ◌+◌, ◌-◌, ◌≤◌, ◌<◌, ◌≡◌, refl, some, List, arith, length, ◌∙◌, sym, dec_lt,
}
use oox_kirkon_fork.Clients.Wavefront.{
  max_len, cell, Table, set_cell, fill_cell, fill_row, fill_rows, serial_lcs,
}
use oox_kirkon_fork.Clients.Wavefront.Subsequence.{lcs, Common, Common-le, lcs_attained}

module _ (x y : List ℕ) where
  -- The functor of a cell gives the length for its prefixes from those of the three cells before.
  pub cell-lcs :
      (i j : ℕ)
      → cell x y (suc i) (suc j) (lcs x y i j) (lcs x y (suc i) j) (lcs x y i (suc j))
        ≡ lcs x y (suc i) (suc j)
  unfolding cell lcs
  cell-lcs i j =
      let a : suc i - 1 ≡ i = omega arith in let b : suc j - 1 ≡ j = omega arith in rw (a, b) refl

  pub lcs_left : (i : ℕ) → lcs x y i 0 ≡ 0
  unfolding lcs
  lcs_left zero = refl
  lcs_left (suc i) = refl

  lcs_top : (j : ℕ) → lcs x y 0 j ≡ 0
  unfolding lcs
  lcs_top j = refl

  -- The rows below `i` are done, and the cells of row `i` below column `j`.
  record Filled (i j : ℕ) (F : Table) : Type 0 where
    rows : (a b : ℕ) → a < i → b ≤ length y → F a b ≡ lcs x y a b
    row : (b : ℕ) → b < j → F i b ≡ lcs x y i b
    left : (a : ℕ) → F a 0 ≡ 0

  fill_cell-Filled :
      (i j : ℕ) (F : Table)
      → i < max_len
      → j < max_len
      → j < length y
      → Filled (suc i) (suc j) F
      → (G : Table) × (fill_cell x y (suc i) (suc j) F ≡ some G) × Filled (suc i) (suc (suc j)) G
  unfolding fill_cell
  fill_cell-Filled i j F hi hj lt p =
      let a : suc i - 1 ≡ i = omega arith in
      let b : suc j - 1 ≡ j = omega arith in
      let v : cell x y (suc i) (suc j) (F i j) (F (suc i) j) (F i (suc j))
          ≡ lcs x y (suc i) (suc j) =
        rw
          (
            p.rows i j (omega arith) (omega arith),
            p.row j (omega arith),
            p.rows i (suc j) (omega arith) (omega arith),
          )
          (cell-lcs i j) in
      (
        set_cell F (suc i) (suc j) (lcs x y (suc i) (suc j)),
        rw (a, b, v) (ground arith),
        record {
          rows = λ c d lo hi. ground (arith, p.rows c d lo hi);
          row = λ d hi. ground (arith, p.row d);
          left = λ c. ground (arith, p.left c);
        },
      )

  fill_row-Filled :
      (r i j : ℕ) (F : Table)
      → i < max_len
      → length y ≤ max_len
      → j + r ≡ length y
      → Filled (suc i) (suc j) F
      → (G : Table) × (fill_row x y r (suc i) (suc j) F ≡ some G)
        × Filled (suc i) (suc (length y)) G
  unfolding fill_row
  fill_row-Filled zero i j F hi hy e p =
      let same : j ≡ length y = omega arith in (F, refl, rw (← same) p)
  fill_row-Filled (suc r) i j F hi hy e p =
      let (G, f, q) = fill_cell-Filled i j F hi (omega arith) (omega arith) p in
      let (H, g, s) = fill_row-Filled r i (suc j) G hi hy (omega arith) q in
      let next : suc j + 1 ≡ suc (suc j) = omega arith in
      (H, ground (arith, f, rw (← next) at g), s)

  next_row : {i : ℕ} {F : Table} → Filled (suc i) (suc (length y)) F → Filled (suc (suc i)) 1 F
  next_row {i} {F} p = record {
    rows = λ a b lo hi. elim (dec_lt a (suc i)) [
      | yes below ↦ p.rows a b below hi
      | no above ↦ let here : a ≡ suc i = omega arith in rw here (p.row b (omega arith))
    ];
    row = λ b hi.
        let first : b ≡ 0 = omega arith in
        rw first (p.left (suc (suc i)) ∙ sym (lcs_left (suc (suc i))));
    left = p.left;
  }

  fill_rows-Filled :
      (r i : ℕ) (F : Table)
      → i + r ≤ max_len
      → length y ≤ max_len
      → Filled (suc i) 1 F
      → (G : Table) × (fill_rows x y r (suc i) F ≡ some G) × Filled (suc (i + r)) 1 G
  unfolding fill_rows
  fill_rows-Filled zero i F hi hy p = let e : i + 0 ≡ i = omega arith in (F, refl, rw e p)
  fill_rows-Filled (suc r) i F hi hy p =
      let (G, f, q) = fill_row-Filled (length y) i 0 F (omega arith) hy (omega arith) p in
      let (H, g, s) = fill_rows-Filled r (suc i) G (omega arith) hy (next_row q) in
      let next : suc i + 1 ≡ suc (suc i) = omega arith in
      let total : i + suc r ≡ suc i + r = omega arith in
      (H, ground (arith, f, rw (← next) at g), rw total s)

  -- For strings of at most `MAX_LEN` characters, no access is out of bounds, and the result is the
  -- length of a common subsequence than which none is longer.
  pub serial_lcs-Common :
      length x ≤ max_len
      → length y ≤ max_len
      → (k : ℕ) × (serial_lcs x y ≡ some k)
        × Common x y (length x) (length y) k
        × ((l : ℕ) → Common x y (length x) (length y) l → l ≤ k)
  unfolding serial_lcs
  serial_lcs-Common hx hy =
      let started : Filled 1 1 (λ i j. 0) = record {
        rows = λ a b lo hi. let z : a ≡ 0 = omega arith in rw z (sym (lcs_top b));
        row = λ b hi. let z : b ≡ 0 = omega arith in rw z (sym (lcs_left 1));
        left = λ a. refl;
      } in
      let (F, f, p) = fill_rows-Filled (length x) 0 (λ i j. 0) (omega arith) hy started in
      let corner : F (length x) (length y) ≡ lcs x y (length x) (length y) =
        p.rows (length x) (length y) (omega arith) (omega arith) in
      (
        lcs x y (length x) (length y),
        ground arith,
        lcs_attained x y (length x) (length y),
        λ l c. Common-le x y c,
      )
