-- ===== src/Storage/Index.antt =====
-- src/index_stream.rs: the bisections of `IndexReader`, which read the index in blocks. An index is
-- the list of its values; `x & !(block_length - 1)` is `x / block_length * block_length`.
pub mod Bisect
pub mod Counts
use packetry.Base.{
  ℕ, zero, suc, ◌+◌, ◌-◌, ◌*◌, ◌/◌, ◌≤◌, ◌<◌, Bool, true, false, not, List, [], ◌∷◌, min, ltb, leb,
  ◌==◌, if◌then◌else◌, length, get_or, Result, ok, err, panic, hang, ◌>>=◌,
}
use packetry.Usb.Validate.{slice}

-- What differs between the two directions: which values stand before the position that is sought,
-- and the next midpoint in what is left before or behind a block, where the first may underflow: a
-- block may begin before the start of a range.
pub record Direction : Type 0 where
  pub before : ℕ → Bool
  pub underflows : (search_start block_start : ℕ) → Bool
  pub lower_half : (search_start block_start : ℕ) → ℕ
  pub upper_half : (block_end search_end : ℕ) → ℕ

abbrev pub left : (value : ℕ) → Direction
left value = record {
  before = λ x. ltb x value;
  underflows = λ s b. false;
  lower_half = λ s b. (s + b) / 2;
  upper_half = λ b e. (b + e) / 2;
}

abbrev pub right : (value : ℕ) → Direction
right value = record {
  before = λ x. leb x value;
  underflows = λ s b. ltb b s;
  lower_half = λ s b. b - (b - s) / 2;
  upper_half = λ b e. b + (e - b) / 2;
}

-- The inner `while`, over the values of a block.
pub bisect_block : (fuel : ℕ) → Direction → List ℕ → (lower upper : ℕ) → Result ℕ
bisect_block zero dir values lower upper = hang
bisect_block (suc fuel) dir values lower upper =
    let midpoint = (lower + upper) / 2 in
    let above = bisect_block fuel dir values (midpoint + 1) upper in
    let below = bisect_block fuel dir values lower midpoint in
    if ltb lower upper
    then (if dir.before (get_or values midpoint 0) then above else below)
    else ok lower

module _ (block_length : ℕ) where
  -- The outer `loop`. An empty block panics: `last` underflows, or its value is out of bounds.
  unfoldable pub bisect_loop :
      (fuel : ℕ) → Direction → List ℕ → (search_start search_end midpoint : ℕ) → Result ℕ
  unfolding bisect_block
  bisect_loop zero dir index search_start search_end midpoint = hang
  bisect_loop (suc fuel) dir index search_start search_end midpoint =
      let block_start = midpoint / block_length * block_length in
      let block_end = min (block_start + block_length) search_end in
      let values = slice index block_start block_end in
      let down =
        bisect_loop fuel dir index search_start block_start
          (dir.lower_half search_start block_start) in
      let up =
        bisect_loop fuel dir index block_end search_end (dir.upper_half block_end search_end) in
      if ltb (length index) block_end
      then err
      else if leb block_end block_start
      then panic
      else if not (dir.before (get_or values 0 0))
      then (if block_start == search_start
          then ok search_start
          else if dir.underflows search_start block_start
          then panic
          else down)
      else if dir.before (get_or values (block_end - block_start - 1) 0)
      then (if block_end == search_end then ok search_end else up)
      else (bisect_block (suc (length values)) dir values 0 (length values) >>= λ lower_bound.
          ok (block_start + lower_bound))

  -- `search_length` underflows for a range that ends before it starts: a panic.
  -- `bisect_range_left` and `bisect_range_right`
  pub bisect_range_left : List ℕ → (start end value : ℕ) → Result ℕ
  bisect_range_left index start end value =
      if ltb end start
      then panic
      else if end == start
      then ok start
      else bisect_loop (suc end) (left value) index start end ((start + end) / 2)

  pub bisect_range_right : List ℕ → (start end value : ℕ) → Result ℕ
  bisect_range_right index start end value =
      if ltb end start
      then panic
      else if end == start
      then ok start
      else bisect_loop (suc end) (right value) index start end (start + (end - start) / 2)

  -- `bisect_left` and `bisect_right`
  pub bisect_left : List ℕ → (value : ℕ) → Result ℕ
  unfolding bisect_range_left
  bisect_left index value = bisect_range_left index 0 (length index) value

  unfoldable pub bisect_right : List ℕ → (value : ℕ) → Result ℕ
  unfolding bisect_range_right
  bisect_right index value = bisect_range_right index 0 (length index) value
