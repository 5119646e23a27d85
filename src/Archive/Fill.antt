-- ===== src/Archive/Fill.antt =====
-- The `while` loop that fills a read buffer, which src/archive/tar.rs and src/archive/zip.rs share
-- in shape: `while bytes_written < buf.len() && pos < end && pos < total_size { … }`.
-- The part of the buffer that is written is a list, so `bytes_written` is its length.
pub mod Laws
pub mod Stuck
use raas.Prelude.{ℕ, zero, suc, Bool, true, false, ◌&&◌, List, ltb, length}

-- How a piece of the program ends: in a state, with an error, by a panic (an index out of range),
-- or without a result because the fuel ran out.
pub data Run {ℓ} (E S : Type ℓ) : Type ℓ where
  running : S → Run E S
  failed : E → S → Run E S
  panicked : Run E S
  out_of_fuel : Run E S

abbrev pub and_then {ℓ} : {E S : Type ℓ} → Run E S → (S → Run E S) → Run E S
and_then (running s) k = k s
and_then (failed e s) k = failed e s
and_then panicked k = panicked
and_then out_of_fuel k = out_of_fuel

-- The local variables of the loop: `aux` is what the reader carries besides.
pub record Progress (A : Type 0) : Type 0 where
  pub aux : A
  pub out : List ℕ
  pub pos : ℕ

-- The test of the loop.
unfoldable pub wants_more : {A : Type 0} → ℕ → ℕ → ℕ → Progress A → Bool
wants_more buf_len end total s = ltb (length s.out) buf_len && (ltb s.pos end && ltb s.pos total)

unfoldable pub fill :
    {E A : Type 0}
    → ℕ
    → ℕ
    → ℕ
    → ℕ
    → (Progress A → Run E (Progress A))
    → Progress A
    → Run E (Progress A)
fill zero buf_len end total body s = out_of_fuel
fill (suc fuel) buf_len end total body s = elim (wants_more buf_len end total s) [
  | true ↦ and_then (body s) (fill fuel buf_len end total body)
  | false ↦ running s
]
