-- ===== src/Archive/Fill/Stuck.antt =====
-- The loop that both readers share, when a round changes nothing.
use raas.Prelude.{ℕ, zero, suc, ◌≡◌, refl, true}
use raas.Archive.Fill.{Run, running, out_of_fuel, Progress, wants_more, fill}

-- A state that wants more, and whose round leads to such a state again.
pub record Repeats {E A : Type 0} (Q : Progress A → Type 0) (buf_len end total : ℕ) (s : Progress A)
    (r : Run E (Progress A)) : Type 0 where
  pub more : wants_more buf_len end total s ≡ true
  pub next : Progress A
  pub result : r ≡ running next
  pub again : Q next

pub fill-Repeats :
    {E A : Type 0} (Q : Progress A → Type 0) (buf_len end total : ℕ)
    (body : Progress A → Run E (Progress A))
    → ((s : Progress A) → Q s → Repeats Q buf_len end total s (body s))
    → (fuel : ℕ) (s : Progress A) → Q s
    → fill fuel buf_len end total body s ≡ out_of_fuel
unfolding fill
fill-Repeats Q buf_len end total body repeats zero s q = refl
fill-Repeats Q buf_len end total body repeats (suc fuel) s q =
    let r : Repeats Q buf_len end total s (body s) = repeats s q in
    rw (r.more, fill)
      (rw r.result (fill-Repeats Q buf_len end total body repeats fuel r.next r.again))
