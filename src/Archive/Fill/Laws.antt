-- ===== src/Archive/Fill/Laws.antt =====
-- A body that always appends some of the next bytes of an image fills the buffer from the image.
use raas.Prelude.{
  ℕ, zero, suc, ◌+◌, ◌-◌, ◌≤◌, ◌<◌, min, ◌≡◌, ap, sym, ◌∙◌, true, false, List, ◌++◌, length,
  length-append, append_assoc, append-nil, inl, inr, Bool-cases, arith,
}
use native.Mathlib.Nat.{add-zero, add_assoc}
use raas.Prelude.Slices.{slice, length-slice, slice-append}
use raas.Archive.Fill.{Run, running, Progress, wants_more, fill}

-- `s` with the `count` bytes of `image` from `s.pos` on written behind what it has.
abbrev pub after : {A : Type 0} → List ℕ → Progress A → A → ℕ → Progress A
after image s aux' count = record {
  aux = aux';
  out = s.out ++ slice s.pos count image;
  pos = s.pos + count;
}

after-none : {A : Type 0} (image : List ℕ) (s : Progress A) → after image s s.aux 0 ≡ s
after-none image s i = record { aux = s.aux; out = append-nil s.out i; pos = add-zero s.pos i }

after-after :
    {A : Type 0} (image : List ℕ) (s : Progress A) (a b : A) (j k : ℕ)
    → after image (after image s a j) b k ≡ after image s b (j + k)
after-after image s a b j k i = record {
  aux = b;
  out =
      (append_assoc s.out (slice s.pos j image) (slice (s.pos + j) k image)
          ∙ ap (λ l. s.out ++ l) (slice-append s.pos j k image))
        i;
  pos = add_assoc s.pos j k i;
}

-- `r` continues `s` by the `count` bytes of `image` from `s.pos` on, and keeps `Inv`.
pub record Continues {E A : Type 0} (Inv : A → Type 0) (image : List ℕ) (s : Progress A)
    (r : Run E (Progress A)) (count : ℕ) : Type 0 where
  pub aux' : A
  pub keeps : Inv aux'
  pub result : r ≡ running (after image s aux' count)

-- One round: at least one byte, and not past the buffer, the range or the archive.
pub record Advances {E A : Type 0} (Inv : A → Type 0) (image : List ℕ) (buf_len end total : ℕ)
    (s : Progress A) (r : Run E (Progress A)) : Type 0 where
  pub count : ℕ
  pub some_bytes : 0 < count
  pub in_buffer : length s.out + count ≤ buf_len
  pub in_range : s.pos + count ≤ end
  pub in_archive : s.pos + count ≤ total
  pub step : Continues Inv image s r count

-- What is left to fill.
abbrev pub todo : ℕ → ℕ → ℕ → ℕ → ℕ → ℕ
todo buf_len end total len pos = min (buf_len - len) (min end total - pos)

module _ {E A : Type 0} (Inv : A → Type 0) (image : List ℕ) (buf_len end total : ℕ)
    (body : Progress A → Run E (Progress A)) (sized : total ≤ length image)
    (advances : (s : Progress A)
      → Inv s.aux
      → wants_more buf_len end total s ≡ true
      → Advances Inv image buf_len end total s (body s)) where
  stop :
      (s : Progress A)
      → wants_more buf_len end total s ≡ false
      → todo buf_len end total (length s.out) s.pos ≡ 0
  unfolding wants_more
  stop s h = ground arith

  fill_done :
      (fuel : ℕ) (s : Progress A)
      → wants_more buf_len end total s ≡ false
      → fill {E = E} (suc fuel) buf_len end total body s ≡ running s
  unfolding fill
  fill_done fuel s h = rw (h, fill)

  fill_more :
      (fuel : ℕ) (s s' : Progress A)
      → wants_more buf_len end total s ≡ true
      → body s ≡ running s'
      → fill (suc fuel) buf_len end total body s ≡ fill fuel buf_len end total body s'
  unfolding fill
  fill_more fuel s s' h e = rw (h, fill) (rw e)

  more-todo :
      (s : Progress A) (count : ℕ) (aux' : A)
      → length s.out + count ≤ buf_len
      → s.pos + count ≤ min end total
      → let s' : Progress A = after image s aux' count in
        (length s'.out ≡ length s.out + count)
        × (count + todo buf_len end total (length s'.out) s'.pos
            ≡ todo buf_len end total (length s.out) s.pos)
  more-todo s count aux' b r =
      let e = length-append s.out (slice s.pos count image) in
      let l = length-slice s.pos count image (omega arith) in (omega arith, omega arith)

  -- With fuel for each free byte of the buffer the loop ends, and has filled what it can.
  pub fill-Continues :
      (fuel : ℕ) (s : Progress A)
      → buf_len - length s.out < fuel
      → Inv s.aux
      → Continues Inv image s
          (fill fuel buf_len end total body s)
          (todo buf_len end total (length s.out) s.pos)
  fill-Continues zero s f inv = absurd (omega arith)
  fill-Continues (suc fuel) s f inv = elim (Bool-cases (wants_more buf_len end total s)) [
    | inr over ↦ rw (stop s over) (record {
      aux' = s.aux;
      keeps = inv;
      result = fill_done fuel s over ∙ ap running (sym (after-none image s));
    })
    | inl more ↦
        let a : Advances Inv image buf_len end total s (body s) = advances s inv more in
        let s' : Progress A = after image s a.step.aux' a.count in
        let t =
          more-todo s a.count a.step.aux' a.in_buffer (omega (arith, a.in_range, a.in_archive)) in
        let c = fill-Continues fuel s' (omega (arith, t.0, a.some_bytes)) a.step.keeps in
        record {
          aux' = c.aux';
          keeps = c.keeps;
          result =
              fill_more fuel s s' more a.step.result
              ∙ c.result
              ∙ ap running (
                  after-after image s a.step.aux' c.aux' a.count
                    (todo buf_len end total (length s'.out) s'.pos)
                  ∙ ap (after image s c.aux') t.1);
        }
  ]
