-- ===== src/Archive/Zip/Image/Segments.antt =====
-- The segments of an index tile the zip file.
use raas.Prelude.{
  ℕ, suc, ◌+◌, ◌<◌, ◌≡◌, refl, sym, ap, ap₂, ◌∙◌, some, List, [], ◌∷◌, ◌++◌, length, length-append,
  append-nil, get_elem?, ltb, inl, inr, Bool-cases, arith, if◌then◌else◌, subst,
}
use raas.Prelude.Words.{u64_mod, add64_exact}
use raas.Archive.Tiles.{concat, Tiles, Tiles-append, concat-append}
use raas.Archive.Zip.Index.{
  ZipEntry, ZipArchive, Segment, entry_segments, local_segments, central_segments,
}
use raas.Archive.Zip.Index.Layout.{
  IsLocalLaidOut, IsCentralLaidOut, local_span, local_spans, central_spans,
}
use raas.Archive.Zip.Records.{local_header_of, central_entry_of}
use raas.Archive.Zip.Records.Lengths.{length-local_header_of, length-central_entry_of}
use raas.Archive.Zip.Image.{start_of, data_part, directory_part, of_entry, segment_bytes}

module _ (content : ZipEntry → List ℕ) (z : ZipArchive) where
  abbrev pub bytes : Segment → List ℕ
  bytes = segment_bytes content z

  -- The entries from the `i`th on.
  abbrev pub LooksUp : ℕ → List ZipEntry → Type 0
  LooksUp i es = (j : ℕ) → get_elem? z.entries (i + j) ≡ get_elem? es j

  abbrev pub IsSized : List ZipEntry → Type 0
  IsSized es = (i : ℕ) (e : ZipEntry) → get_elem? es i ≡ some e → length (content e) ≡ e.size

  -- Each segment is as long as its bytes.
  abbrev pub Measured : List Segment → Type 0
  Measured [] = Unit
  Measured (s ∷ ss) = (s.len ≡ length (bytes s)) × Measured ss

  -- A run of segments from `base` on that makes up `part`.
  pub record Spans (base : ℕ) (part : List ℕ) (ss : List Segment) : Type 0 where
    pub tiles : Tiles start_of bytes base ss
    pub whole : concat start_of bytes ss ≡ part
    pub measured : Measured ss

  Measured-append : (xs ys : List Segment) → Measured xs → Measured ys → Measured (xs ++ ys)
  Measured-append [] ys m n = n
  Measured-append (x ∷ xs) ys m n = (m.0, Measured-append xs ys m.1 n)

  pub Spans-append :
      (base : ℕ) (p q : List ℕ) (xs ys : List Segment)
      → Spans base p xs
      → Spans (base + length p) q ys
      → Spans base (p ++ q) (xs ++ ys)
  Spans-append base p q xs ys a b = record {
    tiles =
        Tiles-append start_of bytes base xs ys a.tiles
          (subst (λ l. Tiles start_of bytes (base + length l) ys) (sym a.whole) b.tiles);
    whole = concat-append start_of bytes xs ys ∙ ap₂ ◌++◌ a.whole b.whole;
    measured = Measured-append xs ys a.measured b.measured;
  }

  first :
      (i : ℕ) (e : ZipEntry) (es : List ZipEntry)
      → LooksUp i (e ∷ es)
      → get_elem? z.entries i ≡ some e
  first i e es up = ap (get_elem? z.entries) {x = i} {y = i + 0} (omega arith) ∙ up 0

  rest_up : (i : ℕ) (e : ZipEntry) (es : List ZipEntry) → LooksUp i (e ∷ es) → LooksUp (suc i) es
  rest_up i e es up j =
      ap (get_elem? z.entries) {x = suc i + j} {y = i + suc j} (omega arith) ∙ up (suc j)

  pub one :
      (base : ℕ) (s : Segment) (part : List ℕ)
      → s.start ≡ base
      → bytes s ≡ part
      → s.len ≡ length part
      → Spans base part (s ∷ [])
  one base s part a b l = record {
    tiles = (a, tt);
    whole = append-nil (bytes s) ∙ b;
    measured = (l ∙ ap length (sym b), tt);
  }

  pub nothing : (base : ℕ) (part : List ℕ) → length part ≡ 0 → Spans base part []
  nothing base [] h = record { tiles = tt; whole = refl; measured = tt }
  nothing base (b ∷ bs) h = absurd (omega arith)

  entry_segments-Spans :
      (i : ℕ) (e : ZipEntry) (es : List ZipEntry)
      → LooksUp i (e ∷ es)
      → e.local_header_len ≡ 30 + length e.name_bytes + (if e.local_zip64 then 20 else 0)
      → length (content e) ≡ e.size
      → e.local_offset + local_span e < u64_mod
      → Spans e.local_offset (local_header_of e 0 ++ content e) (entry_segments i e)
  unfolding entry_segments
  entry_segments-Spans i e es up len sized fits =
      let at = first i e es up in
      let hlen = length-local_header_of e 0 in
      let start = add64_exact e.local_offset e.local_header_len (omega arith) in
      Spans-append e.local_offset (local_header_of e 0) (content e) (_ ∷ []) _
        (one e.local_offset _ (local_header_of e 0) refl
          (ap (of_entry content (λ e. local_header_of e 0)) at) (len ∙ sym hlen))
        (elim (Bool-cases (ltb 0 e.size)) [
          | inl full ↦ rw full (
              one _ _ (content e) (omega (arith, start, hlen)) (ap (of_entry content content) at)
                (sym sized))
          | inr empty ↦ rw empty (nothing _ (content e) (ground arith))
        ])

  pub local_segments-Spans :
      (i base : ℕ) (es : List ZipEntry)
      → LooksUp i es
      → IsLocalLaidOut base es
      → IsSized es
      → base + local_spans es < u64_mod
      → Spans base (data_part content es) (local_segments i es)
        × (length (data_part content es) ≡ local_spans es)
  unfolding local_segments
  local_segments-Spans i base [] up laid sized fits =
      (record { tiles = tt; whole = refl; measured = tt }, refl)
  local_segments-Spans i base (e ∷ es) up laid sized fits =
      let s = sized 0 e refl in
      let a = length-append (local_header_of e 0) (content e) in
      let b = length-append (local_header_of e 0 ++ content e) (data_part content es) in
      let hlen = length-local_header_of e 0 in
      let here = entry_segments-Spans i e es up laid.2 s (omega (arith, laid.0)) in
      let whole : length (local_header_of e 0 ++ content e) ≡ local_span e =
        omega (arith, laid.2) in
      let more =
        local_segments-Spans (suc i) (base + local_span e) es (rest_up i e es up) laid.3
          (λ j. sized (suc j)) (omega arith) in
      (
        Spans-append base (local_header_of e 0 ++ content e) (data_part content es)
            (entry_segments i e) (local_segments (suc i) es)
            (subst (λ n. Spans n (local_header_of e 0 ++ content e) (entry_segments i e)) laid.0
              here)
            (subst (λ n. Spans (base + n) (data_part content es) (local_segments (suc i) es))
              (sym whole) more.0),
        omega (arith, more.1),
      )

  pub central_segments-Spans :
      (i base : ℕ) (es : List ZipEntry)
      → LooksUp i es
      → IsCentralLaidOut base es
      → Spans base (directory_part content es) (central_segments i es)
        × (length (directory_part content es) ≡ central_spans es)
  unfolding central_segments
  central_segments-Spans i base [] up laid =
      (record { tiles = tt; whole = refl; measured = tt }, refl)
  central_segments-Spans i base (e ∷ es) up laid =
      let at = first i e es up in
      let len : e.central_len ≡ length (central_entry_of e 0) =
        laid.3 ∙ sym (length-central_entry_of e 0) in
      let b = length-append (central_entry_of e 0) (directory_part content es) in
      let more =
        central_segments-Spans (suc i) (base + e.central_len) es (rest_up i e es up) laid.4 in
      (
        Spans-append base (central_entry_of e 0) (directory_part content es) (_ ∷ [])
            (central_segments (suc i) es)
            (one base _ (central_entry_of e 0) laid.0
              (ap (of_entry content (λ e. central_entry_of e 0)) at) len)
            (subst (λ n. Spans (base + n) (directory_part content es) (central_segments (suc i) es))
              len more.0),
        omega (arith, more.1),
      )
