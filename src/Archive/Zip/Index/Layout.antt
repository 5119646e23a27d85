-- ===== src/Archive/Zip/Index/Layout.antt =====
-- The two passes of src/archive/zip.rs give each entry its place in the data and in the directory.
use raas.Prelude.{
  ℕ, ◌+◌, ◌≤◌, ◌<◌, ◌≡◌, refl, ap, Bool, Option, List, [], ◌∷◌, length, map, leb, ltb, inl, inr,
  Bool-cases, arith, if◌then◌else◌, subst,
}
use raas.Prelude.Words.{add64, add64_exact, u64_mod}
use raas.Io.Paths.{FilePath}
use raas.Archive.Zip.Index.{
  ZipEntry, is_large, place_local, layout_local, place_central, layout_central, u32_max,
}

-- What an entry takes in the data part and in the directory.
abbrev pub local_span : ZipEntry → ℕ
local_span e = e.local_header_len + e.size

abbrev pub local_spans : List ZipEntry → ℕ
local_spans [] = 0
local_spans (e ∷ es) = local_span e + local_spans es

abbrev pub central_spans : List ZipEntry → ℕ
central_spans [] = 0
central_spans (e ∷ es) = e.central_len + central_spans es

-- The length of the Zip64 data of a directory entry.
abbrev pub central_data_len : ZipEntry → ℕ
central_data_len e =
    (if e.central_size_zip64 then 16 else 0) + (if e.central_offset_zip64 then 8 else 0)

-- The local headers and data stand one behind the other, and the lengths are those of the records.
abbrev pub IsLocalLaidOut : ℕ → List ZipEntry → Type 0
IsLocalLaidOut base [] = Unit
IsLocalLaidOut base (e ∷ es) =
    (e.local_offset ≡ base)
    × (e.local_zip64 ≡ is_large e)
    × (e.local_header_len ≡ 30 + length e.name_bytes + (if e.local_zip64 then 20 else 0))
    × IsLocalLaidOut (base + local_span e) es

abbrev pub IsCentralLaidOut : ℕ → List ZipEntry → Type 0
IsCentralLaidOut base [] = Unit
IsCentralLaidOut base (e ∷ es) =
    (e.central_offset ≡ base)
    × (e.central_size_zip64 ≡ is_large e)
    × (e.central_offset_zip64 ≡ leb u32_max e.local_offset)
    × (e.central_len
        ≡ 46
          + length e.name_bytes
          + (if ltb 0 (central_data_len e) then 4 + central_data_len e else 0))
    × IsCentralLaidOut (base + e.central_len) es

-- What the passes leave alone.
abbrev pub core : ZipEntry → List ℕ × List ℕ × Option FilePath × ℕ × Bool
core e = (e.name, e.name_bytes, e.source_path, e.size, e.is_dir)

-- Bounds on what the entries take in the data part and in the directory.
abbrev pub local_bound : List ZipEntry → ℕ
local_bound [] = 0
local_bound (e ∷ es) = e.size + length e.name_bytes + 50 + local_bound es

abbrev pub central_bound : List ZipEntry → ℕ
central_bound [] = 0
central_bound (e ∷ es) = length e.name_bytes + 74 + central_bound es

-- The first pass from `pos` on.
pub record LocalPlaced (pos : ℕ) (es : List ZipEntry) (r : List ZipEntry × ℕ) : Type 0 where
  pub laid_out : IsLocalLaidOut pos r.0
  pub end : r.1 ≡ pos + local_spans r.0
  pub cores : map core r.0 ≡ map core es
  pub directory : central_bound r.0 ≡ central_bound es
  pub below : local_spans r.0 ≤ local_bound es

place_local_lem :
    (pos : ℕ) (e : ZipEntry)
    → length e.name_bytes + 50 < u64_mod
    → ((place_local pos e).local_zip64 ≡ is_large e)
      × ((place_local pos e).local_header_len
          ≡ 30 + length e.name_bytes + (if is_large e then 20 else 0))
unfolding place_local
place_local_lem pos e h = elim (Bool-cases (is_large e)) [
  | inl large ↦ rw large (
    refl,
    rw (add64_exact 30 (length e.name_bytes) (omega arith))
        (add64_exact (30 + length e.name_bytes) 20 (omega arith)),
  )
  | inr small ↦ rw small (
    refl,
    rw (add64_exact 30 (length e.name_bytes) (omega arith))
        (add64_exact (30 + length e.name_bytes) 0 (omega arith)),
  )
]

pub layout_local-LocalPlaced :
    (pos : ℕ) (es : List ZipEntry)
    → pos + local_bound es < u64_mod
    → LocalPlaced pos es (layout_local pos es)
unfolding layout_local place_local
layout_local-LocalPlaced pos [] h = record {
  laid_out = tt;
  end = omega arith;
  cores = refl;
  directory = refl;
  below = omega arith;
}
layout_local-LocalPlaced pos (e ∷ es) h =
    let e' : ZipEntry = place_local pos e in
    let l = place_local_lem pos e (omega arith) in
    let extra : (if is_large e then 20 else 0) ≤ 20 = ground arith in
    let inner : add64 e'.local_header_len e.size ≡ e'.local_header_len + e.size =
      add64_exact e'.local_header_len e.size (omega (arith, l.1)) in
    let next : add64 pos (add64 e'.local_header_len e.size) ≡ pos + (e'.local_header_len + e.size) =
      rw inner (add64_exact pos (e'.local_header_len + e.size) (omega (arith, l.1))) in
    let r : LocalPlaced (pos + (e'.local_header_len + e.size)) es
        (layout_local (add64 pos (add64 e'.local_header_len e.size)) es) =
      subst (λ n. LocalPlaced n es (layout_local (add64 pos (add64 e'.local_header_len e.size)) es))
        next
        (layout_local-LocalPlaced (add64 pos (add64 e'.local_header_len e.size)) es
          (omega (arith, next, l.1))) in
    record {
      laid_out = (refl, refl, l.1, r.laid_out);
      end = omega (arith, r.end);
      cores = ap (λ c. core e ∷ c) r.cores;
      directory = omega (arith, r.directory);
      below = omega (arith, r.below, l.1);
    }

-- The second pass from `cpos` on: it keeps the places that the first one gave.
pub record CentralPlaced (cpos : ℕ) (es : List ZipEntry) (r : List ZipEntry × ℕ) : Type 0 where
  pub laid_out : IsCentralLaidOut cpos r.0
  pub end : r.1 ≡ cpos + central_spans r.0
  pub cores : map core r.0 ≡ map core es
  pub keeps : (base : ℕ) → IsLocalLaidOut base es → IsLocalLaidOut base r.0
  pub same : local_spans r.0 ≡ local_spans es
  pub below : central_spans r.0 ≤ central_bound es

place_central_lem :
    (cpos : ℕ) (e : ZipEntry)
    → length e.name_bytes + 74 < u64_mod
    → (place_central cpos e).central_len
      ≡ 46
        + length e.name_bytes
        + (if ltb 0 (central_data_len (place_central cpos e))
            then 4 + central_data_len (place_central cpos e)
            else 0)
unfolding place_central
place_central_lem cpos e h =
    let n = length e.name_bytes in
    let a = add64_exact 46 n (omega arith) in
    elim (Bool-cases (is_large e)) [
      | inl large ↦ elim (Bool-cases (leb u32_max e.local_offset)) [
        | inl far ↦ rw (large, far) (rw a (add64_exact (46 + n) 28 (omega arith)))
        | inr near ↦ rw (large, near) (rw a (add64_exact (46 + n) 20 (omega arith)))
      ]
      | inr small ↦ elim (Bool-cases (leb u32_max e.local_offset)) [
        | inl far ↦ rw (small, far) (rw a (add64_exact (46 + n) 12 (omega arith)))
        | inr near ↦ rw (small, near) (rw a (add64_exact (46 + n) 0 (omega arith)))
      ]
    ]

central_data_len-le : (e : ZipEntry) → central_data_len e ≤ 24
central_data_len-le e = ground arith

central_len-le :
    (cpos : ℕ) (e : ZipEntry)
    → length e.name_bytes + 74 < u64_mod
    → (place_central cpos e).central_len ≤ length e.name_bytes + 74
central_len-le cpos e h =
    let d = central_data_len-le (place_central cpos e) in
    let l = place_central_lem cpos e h in
    let bound : (if ltb 0 (central_data_len (place_central cpos e))
          then 4 + central_data_len (place_central cpos e)
          else 0)
        ≤ 28 =
      ground arith in
    omega arith

entry_placed :
    (cpos : ℕ) (e : ZipEntry) (es : List ZipEntry) (rest : List ZipEntry × ℕ)
    → (place_central cpos e).central_len
      ≡ 46
        + length e.name_bytes
        + (if ltb 0 (central_data_len (place_central cpos e))
            then 4 + central_data_len (place_central cpos e)
            else 0)
    → (place_central cpos e).central_len ≤ length e.name_bytes + 74
    → CentralPlaced (cpos + (place_central cpos e).central_len) es rest
    → CentralPlaced cpos (e ∷ es) (place_central cpos e ∷ rest.0, rest.1)
unfolding place_central
entry_placed cpos e es rest l le r = record {
  laid_out = (refl, refl, refl, l, r.laid_out);
  end = omega (arith, r.end);
  cores = ap (λ c. core e ∷ c) r.cores;
  keeps = λ base h. (h.0, h.1, h.2, r.keeps _ h.3);
  same = omega (arith, r.same);
  below = omega (arith, r.below);
}

pub layout_central-CentralPlaced :
    (cpos : ℕ) (es : List ZipEntry)
    → cpos + central_bound es < u64_mod
    → CentralPlaced cpos es (layout_central cpos es)
unfolding layout_central
layout_central-CentralPlaced cpos [] h = record {
  laid_out = tt;
  end = omega arith;
  cores = refl;
  keeps = λ base l. l;
  same = refl;
  below = omega arith;
}
layout_central-CentralPlaced cpos (e ∷ es) h =
    let e' : ZipEntry = place_central cpos e in
    let l = place_central_lem cpos e (omega arith) in
    let le = central_len-le cpos e (omega arith) in
    let next : add64 cpos e'.central_len ≡ cpos + e'.central_len =
      add64_exact cpos e'.central_len (omega arith) in
    let r : CentralPlaced (cpos + e'.central_len) es
        (layout_central (add64 cpos e'.central_len) es) =
      subst (λ n. CentralPlaced n es (layout_central (add64 cpos e'.central_len) es)) next
        (layout_central-CentralPlaced (add64 cpos e'.central_len) es (omega (arith, next, le))) in
    entry_placed cpos e es (layout_central (add64 cpos e'.central_len) es) l le r
