-- ===== src/Tests/Unzips.antt =====
-- The zip archive of a directory with a file, read back.
use raas.Prelude.{
  Bool, true, ◌≤◌, ℕ, zero, suc, ◌≡◌, refl, some, List, map, length, get_elem?, arith, subst,
}
use raas.Archive.Scanner.{ScannedEntry}
use raas.Archive.Zip.Index.{build}
use raas.Server.Handler.Bytes.{zip_served}
use raas.Server.Handler.Unzipped.{Resumes, zip_served-unzip}
use raas.Tests.Files.{disk}
use raas.Archive.Zip.Unzip.{unzip, unzip_verified}
use raas.Archive.Zip.Unzip.Built.{IsPackable, unpacked, given}
use raas.Tests.Tars.{directory, file, scan}
use raas.Tests.Zips.{small, held, backed, zip_inside}

are-IsPackable : (i : ℕ) (s : ScannedEntry) → get_elem? scan i ≡ some s → IsPackable held s
are-IsPackable zero s h =
    let same : directory ≡ s = cc in
    subst (IsPackable held) same (record { name_fits = omega arith; held_size = refl })
are-IsPackable (suc zero) s h =
    let same : file ≡ s = cc in
    subst (IsPackable held) same (record { name_fits = omega arith; held_size = refl })
are-IsPackable (suc (suc i)) s h = absurd (cc)

abbrev pub stays_there : ℕ → Bool
stays_there k = true

is_inside : 60 ≤ (build scan).total_size
is_inside = omega (arith, zip_inside)

resumed_example :
    (bytes : List ℕ) × Resumes disk stays_there 16
      (zip_served disk stays_there 16 (build scan))
      60
      bytes
    × (unzip bytes ≡ some (map (unpacked held) scan))
    × (unzip_verified length bytes ≡ some (map (given held length) scan))
resumed_example =
    zip_served-unzip disk stays_there 16 held scan small backed are-IsPackable (λ h. omega arith)
      (λ k. refl) 60 is_inside length
