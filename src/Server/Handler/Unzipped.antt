-- ===== src/Server/Handler/Unzipped.antt =====
-- From a directory to what a client unpacks: the scan, the index, the bodies of the responses, and
-- a reader of the zip format.
use raas.Prelude.{
  ℕ, ◌+◌, ◌-◌, ◌≤◌, ◌<◌, ◌≡◌, ◌≢◌, ap, ap₂, ◌∙◌, Bool, true, false, some, List, ◌++◌, map, length,
  get_elem?, arith,
}
use raas.Prelude.Slices.{slice, take-append, take-all, length-slice}
use raas.Prelude.Words.{u64_mod}
use raas.Io.{Disk, ok}
use raas.Io.Paths.{FilePath}
use raas.Archive.Fill.{running}
use raas.Archive.Scanner.{ScannedEntry}
use raas.Archive.Zip.Index.{build}
use raas.Archive.Zip.Index.Layout.{local_bound, central_bound}
use raas.Archive.Zip.Image.{IsBacked, image}
use raas.Archive.Zip.Image.Build.{fresh}
use raas.Archive.Zip.Served.{made-IsZipLayout}
use raas.Archive.Zip.Unzip.{unzip, unzip_verified}
use raas.Archive.Zip.Unzip.Built.{
  IsPackable, content_of, unpacked, given, unzip-build, unzip_verified-unzip,
}
use raas.Server.Stream.Laws.{joined}
use raas.Server.Handler.{Served}
use raas.Server.Handler.Bytes.{Body, StandsFor, Sends, zip_served, zip_served-StandsFor}

module _ (disk : Disk) (accepts : ℕ → Bool) (buffer_size : ℕ) where
  -- A body that ends without an error and has sent these bytes.
  pub record HasSent (bytes : List ℕ) (body : Body) : Type 0 where
    pub chunks : List (List ℕ)
    pub whole : joined chunks ≡ bytes
    pub answer :
        body
        ≡ running
            (record { items = map ok chunks; sent_bytes = length bytes; aborted_by_client = false })

  Sends-HasSent :
      (bytes : List ℕ) (start end : ℕ) (body : Body)
      → ((k : ℕ) → accepts k ≡ true)
      → start ≤ end
      → end ≤ length bytes
      → Sends disk accepts buffer_size bytes start end body
      → HasSent (slice start (end - start) bytes) body
  Sends-HasSent bytes start end body stays ordered inside d =
      let there : d.aborted ≡ false = d.stays stays in
      let all : d.count ≡ end - start = d.complete there in
      let len : length (slice start (end - start) bytes) ≡ end - start =
        length-slice start (end - start) bytes (omega (arith, ordered, inside)) in
      record {
        chunks = d.chunks;
        whole = d.joined_lem ∙ ap (λ n. slice start n bytes) all;
        answer =
            d.answer
            ∙ ap₂
                (λ n b.
                  running
                    (record { items = map ok d.chunks; sent_bytes = n; aborted_by_client = b }))
                {x = 0 + d.count} (omega (arith, all, len)) there;
      }

  -- The bodies of two responses that meet, and what the client unpacks.
  pub record Resumes (archive : Served Body) (middle : ℕ) (bytes : List ℕ) : Type 0 where
    pub first : List ℕ
    pub second : List ℕ
    pub first_sent : HasSent first (archive.body 0 middle)
    pub second_sent : HasSent second (archive.body middle archive.total_size)
    pub together : first ++ second ≡ bytes

  pub StandsFor-Resumes :
      (archive : Served Body) (middle : ℕ) (bytes : List ℕ)
      → ((k : ℕ) → accepts k ≡ true)
      → middle ≤ archive.total_size
      → StandsFor disk accepts buffer_size archive bytes
      → Resumes archive middle bytes
  StandsFor-Resumes archive middle bytes stays inside s =
      let total : ℕ = archive.total_size in
      record {
        first = slice 0 (middle - 0) bytes;
        second = slice middle (total - middle) bytes;
        first_sent =
            Sends-HasSent bytes 0 middle (archive.body 0 middle) stays (omega arith)
              (omega (arith, inside, s.sized)) (s.sends 0 middle inside);
        second_sent =
            Sends-HasSent bytes middle total (archive.body middle total) stays inside
              (omega (arith, s.sized)) (s.sends middle total (omega arith));
        together =
            ap (λ n. slice 0 n bytes ++ slice middle (total - middle) bytes) {y = middle}
              (omega arith)
            ∙ take-append middle (total - middle) bytes
            ∙ take-all (middle + (total - middle)) bytes (omega (arith, inside, s.sized));
      }

  -- For a scan whose zip archive fits in 64 bits, with the files there and as long as scanned,
  -- names of less than 2^16 bytes, no bytes behind a directory and a number of items other than
  -- 65535, to a client that stays: the body for the first bytes of the archive, however many, and
  -- the body for the others both end without an error, and what they send, put together, is read
  -- by an independent reader of the zip format that compares no checksum with the data as exactly
  -- the items of the scan in order, with their names, the bytes of their files and 0 as the
  -- checksum recorded for each in both headers; and a reader that compares them, by any checksum,
  -- gives the bytes of exactly the items whose checksum is 0, and nothing for each of the others.
  pub zip_served-unzip :
      (held : FilePath → List ℕ) (scanned : List ScannedEntry)
      → local_bound (fresh scanned) + central_bound (fresh scanned) + 98 < u64_mod
      → IsBacked (content_of held) disk (build scanned)
      → ((i : ℕ) (s : ScannedEntry) → get_elem? scanned i ≡ some s → IsPackable held s)
      → length scanned ≢ 0xffff
      → ((k : ℕ) → accepts k ≡ true)
      → (middle : ℕ) → middle ≤ (build scanned).total_size
      → (sum : List ℕ → ℕ)
      → (bytes : List ℕ) × Resumes
          (zip_served disk accepts buffer_size (build scanned))
          middle
          bytes
        × (unzip bytes ≡ some (map (unpacked held) scanned))
        × (unzip_verified sum bytes ≡ some (map (given held sum) scanned))
  unfolding zip_served
  zip_served-unzip held scanned fits backed packable count stays middle inside sum =
      let read = unzip-build held scanned fits packable count in
      (
        image (content_of held) (build scanned),
        StandsFor-Resumes (zip_served disk accepts buffer_size (build scanned)) middle
            (image (content_of held) (build scanned)) stays inside
            (zip_served-StandsFor disk accepts buffer_size (build scanned) (content_of held)
              (made-IsZipLayout disk scanned (content_of held) fits backed) backed),
        read,
        unzip_verified-unzip held sum _ scanned read,
      )
