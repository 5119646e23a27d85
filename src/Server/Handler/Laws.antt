-- ===== src/Server/Handler/Laws.antt =====
-- src/server/handler.rs: what a download answers.
use raas.Prelude.{
  ◌<◌, ◌≡◌, refl, sym, ◌≢◌, Bool, true, false, Option, [], ◌∷◌, All, ◌=bytes=◌, inl, inr,
  Bool-cases, subst, arith,
}
use raas.Prelude.Words.{u64_mod}
use raas.Io.{Result, ok, err, ◌>>=◌}
use raas.Io.Paths.{FilePath}
use raas.Io.Text.{Text}
use raas.Archive.Format.{ArchiveFormat}
use raas.Server.Errors.{ArchiveApiError}
use raas.Server.Resolve.{Links, is_inside, resolve_and_validate_path}
use raas.Server.Resolve.Laws.{Means, resolve_and_validate_path-Means}
use raas.Server.Disposition.{build_content_disposition}
use raas.Server.Disposition.Laws.{IsPlain, IsPrintable, build_content_disposition-IsPrintable}
use raas.Server.Download.{Response, full, partial_content, range_not_satisfiable, respond}
use raas.Server.Download.Laws.{Agrees, respond-Agrees}
use raas.Server.Handler.{
  Query, Served, Built, built, Reply, requested_format, find_archive, file_name, range_text,
  populate_common_headers, finish, serve, download,
}

-- A predicate of a result, if there is one.
abbrev pub Ensures : {E A : Type 0} → (A → Type 0) → Result E A → Type 0
Ensures P (ok a) = P a
Ensures P (err e) = Unit

bind-Ensures :
    {E A B : Type 0} (P : A → Type 0) (Q : B → Type 0) (r : Result E A) (f : A → Result E B)
    → Ensures P r
    → ((a : A) → P a → Ensures Q (f a))
    → Ensures Q (r >>= f)
bind-Ensures P Q (ok a) f h k = k a h
bind-Ensures P Q (err e) f h k = tt

itself : {E A : Type 0} (r : Result E A) → Ensures (λ a. r ≡ ok a) r
itself (ok a) = refl
itself (err e) = tt

anything : {E A : Type 0} (r : Result E A) → Ensures (λ a. Unit {0}) r
anything (ok a) = tt
anything (err e) = tt

not_empty : (t : Text) → t ≢ [] → (t =bytes= []) ≡ false
not_empty [] n = absurd (n refl)
not_empty (c ∷ t) n = refl

module _ {B : Type 0} (header_takes : Text → Bool) where
  -- A reply with this response, whose file name could be a header.
  abbrev HasResponse : Text → ArchiveFormat → Response B → Reply B → Type 0
  HasResponse name format r reply = reply.response ≡ r

  finish-HasResponse :
      (name : Text) (format : ArchiveFormat) (r : Response B)
      → Ensures (HasResponse name format r) (finish header_takes name format r)
  unfolding finish populate_common_headers
  finish-HasResponse name format (full len b) =
      elim (Bool-cases (header_takes (build_content_disposition name))) [
        | inl takes ↦ rw takes refl
        | inr refuses ↦ rw refuses tt
      ]
  finish-HasResponse name format (partial_content len start last total b) =
      elim (Bool-cases (header_takes (build_content_disposition name))) [
        | inl takes ↦ rw takes refl
        | inr refuses ↦ rw refuses tt
      ]
  finish-HasResponse name format (range_not_satisfiable total) = refl

  subst-Ensures :
      (archive : Served B) (range : Option Text)
      → archive.total_size < u64_mod
      → (r : Result ArchiveApiError (Reply B))
      → Ensures (λ reply. reply.response ≡ respond archive.body range archive.total_size) r
      → Ensures (λ reply. Agrees archive.body archive.total_size reply.response) r
  subst-Ensures archive range small (ok reply) h =
      subst (Agrees archive.body archive.total_size) (sym h)
        (respond-Agrees archive.body archive.total_size range small)
  subst-Ensures archive range small (err e) h = tt

  module _ (links : Links) (data_root : FilePath) (lookup : FilePath → ArchiveFormat → Built B)
      (params : Query) (header : Option (Option Text)) where
    -- A reply that agrees with the archive of a file inside the root, in the requested format.
    pub record IsServed (reply : Reply B) : Type 0 where
      pub format : ArchiveFormat
      pub source : FilePath
      pub archive : Served B
      pub requested : requested_format params.format ≡ ok format
      pub resolved : resolve_and_validate_path links data_root params.path ≡ ok source
      pub inside : is_inside source data_root ≡ true
      pub found : lookup source format ≡ built archive
      pub agrees : Agrees archive.body archive.total_size reply.response

    found_built : (b : Built B) → Ensures (λ a. b ≡ built a) (find_archive b)
    unfolding find_archive
    found_built (built a) = refl
    found_built (Built.not_built message) = ground arith
    found_built Built.task_failed = tt

    serve-Agrees :
        (archive : Served B)
        → archive.total_size < u64_mod
        → Ensures
            (λ reply. Agrees archive.body archive.total_size reply.response)
            (serve header_takes params.path header archive)
    unfolding serve
    serve-Agrees archive small =
        bind-Ensures (λ range. Unit {0}) _ (range_text header) _ (anything (range_text header))
          λ range h.
            subst-Ensures archive range small
              (finish header_takes (file_name params.path archive.format) archive.format
                (respond archive.body range archive.total_size))
              (finish-HasResponse (file_name params.path archive.format) archive.format
                (respond archive.body range archive.total_size))

    found_all :
        (format : ArchiveFormat) (source : FilePath)
        → requested_format params.format ≡ ok format
        → resolve_and_validate_path links data_root params.path ≡ ok source
        → is_inside source data_root ≡ true
        → (archive : Served B) → lookup source format ≡ built archive
        → (r : Result ArchiveApiError (Reply B))
        → Ensures (λ reply. Agrees archive.body archive.total_size reply.response) r
        → Ensures IsServed r
    found_all format source q s i archive f (ok reply) h = record {
      format = format;
      source = source;
      archive = archive;
      requested = q;
      resolved = s;
      inside = i;
      found = f;
      agrees = h;
    }
    found_all format source q s i archive f (err e) h = tt

    resolved_inside :
        data_root ≢ []
        → (source : FilePath) → resolve_and_validate_path links data_root params.path ≡ ok source
        → is_inside source data_root ≡ true
    resolved_inside n source h =
        let m = resolve_and_validate_path-Means links data_root params.path n in
        (subst (Means links data_root params.path) h m).2

    pub download-IsServed :
        data_root ≢ []
        → ((source : FilePath) (format : ArchiveFormat) (archive : Served B)
            → lookup source format ≡ built archive
            → archive.total_size < u64_mod)
        → Ensures IsServed (download header_takes links data_root lookup params header)
    unfolding download
    download-IsServed n small = elim (Bool-cases (params.path =bytes= [])) [
      | inl missing ↦ rw missing tt
      | inr there ↦ rw there (
          bind-Ensures _ IsServed (requested_format params.format) _ (itself _) λ format q.
            bind-Ensures _ IsServed (resolve_and_validate_path links data_root params.path) _
              (itself _)
              λ source s.
                bind-Ensures _ IsServed (find_archive (lookup source format)) _
                  (found_built (lookup source format))
                  λ archive f.
                    found_all format source q s (resolved_inside n source s) archive f _
                      (serve-Agrees archive (small source format archive f)))
    ]

    finish-ok :
        (name : Text) (format : ArchiveFormat) (r : Response B)
        → header_takes (build_content_disposition name) ≡ true
        → (reply : Reply B) × (finish header_takes name format r ≡ ok reply) × (reply.response ≡ r)
    unfolding finish populate_common_headers
    finish-ok name format (full len b) h = rw h (_, refl, refl)
    finish-ok name format (partial_content len start last total b) h = rw h (_, refl, refl)
    finish-ok name format (range_not_satisfiable total) h = (_, refl, refl)

    -- A download with a path, a known format, a path that resolves, an archive that is found, a
    -- readable `Range` header or none and a file name of printable bytes is answered, with the
    -- response for its range, if header values of printable ASCII are accepted.
    pub download-answers :
        (format : ArchiveFormat) (source : FilePath) (archive : Served B) (range : Option Text)
        → params.path ≢ []
        → requested_format params.format ≡ ok format
        → resolve_and_validate_path links data_root params.path ≡ ok source
        → lookup source format ≡ built archive
        → range_text header ≡ ok range
        → ((t : Text) → All IsPrintable t → header_takes t ≡ true)
        → All IsPlain (file_name params.path archive.format)
        → (reply : Reply B) × (download header_takes links data_root lookup params header
            ≡ ok reply)
          × (reply.response ≡ respond archive.body range archive.total_size)
    unfolding download serve find_archive
    download-answers format source archive range n q s f t takes plain =
        let there : (params.path =bytes= []) ≡ false = not_empty params.path n in
        rw (there, q, s, f, t)
          (finish-ok (file_name params.path archive.format) archive.format
            (respond archive.body range archive.total_size)
            (takes _ (build_content_disposition-IsPrintable _ plain)))
