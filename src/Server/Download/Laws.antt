-- ===== src/Server/Download/Laws.antt =====
-- src/server/handler.rs: the headers of a response and its body.
use raas.Prelude.{ℕ, ◌+◌, ◌-◌, ◌≤◌, ◌<◌, ◌≡◌, refl, ap, ◌∙◌, Option, none, some, arith}
use raas.Prelude.Words.{sub64, add64_exact, sub64_exact, u64_mod}
use raas.Io.{ok, err}
use raas.Io.Text.{Text}
use raas.Server.Range.{ParsedRange, malformed, unsatisfiable, parse_range_header}
use raas.Server.Range.Bounds.{InResource, parse_range_header-InResource}
use raas.Server.Download.{
  Response, full, partial_content, range_not_satisfiable, parsed_range, respond_to, respond,
}

module _ {B : Type 0} (body : ℕ → ℕ → B) (total : ℕ) where
  -- A response whose length is that of the range that its body streams, inside the resource, and
  -- whose `Content-Range` names the same range and size.
  abbrev pub Agrees : Response B → Type 0
  Agrees (full len b) = (len ≡ total) × (b ≡ body 0 total)
  Agrees (partial_content len start last size b) =
      (start ≤ last)
      × (last < total)
      × (size ≡ total)
      × (len ≡ last + 1 - start)
      × (b ≡ body start (start + len))
  Agrees (range_not_satisfiable size) = size ≡ total

  respond_to-Agrees :
      (parsed : ParsedRange)
      → total < u64_mod
      → InResource total parsed
      → Agrees (respond_to body total parsed)
  unfolding respond_to
  respond_to-Agrees (ok (some (start, last))) small inside =
      let e = add64_exact last 1 (omega (arith, inside.0, inside.1)) in
      let l : sub64 (last + 1) 1 ≡ last =
        sub64_exact (last + 1) 1 (omega arith) (omega (arith, inside.1)) ∙ omega arith in
      let n = sub64_exact (last + 1) start (omega (arith, inside.0)) (omega (arith, inside.1)) in
      rw e (rw (l, n) (inside.0, inside.1, refl, refl, ap (body start) (omega (arith, inside.0))))
  respond_to-Agrees (ok none) small inside = (refl, refl)
  respond_to-Agrees (err malformed) small inside = (refl, refl)
  respond_to-Agrees (err unsatisfiable) small inside = refl

  -- With any `Range` header or none, and a resource below 2^64 bytes, the response's headers
  -- agree with its body: 200 has the whole resource, 206 a non-empty range inside it with the
  -- `Content-Length` and `Content-Range` of the range that the body streams, and 416 names the
  -- size.
  pub respond-Agrees : (range : Option Text) → total < u64_mod → Agrees (respond body range total)
  unfolding respond parsed_range respond_to
  respond-Agrees none small = (refl, refl)
  respond-Agrees (some raw) small =
      respond_to-Agrees (parse_range_header raw total) small
        (parse_range_header-InResource raw total)
