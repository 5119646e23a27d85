-- ===== src/Archive/Tar/Reader/Locate.antt =====
-- `locate` finds the entry that covers a position.
use raas.Prelude.{
  ℕ, zero, suc, ◌+◌, ◌≤◌, ◌<◌, ◌≡◌, refl, ◌&&◌, Option, none, some, List, [], ◌∷◌, length,
  get_elem?, partition_point, partition_point-elem, leb, ltb, leb→le, ltb→lt, inl, inr, Bool-cases,
  Option-cases, arith, and_left, and_right,
}
use raas.Prelude.Words.{u64_mod, add64_exact}
use raas.Archive.Tar.Index.{TarEntry}
use raas.Archive.Tar.Reader.{item_end, starts_by, check_candidate, search_entry, locate}

-- Where an entry ends, if the archive is not too large.
pub item_end_exact :
    (e : TarEntry)
    → e.info.offset + length e.header + e.info.size < u64_mod
    → item_end e ≡ e.info.offset + length e.header + e.info.size
unfolding item_end
item_end_exact e h =
    rw (add64_exact e.info.offset (length e.header) (omega arith))
      (add64_exact (e.info.offset + length e.header) e.info.size h)

-- `Covers entries pos r`: an entry that is found covers `pos`.
abbrev pub Covers : List TarEntry → ℕ → Option ℕ × ℕ → Type 0
Covers entries pos (none, cursor) = Unit
Covers entries pos (some i, cursor) =
    (e : TarEntry) × (get_elem? entries i ≡ some e) × (e.info.offset ≤ pos) × (pos < item_end e)

check_candidate-Covers :
    (entries : List TarEntry) (cursor pos n : ℕ)
    → partition_point (starts_by pos) entries ≡ n
    → Covers entries pos (check_candidate entries cursor pos n)
unfolding check_candidate
check_candidate-Covers entries cursor pos zero p = tt
check_candidate-Covers entries cursor pos (suc index) p =
    let (e, h, st) = partition_point-elem (starts_by pos) entries index p in
    elim (Bool-cases (ltb pos (item_end e))) [
      | inl inside ↦ rw (h, check_candidate) (rw inside (e, h, leb→le _ _ st, ltb→lt _ _ inside))
      | inr outside ↦ rw (h, check_candidate) (rw outside tt)
    ]

search_entry-Covers :
    (entries : List TarEntry) (cursor pos : ℕ)
    → Covers entries pos (search_entry entries cursor pos)
unfolding search_entry
search_entry-Covers entries cursor pos = check_candidate-Covers entries cursor pos _ refl

-- Whatever the cursor and the entries, an entry that `locate` finds is one of the archive and its
-- header or content covers the position.
pub locate-Covers :
    (entries : List TarEntry) (cursor pos : ℕ) → Covers entries pos (locate entries cursor pos)
unfolding locate
locate-Covers [] cursor pos = tt
locate-Covers (x ∷ xs) cursor pos = elim (Option-cases (get_elem? (x ∷ xs) cursor)) [
  | inl past ↦ rw (past, locate) (search_entry-Covers (x ∷ xs) cursor pos)
  | inr (e, h) ↦ elim (Bool-cases (leb e.info.offset pos && ltb pos (item_end e))) [
    | inl hit ↦
        rw (h, locate)
          (rw hit (e, h, leb→le _ _ (and_left _ _ hit), ltb→lt _ _ (and_right _ _ hit)))
    | inr miss ↦ rw (h, locate) (rw miss (search_entry-Covers (x ∷ xs) cursor pos))
  ]
]

check_candidate-none :
    (entries : List TarEntry) (cursor pos i : ℕ) (e : TarEntry)
    → get_elem? entries i ≡ some e
    → (check_candidate entries cursor pos (suc i)).0 ≡ none
    → item_end e ≤ pos
unfolding check_candidate
check_candidate-none entries cursor pos i e h none' = ground arith

-- Where none is found, the last entry that starts by the position has ended before it.
pub locate-none :
    (entries : List TarEntry) (cursor pos i : ℕ) (e : TarEntry)
    → partition_point (starts_by pos) entries ≡ suc i
    → get_elem? entries i ≡ some e
    → (locate entries cursor pos).0 ≡ none
    → item_end e ≤ pos
unfolding locate search_entry
locate-none [] cursor pos i e p h n = absurd (omega arith)
locate-none (x ∷ xs) cursor pos i e p h n =
    check_candidate-none (x ∷ xs) cursor pos i e h (ground (arith, p))
