-- ===== src/Server/Pages/Shown.antt =====
-- What the pages show of the table (crates/mirum-server/src/daemon.rs).
use Prim.Native.Char.{Char, code}
use mathlib.Core.Option
use mirum.Base.{
  ℕ, zero, suc, ◌≤◌, String, ◌<>◌, ◌≡◌, refl, ap, ◌∙◌, true, false, Option, none, some, List, [],
  ◌∷◌, All, all, length, take, arith, and_iff, ◌==◌, leb, if◌then◌else◌,
}
use mirum.Base.Text.{codes}
use mirum.Base.Decimal.{decimal}
use mirum.Server.Types.{Build, Crates}
use mirum.Server.Table.{Table, rows_below, recent_builds}
use mirum.Server.Lowercase.{is_lower_hexdigit}
use mirum.Server.Pages.{
  Item, Page, no_builds, builds, page, slice_to, width, item, items, cons, rows_page, index,
  status_text,
}
use mirum.Server.System.{System, Reach}
use mirum.Server.System.Invariant.{IsBuild}
use mirum.Server.System.Preserved.{Reach-Inv}

cut_first :
    (c : Char) (w m : ℕ) (o : Option String) {r : String}
    → w ≡ 1
    → 1 ≤ m
    → o ≡ some r
    → (if m == 0 then some "" else if leb w m then Option.map (String.◌∷◌ c) o else none)
      ≡ some (String.◌∷◌ c r)
cut_first c w m o one h e =
    ap (λ b. if b then some "" else if leb w m then Option.map (String.◌∷◌ c) o else none) not_zero
    ∙ ap (λ b. if b then Option.map (String.◌∷◌ c) o else none) fits
    ∙ ap (Option.map (String.◌∷◌ c)) e
  where
    not_zero : (m == 0) ≡ false
    not_zero = ground (arith, h)

    fits : leb w m ≡ true
    fits = ground (arith, h, one)

-- The first characters of a text of ASCII are cut where they end.
slice_to-ascii :
    (n : ℕ) (s : String)
    → all is_lower_hexdigit (codes s) ≡ true
    → n ≤ length (codes s)
    → (r : String) × (slice_to n s ≡ some r) × (codes r ≡ take n (codes s))
unfolding slice_to
slice_to-ascii zero String.[] d h = ("", refl, refl)
slice_to-ascii (suc n) String.[] d h = absurd (omega (arith, h))
slice_to-ascii zero (String.◌∷◌ c s) d h = ("", refl, refl)
slice_to-ascii (suc n) (String.◌∷◌ c s) d h =
    let both = (and_iff (is_lower_hexdigit (code c)) _).0 d in
    let one : width (code c) ≡ 1 = ground (arith, both.0) in
    let (r, cut, same) = slice_to-ascii n s both.1 (omega (arith, h)) in
    (
      String.◌∷◌ c r,
      cut_first c (width (code c)) (suc n) _ one (omega arith)
          (ap (λ k. slice_to k s) (omega (arith, one)) ∙ cut),
      ap (λ l. code c ∷ l) same,
    )

-- The item of a build: its number, its repository, and the first 12 digits of its commit.
pub record IsItem (row : ℕ × Build) (i : Item) : Type 0 where
  pub short : String
  pub short_lem : codes short ≡ take 12 (codes row.1.commit_sha)
  pub href : i.href ≡ "/builds/" <> decimal row.0
  pub link : i.link ≡ "#" <> decimal row.0 <> " " <> row.1.repository <> " " <> short
  pub status : i.status ≡ status_text row.1.status

abbrev pub Items : List (ℕ × Build) → List Item → Type 0
Items [] [] = Unit {0}
Items (row ∷ rows) (i ∷ l) = IsItem row i × Items rows l
Items _ _ = Path ℕ 0 1

item-IsItem : (row : ℕ × Build) → IsBuild row.1 → (i : Item) × (item row ≡ some i) × IsItem row i
unfolding item
item-IsItem (id, b) good =
    let (short, cut, same) =
      slice_to-ascii 12 b.commit_sha good.commit.digits (ground (arith, good.commit.length_lem)) in
    (
      _,
      ap (Option.map _) cut,
      record { short = short; short_lem = same; href = refl; link = refl; status = refl },
    )

items-Items :
    (rows : List (ℕ × Build))
    → All (λ row. IsBuild row.1) rows
    → (l : List Item) × (items rows ≡ some l) × Items rows l
unfolding items
items-Items [] good = ([], refl, tt)
items-Items (row ∷ rows) good =
    let (i, e, is) = item-IsItem row good.0 in
    let (l, f, are) = items-Items rows good.1 in
    (i ∷ l, ap (λ o. cons o (items rows)) e ∙ ap (cons (some i)) f, (is, are))

rows_below-IsBuild :
    (t : Table)
    → ((id : ℕ) (b : Build) → t.rows id ≡ some b → IsBuild b)
    → (n : ℕ) → All (λ row. IsBuild row.1) (rows_below n t)
unfolding rows_below
rows_below-IsBuild t good zero = tt
rows_below-IsBuild t good (suc n) = go (t.rows n) refl (rows_below-IsBuild t good n)
  where
    go :
        (o : Option Build)
        → t.rows n ≡ o
        → All (λ row. IsBuild row.1) (rows_below n t)
        → All
            (λ row. IsBuild row.1)
            (elim o [ none ↦ rows_below n t | some b ↦ (n, b) ∷ rows_below n t ])
    go none e rest = rest
    go (some b) e rest = (good n b e, rest)

All-take : (P : ℕ × Build → Type 0) (n : ℕ) (l : List (ℕ × Build)) → All P l → All P (take n l)
All-take P zero l h = tt
All-take P (suc n) [] h = tt
All-take P (suc n) (x ∷ l) h = (h.0, All-take P n l h.1)

abbrev pub page_of : List Item → Page
page_of [] = no_builds
page_of (i ∷ l) = builds (i ∷ l)

rows_page-Items :
    (rows : List (ℕ × Build))
    → All (λ row. IsBuild row.1) rows
    → (l : List Item) × (rows_page rows ≡ some (page_of l)) × Items rows l
unfolding items
rows_page-Items [] good = ([], refl, tt)
rows_page-Items (row ∷ rows) good =
    let (i, e, is) = item-IsItem row good.0 in
    let (l, f, are) = items-Items rows good.1 in
    (
      i ∷ l,
      ap (λ o. Option.map builds (cons o (items rows))) e
          ∙ ap (λ o. Option.map builds (cons (some i) o)) f,
      (is, are),
    )

module _ (X : Crates) (secret : String) where
  -- In every reachable state the page of builds is answered, without a panic: it has the last 100
  -- builds at most, the newest first, each with its number, repository, status and the first 12
  -- digits of its commit.
  pub index-Items :
      {s : System}
      → Reach X secret s
      → (l : List Item) × (index true s.table ≡ some (page (page_of l)))
        × Items (recent_builds s.table) l
  unfolding index recent_builds
  index-Items {s} r =
      let inv = Reach-Inv X secret r in
      let rows = rows_below-IsBuild s.table inv.builds s.table.next in
      let (l, e, are) =
        rows_page-Items (take 100 (rows_below s.table.next s.table)) (All-take _ 100 _ rows) in
      (l, ap (Option.map page) e, are)
