-- ===== src/Strategy/Slug.antt =====
-- `slugify` of src/lib/validation/provider.ts.
use copytrade_dashboard.Base.{
  ℕ, Bool, true, false, ◌&&◌, ◌||◌, not, [], ◌∷◌, leb, take, ◌==◌, if◌then◌else◌,
}
use copytrade_dashboard.Text.{Text}

abbrev pub is_empty : Text → Bool
is_empty [] = true
is_empty (c ∷ s) = false

abbrev pub is_slug_code : ℕ → Bool
is_slug_code c = leb b'a' c && leb c b'z' || leb b'0' c && leb c b'9'

-- `replace(/[^a-z0-9]+/g, "-")`: one dash for a run of other characters.
unfoldable pub dash_runs : Bool → Text → Text
dash_runs in_run [] = []
dash_runs in_run (c ∷ s) =
    let rest = dash_runs (not (is_slug_code c)) s in
    if is_slug_code c then c ∷ rest else if in_run then rest else b'-' ∷ rest

-- `replace(/^-+|-+$/g, "")`
unfoldable pub trim_start : Text → Text
trim_start [] = []
trim_start (c ∷ s) = let rest = trim_start s in if c == b'-' then rest else c ∷ s

unfoldable pub trim_end : Text → Text
trim_end [] = []
trim_end (c ∷ s) = let rest = trim_end s in if is_empty rest && c == b'-' then [] else c ∷ rest

-- `fold` is `toLowerCase` and `normalize("NFKD")`, by the tables of Unicode.
unfoldable pub slugify : (Text → Text) → Text → Text
unfolding dash_runs trim_start trim_end
slugify fold value = take 40 (trim_end (trim_start (dash_runs false (fold value))))
