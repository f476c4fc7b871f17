-- ===== src/Campaign/Samples.antt =====
-- internal/campaign/model.go: the samples of rendered messages, a sorted list for each category.
pub mod Order
use personalized_email_pipel.Prelude.{
  ℕ, List, [], ◌∷◌, ◌++◌, Option, leb, ltb, ◌==◌, if◌then◌else◌, length, take,
}
use personalized_email_pipel.Campaign.Model.{Category, named, fallback, Reason, Text}

pub record Sample : Type 0 where
  pub ordinal : ℕ
  pub category : Category
  pub reason : Option Reason
  pub text : Text

-- The map from categories; an absent category reads as the empty list.
pub record Samples : Type 0 where
  pub of_named : List Sample
  pub of_fallback : List Sample

abbrev pub no_samples : Samples
no_samples = record { of_named = []; of_fallback = [] }

-- Samples.For.
abbrev pub for_category : Category → Samples → List Sample
for_category named s = s.of_named
for_category fallback s = s.of_fallback

abbrev put_category : Category → Samples → List Sample → Samples
put_category named s items = record s { of_named = items }
put_category fallback s items = record s { of_fallback = items }

-- slices.SortFunc by ordinal.
unfoldable pub insert_sorted : Sample → List Sample → List Sample
insert_sorted x [] = x ∷ []
insert_sorted x (y ∷ ys) = if leb x.ordinal y.ordinal then x ∷ y ∷ ys else y ∷ insert_sorted x ys

unfoldable pub sort_func : List Sample → List Sample
unfolding insert_sorted
sort_func [] = []
sort_func (x ∷ xs) = insert_sorted x (sort_func xs)

abbrev truncate : List Sample → ℕ → List Sample
truncate items limit = if ltb limit (length items) then take limit items else items

-- Samples.Add, for a limit that is not negative.
unfoldable pub add_sample : Samples → Sample → ℕ → Samples
unfolding sort_func
add_sample s sample limit =
    if limit == 0
    then s
    else put_category sample.category s
        (truncate (sort_func (for_category sample.category s ++ sample ∷ [])) limit)
