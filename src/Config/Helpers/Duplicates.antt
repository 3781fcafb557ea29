-- ===== src/Config/Helpers/Duplicates.antt =====
-- `removeDuplicateStr` keeps the first of each group of equal texts.
use inhive_core.Prelude.{
  String, Bool, false, not, ◌&&◌, ◌||◌, List, [], ◌∷◌, ◌≡◌, refl, arith, eq_iff, eq_refl,
}
use inhive_core.Config.Helpers.{contains, remove_duplicates_from, remove_duplicate_str}

abbrev pub has_duplicate : List String → Bool
has_duplicate [] = false
has_duplicate (x ∷ xs) = contains xs x || has_duplicate xs

contains-remove :
    (seen items : List String) (s : String)
    → contains (remove_duplicates_from seen items) s ≡ (contains items s && not (contains seen s))
unfolding contains remove_duplicates_from
contains-remove seen [] s = refl
contains-remove seen (i ∷ items) s =
    ground (arith, contains-remove seen items s, contains-remove (i ∷ seen) items s, eq_iff i s)

remove_duplicates_from-distinct :
    (seen items : List String) → has_duplicate (remove_duplicates_from seen items) ≡ false
unfolding contains remove_duplicates_from
remove_duplicates_from-distinct seen [] = refl
remove_duplicates_from-distinct seen (i ∷ items) = ground (
  arith,
  contains-remove (i ∷ seen) items i,
  eq_refl i,
  remove_duplicates_from-distinct seen items,
  remove_duplicates_from-distinct (i ∷ seen) items,
)

-- The result has no text twice, and holds exactly the texts of the input.
pub remove_duplicate_str-set :
    (items : List String)
    → (has_duplicate (remove_duplicate_str items) ≡ false)
      × ((s : String) → contains (remove_duplicate_str items) s ≡ contains items s)
unfolding remove_duplicate_str contains
remove_duplicate_str-set items =
    (remove_duplicates_from-distinct [] items, λ s. ground (arith, contains-remove [] items s))
