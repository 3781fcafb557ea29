-- ===== src/Config/Helpers/Members.antt =====
-- Membership by `contains` of v2/config/builder_helpers.go.
use inhive_core.Prelude.{
  String, true, List, [], ◌∷◌, ◌++◌, ◌≡◌, arith, ◌⊎◌, inr, All, All-map, eq_refl,
}
use inhive_core.Config.Helpers.{contains}

abbrev pub IsMember : List String → String → Type 0
IsMember tags tag = contains tags tag ≡ true

pub member_here : (tag : String) (tags : List String) → IsMember (tag ∷ tags) tag
unfolding contains
member_here tag tags = ground (arith, eq_refl tag)

pub member_there :
    (t tag : String) (tags : List String) → IsMember tags tag → IsMember (t ∷ tags) tag
unfolding contains
member_there t tag tags h = ground arith

pub member_left : (xs ys : List String) (tag : String) → IsMember xs tag → IsMember (xs ++ ys) tag
unfolding contains
member_left [] ys tag h = cc
member_left (x ∷ xs) ys tag h = ground (arith, member_left xs ys tag)

pub member_right : (xs ys : List String) (tag : String) → IsMember ys tag → IsMember (xs ++ ys) tag
member_right [] ys tag h = h
member_right (x ∷ xs) ys tag h = member_there x tag (xs ++ ys) (member_right xs ys tag h)

-- All of the first list are members of the second.
abbrev pub Within : List String → List String → Type 0
Within xs ys = All (IsMember ys) xs

pub Within-left : (ts xs ys : List String) → Within ts xs → Within ts (xs ++ ys)
Within-left ts xs ys h = All-map (member_left xs ys) ts h

pub Within-right : (ts xs ys : List String) → Within ts ys → Within ts (xs ++ ys)
Within-right ts xs ys h = All-map (member_right xs ys) ts h

pub member-append :
    (xs ys : List String) (tag : String)
    → IsMember (xs ++ ys) tag
    → IsMember xs tag ⊎ IsMember ys tag
unfolding contains
member-append [] ys tag h = inr h
member-append (x ∷ xs) ys tag h = ground (arith, member-append xs ys tag)

pub Within-self : (xs : List String) → Within xs xs
Within-self [] = tt
Within-self (x ∷ xs) = (member_here x xs, Within-right xs (x ∷ []) xs (Within-self xs))
