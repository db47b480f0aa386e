-- ===== src/Request/Description/Expression.antt =====
-- The selector expressions of AutomatonDescription in src/request.cpp. A text is the list of its bytes
-- without the null byte that ends it.
use papuga.Prelude.{
  ℕ, zero, suc, ◌-◌, Bool, true, false, ◌&&◌, ◌||◌, not, Option, none, some, List, [], ◌∷◌, ◌==◌,
  if◌then◌else◌, length, take, get_or,
}

abbrev pub Text : Type 0
Text = List ℕ

-- `strchr( chars, needle)` finds the null byte at the end, too.
unfoldable pub contains_char : Text → ℕ → Bool
contains_char [] needle = needle == 0
contains_char (c ∷ cs) needle = c == needle || contains_char cs needle

-- "/()~"
abbrev pub trailing_slashes : Text
trailing_slashes = b'/' ∷ b'(' ∷ b')' ∷ b'~' ∷ []

-- The loop of cut_trailing_slashes, from the size that it has reached.
unfoldable pub cut_size : Text → ℕ → ℕ
unfolding contains_char
cut_size expression zero = zero
cut_size expression (suc n) =
    if contains_char trailing_slashes (get_or expression n 0) then cut_size expression n else suc n

unfoldable pub cut_trailing_slashes : Text → Text
cut_trailing_slashes expression = take (cut_size expression (length expression)) expression

-- The loop of isSelectAttributeExpression and its result.
unfoldable pub select_attribute : Text → ℕ → Bool
select_attribute expr zero = false
select_attribute expr (suc n) =
    let c = get_or expr n 0 in
    if c == b'/' || c == b']' || c == b'@' then c == b'@' else select_attribute expr n

unfoldable pub is_select_attribute_expression : Text → Bool
is_select_attribute_expression expr = select_attribute expr (length expr)

-- The bytes up to the next slash or the end.
unfoldable pub until_slash : Text → Text
until_slash [] = []
until_slash (c ∷ cs) = if c == b'/' then [] else c ∷ until_slash cs

-- `if (*(ei-1) == '~') --ei`; the byte in front of an empty name is a slash.
unfoldable pub drop_tilde : Text → Text
drop_tilde name =
    if get_or name (length name - 1) 0 == b'~' then take (length name - 1) name else name

-- The name that extractRootTagName inserts, if any.
unfoldable pub root_tag_name : Text → Option Text
root_tag_name [] = none
root_tag_name (c ∷ cs) =
    if c == b'/' && not (get_or cs 0 0 == b'/') then some (drop_tilde (until_slash cs)) else none

unfoldable pub text_eq : Text → Text → Bool
text_eq [] [] = true
text_eq [] (d ∷ ds) = false
text_eq (c ∷ cs) [] = false
text_eq (c ∷ cs) (d ∷ ds) = c == d && text_eq cs ds

-- `find( t) != end()` of a set of texts
unfoldable pub contains : List Text → Text → Bool
unfolding text_eq
contains [] t = false
contains (s ∷ ss) t = text_eq s t || contains ss t

unfoldable pub insert : Text → List Text → List Text
insert t ss = if contains ss t then ss else t ∷ ss

unfoldable pub all_contained : List Text → List Text → Bool
all_contained accepted [] = true
all_contained accepted (t ∷ ts) = if contains accepted t then all_contained accepted ts else false

unfoldable pub is_empty {ℓ} : {A : Type ℓ} → List A → Bool
is_empty [] = true
is_empty (x ∷ xs) = false

-- isValidRootTagSet
unfoldable pub is_valid_root_tag_set : Bool → List Text → List Text → Bool
is_valid_root_tag_set strict accepted tags =
    if not strict
    then true
    else if is_empty tags && not (is_empty accepted)
    then false
    else all_contained accepted tags
