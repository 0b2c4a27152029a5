-- ===== src/Filepath.antt =====
-- The functions of Go's path/filepath (and path) that the program calls, on a Unix system.
use Prim.Native.Char.{Char, code}
use mathlib.Core.List.{reverse}
use aion_core.Prelude.{
  String, ◌<>◌, Bool, true, false, not, ◌&&◌, Option, none, some, List, [], ◌∷◌, ◌++◌, map, ◌≡◌,
  refl, ◌==◌, str_eq, if◌then◌else◌,
}
use aion_core.Prelude.Int.{ℤ}
use aion_core.Prelude.Decimal.{itoa_ℤ}

push_char : Char → List String → List String
push_char c [] = String.◌∷◌ c "" ∷ []
push_char c (x ∷ xs) = String.◌∷◌ c x ∷ xs

-- strings.Split(s, "/"): always at least one part
unfoldable pub split_slash : String → List String
unfolding push_char
split_slash String.[] = "" ∷ []
split_slash (String.◌∷◌ c s) =
    let rest = split_slash s in if code c == b'/' then "" ∷ rest else push_char c rest

-- strings.Join(parts, "/")
unfoldable pub join_slash : List String → String
join_slash [] = ""
join_slash (x ∷ []) = x
join_slash (x ∷ y ∷ l) = x <> "/" <> join_slash (y ∷ l)

unfoldable pub is_abs : String → Bool
is_abs String.[] = false
is_abs (String.◌∷◌ c s) = code c == b'/'

-- `..` on the parts before it, last first. Nothing stands above the root.
unfoldable pub parent : Bool → List String → List String
parent true [] = []
parent false [] = ".." ∷ []
parent rooted (top ∷ below) = if str_eq top ".." then ".." ∷ top ∷ below else below

unfoldable pub clean_part : Bool → String → List String → List String
unfolding parent
clean_part rooted part stack =
    if str_eq part ""
    then stack
    else if str_eq part "."
    then stack
    else if str_eq part ".."
    then parent rooted stack
    else part ∷ stack

unfoldable pub clean_parts : Bool → List String → List String → List String
unfolding clean_part
clean_parts rooted [] stack = stack
clean_parts rooted (part ∷ parts) stack = clean_parts rooted parts (clean_part rooted part stack)

or_dot : String → String
or_dot s = if str_eq s "" then "." else s

-- filepath.Clean
unfoldable pub clean : String → String
unfolding clean_parts split_slash join_slash is_abs or_dot
clean path =
    let body = join_slash (reverse (clean_parts (is_abs path) (split_slash path) [])) in
    if is_abs path then "/" <> body else or_dot body

-- filepath.Join of two elements
unfoldable pub join : String → String → String
unfolding clean
join a b = if str_eq a "" then (if str_eq b "" then "" else clean b) else clean (a <> "/" <> b)

abbrev last_part : String → List String → String
last_part d [] = d
last_part d (x ∷ l) = if str_eq x "" then last_part d l else last_part x l

-- filepath.Base: the last part that is not empty
unfoldable pub base : String → String
unfolding split_slash
base path = if str_eq path "" then "." else last_part "/" (split_slash path)

abbrev but_last : List String → List String
but_last [] = []
but_last (x ∷ []) = []
but_last (x ∷ y ∷ l) = x ∷ but_last (y ∷ l)

abbrev last_of : String → List String → String
last_of x [] = x
last_of x (y ∷ l) = last_of y l

-- filepath.Dir: what stands before the last slash, the slash included, made clean
unfoldable pub dir : String → String
unfolding clean split_slash join_slash
dir path = elim (split_slash path) [
  | [] ↦ clean ""
  | x ∷ l ↦ elim l [ [] ↦ clean "" | y ∷ m ↦ clean (join_slash (but_last (x ∷ y ∷ m)) <> "/") ]
]

-- filepath.Abs, in the working directory `cwd`
unfoldable pub abs : String → String → String
unfolding clean join is_abs
abs cwd path = if is_abs path then clean path else join cwd path

-- strings.HasPrefix, which filepath.HasPrefix is on a Unix system
unfoldable pub has_prefix : String → String → Bool
has_prefix s String.[] = true
has_prefix String.[] (String.◌∷◌ d p) = false
has_prefix (String.◌∷◌ c s) (String.◌∷◌ d p) = code c == code d && has_prefix s p

-- filepath.Split: up to the last slash, and what follows it
unfoldable pub split : String → String × String
unfolding split_slash join_slash
split path = elim (split_slash path) [
  | [] ↦ ("", "")
  | x ∷ l ↦ elim l [
    | [] ↦ ("", x)
    | y ∷ m ↦ (join_slash (but_last (x ∷ y ∷ m)) <> "/", last_of y m)
  ]
]

path_parts : List String → List String
path_parts [] = []
path_parts (x ∷ l) =
    let rest = path_parts l in if str_eq x "" then rest else if str_eq x "." then rest else x ∷ rest

-- up from what is left of the base, and down to what is left of the target
climb : List String → List String → Option (List String)
climb [] targ = some targ
climb (b ∷ base) targ = if str_eq b ".." then none else some (map (λ x. "..") (b ∷ base) ++ targ)

rel_parts : List String → List String → Option (List String)
unfolding climb
rel_parts [] targ = climb [] targ
rel_parts (b ∷ base) [] = climb (b ∷ base) []
rel_parts (b ∷ base) (t ∷ targ) =
    let rest = rel_parts base targ in if str_eq b t then rest else climb (b ∷ base) (t ∷ targ)

same_kind : Bool → Bool → Bool
same_kind true y = y
same_kind false y = not y

-- filepath.Rel; `none` is an error
unfoldable pub rel : String → String → Option String
unfolding clean is_abs rel_parts path_parts same_kind
rel base_path targ_path =
    let b = clean base_path in
    let t = clean targ_path in
    if same_kind (is_abs b) (is_abs t)
    then elim (rel_parts (path_parts (split_slash b)) (path_parts (split_slash t))) [
      | none ↦ none
      | some l ↦ some (or_dot (join_slash l))
    ]
    else none

test_rel :
    (rel "/a" "/a/b/c" ≡ some "b/c")
    × (rel "/a/b" "/a/c" ≡ some "../c")
    × (rel "/a" "/a" ≡ some ".")
    × (rel "a" "/a" ≡ none)
    × (rel "/" "/x" ≡ some "x")
    × (rel "../.." "a" ≡ none)
unfolding rel
test_rel = (refl, refl, refl, refl, refl, refl)

test_split :
    (split "/a/b.txt" ≡ ("/a/", "b.txt"))
    × (split "b" ≡ ("", "b"))
    × (split "/b" ≡ ("/", "b"))
    × (has_prefix "/var/lib/aion-x" "/var/lib/aion" ≡ true)
    × (has_prefix "/a" "/ab" ≡ false)
unfolding split has_prefix
test_split = (refl, refl, refl, refl, refl)

test_clean :
    (clean "/var/lib//aion/./Data/../x/" ≡ "/var/lib/aion/x")
    × (clean "../a/../../b" ≡ "../../b")
    × (clean "/../a" ≡ "/a")
    × (clean "a/.." ≡ ".")
    × (clean "" ≡ ".")
unfolding clean
test_clean = (refl, refl, refl, refl, refl)

test_dirs :
    (dir "/a/b.txt" ≡ "/a")
    × (dir "b.txt" ≡ ".")
    × (dir "/b" ≡ "/")
    × (dir "a/b/" ≡ "a/b")
    × (base "/a/b.txt" ≡ "b.txt")
    × (base "a/b/" ≡ "b")
    × (base "//" ≡ "/")
    × (base "" ≡ ".")
unfolding dir base
test_dirs = (refl, refl, refl, refl, refl, refl, refl, refl)

test_join :
    (join "/out" "./sub" ≡ "/out/sub")
    × (join "." "a" ≡ "a")
    × (join "" "a/" ≡ "a")
    × (join "/out" "../../etc" ≡ "/etc")
unfolding join
test_join = (refl, refl, refl, refl)

-- common.GetMsDataPath
unfoldable pub get_ms_data_path : String → String → ℤ → String
unfolding join itoa_ℤ
get_ms_data_path data_path service_name process_number =
    join data_path (service_name <> "_" <> itoa_ℤ process_number)
