-- ===== src/Rbacsync/Diff/Summary.antt =====
-- The summaries of a resolved group that a binding's status keeps: preview, count and hash.
use Prim.Native.Char.{Char, code}
use Prim.Native.String.append
use text.Mathlib.TextLemmas.{nil≢cons, head-eq_of_cons-eq}
use mathlib.Core.Path.{ap₂}
use mathlib.Core.List.{append-nil}
use directory_rbac_operator.Base.{
  ◌≤◌, ◌<◌, min, String, ◌+++◌, ◌≡◌, ◌≢◌, ◌↔◌, refl, sym, ap, ◌∙◌, Bool, true, false, List, [], ◌∷◌,
  ◌++◌, arith, length, drop, take-append-drop, length-take, nat_eq, leb, if◌then◌else◌,
}
use directory_rbac_operator.Rbacsync.Diff.{preview_members, member_count, members_hash, join}

-- The preview is the members' list up to 20 names, and is marked as truncated exactly when names
-- were left out.
preview_members_bounds :
    (members : List String)
    → let (preview, truncated) = preview_members members in
      ((rest : List String) × (preview ++ rest ≡ members))
      × (length preview ≡ min 20 (length members))
      × ((truncated ≡ true) ↔ (length preview < length members))
unfolding preview_members
preview_members_bounds members = (
  (
    if leb (length members) 20 then [] else drop 20 members,
    ground (arith, take-append-drop 20 members, append-nil members),
  ),
  ground (arith, length-take 20 members),
  ground (arith, length-take 20 members),
)

-- The count fits an int32, never exceeds the number of members, and is that number unless it is
-- more than 2147483647.
member_count_bounds :
    (members : List String)
    → (member_count members ≤ 2147483647) × (member_count members ≡ min 2147483647 (length members))
unfolding member_count
member_count_bounds members = ground arith

-- A name as a directory gives it: not empty, and on one line.
unfoldable pub one_line : String → Bool
one_line String.[] = true
one_line (String.◌∷◌ c s) = if nat_eq (code c) 10 then false else one_line s

pub record IsName (s : String) : Type 0 where
  pub filled : s ≢ ""
  pub one : one_line s ≡ true

-- Joined texts, character by character.
sep_cons : (s : String) → "\n" +++ s ≡ String.◌∷◌ "\n" s
sep_cons s = append.cons "\n" "" s ∙ ap (λ r. String.◌∷◌ "\n" r) (append.nil s)

-- A line does not begin where a separator stands.
no_break :
    (d : Char) (b s t : String)
    → one_line (String.◌∷◌ d b) ≡ true
    → "" +++ ("\n" +++ s) ≢ String.◌∷◌ d b +++ ("\n" +++ t)
unfolding one_line
no_break d b s t h e =
    let heads : ◌≡◌ {A = Char} "\n" d =
      head-eq_of_cons-eq
        (sym (sep_cons s) ∙ sym (append.nil ("\n" +++ s)) ∙ e ∙ append.cons d b ("\n" +++ t)) in
    let same : 10 ≡ code d = ap code heads in ground arith

split_line :
    (a b s t : String)
    → one_line a ≡ true
    → one_line b ≡ true
    → a +++ ("\n" +++ s) ≡ b +++ ("\n" +++ t)
    → (a ≡ b) × (s ≡ t)
unfolding one_line
split_line String.[] String.[] s t h k e =
    ground (arith, append.nil ("\n" +++ s), append.nil ("\n" +++ t), sep_cons s, sep_cons t)
split_line String.[] (String.◌∷◌ d b) s t h k e = absurd (no_break d b s t k e)
split_line (String.◌∷◌ c a) String.[] s t h k e = absurd (no_break c a t s h (sym e))
split_line (String.◌∷◌ c a) (String.◌∷◌ d b) s t h k e =
    ground (arith, append.cons c a ("\n" +++ s), append.cons d b ("\n" +++ t), split_line a b s t)

-- One line is no line followed by more.
not_split : (a b t : String) → one_line a ≡ true → a ≢ b +++ ("\n" +++ t)
unfolding one_line
not_split String.[] String.[] t h e = nil≢cons (e ∙ append.nil ("\n" +++ t) ∙ sep_cons t)
not_split String.[] (String.◌∷◌ d b) t h e = nil≢cons (e ∙ append.cons d b ("\n" +++ t))
not_split (String.◌∷◌ c a) String.[] t h e =
    let heads : ◌≡◌ {A = Char} c "\n" =
      head-eq_of_cons-eq (e ∙ append.nil ("\n" +++ t) ∙ sep_cons t) in
    let same : code c ≡ 10 = ap code heads in ground arith
not_split (String.◌∷◌ c a) (String.◌∷◌ d b) t h e =
    ground (arith, append.cons d b ("\n" +++ t), not_split a b t)

abbrev pub AreNames : List String → Type 0
AreNames [] = Unit
AreNames (x ∷ xs) = IsName x × AreNames xs

join-injective :
    (xs ys : List String) → AreNames xs → AreNames ys → join "\n" xs ≡ join "\n" ys → xs ≡ ys
unfolding join one_line
join-injective [] [] h k e = refl
join-injective [] (y ∷ []) h k e = absurd (k.0.filled (sym e))
join-injective [] (y ∷ z ∷ ys) h k e = absurd (not_split "" y (join "\n" (z ∷ ys)) refl e)
join-injective (x ∷ []) [] h k e = absurd (h.0.filled e)
join-injective (x ∷ w ∷ xs) [] h k e = absurd (not_split "" x (join "\n" (w ∷ xs)) refl (sym e))
join-injective (x ∷ []) (y ∷ []) h k e = ap (λ a. a ∷ []) e
join-injective (x ∷ []) (y ∷ z ∷ ys) h k e = absurd (not_split x y (join "\n" (z ∷ ys)) h.0.one e)
join-injective (x ∷ w ∷ xs) (y ∷ []) h k e =
    absurd (not_split y x (join "\n" (w ∷ xs)) k.0.one (sym e))
join-injective (x ∷ w ∷ xs) (y ∷ z ∷ ys) h k e =
    let (heads, tails) =
      split_line x y (join "\n" (w ∷ xs)) (join "\n" (z ∷ ys)) h.0.one k.0.one e in
    ap₂ ◌∷◌ heads (join-injective (w ∷ xs) (z ∷ ys) h.1 k.1 tails)

-- Between lists of non-empty one-line names whose joined texts the hash does not confuse, equal
-- hashes mean equal lists, order included.
pub members_hash_detects :
    (hash : String → String) (xs ys : List String)
    → AreNames xs
    → AreNames ys
    → (hash (join "\n" xs) ≡ hash (join "\n" ys) → join "\n" xs ≡ join "\n" ys)
    → (members_hash hash xs ≡ members_hash hash ys) ↔ (xs ≡ ys)
unfolding members_hash
members_hash_detects hash xs ys h k collision =
    (λ e. join-injective xs ys h k (collision e), ap (members_hash hash))

-- A name with a line break hashes like the two names on its lines, whatever the hash.
members_hash_line_break :
    (hash : String → String) (a b : String)
    → members_hash hash ((a +++ ("\n" +++ b)) ∷ []) ≡ members_hash hash (a ∷ b ∷ [])
unfolding members_hash
members_hash_line_break hash a b = refl
