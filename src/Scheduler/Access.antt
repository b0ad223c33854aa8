-- ===== src/Scheduler/Access.antt =====
-- Resource accesses and when two of them conflict: `ResourceAccess` of `src/scheduler.rs`.
use mathlib.Core.Option.{map as map_option}
use dynec.Common.{
  ℕ, ◌≡◌, refl, Bool, true, false, not, ◌&&◌, ◌||◌, Option, none, some, List, [], ◌∷◌, arith, ◌==◌,
  if◌then◌else◌, ◌∙◌, sym, ap,
}

-- `discrim` lists the discriminants accessed; without it the access is to all of them.
pub record ResourceAccess : Type 0 where
  pub mutable : Bool
  pub discrim : Option (List ℕ)

unfoldable pub any {ℓ} : {A : Type ℓ} → (A → Bool) → List A → Bool
any f [] = false
any f (x ∷ xs) = f x || any f xs

unfoldable pub member : List ℕ → ℕ → Bool
unfolding any
member ds d = any (λ e. e == d) ds

abbrev pub is_some {ℓ} : {A : Type ℓ} → Option A → Bool
is_some none = false
is_some (some _) = true

-- Which of the messages of a conflict it is, with its arguments: the first discriminant that both
-- access or the discriminants of the unique access, and whether the other access is unique too.
pub data Conflict : Type 0 where
  one_discriminant : (discrim : ℕ) (that_mut : Bool) → Conflict
  some_discriminants : (this : List ℕ) (that_mut : Bool) → Conflict
  all_discriminants : (that_mut : Bool) → Conflict
  everything : (that_mut : Bool) → Conflict

unfoldable pub find {ℓ} : {A : Type ℓ} → (A → Bool) → List A → Option A
find f [] = none
find f (x ∷ xs) = if f x then some x else find f xs

-- The `match (this, that)`; none stands for `Ok(())`.
unfoldable pub match_discrims : Option (List ℕ) → Option (List ℕ) → Bool → Option Conflict
unfolding member any find
match_discrims (some this) (some that) that_mut =
    map_option (λ discrim. one_discriminant discrim that_mut) (find (member that) this)
match_discrims (some this) none that_mut = some (some_discriminants this that_mut)
match_discrims none (some that) that_mut = some (all_discriminants that_mut)
match_discrims none none that_mut = some (everything that_mut)

unfoldable pub check_conflicts_with : ResourceAccess → ResourceAccess → Option Conflict
unfolding match_discrims
check_conflicts_with self other =
    if not self.mutable && not other.mutable
    then none
    else if self.mutable
    then match_discrims self.discrim other.discrim other.mutable
    else match_discrims other.discrim self.discrim self.mutable

-- `check_conflicts_with(other).is_err()`
unfoldable pub conflicts_with : ResourceAccess → ResourceAccess → Bool
unfolding check_conflicts_with
conflicts_with self other = is_some (check_conflicts_with self other)

pub any-false {ℓ} : {A : Type ℓ} (xs : List A) → any (λ _. false) xs ≡ false
unfolding any
any-false [] = refl
any-false (x ∷ xs) = any-false xs

pub any_or {ℓ} :
    {A : Type ℓ} (f g : A → Bool) (xs : List A) → any (λ x. f x || g x) xs ≡ (any f xs || any g xs)
unfolding any
any_or f g [] = refl
any_or f g (x ∷ xs) = ground (arith, any_or f g xs)

-- Two nested searches may be swapped.
pub any_swap {ℓ κ} :
    {A : Type ℓ} {B : Type κ} (f : A → B → Bool) (xs : List A) (ys : List B)
    → any (λ x. any (f x) ys) xs ≡ any (λ y. any (λ x. f x y) xs) ys
unfolding any
any_swap f [] ys = sym (any-false ys)
any_swap f (x ∷ xs) ys =
    ap (λ (b : Bool). any (f x) ys || b) (any_swap f xs ys)
    ∙ sym (any_or (f x) (λ y. any (λ z. f z y) xs) ys)

pub any_ext {ℓ} :
    {A : Type ℓ} (f g : A → Bool) (xs : List A) → ((x : A) → f x ≡ g x) → any f xs ≡ any g xs
unfolding any
any_ext f g [] h = refl
any_ext f g (x ∷ xs) h = ground (arith, h x, any_ext f g xs h)

==_sym : (a b : ℕ) → (a == b) ≡ (b == a)
==_sym a b = ground arith

find-any {ℓ κ} :
    {A : Type ℓ} {B : Type κ} (g : A → B) (f : A → Bool) (xs : List A)
    → is_some (map_option g (find f xs)) ≡ any f xs
unfolding find any
find-any g f [] = refl
find-any g f (x ∷ xs) = ground (arith, find-any g f xs)

shared : List ℕ → List ℕ → Bool
shared this that = any (λ d. any (λ e. e == d) that) this

shared_sym : (a b : List ℕ) → shared a b ≡ shared b a
unfolding shared
shared_sym a b = any_swap (λ d e. e == d) a b ∙ any_ext _ _ b (λ e. any_ext _ _ a (λ d. ==_sym e d))

match_discrims_sym :
    (a b : Option (List ℕ)) (m n : Bool)
    → is_some (match_discrims a b m) ≡ is_some (match_discrims b a n)
unfolding match_discrims member shared
match_discrims_sym none none m n = refl
match_discrims_sym none (some b) m n = refl
match_discrims_sym (some a) none m n = refl
match_discrims_sym (some a) (some b) m n =
    find-any _ (member b) a ∙ shared_sym a b ∙ sym (find-any _ (member a) b)

-- Whether two accesses conflict does not depend on which of them asks, though the message does.
pub conflicts_with_sym : (a b : ResourceAccess) → conflicts_with a b ≡ conflicts_with b a
unfolding conflicts_with check_conflicts_with
conflicts_with_sym a b = ground (
  arith,
  match_discrims_sym a.discrim b.discrim a.mutable b.mutable,
  match_discrims_sym a.discrim b.discrim b.mutable a.mutable,
)
