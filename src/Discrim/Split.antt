-- ===== src/Discrim/Split.antt =====
-- The references that `split_mut_array` of `src/comp/discrim.rs` returns.
use dynec.Common.{
  ℕ, suc, ◌<◌, ◌≤◌, ◌≡◌, refl, sym, ap, Bool, true, false, not, Option, some, List, [], ◌∷◌, ◌++◌,
  map, append-nil, append_assoc, subst, arith, ◌==◌, Outcome, ok, panic, Panic, All, ◌>>=◌, ◌>>◌,
  ensure, length, length-append,
}
use dynec.Common.Bags.{tally, tally_nil, tally-cons, tally-append}
use dynec.Util.{all}
use dynec.Discrim.{fetch, split_from, split_mut_array}

-- No number comes twice.
abbrev pub IsDistinct : List ℕ → Type 0
IsDistinct xs = (x : ℕ) → tally x xs ≤ 1

pub all_new : (key : ℕ) (xs : List ℕ) → tally key xs ≡ 0 → all (λ item. not (item == key)) xs ≡ true
unfolding all tally
all_new key [] h = refl
all_new key (x ∷ xs) h = ground (arith, h, all_new key xs)

all_old : (key : ℕ) (xs : List ℕ) → all (λ item. not (item == key)) xs ≡ true → tally key xs ≡ 0
unfolding all tally
all_old key [] h = refl
all_old key (x ∷ xs) h = ground (arith, h, all_old key xs)

pub IsDistinct-snoc :
    (key : ℕ) (xs : List ℕ) → IsDistinct xs → tally key xs ≡ 0 → IsDistinct (xs ++ key ∷ [])
IsDistinct-snoc key xs h new x =
    ground (arith, h x, new, tally-append x xs (key ∷ []), tally-cons x key [], tally_nil x)

map-append : {A B : Type 0} (f : A → B) (xs ys : List A) → map f (xs ++ ys) ≡ map f xs ++ map f ys
map-append f [] ys = refl
map-append f (x ∷ xs) ys = rw (map-append f xs ys)

-- The two steps of a sequence that returned.
pub bind_ok :
    {A B : Type 0} (m : Outcome A) (f : A → Outcome B) (b : B)
    → (m >>= f) ≡ ok b
    → (a : A) × (m ≡ ok a) × (f a ≡ ok b)
bind_ok (ok a) f b e = (a, refl, e)
bind_ok (panic p) f b e = absurd (cc)

passed :
    {X : Type 0} (t : Bool) (p : Panic) (m : Outcome X) (out : X)
    → (ensure t p >> m) ≡ ok out
    → (t ≡ true) × (m ≡ ok out)
passed true p m out e = (refl, e)
passed false p m out e = absurd (cc)

-- What a step that returned has checked.
step_ok :
    {U X : Type 0} (a : Bool) (m : Outcome U) (b : U → Bool) (p : Panic) (rest : U → Outcome X)
    (out : X)
    → (ensure a p >> (m >>= λ v. ensure (b v) p >> rest v)) ≡ ok out
    → (v : U) × (a ≡ true) × (m ≡ ok v) × (b v ≡ true) × (rest v ≡ ok out)
step_ok false m b p rest out e = absurd (cc)
step_ok true (panic q) b p rest out e = absurd (cc)
step_ok true (ok v) b p rest out e =
    let (h, e') = passed (b v) p (rest v) out e in (v, refl, refl, h, e')

-- The references that a transform which returns gives.
unfoldable pub values : {U : Type 0} → (ℕ → ℕ → U) → ℕ → List ℕ → List U
values value i [] = []
values value i (key ∷ keys) = value i key ∷ values value (suc i) keys

module _ {U : Type 0} (as_ptr : U → ℕ) (getter : ℕ → Outcome (Option ℕ))
    (transform : ℕ → ℕ → Outcome U) (on_missing : ℕ → Panic) where
  -- The keys and the references of a run that returned.
  pub record IsUnaliased (keys : List ℕ) (out : List U) : Type 0 where
    pub distinct : IsDistinct keys
    pub unaliased : IsDistinct (map as_ptr out)
    pub answered : length out ≡ length keys

  split_from_lem :
      (seen : List ℕ) (done : List U) (i : ℕ) (keys : List ℕ) (out : List U)
      → IsUnaliased seen done
      → split_from as_ptr getter transform on_missing seen done i keys ≡ ok out
      → IsUnaliased (seen ++ keys) out
  unfolding split_from
  split_from_lem seen done i [] out h e =
      let same : done ≡ out = (cc) in
      subst (IsUnaliased (seen ++ [])) same
        (subst (λ keys. IsUnaliased keys done) (sym (append-nil seen)) h)
  split_from_lem seen done i (key ∷ keys) out h e =
      let (value, new, made, apart, rest) =
        step_ok (all (λ item. not (item == key)) seen)
          (fetch as_ptr getter transform on_missing i key)
          (λ value. all (λ prev. not (prev == as_ptr value)) (map as_ptr done)) Panic.duplicate_key
          (λ value.
            split_from as_ptr getter transform on_missing (seen ++ key ∷ []) (done ++ value ∷ [])
              (suc i) keys)
          out e in
      let h' : IsUnaliased (seen ++ key ∷ []) (done ++ value ∷ []) = record {
        distinct = IsDistinct-snoc key seen h.distinct (all_old key seen new);
        unaliased = subst IsDistinct (sym (map-append as_ptr done (value ∷ []))) (
            IsDistinct-snoc (as_ptr value) (map as_ptr done) h.unaliased
              (all_old (as_ptr value) (map as_ptr done) apart));
        answered =
            omega
              (arith, h.answered, length-append seen (key ∷ []), length-append done (value ∷ []));
      } in
      subst (λ all_keys. IsUnaliased all_keys out) (append_assoc seen (key ∷ []) keys)
        (split_from_lem (seen ++ key ∷ []) (done ++ value ∷ []) (suc i) keys out h' rest)

  -- When `split_mut_array` returns, whatever the getter and the transform, the keys are distinct, there is
  -- a reference for each, and no two references have one address.
  pub split_mut_array-IsUnaliased :
      (keys : List ℕ) (out : List U)
      → split_mut_array as_ptr getter transform on_missing keys ≡ ok out
      → IsUnaliased keys out
  unfolding split_mut_array tally
  split_mut_array-IsUnaliased keys out e =
      split_from_lem [] [] 0 keys out
        (record { distinct = λ x. omega arith; unaliased = λ x. omega arith; answered = refl }) e

  -- When a key comes twice, `split_mut_array` panics.
  pub split_mut_array-duplicate :
      (keys : List ℕ) (key : ℕ)
      → 1 < tally key keys
      → (p : Panic) × (split_mut_array as_ptr getter transform on_missing keys ≡ panic p)
  split_mut_array-duplicate keys key twice =
      cases (split_mut_array as_ptr getter transform on_missing keys) refl
    where
      cases :
          (out : Outcome (List U))
          → split_mut_array as_ptr getter transform on_missing keys ≡ out
          → (p : Panic) × (split_mut_array as_ptr getter transform on_missing keys ≡ panic p)
      cases (panic p) e = (p, e)
      cases (ok out) e =
          absurd (omega (arith, twice, (split_mut_array-IsUnaliased keys out e).distinct key))

  module _ (value : ℕ → ℕ → U) (transform_lem : (i slot : ℕ) → transform i slot ≡ ok (value i slot))
      (apart : (i j a b : ℕ) → as_ptr (value i a) ≡ as_ptr (value j b) → a ≡ b) where
    split_from-values :
        (seen : List ℕ) (done : List U) (i : ℕ) (keys : List ℕ)
        → IsDistinct (seen ++ keys)
        → All (λ key. getter key ≡ ok (some key)) keys
        → ((key j : ℕ) → tally key seen ≡ 0 → tally (as_ptr (value j key)) (map as_ptr done) ≡ 0)
        → split_from as_ptr getter transform on_missing seen done i keys
          ≡ ok (done ++ values value i keys)
    unfolding split_from values
    split_from-values seen done i [] once present new = rw (append-nil done) refl
    split_from-values seen done i (key ∷ keys) once present new =
        let unseen : tally key seen ≡ 0 =
          ground (arith, once key, tally-append key seen (key ∷ keys), tally-cons key key keys) in
        let grown : (k j : ℕ)
            → tally k (seen ++ key ∷ []) ≡ 0
            → tally (as_ptr (value j k)) (map as_ptr (done ++ value i key ∷ [])) ≡ 0 =
          λ k j none_of. ground (
            arith,
            none_of,
            new k j,
            apart i j key k,
            tally-append k seen (key ∷ []),
            tally-cons k key [],
            ap (tally (as_ptr (value j k))) (map-append as_ptr done (value i key ∷ [])),
            tally-append (as_ptr (value j k)) (map as_ptr done) (as_ptr (value i key) ∷ []),
            tally-cons (as_ptr (value j k)) (as_ptr (value i key)) [],
            tally_nil (as_ptr (value j k)),
            tally_nil k,
          ) in
        let rest =
          split_from-values (seen ++ key ∷ []) (done ++ value i key ∷ []) (suc i) keys
            (subst IsDistinct (sym (append_assoc seen (key ∷ []) keys)) once) present.1 grown in
        rw
          (
            all_new key seen unseen,
            present.0,
            transform_lem i key,
            all_new (as_ptr (value i key)) (map as_ptr done) (new key i unseen),
            rest,
          )
          (ap ok (append_assoc done (value i key ∷ []) (values value (suc i) keys)))

    -- On distinct keys that all have an element, with a transform that returns and keeps different
    -- elements apart, `split_mut_array` returns the references to these elements, in the keys' order.
    pub split_mut_array-values :
        (keys : List ℕ)
        → IsDistinct keys
        → All (λ key. getter key ≡ ok (some key)) keys
        → split_mut_array as_ptr getter transform on_missing keys ≡ ok (values value 0 keys)
    unfolding split_mut_array tally
    split_mut_array-values keys once present =
        split_from-values [] [] 0 keys once present (λ key j new. refl)
