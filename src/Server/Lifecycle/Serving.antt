-- ===== src/Server/Lifecycle/Serving.antt =====
-- The serving set as a map: its entries under the operations of the lifecycle.
use cosmosigner.Prelude.{
  ℕ, ◌≡◌, refl, sym, ap, ◌∙◌, subst, ◌≢◌, ◌⊎◌, inl, inr, Bytes, bytes_eq, bytes_eq_iff, Bool, true,
  false, true≢false, List, [], ◌∷◌, In, Bool-cases, ◌==◌, ==_iff, if◌then◌else◌,
}
use cosmosigner.Server.{NodeServer}
use cosmosigner.Server.Lifecycle.{remove, is_served, store_connector}

abbrev pub Servers : Type 0
Servers = List (Bytes × ℕ)

In-if :
    (skip : Bool) (p q : Bytes × ℕ) (xs : Servers)
    → In p (if skip then xs else q ∷ xs)
    → In p xs ⊎ ((skip ≡ false) × (p ≡ q))
In-if true p q xs h = inl h
In-if false p q xs (inl e) = inr (refl, e)
In-if false p q xs (inr at) = inl at

if-In :
    (skip : Bool) (p q : Bytes × ℕ) (xs : Servers)
    → In p xs ⊎ ((skip ≡ false) × (p ≡ q))
    → In p (if skip then xs else q ∷ xs)
if-In true p q xs (inl at) = at
if-In true p q xs (inr (keep, e)) = absurd (true≢false keep)
if-In false p q xs (inl at) = inr at
if-In false p q xs (inr (keep, e)) = inl e

differs : (a b : Bytes) → bytes_eq a b ≡ false → a ≢ b
differs a b off same = absurd (true≢false (sym ((bytes_eq_iff a b).1 same) ∙ off))

differs_test : (a b : Bytes) → a ≢ b → bytes_eq a b ≡ false
differs_test a b other = elim (Bool-cases (bytes_eq a b)) [
  | inl same ↦ absurd (other ((bytes_eq_iff a b).0 same))
  | inr off ↦ off
]

pub In-remove :
    (a : Bytes) (p : Bytes × ℕ) (xs : Servers) → In p (remove a xs) → In p xs × (p.0 ≢ a)
unfolding remove
In-remove a p [] h = elim h [ ]
In-remove a p ((b, i) ∷ xs) h = elim (In-if (bytes_eq b a) p (b, i) (remove a xs) h) [
  | inl at ↦ let (here, other) = In-remove a p xs at in (inr here, other)
  | inr (off, e) ↦ (inl e, λ same. differs b a off (sym (ap (λ (q : Bytes × ℕ). q.0) e) ∙ same))
]

pub remove-In : (a : Bytes) (p : Bytes × ℕ) (xs : Servers) → In p xs → p.0 ≢ a → In p (remove a xs)
unfolding remove
remove-In a p [] h other = elim h [ ]
remove-In a p ((b, i) ∷ xs) (inl e) other =
    if-In (bytes_eq b a) p (b, i) (remove a xs)
      (inr (differs_test b a (λ same. other (ap (λ (q : Bytes × ℕ). q.0) e ∙ same)), e))
remove-In a p ((b, i) ∷ xs) (inr at) other =
    if-In (bytes_eq b a) p (b, i) (remove a xs) (inl (remove-In a p xs at other))

pub served_at : (a : Bytes) (xs : Servers) → is_served a xs ≡ true → (i : ℕ) × In (a, i) xs
unfolding is_served
served_at a [] h = absurd (true≢false (sym h))
served_at a ((b, i) ∷ xs) h = elim (Bool-cases (bytes_eq b a)) [
  | inl same ↦ (i, inl (ap (λ (c : Bytes). (c, i)) (sym ((bytes_eq_iff b a).0 same))))
  | inr off ↦ let (j, at) = served_at a xs (sym (rw off) ∙ h) in (j, inr at)
]

pub In-served : (a : Bytes) (i : ℕ) (xs : Servers) → In (a, i) xs → is_served a xs ≡ true
unfolding is_served
In-served a i [] h = elim h [ ]
In-served a i ((b, j) ∷ xs) (inl e) =
    rw ((bytes_eq_iff b a).1 (sym (ap (λ (q : Bytes × ℕ). q.0) e)))
In-served a i ((b, j) ∷ xs) (inr at) = elim (Bool-cases (bytes_eq b a)) [
  | inl same ↦ rw same
  | inr off ↦ rw off (In-served a i xs at)
]

pub unserved :
    (a : Bytes) (xs : Servers) (p : Bytes × ℕ) → is_served a xs ≡ false → In p xs → p.0 ≢ a
unserved a xs p gone at same =
    absurd (true≢false (sym (In-served a p.1 xs (subst (λ b. In (b, p.1) xs) same at)) ∙ gone))

-- No address stands twice.
abbrev pub Distinct : Servers → Type 0
Distinct [] = Unit
Distinct (p ∷ xs) = (is_served p.0 xs ≡ false) × Distinct xs

unserved_remove :
    (a b : Bytes) (xs : Servers) → is_served b xs ≡ false → is_served b (remove a xs) ≡ false
unserved_remove a b xs gone = elim (Bool-cases (is_served b (remove a xs))) [
  | inl there ↦
      let (i, at) = served_at b (remove a xs) there in
      absurd (unserved b xs (b, i) gone (In-remove a (b, i) xs at).0 refl)
  | inr off ↦ off
]

Distinct-if :
    (skip : Bool) (q : Bytes × ℕ) (xs : Servers)
    → is_served q.0 xs ≡ false
    → Distinct xs
    → Distinct (if skip then xs else q ∷ xs)
Distinct-if true q xs gone d = d
Distinct-if false q xs gone d = (gone, d)

pub Distinct-remove : (a : Bytes) (xs : Servers) → Distinct xs → Distinct (remove a xs)
unfolding remove
Distinct-remove a [] d = tt
Distinct-remove a ((b, i) ∷ xs) (gone, d) =
    Distinct-if (bytes_eq b a) (b, i) (remove a xs) (unserved_remove a b xs gone)
      (Distinct-remove a xs d)

pub Distinct-one :
    (xs : Servers) (p q : Bytes × ℕ) → Distinct xs → In p xs → In q xs → p.0 ≡ q.0 → p ≡ q
Distinct-one [] p q d at_p at_q same = elim at_p [ ]
Distinct-one (r ∷ xs) p q (gone, d) (inl e) (inl f) same = e ∙ sym f
Distinct-one (r ∷ xs) p q (gone, d) (inl e) (inr at) same =
    absurd (unserved r.0 xs q gone at (sym same ∙ ap (λ (x : Bytes × ℕ). x.0) e))
Distinct-one (r ∷ xs) p q (gone, d) (inr at) (inl f) same =
    absurd (unserved r.0 xs p gone at (same ∙ ap (λ (x : Bytes × ℕ). x.0) f))
Distinct-one (r ∷ xs) p q (gone, d) (inr at_p) (inr at_q) same =
    Distinct-one xs p q d at_p at_q same

pub stored_same : (i : ℕ) (ns : NodeServer) (h : ℕ → NodeServer) → store_connector i ns h i ≡ ns
unfolding store_connector
stored_same i ns h = rw (==_iff i i).1 refl

pub stored_other :
    (i j : ℕ) (ns : NodeServer) (h : ℕ → NodeServer) → j ≢ i → store_connector i ns h j ≡ h j
unfolding store_connector
stored_other i j ns h other = elim (Bool-cases (j == i)) [
  | inl same ↦ absurd (other ((==_iff j i).0 same))
  | inr off ↦ rw off
]
