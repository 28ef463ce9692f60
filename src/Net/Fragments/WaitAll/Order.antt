-- ===== src/Net/Fragments/WaitAll/Order.antt =====
-- The order in which the fragments are kept does not depend on the order in which they come.
use mathlib.Core.Path.{ap₂, subst}
use mathlib.Core.List.{Permᴰ}
use orekacxx.Common.{
  All, All-map, ℕ, suc, ◌+◌, ◌≤◌, ◌≡◌, refl, sym, ap, ◌∙◌, ◌≢◌, Bool, true, false, ◌||◌, List, [],
  ◌∷◌, ◌++◌, map, arith, ltb, inl, inr, Bool-cases, if◌then◌else◌,
}
use orekacxx.Common.Outcome.{done}
use orekacxx.Net.IpHeader.{payload_len, offset, is_last_fragment}
use orekacxx.Net.SizedBuffer.Laws.{get_header_lem}
use orekacxx.Net.Fragments.Pieces.{
  IsFragment, IsPieces, total, copy, copy-SameHeader, length-copy, payload_len-fragment,
}
use orekacxx.Net.Fragments.WaitAll.{between, find_place}

abbrev pub any_last : List (List ℕ) → Bool
any_last [] = false
any_last (p ∷ ps) = is_last_fragment p || any_last ps

-- No two fragments start at one offset.
abbrev pub Distinct : List (List ℕ) → Type 0
Distinct [] = Unit {0}
Distinct (p ∷ ps) = All (λ q. offset q ≢ offset p) ps × Distinct ps

abbrev pub insert_sorted : List ℕ → List (List ℕ) → List (List ℕ)
insert_sorted p [] = p ∷ []
insert_sorted p (q ∷ qs) = if ltb (offset p) (offset q) then p ∷ q ∷ qs else q ∷ insert_sorted p qs

abbrev pub sort : List (List ℕ) → List (List ℕ)
sort [] = []
sort (p ∷ ps) = insert_sorted p (sort ps)

pub All-perm {ℓ κ} :
    {A : Type ℓ} (P : A → Type κ) {xs ys : List A} → Permᴰ xs ys → All P ys → All P xs
All-perm P Permᴰ.nil h = tt
All-perm P (Permᴰ.cons e d) h = (rw e h.0, All-perm P d h.1)
All-perm P (Permᴰ.swap e f) h = (rw e h.1.0, (rw f h.0, h.1.1))
All-perm P (Permᴰ.trans d e) h = All-perm P d (All-perm P e h)

pub total-perm : {xs ys : List (List ℕ)} → Permᴰ xs ys → total xs ≡ total ys
total-perm Permᴰ.nil = refl
total-perm (Permᴰ.cons e d) = omega (arith, ap payload_len e, total-perm d)
total-perm (Permᴰ.swap e f) = omega (arith, ap payload_len e, ap payload_len f)
total-perm (Permᴰ.trans d e) = total-perm d ∙ total-perm e

pub any_last-perm : {xs ys : List (List ℕ)} → Permᴰ xs ys → any_last xs ≡ any_last ys
any_last-perm Permᴰ.nil = refl
any_last-perm (Permᴰ.cons e d) = ap₂ ◌||◌ (ap is_last_fragment e) (any_last-perm d)
any_last-perm (Permᴰ.swap e f) = ground (arith, ap is_last_fragment e, ap is_last_fragment f)
any_last-perm (Permᴰ.trans d e) = any_last-perm d ∙ any_last-perm e

pub Distinct-perm : {xs ys : List (List ℕ)} → Permᴰ xs ys → Distinct ys → Distinct xs
Distinct-perm Permᴰ.nil h = tt
Distinct-perm (Permᴰ.cons e d) h = (All-perm _ d (rw e h.0), Distinct-perm d h.1)
Distinct-perm (Permᴰ.swap {l = l} e f) h =
    let apart = λ (z : List ℕ). All (λ q. offset q ≢ offset z) l in
    (
      ((λ q. h.0.0 (ap offset (sym e) ∙ sym q ∙ ap offset f)), subst apart (sym e) h.1.0),
      (subst apart (sym f) h.0.1, h.1.1),
    )
Distinct-perm (Permᴰ.trans d e) h = Distinct-perm d (Distinct-perm e h)

All-insert_sorted {κ} :
    (P : List ℕ → Type κ) (p : List ℕ) (xs : List (List ℕ))
    → P p
    → All P xs
    → All P (insert_sorted p xs)
All-insert_sorted P p [] h g = (h, tt)
All-insert_sorted P p (x ∷ xs) h g = elim (Bool-cases (ltb (offset p) (offset x))) [
  | inl lt ↦ rw lt (h, g)
  | inr ge ↦ rw ge (g.0, All-insert_sorted P p xs h g.1)
]

pub All-sort {κ} : (P : List ℕ → Type κ) (xs : List (List ℕ)) → All P xs → All P (sort xs)
All-sort P [] h = tt
All-sort P (x ∷ xs) h = All-insert_sorted P x (sort xs) h.0 (All-sort P xs h.1)

insert_sorted_comm :
    (p q : List ℕ) (xs : List (List ℕ))
    → offset p ≢ offset q
    → insert_sorted p (insert_sorted q xs) ≡ insert_sorted q (insert_sorted p xs)
insert_sorted_comm p q [] h = ground arith
insert_sorted_comm p q (x ∷ xs) h = ground (arith, insert_sorted_comm p q xs h)

pub sort-perm : {xs ys : List (List ℕ)} → Permᴰ xs ys → Distinct ys → sort xs ≡ sort ys
sort-perm Permᴰ.nil h = refl
sort-perm (Permᴰ.cons e d) h = ap₂ insert_sorted e (sort-perm d h.1)
sort-perm (Permᴰ.swap {l = l} e f) h = rw (e, f) (insert_sorted_comm _ _ (sort l) h.0.0)
sort-perm (Permᴰ.trans d e) h = sort-perm d (Distinct-perm e h) ∙ sort-perm e h

-- The pieces of a datagram are sorted and start at distinct offsets.
IsPieces-from :
    (m start : ℕ) (ps : List (List ℕ)) → m ≤ start → IsPieces start ps → All (λ q. m ≤ offset q) ps
IsPieces-from m start [] h i = tt
IsPieces-from m start (p ∷ ps) h i =
    (omega arith, IsPieces-from m (start + payload_len p) ps (omega arith) i.3)

pub IsPieces-Distinct : (start : ℕ) (ps : List (List ℕ)) → IsPieces start ps → Distinct ps
IsPieces-Distinct start [] i = tt
IsPieces-Distinct start (p ∷ ps) i =
    let k = payload_len-fragment p i.0 in
    (
      All-map (λ q h. omega arith) ps
          (IsPieces-from (suc start) (start + payload_len p) ps (omega arith) i.3),
      IsPieces-Distinct (start + payload_len p) ps i.3,
    )

pub sort-pieces : (start : ℕ) (ps : List (List ℕ)) → IsPieces start ps → sort ps ≡ ps
sort-pieces start [] i = refl
sort-pieces start (p ∷ []) i = refl
sort-pieces start (p ∷ q ∷ ps) i =
    rw (sort-pieces (start + payload_len p) (q ∷ ps) i.3)
      (ground (arith, payload_len-fragment p i.0))

-- The search over the copies finds where the sorted order wants the new fragment.
pub find_place_new :
    (p : List ℕ) (fs : List (List ℕ))
    → All IsFragment fs
    → All (λ q. offset q ≢ offset p) fs
    → (before : List (List ℕ)) × (after : List (List ℕ)) × (find_place (offset p) (map copy fs)
        ≡ done (between before after))
      × (before ++ copy p ∷ after ≡ map copy (insert_sorted p fs))
unfolding find_place
find_place_new p [] g h = ([], [], refl, refl)
find_place_new p (f ∷ fs) g h =
    let s = copy-SameHeader f g.0 in
    let l = length-copy f g.0 in
    let e = get_header_lem (copy f) (omega arith) in
    let (before, after, found, placed) = find_place_new p fs g.1 h.1 in
    elim (Bool-cases (ltb (offset p) (offset f))) [
      | inl lt ↦ ([], map copy (f ∷ fs), ground (arith, e, s.same_offset), rw lt)
      | inr ge ↦ (
        copy f ∷ before,
        after,
        ground (arith, e, s.same_offset, found, h.0),
        rw ge (ap (◌∷◌ (copy f)) placed),
      )
    ]

pub total-append : (xs ys : List (List ℕ)) → total (xs ++ ys) ≡ total xs + total ys
total-append [] ys = omega arith
total-append (x ∷ xs) ys = omega (arith, total-append xs ys)

pub IsPieces-IsFragment : (start : ℕ) (ps : List (List ℕ)) → IsPieces start ps → All IsFragment ps
IsPieces-IsFragment start [] i = tt
IsPieces-IsFragment start (p ∷ ps) i = (i.0, IsPieces-IsFragment (start + payload_len p) ps i.3)

-- A fragment marked as last ends the datagram.
pub IsPieces-ends :
    (start size : ℕ) (ps : List (List ℕ))
    → IsPieces start ps
    → start + total ps ≡ size
    → All (λ q. is_last_fragment q ≡ true → offset q + payload_len q ≡ size) ps
IsPieces-ends start size [] i e = tt
IsPieces-ends start size (p ∷ []) i e = ((λ l. omega arith), tt)
IsPieces-ends start size (p ∷ q ∷ ps) i e =
    ((λ l. cc), IsPieces-ends (start + payload_len p) size (q ∷ ps) i.3 (omega arith))

pub any_last-pieces :
    (start : ℕ) (p : List ℕ) (ps : List (List ℕ))
    → IsPieces start (p ∷ ps)
    → any_last (p ∷ ps) ≡ true
any_last-pieces start p [] i = rw (i.2)
any_last-pieces start p (q ∷ ps) i = rw (i.2) (any_last-pieces (start + payload_len p) q ps i.3)
