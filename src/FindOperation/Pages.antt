-- ===== src/FindOperation/Pages.antt =====
-- SoftHSMv2/src/lib/SoftHSM.cpp and object_store/FindOperation.cpp: a caller who asks for handles until none
-- is left.
use archive_aaf_sshsm.Common.{
  ℕ, zero, suc, ◌+◌, ◌-◌, ◌<◌, min, ◌≡◌, refl, sym, ap, ◌∙◌, inl, inr, Option, none, some, List, [],
  ◌∷◌, ◌++◌, arith, ltb, leb, ◌==◌, if◌then◌else◌, Bool-cases, length, take, drop, length-take,
  length-drop,
}
use archive_aaf_sshsm.FindOperation.{
  retrieve_from, retrieve_handles, erase_from, erase_handles, next_page,
}

-- The calls of C_FindObjects by a caller who has room for `most` handles: the handles of all calls together, or
-- `none` when `calls` of them were not enough to meet an empty answer.
unfoldable pub find_all : ℕ → ℕ → List ℕ → Option (List ℕ)
find_all zero most handles = none
find_all (suc calls) most handles =
    let (page, left) = next_page most handles in
    let others = find_all calls most left in
    if length page == 0
    then some []
    else elim others [ none ↦ none | some rest ↦ some (page ++ rest) ]

retrieve_from-take :
    (done most : ℕ) (handles : List ℕ)
    → retrieve_from done most handles ≡ take (most - done) handles
unfolding retrieve_from
retrieve_from-take done most [] = sym (take-nil (most - done))
  where
    take-nil : (n : ℕ) → take {A = ℕ} n [] ≡ []
    take-nil zero = refl
    take-nil (suc n) = refl
retrieve_from-take done most (h ∷ hs) = elim (Bool-cases (leb most done)) [
  | inl full ↦ let gone : most - done ≡ 0 = ground (arith, full) in rw (full, gone) refl
  | inr room ↦
      let left : most - done ≡ suc (most - (done + 1)) = ground (arith, room) in
      rw (room, left, retrieve_from-take (done + 1) most hs) refl
]

erase_from-drop :
    (done count : ℕ) (handles : List ℕ)
    → erase_from done count handles ≡ drop (count - done) handles
unfolding erase_from
erase_from-drop done count [] = sym (drop-nil (count - done))
  where
    drop-nil : (n : ℕ) → drop {A = ℕ} n [] ≡ []
    drop-nil zero = refl
    drop-nil (suc n) = refl
erase_from-drop done count (h ∷ hs) = elim (Bool-cases (ltb done count)) [
  | inl room ↦
      let left : count - done ≡ suc (count - (done + 1)) = ground (arith, room) in
      rw (room, left, erase_from-drop (done + 1) count hs) refl
  | inr full ↦ let gone : count - done ≡ 0 = ground (arith, full) in rw (full, gone) refl
]

retrieve_handles-take :
    (most : ℕ) (handles : List ℕ) → retrieve_handles most handles ≡ take most handles
unfolding retrieve_handles
retrieve_handles-take most handles =
    let whole : most - 0 ≡ most = omega arith in
    retrieve_from-take 0 most handles ∙ ap (λ n. take n handles) whole

erase_handles-drop :
    (count : ℕ) (handles : List ℕ) → erase_handles 0 count handles ≡ drop count handles
unfolding erase_handles
erase_handles-drop count handles =
    let whole : count - 0 ≡ count = omega arith in
    erase_from-drop 0 count handles ∙ ap (λ n. drop n handles) whole

take-drop_joined : (n : ℕ) (xs : List ℕ) → take n xs ++ drop (length (take n xs)) xs ≡ xs
take-drop_joined zero xs = refl
take-drop_joined (suc n) [] = refl
take-drop_joined (suc n) (x ∷ xs) = rw (take-drop_joined n xs)

-- One call splits the handles.
retrieve_handles-erase_handles :
    (most : ℕ) (handles : List ℕ)
    → retrieve_handles most handles
        ++ erase_handles 0 (length (retrieve_handles most handles)) handles
      ≡ handles
retrieve_handles-erase_handles most handles =
    rw
      (
        erase_handles-drop (length (retrieve_handles most handles)) handles,
        retrieve_handles-take most handles,
      )
      (take-drop_joined most handles)

-- With room for one handle and more calls than handles, the calls give all handles in their order, each once.
pub find_all-some :
    (calls most : ℕ) (handles : List ℕ)
    → 0 < most
    → length handles < calls
    → find_all calls most handles ≡ some handles
unfolding find_all
find_all-some zero most handles room enough = absurd (omega arith)
find_all-some (suc calls) most [] room enough =
    ground (arith, retrieve_handles-take most [], length-take {A = ℕ} most [])
find_all-some (suc calls) most (h ∷ hs) room enough =
    let page : List ℕ = retrieve_handles most (h ∷ hs) in
    let size : length page ≡ min most (length (h ∷ hs)) =
      ap length (retrieve_handles-take most (h ∷ hs)) ∙ length-take most (h ∷ hs) in
    let left : List ℕ = erase_handles 0 (length page) (h ∷ hs) in
    let dropped : left ≡ drop (length page) (h ∷ hs) = erase_handles-drop (length page) (h ∷ hs) in
    let shorter : length left < calls =
      omega (arith, ap length dropped, length-drop (length page) (h ∷ hs), size, enough, room) in
    let others = find_all-some calls most left room shorter in
    let joined : page ++ left ≡ h ∷ hs = retrieve_handles-erase_handles most (h ∷ hs) in
    ground (arith, size, others, joined)
