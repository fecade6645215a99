-- ===== src/FindOperation.antt =====
-- SoftHSMv2/src/lib/object_store/FindOperation.cpp: the handles that a search has found and not yet returned.
-- A std::set of handles is the ascending list of them.
pub mod Pages
use archive_aaf_sshsm.Common.{
  ℕ, zero, suc, ◌+◌, List, [], ◌∷◌, ◌==◌, ltb, leb, if◌then◌else◌, length,
}

-- std::set::insert
unfoldable pub insert_handle : ℕ → List ℕ → List ℕ
insert_handle h [] = h ∷ []
insert_handle h (k ∷ ks) =
    let rest = insert_handle h ks in
    if h == k then k ∷ ks else if ltb h k then h ∷ k ∷ ks else k ∷ rest

-- The loop of retrieveHandles, with ulReturn handles written so far.
unfoldable pub retrieve_from : ℕ → ℕ → List ℕ → List ℕ
retrieve_from ul_return ul_count [] = []
retrieve_from ul_return ul_count (h ∷ hs) =
    let rest = retrieve_from (ul_return + 1) ul_count hs in
    if leb ul_count ul_return then [] else h ∷ rest

-- What is written to phObject; its length is returned.
unfoldable pub retrieve_handles : ℕ → List ℕ → List ℕ
unfolding retrieve_from
retrieve_handles ul_count handles = retrieve_from 0 ul_count handles

-- The second loop of eraseHandles, with ulReturn handles erased so far.
unfoldable pub erase_from : ℕ → ℕ → List ℕ → List ℕ
erase_from ul_return ul_count [] = []
erase_from ul_return ul_count (h ∷ hs) =
    let rest = erase_from (ul_return + 1) ul_count hs in
    if ltb ul_return ul_count then rest else h ∷ hs

-- The handles that are left; the first loop passes over those before ulIndex.
unfoldable pub erase_handles : ℕ → ℕ → List ℕ → List ℕ
unfolding erase_from
erase_handles zero ul_count handles = erase_from 0 ul_count handles
erase_handles (suc ul_index) ul_count [] = []
erase_handles (suc ul_index) ul_count (h ∷ hs) = h ∷ erase_handles ul_index ul_count hs

-- What C_FindObjects does with the find operation of a session: the handles that it returns, and those that
-- are left.
abbrev pub next_page : ℕ → List ℕ → List ℕ × List ℕ
next_page most handles =
    let page = retrieve_handles most handles in (page, erase_handles 0 (length page) handles)
